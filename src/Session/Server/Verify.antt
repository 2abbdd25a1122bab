-- ===== src/Session/Server/Verify.antt =====
-- The challenge of the server in src/sessions/session.c and its check of the answer.
use sencd.Base.{ℕ, ◌≡◌, refl, ap, ◌∙◌, subst, true, Option, none, some, List, ◌++◌, arith, ◌==◌}
use sencd.Base.Control.{cases, guard_cases, option_cases}
use sencd.Platform.Os.{Os}
use sencd.Platform.Sodium.{Random, Sodium}
use sencd.Packet.{auth_request, auth_response}
use sencd.Crypto.{
  CryptoContext, crypto_generate_nonce, crypto_sign_message, crypto_verify_message,
  crypto_derive_server_keys,
}
use sencd.Session.{
  Session, wait_auth, send_message, receive_message, generate_ephemeral,
  session_authenticate_server, session_verify_client,
}
use sencd.Session.Auth.{AuthResponse, parse_response, auth_nonce_size}
use sencd.Session.Steps.{send_kept, receive_kept, Ephemeral, generate_ephemeral-Ephemeral}

module _ ⦃na : Sodium⦄ where
  derived_server :
      (ctx done : CryptoContext) (eph : List ℕ)
      → crypto_derive_server_keys ctx eph ≡ some done
      → (rx tx : List ℕ) × (na.kx_server ctx.eph_public_key ctx.eph_private_key eph ≡ some (rx, tx))
        × (done ≡ record ctx { rx_key = rx; tx_key = tx })
  unfolding crypto_derive_server_keys
  derived_server ctx done eph e =
      split (na.kx_server ctx.eph_public_key ctx.eph_private_key eph) refl
    where
      split :
          (r : Option (List ℕ × List ℕ))
          → na.kx_server ctx.eph_public_key ctx.eph_private_key eph ≡ r
          → (rx tx : List ℕ) × (na.kx_server ctx.eph_public_key ctx.eph_private_key eph
              ≡ some (rx, tx))
            × (done ≡ record ctx { rx_key = rx; tx_key = tx })
      split none h = ground arith
      split (some (rx, tx)) h = (rx, tx, h, ground arith)

module _ {W : Type 0} ⦃os : Os W⦄ ⦃rnd : Random W⦄ ⦃na : Sodium⦄ where
  -- A challenge that was sent: its nonce was drawn for it, and the rest of the session is as it was.
  abbrev pub Challenged : Session → Option (Unit {0}) × (Session × W) → Type 0
  Challenged s (none, q) = q.0.state ≡ s.state
  Challenged s (some _, q) =
      (v : W) × (nonce pk sk : List ℕ) × ((rnd.randombytes v auth_nonce_size).0 ≡ nonce)
      × (q.0 ≡ record s {
        auth_nonce = nonce;
        crypto = record s.crypto { eph_public_key = pk; eph_private_key = sk };
        state = wait_auth;
      })

  pub authenticate_server-Challenged :
      (p : Session × W) (t : Option (Unit {0}) × (Session × W))
      → session_authenticate_server p ≡ t
      → Challenged p.0 t
  unfolding session_authenticate_server crypto_generate_nonce
  authenticate_server-Challenged p t e =
      let nonce = (rnd.randombytes p.1 auth_nonce_size).0 in
      let drawn = record p.0 { auth_nonce = nonce } in
      let v = (rnd.randombytes p.1 auth_nonce_size).1 in
      let first = generate_ephemeral-Ephemeral (drawn, v) in
      cases (Challenged p.0) (generate_ephemeral (drawn, v)) _ e
        (λ q none_made. ap (λ s. s.state) (subst (Ephemeral drawn) none_made first))
        λ _ q made e.
          let (pk, sk, shape) = subst (Ephemeral drawn) made first in
          option_cases (Challenged p.0)
            (crypto_sign_message q.0.crypto (q.0.auth_nonce ++ q.0.crypto.eph_public_key)) q _ e
            (ap (λ s. s.state) shape)
            λ signature _ e.
              cases (Challenged p.0) (send_message auth_request q.0.protocol_version _ q) _ e
                (λ u none_sent. ap (λ s. s.state) (send_kept _ _ _ q _ none_sent ∙ shape))
                λ _ u sent e.
                  let done : Challenged p.0 (some tt, (record u.0 { state = wait_auth }, u.1)) = (
                    p.1,
                    nonce,
                    pk,
                    sk,
                    refl,
                    ap {A = Session} {B = Session} (λ s. record s { state = wait_auth })
                        (send_kept _ _ _ q _ sent ∙ shape),
                  ) in
                  subst (Challenged p.0) e done

  -- A client whose answer was accepted: it signed this session's challenge and its own ephemeral
  -- key, and the session keys were derived from that key.
  abbrev pub Verified : Session → Option (Unit {0}) × (Session × W) → Type 0
  Verified s (none, q) = q.0.state ≡ s.state
  Verified s (some _, q) =
      (response : AuthResponse) × (rx tx : List ℕ) × (crypto_verify_message response.public_key
          (s.auth_nonce ++ response.eph_public_key) response.signature
        ≡ true)
      × (na.kx_server s.crypto.eph_public_key s.crypto.eph_private_key response.eph_public_key
          ≡ some (rx, tx))
      × (q.0 ≡ record s {
        crypto = record s.crypto {
          peer_public_key = response.public_key;
          rx_key = rx;
          tx_key = tx;
          verified = 1;
        };
      })

  pub verify_client-Verified :
      (p : Session × W) (t : Option (Unit {0}) × (Session × W))
      → session_verify_client p ≡ t
      → Verified p.0 t
  unfolding session_verify_client
  verify_client-Verified p t e =
      cases (Verified p.0) (receive_message auth_response p) _ e
        (λ q nothing. ap (λ s. s.state) (receive_kept _ p _ nothing))
        λ packet q got e.
          let same = receive_kept _ p _ got in
          let old = ap (λ s. s.state) same in
          let response = parse_response packet.payload in
          let s = record q.0 {
            crypto = record q.0.crypto { peer_public_key = response.public_key };
          } in
          guard_cases (Verified p.0) (packet.header.payload_length == 128) q _ e old λ _ e.
            guard_cases (Verified p.0)
              (crypto_verify_message response.public_key (s.auth_nonce ++ response.eph_public_key)
                response.signature)
              (s, q.1) _ e old
              λ valid e.
                option_cases (Verified p.0)
                  (crypto_derive_server_keys s.crypto response.eph_public_key) (s, q.1) _ e old
                  λ derived made e.
                    let (rx, tx, keys, shape) = derived_server s.crypto derived _ made in
                    let done : Verified p.0
                        (some tt, (record s { crypto = record derived { verified = 1 } }, q.1)) =
                      (
                        response,
                        rx,
                        tx,
                        subst
                            (λ x.
                              crypto_verify_message response.public_key
                                (x.auth_nonce ++ response.eph_public_key) response.signature
                              ≡ true)
                            same valid,
                        subst
                            (λ x.
                              na.kx_server x.crypto.eph_public_key x.crypto.eph_private_key
                                response.eph_public_key
                              ≡ some (rx, tx))
                            same keys,
                        ap {A = CryptoContext} {B = Session}
                              (λ c. record s { crypto = record c { verified = 1 } }) shape
                            ∙ ap {A = Session} {B = Session}
                                (λ x. record x {
                                  crypto = record x.crypto {
                                    peer_public_key = response.public_key;
                                    rx_key = rx;
                                    tx_key = tx;
                                    verified = 1;
                                  };
                                })
                                same,
                      ) in
                    subst (Verified p.0) e done
