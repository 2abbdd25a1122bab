-- ===== src/Session/Client/Answer.antt =====
-- The client's answer to the server's challenge in src/sessions/session.c, and the key that it
-- comes to trust.
use sencd.Base.{ℕ, ◌≡◌, refl, subst, true, Option, none, some, List, ◌++◌, arith, bytes_eq→eq}
use sencd.Base.Control.{cases, guard_cases, option_cases}
use sencd.Platform.Os.{Os}
use sencd.Platform.Sodium.{Random, Sodium}
use sencd.Packet.{auth_response}
use sencd.Crypto.{
  CryptoContext, crypto_sign_message, crypto_verify_message, crypto_derive_client_keys,
}
use sencd.Session.{
  Session, wait_auth, send_message, generate_ephemeral, trust_server_key, answer_challenge,
}
use sencd.Session.Auth.{AuthChallenge}
use sencd.Session.Steps.{send_kept, Ephemeral, generate_ephemeral-Ephemeral}

module _ ⦃na : Sodium⦄ where
  derived_client :
      (ctx done : CryptoContext) (eph : List ℕ)
      → crypto_derive_client_keys ctx eph ≡ some done
      → (rx tx : List ℕ) × (na.kx_client ctx.eph_public_key ctx.eph_private_key eph ≡ some (rx, tx))
        × (done ≡ record ctx { rx_key = rx; tx_key = tx })
  unfolding crypto_derive_client_keys
  derived_client ctx done eph e =
      split (na.kx_client ctx.eph_public_key ctx.eph_private_key eph) refl
    where
      split :
          (r : Option (List ℕ × List ℕ))
          → na.kx_client ctx.eph_public_key ctx.eph_private_key eph ≡ r
          → (rx tx : List ℕ) × (na.kx_client ctx.eph_public_key ctx.eph_private_key eph
              ≡ some (rx, tx))
            × (done ≡ record ctx { rx_key = rx; tx_key = tx })
      split none h = ground arith
      split (some (rx, tx)) h = (rx, tx, h, ground arith)

module _ {W : Type 0} ⦃os : Os W⦄ where
  -- The key is the trusted one, or is trusted from now on; or it is not the trusted one.
  abbrev pub Trusts : List ℕ → Session → Option (Unit {0}) × (Session × W) → Type 0
  Trusts key s (none, q) = (s.has_trusted_peer_key ≡ true) × (q.0 ≡ s)
  Trusts key s (some _, q) =
      (q.0 ≡ record s { trusted_peer_key = key; has_trusted_peer_key = true })
      × (s.has_trusted_peer_key ≡ true → key ≡ s.trusted_peer_key)

  pub trust_server_key-Trusts :
      (key : List ℕ) (p : Session × W) → Trusts key p.0 (trust_server_key key p)
  unfolding trust_server_key
  trust_server_key-Trusts key p = ground (arith, bytes_eq→eq key p.0.trusted_peer_key)

module _ {W : Type 0} ⦃os : Os W⦄ ⦃rnd : Random W⦄ ⦃na : Sodium⦄ where
  -- An answer that was sent: the challenge's signature verifies under the key that it names, and the
  -- keys are derived with a fresh pair from the server's ephemeral key.
  abbrev pub Answered : AuthChallenge → Session → Option (Unit {0}) × (Session × W) → Type 0
  Answered c s (none, q) =
      (q.0.state ≡ s.state)
      × (q.0.trusted_peer_key ≡ s.trusted_peer_key)
      × (q.0.has_trusted_peer_key ≡ s.has_trusted_peer_key)
  Answered c s (some _, q) =
      (pk sk rx tx : List ℕ) × (crypto_verify_message c.public_key (c.nonce ++ c.eph_public_key)
          c.signature
        ≡ true)
      × (na.kx_client pk sk c.eph_public_key ≡ some (rx, tx))
      × (q.0 ≡ record s {
        crypto = record s.crypto {
          eph_public_key = pk;
          eph_private_key = sk;
          peer_public_key = c.public_key;
          rx_key = rx;
          tx_key = tx;
        };
        state = wait_auth;
      })

  pub answer_challenge-Answered :
      (c : AuthChallenge) (p : Session × W) (t : Option (Unit {0}) × (Session × W))
      → answer_challenge c p ≡ t
      → Answered c p.0 t
  unfolding answer_challenge
  answer_challenge-Answered c p t e =
      let s0 : Session = record p.0 {
        crypto = record p.0.crypto { peer_public_key = c.public_key };
      } in
      let first = generate_ephemeral-Ephemeral (s0, p.1) in
      guard_cases (Answered c p.0)
        (crypto_verify_message c.public_key (c.nonce ++ c.eph_public_key) c.signature) (s0, p.1) _ e
        (refl, refl, refl)
        λ valid e.
          cases (Answered c p.0) (generate_ephemeral (s0, p.1)) _ e
            (λ q nothing. ground (arith, subst (Ephemeral s0) nothing first))
            λ _ q made e.
              let (pk, sk, shape) = subst (Ephemeral s0) made first in
              option_cases (Answered c p.0) (crypto_derive_client_keys q.0.crypto c.eph_public_key)
                q _ e (ground arith)
                λ derived keys e.
                  let (rx, tx, agreed, filled) =
                    derived_client q.0.crypto derived c.eph_public_key keys in
                  let s1 : Session = record q.0 { crypto = derived } in
                  option_cases (Answered c p.0)
                    (crypto_sign_message derived (c.nonce ++ derived.eph_public_key)) (s1, q.1) _ e
                    (ground arith)
                    λ signature _ e.
                      cases (Answered c p.0)
                        (send_message auth_response q.0.protocol_version _ (s1, q.1)) _ e
                        (λ u nothing. ground (arith, send_kept _ _ _ (s1, q.1) _ nothing))
                        λ _ u sent e.
                          let done : Answered c p.0
                              (some tt, (record u.0 { state = wait_auth }, u.1)) =
                            (
                              pk,
                              sk,
                              rx,
                              tx,
                              valid,
                              ground arith,
                              ground (arith, send_kept _ _ _ (s1, q.1) _ sent),
                            ) in
                          subst (Answered c p.0) e done
