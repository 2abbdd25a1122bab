-- ===== src/Session/Server.antt =====
-- The server's side of the handshake in src/sessions/session.c: what a session that it lets through
-- has proved, and what a session that it refuses is left as.
mod Verify
use sencd.Base.{
  ℕ, ◌≡◌, ◌⊎◌, inl, inr, [], refl, ap, ◌∙◌, subst, true, Option, none, some, List, ◌++◌, arith,
  ◌==◌,
}
use sencd.Base.Control.{cases, guard_cases, option_cases}
use sencd.Platform.Os.{Os}
use sencd.Platform.Sodium.{Random, Sodium}
use sencd.Packet.{
  client_hello, auth_request, auth_response, server_hello, auth_success, current_protocol_version,
}
use sencd.Crypto.{
  CryptoContext, crypto_generate_nonce, crypto_sign_message, crypto_verify_message,
  crypto_derive_server_keys,
}
use sencd.Session.{
  Session, wait_auth, established, send_message, receive_message, generate_ephemeral,
  session_authenticate_server, session_verify_client, session_server_connect,
}
use sencd.Session.Auth.{AuthResponse, parse_response, auth_nonce_size, session_nonce_size}
use sencd.Session.Steps.{send_kept, receive_kept, Ephemeral, generate_ephemeral-Ephemeral}
use Verify.{Challenged, authenticate_server-Challenged, Verified, verify_client-Verified}

module _ {W : Type 0} ⦃os : Os W⦄ ⦃rnd : Random W⦄ ⦃na : Sodium⦄ where
  -- A session that the server lets through. It is established, under keys derived with the ephemeral
  -- pair that the challenge announced; the client proved, by its signature, that it holds the key
  -- that the session records as the peer's and that it answers this session's challenge, which was
  -- drawn for it. All else is as it was. A session that is refused is in its old state or waits for
  -- authentication, so it is not established unless it was before.
  abbrev pub Admitted : Session → Option (Unit {0}) × (Session × W) → Type 0
  Admitted s (none, q) = (q.0.state ≡ s.state) ⊎ (q.0.state ≡ wait_auth)
  Admitted s (some _, q) =
      (v : W) × (nonce session_nonce pk sk rx tx : List ℕ) × (response : AuthResponse)
      × ((rnd.randombytes v auth_nonce_size).0 ≡ nonce)
      × (crypto_verify_message response.public_key (nonce ++ response.eph_public_key)
            response.signature
          ≡ true)
      × (na.kx_server pk sk response.eph_public_key ≡ some (rx, tx))
      × (q.0 ≡ record s {
        auth_nonce = nonce;
        session_nonce = session_nonce;
        crypto = record s.crypto {
          eph_public_key = pk;
          eph_private_key = sk;
          peer_public_key = response.public_key;
          rx_key = rx;
          tx_key = tx;
          verified = 1;
        };
        state = established;
      })

  server_connect-Admitted :
      (p : Session × W) (t : Option (Unit {0}) × (Session × W))
      → session_server_connect p ≡ t
      → Admitted p.0 t
  unfolding session_server_connect crypto_generate_nonce
  server_connect-Admitted p t e =
      cases (Admitted p.0) (receive_message client_hello p) _ e
        (λ q nothing. inl (ap (λ s. s.state) (receive_kept _ p _ nothing)))
        λ packet q got e.
          let same = receive_kept _ p _ got in
          guard_cases (Admitted p.0) (packet.header.version == current_protocol_version) q _ e
            (inl (ap (λ s. s.state) same))
            λ _ e.
              cases (Admitted p.0) (send_message server_hello q.0.protocol_version [] q) _ e
                (λ u nothing. inl (ap (λ s. s.state) (send_kept _ _ _ q _ nothing ∙ same)))
                λ _ u sent e.
                  let same' = send_kept _ _ _ q _ sent ∙ same in
                  let waits = record u.0 { state = wait_auth } in
                  cases (Admitted p.0) (session_authenticate_server (waits, u.1)) _ e
                    (λ x nothing. inr (authenticate_server-Challenged (waits, u.1) _ nothing))
                    λ _ x asked e.
                      let (v, nonce, pk, sk, drawn, asks) =
                        authenticate_server-Challenged (waits, u.1) _ asked in
                      cases (Admitted p.0) (session_verify_client x) _ e
                        (λ y nothing.
                          inr (verify_client-Verified x _ nothing ∙ ap (λ s. s.state) asks))
                        λ _ y answered e.
                          let (response, rx, tx, valid, keys, trusts) =
                            verify_client-Verified x _ answered in
                          let sn = (rnd.randombytes y.1 session_nonce_size).0 in
                          let z : Session × W = (
                            record y.0 { session_nonce = sn },
                            (rnd.randombytes y.1 session_nonce_size).1,
                          ) in
                          cases (Admitted p.0) (send_message auth_success y.0.protocol_version _ z)
                            _ e
                            (λ k nothing. inr (
                              ap (λ s. s.state)
                                (send_kept _ _ _ z _ nothing
                                  ∙ ap {A = Session} {B = Session}
                                      (λ s. record s { session_nonce = sn }) trusts)
                              ∙ ap (λ s. s.state) asks))
                            λ _ k told e.
                              let done : Admitted p.0
                                  (some tt, (record k.0 { state = established }, k.1)) =
                                (
                                  v,
                                  nonce,
                                  sn,
                                  pk,
                                  sk,
                                  rx,
                                  tx,
                                  response,
                                  drawn,
                                  ground arith,
                                  ground arith,
                                  ground (arith, send_kept _ _ _ z _ told),
                                ) in
                              subst (Admitted p.0) e done

  -- Every run of `session_server_connect` either fails, with the session in its old state or waiting
  -- for authentication, or succeeds, and then the session is established: a signature over a nonce
  -- drawn in this run and the client's ephemeral key verifies under the key that the session records
  -- as its peer's, the session keys are derived from that ephemeral key, and nothing of the session
  -- has changed but its nonces, its keys and its state.
  pub session_server_connect-Admitted : (p : Session × W) → Admitted p.0 (session_server_connect p)
  session_server_connect-Admitted p = server_connect-Admitted p _ refl
