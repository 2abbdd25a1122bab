-- ===== src/Session/Keeps/Server.antt =====
-- What the server's side of the handshake in src/sessions/session.c leaves alone.
use sencd.Base.{refl, ◌∙◌, [], ◌++◌, ◌==◌}
use sencd.Base.Control.{guard, or_fail, then_with-keeps, guard-keeps}
use sencd.Platform.Os.{Os}
use sencd.Platform.Sodium.{Random, Sodium}
use sencd.Packet.{
  client_hello, server_hello, auth_request, auth_response, auth_success, current_protocol_version,
}
use sencd.Crypto.{
  crypto_generate_nonce, crypto_sign_message, crypto_verify_message, crypto_derive_server_keys,
}
use sencd.Session.{
  Session, wait_auth, established, send_message, receive_message, generate_ephemeral,
  session_authenticate_server, session_verify_client, session_server_connect,
}
use sencd.Session.Auth.{
  challenge_bytes, success_bytes, auth_nonce_size, session_nonce_size, parse_response,
}
use sencd.Session.Keeps.{
  Unseen, Keeps, send_message-Keeps, receive_message-Keeps, generate_ephemeral-Keeps,
}

module _ {W V : Type 0} ⦃os : Os W⦄ ⦃rnd : Random W⦄ ⦃na : Sodium⦄ (see : Session × W → V)
    (unseen : Unseen os rnd see) where
  authenticate_server-Keeps : Keeps see unseen session_authenticate_server
  unfolding session_authenticate_server crypto_generate_nonce
  authenticate_server-Keeps p =
      let (nonce, w) = rnd.randombytes p.1 auth_nonce_size in
      let drawn : Session × W = (record p.0 { auth_nonce = nonce }, w) in
      then_with-keeps see (generate_ephemeral drawn) _ _
        (generate_ephemeral-Keeps see unseen drawn
          ∙ unseen.same drawn (p.0, w) refl refl refl
          ∙ unseen.randombytes_kept p.0 p.1 auth_nonce_size)
        λ _ u.
          then_with-keeps see
            (or_fail (crypto_sign_message u.0.crypto (u.0.auth_nonce ++ u.0.crypto.eph_public_key))
              u)
            _ _ refl
            λ signature x.
              let payload = challenge_bytes (record {
                signature = signature;
                public_key = u.0.crypto.public_key;
                eph_public_key = u.0.crypto.eph_public_key;
                nonce = u.0.auth_nonce;
              }) in
              then_with-keeps see (send_message auth_request u.0.protocol_version payload x) _ _
                (send_message-Keeps see unseen auth_request u.0.protocol_version payload x)
                λ _ y. unseen.same (record y.0 { state = wait_auth }, y.1) y refl refl refl

  verify_client-Keeps : Keeps see unseen session_verify_client
  unfolding session_verify_client
  verify_client-Keeps p =
      then_with-keeps see (receive_message auth_response p) _ _
        (receive_message-Keeps see unseen auth_response p)
        λ packet q.
          then_with-keeps see (guard (packet.header.payload_length == 128) q) _ _
            (guard-keeps see _ q)
            λ _ q.
              let r = parse_response packet.payload in
              let s = record q.0 {
                crypto = record q.0.crypto { peer_public_key = r.public_key };
              } in
              then_with-keeps see
                (guard
                  (crypto_verify_message r.public_key (s.auth_nonce ++ r.eph_public_key)
                    r.signature)
                  (s, q.1))
                _ _ (guard-keeps see _ (s, q.1) ∙ unseen.same _ _ refl refl refl)
                λ _ u.
                  then_with-keeps see
                    (or_fail (crypto_derive_server_keys s.crypto r.eph_public_key) u) _ _ refl
                    λ derived x. unseen.same _ _ refl refl refl

  pub server_connect-Keeps : Keeps see unseen session_server_connect
  unfolding session_server_connect crypto_generate_nonce
  server_connect-Keeps p =
      then_with-keeps see (receive_message client_hello p) _ _
        (receive_message-Keeps see unseen client_hello p)
        λ packet q.
          then_with-keeps see (guard (packet.header.version == current_protocol_version) q) _ _
            (guard-keeps see _ q)
            λ _ u.
              then_with-keeps see (send_message server_hello u.0.protocol_version [] u) _ _
                (send_message-Keeps see unseen server_hello u.0.protocol_version [] u)
                λ _ x.
                  let waiting : Session × W = (record x.0 { state = wait_auth }, x.1) in
                  then_with-keeps see (session_authenticate_server waiting) _ _
                    (authenticate_server-Keeps waiting ∙ unseen.same waiting x refl refl refl)
                    λ _ y.
                      then_with-keeps see (session_verify_client y) _ _ (verify_client-Keeps y)
                        λ _ z.
                          let (nonce, w) = rnd.randombytes z.1 session_nonce_size in
                          let named : Session × W = (record z.0 { session_nonce = nonce }, w) in
                          let payload =
                            success_bytes
                              (record { session_nonce = nonce; session_id = z.0.session_id }) in
                          then_with-keeps see
                            (send_message auth_success z.0.protocol_version payload named) _ _
                            (send_message-Keeps see unseen auth_success z.0.protocol_version payload
                                named
                              ∙ unseen.same named (z.0, w) refl refl refl
                              ∙ unseen.randombytes_kept z.0 z.1 session_nonce_size)
                            λ _ b.
                              unseen.same (record b.0 { state = established }, b.1) b refl refl refl
