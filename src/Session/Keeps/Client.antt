-- ===== src/Session/Keeps/Client.antt =====
-- What the client's side of the handshake in src/sessions/session.c leaves alone.
use sencd.Base.{refl, ◌∙◌, [], ◌++◌, ◌==◌}
use sencd.Base.Control.{guard, or_fail, then_with-keeps, guard-keeps}
use sencd.Platform.Os.{Os}
use sencd.Platform.Sodium.{Random, Sodium}
use sencd.Packet.{
  client_hello, server_hello, auth_request, auth_response, auth_success, current_protocol_version,
}
use sencd.Crypto.{crypto_sign_message, crypto_verify_message, crypto_derive_client_keys}
use sencd.Session.{
  Session, wait_auth, established, send_message, receive_message, trust_server_key,
  generate_ephemeral, answer_challenge, session_authenticate_client, session_client_connect,
}
use sencd.Session.Auth.{AuthChallenge, response_bytes, parse_success, parse_challenge}
use sencd.Session.Keeps.{
  Unseen, Keeps, send_message-Keeps, receive_message-Keeps, trust_server_key-Keeps,
  generate_ephemeral-Keeps,
}

module _ {W V : Type 0} ⦃os : Os W⦄ ⦃rnd : Random W⦄ ⦃na : Sodium⦄ (see : Session × W → V)
    (unseen : Unseen os rnd see) where
  answer_challenge-Keeps : (c : AuthChallenge) → Keeps see unseen (answer_challenge c)
  unfolding answer_challenge
  answer_challenge-Keeps c p =
      let known : Session × W =
        (record p.0 { crypto = record p.0.crypto { peer_public_key = c.public_key } }, p.1) in
      then_with-keeps see
        (guard (crypto_verify_message c.public_key (c.nonce ++ c.eph_public_key) c.signature) known)
        _ _ (guard-keeps see _ known ∙ unseen.same known p refl refl refl)
        λ _ q.
          then_with-keeps see (generate_ephemeral q) _ _ (generate_ephemeral-Keeps see unseen q)
            λ _ u.
              then_with-keeps see
                (or_fail (crypto_derive_client_keys u.0.crypto c.eph_public_key) u) _ _ refl
                λ derived x.
                  let armed : Session × W = (record x.0 { crypto = derived }, x.1) in
                  then_with-keeps see
                    (or_fail (crypto_sign_message derived (c.nonce ++ derived.eph_public_key))
                      armed)
                    _ _ (unseen.same armed x refl refl refl)
                    λ signature y.
                      let payload = response_bytes (record {
                        signature = signature;
                        public_key = derived.public_key;
                        eph_public_key = derived.eph_public_key;
                      }) in
                      then_with-keeps see
                        (send_message auth_response u.0.protocol_version payload y) _ _
                        (send_message-Keeps see unseen auth_response u.0.protocol_version payload y)
                        λ _ z. unseen.same (record z.0 { state = wait_auth }, z.1) z refl refl refl

  authenticate_client-Keeps : Keeps see unseen session_authenticate_client
  unfolding session_authenticate_client
  authenticate_client-Keeps p =
      then_with-keeps see (receive_message auth_request p) _ _
        (receive_message-Keeps see unseen auth_request p)
        λ packet q.
          then_with-keeps see (guard (packet.header.payload_length == 144) q) _ _
            (guard-keeps see _ q)
            λ _ q.
              let c = parse_challenge packet.payload in
              then_with-keeps see (trust_server_key c.public_key q) _ _
                (trust_server_key-Keeps see unseen c.public_key q)
                λ _ u.
                  then_with-keeps see (answer_challenge c u) _ _ (answer_challenge-Keeps c u) λ _ x.
                    then_with-keeps see (receive_message auth_success x) _ _
                      (receive_message-Keeps see unseen auth_success x)
                      λ result y.
                        then_with-keeps see (guard (result.header.payload_length == 40) y) _ _
                          (guard-keeps see _ y)
                          λ _ z.
                            let success = parse_success result.payload in
                            unseen.same
                              (
                                record z.0 {
                                  session_id = success.session_id;
                                  session_nonce = success.session_nonce;
                                  state = established;
                                },
                                z.1,
                              )
                              z refl refl refl

  pub client_connect-Keeps : Keeps see unseen session_client_connect
  unfolding session_client_connect
  client_connect-Keeps p =
      then_with-keeps see (send_message client_hello current_protocol_version [] p) _ _
        (send_message-Keeps see unseen client_hello current_protocol_version [] p)
        λ _ q.
          then_with-keeps see (receive_message server_hello q) _ _
            (receive_message-Keeps see unseen server_hello q)
            λ packet u.
              then_with-keeps see (guard (packet.header.version == current_protocol_version) u) _ _
                (guard-keeps see _ u) λ _ x. authenticate_client-Keeps x
