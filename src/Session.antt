-- ===== src/Session.antt =====
-- src/sessions/session.h and session.c, with the messages of src/shared/auth.h: the handshake that
-- leads to an encrypted session, on the server's side and on the client's.
pub mod State
pub mod Auth
pub mod Steps
pub mod Link
pub mod Phases
pub mod Complete
pub mod Keeps
pub mod Sockets
pub mod Client
pub mod Server
use sencd.Base.{
  ℕ, ◌≡◌, Bool, true, false, Option, none, some, List, [], ◌∷◌, ◌++◌, leb, ◌==◌, bytes_eq,
  if◌then◌else◌, length, take, drop, replicate, ℤ, pos, negsuc, no_fd,
}
use sencd.Base.Control.{M, ◌>>=◌, ◌>>◌, pure, fail, guard, get, modify, or_fail, on_second}
use sencd.Platform.Os.{Os}
use sencd.Platform.Sodium.{Random, Sodium}
use sencd.Packet.{
  Packet, PacketHeaderT, client_hello, server_hello, auth_request, auth_response, auth_success,
  code, current_protocol_version, packet_send, packet_receive, packet_construct,
}
use sencd.Crypto.{
  CryptoContext, path_max, crypto_context_init, crypto_generate_nonce, crypto_generate_ephemeral,
  crypto_sign_message, crypto_verify_message, crypto_derive_server_keys, crypto_derive_client_keys,
  crypto_config_path, crypto_trust_key_save,
}
pub use State.{
  SessionState, connecting, wait_auth, authenticated, established, disconnected, SessionRole,
  server, client, Session, trusted_key_name,
}
unfoldable pub use State.{
  cleared_session, session_init, with_trusted_key, generate_session_id, session_create,
  session_destroy,
}
use Auth.{
  AuthChallenge, AuthResponse, AuthSuccess, auth_nonce_size, session_nonce_size, challenge_bytes,
  parse_challenge, response_bytes, parse_response, success_bytes, parse_success,
}

-- A run of a handshake function: the session that it changes, and the world.
abbrev pub Handshake : Type 0 → Type 0 → Type 0
Handshake W A = M (Session × W) A

module _ {W : Type 0} where
  abbrev pub session : Handshake W Session
  session p = (some p.0, p)

  abbrev pub update_session : (Session → Session) → Handshake W (Unit {0})
  update_session f = modify (λ p. (f p.0, p.1))

  abbrev pub update_crypto : (CryptoContext → CryptoContext) → Handshake W (Unit {0})
  update_crypto f = update_session (λ s. record s { crypto = f s.crypto })

  -- The state is written in many places.
  abbrev pub enter : SessionState → Handshake W (Unit {0})
  enter state = update_session (λ s. record s { state = state })

  -- A call whose result is not looked at.
  abbrev pub regardless : M W (Unit {0}) → Handshake W (Unit {0})
  regardless m p = (some tt, (p.0, (m p.1).1))

module _ {W : Type 0} ⦃os : Os W⦄ where
  -- `packet_construct`, `packet_send` and `packet_destroy` of a payload.
  unfoldable pub send_message : PacketHeaderT → ℕ → List ℕ → Handshake W (Unit {0})
  send_message type version payload = do
    s ← session
    packet ← on_second λ w.
        let (packet, w') =
          packet_construct
            (record {
              payload = payload;
              payload_length = length payload;
              header_type = type;
              header_version = version;
            })
            w in
        (some packet, w')
    on_second (packet_send s.socket packet)

  -- `packet_init`, `packet_receive` and the test of the type.
  unfoldable pub receive_message : PacketHeaderT → Handshake W Packet
  receive_message type = do
    s ← session
    packet ← on_second (packet_receive s.socket)
    guard (packet.header.type == code type)
    pure packet

  -- The server key that is held against the trusted one, or trusted and kept on first sight.
  unfoldable pub trust_server_key : List ℕ → Handshake W (Unit {0})
  trust_server_key key = do
    s ← session
    if s.has_trusted_peer_key then guard (bytes_eq key s.trusted_peer_key) else (do
      update_session (λ s. record s { trusted_peer_key = key; has_trusted_peer_key = true })
      regardless
          (do path ← crypto_config_path trusted_key_name path_max; crypto_trust_key_save path key))

module _ {W : Type 0} ⦃os : Os W⦄ ⦃rnd : Random W⦄ ⦃na : Sodium⦄ where
  -- `crypto_generate_ephemeral(&session->crypto)`.
  unfoldable pub generate_ephemeral : Handshake W (Unit {0})
  generate_ephemeral = do
    s ← session
    crypto ← on_second (crypto_generate_ephemeral s.crypto)
    update_session (λ s. record s { crypto = crypto })

  unfoldable pub session_authenticate_server : Handshake W (Unit {0})
  session_authenticate_server = do
    nonce ← on_second (crypto_generate_nonce auth_nonce_size)
    update_session (λ s. record s { auth_nonce = nonce })
    generate_ephemeral
    s ← session
    signature ← or_fail (crypto_sign_message s.crypto (s.auth_nonce ++ s.crypto.eph_public_key))
    send_message auth_request s.protocol_version (
        challenge_bytes (record {
          signature = signature;
          public_key = s.crypto.public_key;
          eph_public_key = s.crypto.eph_public_key;
          nonce = s.auth_nonce;
        }))
    enter wait_auth

  unfoldable pub session_verify_client : Handshake W (Unit {0})
  session_verify_client = do
    packet ← receive_message auth_response
    guard (packet.header.payload_length == 128)
    let response = parse_response packet.payload
    update_crypto (λ c. record c { peer_public_key = response.public_key })
    s ← session
    guard (
        crypto_verify_message response.public_key (s.auth_nonce ++ response.eph_public_key)
          response.signature)
    derived ← or_fail (crypto_derive_server_keys s.crypto response.eph_public_key)
    update_session (λ s. record s { crypto = record derived { verified = 1 } })

  unfoldable pub session_server_connect : Handshake W (Unit {0})
  session_server_connect = do
    packet ← receive_message client_hello
    guard (packet.header.version == current_protocol_version)
    s ← session
    send_message server_hello s.protocol_version []
    enter wait_auth
    session_authenticate_server
    session_verify_client
    nonce ← on_second (crypto_generate_nonce session_nonce_size)
    update_session (λ s. record s { session_nonce = nonce })
    s ← session
    send_message auth_success s.protocol_version
        (success_bytes (record { session_nonce = s.session_nonce; session_id = s.session_id }))
    enter established

  -- The client's answer to a challenge whose key it trusts.
  unfoldable pub answer_challenge : AuthChallenge → Handshake W (Unit {0})
  answer_challenge challenge = do
    update_crypto (λ c. record c { peer_public_key = challenge.public_key })
    guard (
        crypto_verify_message challenge.public_key (challenge.nonce ++ challenge.eph_public_key)
          challenge.signature)
    generate_ephemeral
    s ← session
    derived ← or_fail (crypto_derive_client_keys s.crypto challenge.eph_public_key)
    update_session (λ s. record s { crypto = derived })
    signature ← or_fail (crypto_sign_message derived (challenge.nonce ++ derived.eph_public_key))
    send_message auth_response s.protocol_version (
        response_bytes (record {
          signature = signature;
          public_key = derived.public_key;
          eph_public_key = derived.eph_public_key;
        }))
    enter wait_auth

  unfoldable pub session_authenticate_client : Handshake W (Unit {0})
  session_authenticate_client = do
    packet ← receive_message auth_request
    guard (packet.header.payload_length == 144)
    let challenge = parse_challenge packet.payload
    trust_server_key challenge.public_key
    answer_challenge challenge
    result ← receive_message auth_success
    guard (result.header.payload_length == 40)
    let success = parse_success result.payload
    update_session
        (λ s. record s { session_id = success.session_id; session_nonce = success.session_nonce })
    enter established

  unfoldable pub session_client_connect : Handshake W (Unit {0})
  session_client_connect = do
    send_message client_hello current_protocol_version []
    packet ← receive_message server_hello
    guard (packet.header.version == current_protocol_version)
    session_authenticate_client
