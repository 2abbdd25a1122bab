-- ===== src/Session/Phases.antt =====
-- The handshake functions of src/sessions/session.c cut at the points where each side waits for the
-- other, and the order in which the two sides then run.
use sencd.Base.{◌≡◌, [], arith, ◌==◌}
use sencd.Base.Control.{M, ◌>>=◌, ◌>>◌, guard, on_second}
use sencd.Platform.Os.{Os}
use sencd.Platform.Sodium.{Random, Sodium}
use sencd.Packet.{client_hello, server_hello, auth_request, auth_success, current_protocol_version}
use sencd.Crypto.{crypto_generate_nonce}
use sencd.Session.{
  Session, Handshake, session, update_session, enter, wait_auth, established, send_message,
  receive_message, trust_server_key, answer_challenge, session_authenticate_server,
  session_verify_client, session_server_connect, session_authenticate_client,
  session_client_connect,
}
use sencd.Session.Auth.{session_nonce_size, success_bytes, parse_challenge, parse_success}

module _ {W : Type 0} ⦃os : Os W⦄ ⦃rnd : Random W⦄ ⦃na : Sodium⦄ where
  -- `session_client_connect` up to its first `packet_receive`.
  unfoldable pub client_greets : Handshake W (Unit {0})
  client_greets = send_message client_hello current_protocol_version []

  -- `session_server_connect` up to the `packet_receive` of `session_verify_client`.
  unfoldable pub server_challenges : Handshake W (Unit {0})
  server_challenges = do
    packet ← receive_message client_hello
    guard (packet.header.version == current_protocol_version)
    s ← session
    send_message server_hello s.protocol_version []
    enter wait_auth
    session_authenticate_server

  -- From there up to the last `packet_receive` of the client: its answer.
  unfoldable pub client_answers : Handshake W (Unit {0})
  client_answers = do
    packet ← receive_message server_hello
    guard (packet.header.version == current_protocol_version)
    packet ← receive_message auth_request
    guard (packet.header.payload_length == 144)
    let challenge = parse_challenge packet.payload
    trust_server_key challenge.public_key
    answer_challenge challenge

  -- The rest of `session_server_connect`.
  unfoldable pub server_admits : Handshake W (Unit {0})
  server_admits = do
    session_verify_client
    nonce ← on_second (crypto_generate_nonce session_nonce_size)
    update_session (λ s. record s { session_nonce = nonce })
    s ← session
    send_message auth_success s.protocol_version
        (success_bytes (record { session_nonce = s.session_nonce; session_id = s.session_id }))
    enter established

  -- The rest of `session_client_connect`.
  unfoldable pub client_settles : Handshake W (Unit {0})
  client_settles = do
    result ← receive_message auth_success
    guard (result.header.payload_length == 40)
    let success = parse_success result.payload
    update_session
        (λ s. record s { session_id = success.session_id; session_nonce = success.session_nonce })
    enter established

  -- The phases, each side's one after the other, are that side's function.
  pub handshake_phases :
      (p : Session × W)
      → ((client_greets >> client_answers >> client_settles) p ≡ session_client_connect p)
        × ((server_challenges >> server_admits) p ≡ session_server_connect p)
  unfolding client_greets server_challenges client_answers server_admits client_settles
      session_client_connect session_authenticate_client session_server_connect
  handshake_phases p = (ground arith, ground arith)

-- A call of the client's, and of the server's, on both sides' sessions and the world they share.
abbrev pub on_client : {W A : Type 0} → Handshake W A → M (Session × Session × W) A
on_client m b = let (r, (c, w)) = m (b.0, b.2) in (r, (c, b.1, w))

abbrev pub on_server : {W A : Type 0} → Handshake W A → M (Session × Session × W) A
on_server m b = let (r, (s, w)) = m (b.1, b.2) in (r, (b.0, s, w))

module _ {W : Type 0} ⦃os : Os W⦄ ⦃rnd : Random W⦄ ⦃na : Sodium⦄ where
  -- Each side runs until it waits for the other.
  unfoldable pub exchange : M (Session × Session × W) (Unit {0})
  exchange = do
    on_client client_greets
    on_server server_challenges
    on_client client_answers
    on_server server_admits
    on_client client_settles
