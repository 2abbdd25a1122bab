-- ===== src/Session/Complete/Admit.antt =====
-- The last two messages of the handshake in src/sessions/session.c: the server lets the client through,
-- and the client hears of it.
use sencd.Base.{ℕ, ◌^◌, ◌<◌, ◌≡◌, refl, true, some, List, [], ◌∷◌, ◌++◌, arith, ◌==◌, length, ℤ}
use sencd.Platform.Os.{Os, StreamLaws, Responsive}
use sencd.Platform.Sodium.{Random, Sodium, KeyLaws, SizeLaws}
use sencd.Packet.{auth_response, auth_success, current_protocol_version}
use sencd.Crypto.{crypto_generate_nonce, crypto_verify_message, crypto_derive_server_keys}
use sencd.Session.{Session, established, session_verify_client}
use sencd.Session.Auth.{
  AuthResponse, AuthSuccess, session_nonce_size, response_bytes, parse_response, success_bytes,
  parse_success-success_bytes,
}
use sencd.Session.Link.{
  Linked, swap, Traffic, Traffic-keeps, send_message-Traffic, receive_message-Traffic,
}
use sencd.Session.Phases.{server_admits, client_settles, exchange}

-- The server's session once it has let the client through.
abbrev pub admitted : Session → List ℕ → List ℕ → List ℕ → List ℕ → Session
admitted s key rx tx nonce = record s {
  crypto = record s.crypto { peer_public_key = key; rx_key = rx; tx_key = tx; verified = 1 };
  session_nonce = nonce;
  state = established;
}

abbrev pub success_of : Session → List ℕ → AuthSuccess
success_of s nonce = record { session_nonce = nonce; session_id = s.session_id }

-- The client's session once it is told so.
abbrev pub settled : Session → AuthSuccess → Session
settled c told = record c {
  session_id = told.session_id;
  session_nonce = told.session_nonce;
  state = established;
}

module _ {W : Type 0} ⦃os : Os W⦄ ⦃rnd : Random W⦄ ⦃na : Sodium⦄ (laws : StreamLaws os)
    (live : Responsive os laws) (keys : KeyLaws rnd na) (sizes : SizeLaws rnd na) (near far : ℤ)
    (link : Linked os rnd laws near far) where
  open laws use {pending}

  pub server_admits-goes :
      (s : Session) (w : W) (r : AuthResponse) (rx tx : List ℕ)
      → s.socket ≡ far
      → s.protocol_version ≡ current_protocol_version
      → s.session_id < 2 ^ 64
      → na.kx_server s.crypto.eph_public_key s.crypto.eph_private_key r.eph_public_key
        ≡ some (rx, tx)
      → crypto_verify_message r.public_key (s.auth_nonce ++ r.eph_public_key) r.signature ≡ true
      → length (response_bytes r) ≡ 128
      → parse_response (response_bytes r) ≡ r
      → Traffic laws live near far w [] ((auth_response, response_bytes r) ∷ [])
      → (v : W) × (nonce : List ℕ) × (server_admits (s, w)
          ≡ (some tt, (admitted s r.public_key rx tx nonce, v)))
        × (length nonce ≡ 32)
        × Traffic laws live near far v ((auth_success, success_bytes (success_of s nonce)) ∷ []) []
  unfolding server_admits session_verify_client crypto_generate_nonce crypto_verify_message
      crypto_derive_server_keys
  server_admits-goes s w r rx tx at_far speaks small exchange valid whole reads (a, b) =
      let (w1, answer, (b1, a1)) =
        receive_message-Traffic laws live (swap link) auth_response (response_bytes r) s w [] []
          at_far (omega (arith, whole)) (b, a) in
      let sized : (length (response_bytes r) == 128) ≡ true = ground arith in
      let (nonce, w2) = rnd.randombytes w1 session_nonce_size in
      let size = sizes.length-randombytes w1 session_nonce_size in
      let (fits, _) = parse_success-success_bytes (success_of s nonce) size small in
      let (b2, a2) =
        Traffic-keeps laws live far near w2 w1 [] []
          (λ fd. link.randombytes_keeps w1 session_nonce_size fd) (b1, a1) in
      let done = admitted s r.public_key rx tx nonce in
      let (w3, tells, (b3, a3)) =
        send_message-Traffic laws live (swap link) auth_success s.protocol_version
          (success_bytes (success_of s nonce)) (record done { state = s.state }) w2 [] [] at_far
          speaks (omega (arith, fits)) (b2, a2) in
      (w3, nonce, rw (answer, sized, reads, valid, exchange, tells) refl, size, (a3, b3))

  pub client_settles-goes :
      (c : Session) (w : W) (told : AuthSuccess)
      → c.socket ≡ near
      → length told.session_nonce ≡ 32
      → told.session_id < 2 ^ 64
      → Traffic laws live near far w ((auth_success, success_bytes told) ∷ []) []
      → (v : W) × (client_settles (c, w) ≡ (some tt, (settled c told, v)))
        × Traffic laws live near far v [] []
  unfolding client_settles
  client_settles-goes c w told at_near size small t =
      let (whole, reads) = parse_success-success_bytes told size small in
      let (w1, hears, t1) =
        receive_message-Traffic laws live link auth_success (success_bytes told) c w [] [] at_near
          (omega (arith, whole)) t in
      let sized : (length (success_bytes told) == 40) ≡ true = ground arith in
      (w1, rw (hears, sized, reads) refl, t1)
