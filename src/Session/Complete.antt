-- ===== src/Session/Complete.antt =====
-- The handshake of src/sessions/session.c between a server and a client that are connected to each
-- other: phase by phase, what is under way and what both sessions are.
pub mod Ask
pub mod Answer
pub mod Admit
use sencd.Base.{
  ℕ, ◌^◌, ◌≤◌, ◌<◌, ◌≡◌, refl, sym, ap, ap₂, ◌∙◌, inl, inr, Bool, true, false, Option, none, some,
  List, [], ◌∷◌, ◌++◌, arith, ◌==◌, length, ℤ, subst, Bool-cases, if◌then◌else◌, bytes_eq,
  bytes_eq_self,
}
use sencd.Base.Control.{M, then_with, ◌>>=◌, guard, or_fail, then_with-keeps, guard-keeps}
use sencd.Platform.Os.{Os, StreamLaws, Responsive}
use sencd.Platform.Sodium.{Random, Sodium, KeyLaws, SizeLaws}
use sencd.Packet.{
  client_hello, server_hello, auth_request, auth_response, auth_success, current_protocol_version,
}
use sencd.Crypto.{
  CryptoContext, crypto_generate_nonce, crypto_generate_ephemeral, crypto_sign_message,
  crypto_config_path, crypto_trust_key_save, save, home_dir, join_path, config_dirname, path_max,
  crypto_verify_message, crypto_derive_server_keys, crypto_derive_client_keys,
}
use sencd.Session.{
  Session, Handshake, wait_auth, established, send_message, receive_message, generate_ephemeral,
  session_authenticate_server, session_verify_client, trust_server_key, answer_challenge,
  trusted_key_name,
}
use sencd.Session.Auth.{
  AuthChallenge, AuthResponse, AuthSuccess, auth_nonce_size, session_nonce_size, challenge_bytes,
  parse_challenge, parse_challenge-challenge_bytes, response_bytes, parse_response,
  parse_response-response_bytes, success_bytes, parse_success, parse_success-success_bytes,
}
use sencd.Session.Link.{
  Linked, swap, Traffic, Traffic-keeps, send_message-Traffic, receive_message-Traffic,
}
use sencd.Session.Phases.{
  client_greets, server_challenges, client_answers, server_admits, client_settles, exchange,
}
use Ask.{asked, server_challenges-goes}
use Answer.{answered, client_answers-goes}
use Admit.{admitted, settled, success_of, server_admits-goes, client_settles-goes}

-- What two sessions that began as `c` and `s` have in common after a handshake.
pub record Agreed (c s c' s' : Session) : Type 0 where
  pub client_established : c'.state ≡ established
  pub server_established : s'.state ≡ established
  pub same_number : c'.session_id ≡ s'.session_id
  pub same_nonce : c'.session_nonce ≡ s'.session_nonce
  pub client_hears_server : c'.crypto.rx_key ≡ s'.crypto.tx_key
  pub server_hears_client : s'.crypto.rx_key ≡ c'.crypto.tx_key
  pub client_knows_server : c'.crypto.peer_public_key ≡ s.crypto.public_key
  pub server_knows_client : s'.crypto.peer_public_key ≡ c.crypto.public_key
  pub client_verified : s'.crypto.verified ≡ 1
  pub server_trusted : c'.trusted_peer_key ≡ s.crypto.public_key
  pub trusts_a_key : c'.has_trusted_peer_key ≡ true

admitted-Agreed :
    (c s : Session) (told : AuthSuccess) (s_key c_key nonce spk ssk cpk csk rx tx : List ℕ)
    → s_key ≡ s.crypto.public_key
    → c_key ≡ c.crypto.public_key
    → told ≡ success_of s told.session_nonce
    → Agreed c s
        (settled (answered c s_key cpk csk rx tx) told)
        (admitted (asked s nonce spk ssk) c_key tx rx told.session_nonce)
admitted-Agreed c s told s_key c_key nonce spk ssk cpk csk rx tx hs hc ht = record {
  client_established = refl;
  server_established = refl;
  same_number = ap (λ t. t.session_id) ht;
  same_nonce = refl;
  client_hears_server = refl;
  server_hears_client = refl;
  client_knows_server = hs;
  server_knows_client = hc;
  client_verified = refl;
  server_trusted = hs;
  trusts_a_key = refl;
}

module _ {W : Type 0} ⦃os : Os W⦄ ⦃rnd : Random W⦄ ⦃na : Sodium⦄ (laws : StreamLaws os)
    (live : Responsive os laws) (keys : KeyLaws rnd na) (sizes : SizeLaws rnd na) (near far : ℤ)
    (link : Linked os rnd laws near far) where
  open laws use {pending}

  -- Two sessions of the current version on the two ends of a link with nothing under way, with own
  -- keys that `crypto_sign_keypair` made, and a client that trusts this server's key or none yet.
  -- When both sides run, each until it waits for the other, both handshakes succeed and leave
  -- nothing under way; both sessions are established, with the same number and the same session
  -- nonce; each receives under the key that the other transmits under and records the other's public
  -- key; the server has verified the client and the client now trusts the server's key.
  pub handshake_completes :
      (c s : Session) (w v u : W)
      → Traffic laws live near far w [] []
      → c.socket ≡ near
      → s.socket ≡ far
      → c.protocol_version ≡ current_protocol_version
      → s.protocol_version ≡ current_protocol_version
      → s.session_id < 2 ^ 64
      → (rnd.sign_keypair v).0 ≡ some (c.crypto.public_key, c.crypto.private_key)
      → (rnd.sign_keypair u).0 ≡ some (s.crypto.public_key, s.crypto.private_key)
      → (c.has_trusted_peer_key ≡ true → s.crypto.public_key ≡ c.trusted_peer_key)
      → (c' s' : Session) × (w' : W) × (exchange (c, s, w) ≡ (some tt, (c', s', w')))
        × Agreed c s c' s'
        × (pending w' near ≡ [])
        × (pending w' far ≡ [])
  unfolding exchange client_greets
  handshake_completes c s w v u quiet at_near at_far c_speaks s_speaks small c_own s_own trusts =
      let (w1, greets, t1) =
        send_message-Traffic laws live link client_hello current_protocol_version [] c w [] []
          at_near refl (omega arith) quiet in
      let (
        w2,
        x,
        nonce,
        spk,
        ssk,
        ask,
        asks,
        drawn,
        _,
        (pins, pairs, same, valid, whole, reads),
        t2,
      ) =
        server_challenges-goes laws live keys sizes near far link s w1 u at_far s_speaks s_own t1 in
      let (w3, cpk, csk, rx, tx, r, answers, agreed, (own, pair, verifies, whole', reads'), t3) =
        client_answers-goes laws live keys sizes near far link c w2 v x ask ssk at_near c_speaks
          c_own (λ known. pins ∙ trusts known) (drawn ∙ ap (λ k. some (k, ssk)) (sym pairs)) valid
          whole reads t2 in
      let (w4, sn, admits, size, t4) =
        server_admits-goes laws live keys sizes near far link (asked s nonce spk ssk) w3 r tx rx
          at_far s_speaks small (ap₂ (λ a b. na.kx_server a ssk b) (sym pairs) pair ∙ agreed)
          (subst
            (λ n. crypto_verify_message r.public_key (n ++ r.eph_public_key) r.signature ≡ true)
            same verifies)
          whole' reads' t3 in
      let (w5, settles, t5) =
        client_settles-goes laws live keys sizes near far link
          (answered c ask.public_key cpk csk rx tx) w4 (success_of s sn) at_near size small t4 in
      (
        settled (answered c ask.public_key cpk csk rx tx) (success_of s sn),
        admitted (asked s nonce spk ssk) r.public_key tx rx sn,
        w5,
        rw (greets, asks, answers, admits, settles) refl,
        admitted-Agreed c s (success_of s sn) ask.public_key r.public_key nonce spk ssk cpk csk rx
            tx pins own refl,
        t5.0,
        t5.1,
      )
