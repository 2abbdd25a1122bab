-- ===== src/Session/Complete/Ask.antt =====
-- The server's challenge in src/sessions/session.c, sent to a client that has greeted.
use sencd.Base.{ℕ, ◌≡◌, refl, ◌∙◌, true, some, List, [], ◌∷◌, ◌++◌, arith, length, ℤ}
use sencd.Platform.Os.{Os, StreamLaws, Responsive}
use sencd.Platform.Sodium.{Random, Sodium, KeyLaws, SizeLaws}
use sencd.Packet.{client_hello, server_hello, auth_request, current_protocol_version}
use sencd.Crypto.{
  crypto_generate_nonce, crypto_generate_ephemeral, crypto_sign_message, crypto_verify_message,
}
use sencd.Session.{Session, wait_auth, generate_ephemeral, session_authenticate_server}
use sencd.Session.Auth.{
  AuthChallenge, auth_nonce_size, challenge_bytes, parse_challenge, parse_challenge-challenge_bytes,
}
use sencd.Session.Link.{
  Linked, swap, Traffic, Traffic-keeps, send_message-Traffic, receive_message-Traffic,
}
use sencd.Session.Phases.{server_challenges}

-- The server's session once it has asked, with the nonce and the pair that it has drawn.
abbrev pub asked : Session → List ℕ → List ℕ → List ℕ → Session
asked s nonce pk sk = record s {
  auth_nonce = nonce;
  crypto = record s.crypto { eph_public_key = pk; eph_private_key = sk };
  state = wait_auth;
}

module _ ⦃na : Sodium⦄ where
  -- What the server sends, all arrays of their size.
  abbrev pub Challenge : Session → List ℕ → List ℕ → AuthChallenge → Type 0
  Challenge s nonce pk c =
      (c.public_key ≡ s.crypto.public_key)
      × (c.eph_public_key ≡ pk)
      × (c.nonce ≡ nonce)
      × (crypto_verify_message c.public_key (c.nonce ++ c.eph_public_key) c.signature ≡ true)
      × (length (challenge_bytes c) ≡ 144)
      × (parse_challenge (challenge_bytes c) ≡ c)

module _ {W : Type 0} ⦃os : Os W⦄ ⦃rnd : Random W⦄ ⦃na : Sodium⦄ (laws : StreamLaws os)
    (live : Responsive os laws) (keys : KeyLaws rnd na) (sizes : SizeLaws rnd na) (near far : ℤ)
    (link : Linked os rnd laws near far) where
  open laws use {pending}

  pub server_challenges-goes :
      (s : Session) (w : W) (home : W)
      → s.socket ≡ far
      → s.protocol_version ≡ current_protocol_version
      → (rnd.sign_keypair home).0 ≡ some (s.crypto.public_key, s.crypto.private_key)
      → Traffic laws live near far w [] ((client_hello, []) ∷ [])
      → (v u : W) × (nonce pk sk : List ℕ) × (c : AuthChallenge) × (server_challenges (s, w)
          ≡ (some tt, (asked s nonce pk sk, v)))
        × ((rnd.kx_keypair u).0 ≡ some (pk, sk))
        × (length pk ≡ 32)
        × Challenge s nonce pk c
        × Traffic laws live near far v
            ((server_hello, []) ∷ (auth_request, challenge_bytes c) ∷ [])
            []
  unfolding server_challenges session_authenticate_server crypto_generate_nonce generate_ephemeral
      crypto_generate_ephemeral crypto_sign_message crypto_verify_message
  server_challenges-goes s w home at_far speaks own (a, b) =
      let (w1, heard, (b1, a1)) =
        receive_message-Traffic laws live (swap link) client_hello [] s w [] [] at_far (omega arith)
          (b, a) in
      let (w2, hello, (b2, a2)) =
        send_message-Traffic laws live (swap link) server_hello s.protocol_version [] s w1 [] []
          at_far speaks (omega arith) (b1, a1) in
      let (nonce, w3) = rnd.randombytes w2 auth_nonce_size in
      let (pk, sk, drawn, size) = sizes.kx_keypair_some w3 in
      let (sig, signs, valid) =
        keys.verify-sign home s.crypto.public_key s.crypto.private_key (nonce ++ pk) own in
      let c : AuthChallenge = record {
        signature = sig;
        public_key = s.crypto.public_key;
        eph_public_key = pk;
        nonce = nonce;
      } in
      let w4 = (rnd.kx_keypair w3).1 in
      let s' = asked s nonce pk sk in
      let (whole, reads) = parse_challenge-challenge_bytes c (record {
        signature_size =
            sizes.length-sign_detached _ _ sig (keys.sign_keypair_sizes home _ _ own).1 signs;
        public_key_size = (keys.sign_keypair_sizes home _ _ own).0;
        eph_public_key_size = size;
        nonce_size = sizes.length-randombytes w2 auth_nonce_size;
      }) in
      let (b4, a4) =
        Traffic-keeps laws live far near w4 w2 [] ((server_hello, []) ∷ [])
          (λ fd. link.kx_keypair_keeps w3 fd ∙ link.randombytes_keeps w2 auth_nonce_size fd)
          (b2, a2) in
      let (w5, asks, (b5, a5)) =
        send_message-Traffic laws live (swap link) auth_request s.protocol_version
          (challenge_bytes c)
          (record s {
            auth_nonce = nonce;
            state = wait_auth;
            crypto = record s.crypto { eph_public_key = pk; eph_private_key = sk };
          })
          w4 [] ((server_hello, []) ∷ []) at_far speaks (omega arith) (b4, a4) in
      (
        w5,
        w3,
        nonce,
        pk,
        sk,
        c,
        rw (heard, hello, drawn, signs, asks) refl,
        drawn,
        size,
        (refl, refl, refl, valid, whole, reads),
        (a5, b5),
      )
