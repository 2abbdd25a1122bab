-- ===== src/Session/Complete/Answer.antt =====
-- The client's answer in src/sessions/session.c to the server's hello and challenge.
use sencd.Base.{
  ℕ, ◌≡◌, refl, ◌∙◌, inl, inr, true, some, List, [], ◌∷◌, ◌++◌, arith, ◌==◌, length, ℤ, Bool-cases,
  bytes_eq_self,
}
use sencd.Base.Control.{◌>>=◌, guard, or_fail, then_with-keeps, guard-keeps}
use sencd.Platform.Os.{Os, StreamLaws, Responsive}
use sencd.Platform.Sodium.{Random, Sodium, KeyLaws, SizeLaws}
use sencd.Packet.{server_hello, auth_request, auth_response, current_protocol_version}
use sencd.Crypto.{
  crypto_generate_ephemeral, crypto_sign_message, crypto_config_path, crypto_trust_key_save, save,
  home_dir, join_path, config_dirname, path_max, crypto_verify_message, crypto_derive_client_keys,
}
use sencd.Session.{
  Session, wait_auth, generate_ephemeral, trust_server_key, answer_challenge, trusted_key_name,
}
use sencd.Session.Auth.{
  AuthChallenge, AuthResponse, challenge_bytes, parse_challenge, response_bytes, parse_response,
  parse_response-response_bytes,
}
use sencd.Session.Link.{
  Linked, Traffic, Traffic-keeps, send_message-Traffic, receive_message-Traffic,
}
use sencd.Session.Phases.{client_answers}

-- The client's session once it has answered, with the server's key, its own pair and the keys.
abbrev pub answered : Session → List ℕ → List ℕ → List ℕ → List ℕ → List ℕ → Session
answered c key pk sk rx tx = record c {
  crypto = record c.crypto {
    peer_public_key = key;
    eph_public_key = pk;
    eph_private_key = sk;
    rx_key = rx;
    tx_key = tx;
  };
  trusted_peer_key = key;
  has_trusted_peer_key = true;
  state = wait_auth;
}

module _ ⦃na : Sodium⦄ where
  -- What the client sends, all arrays of their size, as an answer to a nonce.
  abbrev pub Response : Session → List ℕ → List ℕ → AuthResponse → Type 0
  Response c nonce pk r =
      (r.public_key ≡ c.crypto.public_key)
      × (r.eph_public_key ≡ pk)
      × (crypto_verify_message r.public_key (nonce ++ r.eph_public_key) r.signature ≡ true)
      × (length (response_bytes r) ≡ 128)
      × (parse_response (response_bytes r) ≡ r)

module _ {W : Type 0} ⦃os : Os W⦄ ⦃rnd : Random W⦄ ⦃na : Sodium⦄ (laws : StreamLaws os)
    (live : Responsive os laws) (keys : KeyLaws rnd na) (sizes : SizeLaws rnd na) (near far : ℤ)
    (link : Linked os rnd laws near far) where
  open laws use {pending}

  config_keeps :
      (key : List ℕ) (w : W) (fd : ℤ)
      → pending
          ((crypto_config_path trusted_key_name path_max >>= λ path. crypto_trust_key_save path key)
            w).1
          fd
        ≡ pending w fd
  unfolding crypto_config_path crypto_trust_key_save save
  config_keeps key w fd =
      let see = λ (x : W). pending x fd in
      then_with-keeps see (crypto_config_path trusted_key_name path_max w) _ _
        (then_with-keeps see (or_fail (home_dir w) w) _ _ refl λ home u.
          then_with-keeps see (or_fail (join_path home config_dirname path_max) u) _ _ refl λ dir u.
            then_with-keeps see (guard (os.mkdir u dir).0 (os.mkdir u dir).1) _ _
              (guard-keeps see _ _ ∙ link.mkdir_keeps u dir fd) λ _ v. refl)
        λ path u. guard-keeps see _ _ ∙ link.write_file_keeps u path key fd

  trust_server_key-goes :
      (key : List ℕ) (s : Session) (w : W)
      → (s.has_trusted_peer_key ≡ true → key ≡ s.trusted_peer_key)
      → (v : W) × (trust_server_key key (s, w)
          ≡ (some tt, (record s { trusted_peer_key = key; has_trusted_peer_key = true }, v)))
        × ((fd : ℤ) → pending v fd ≡ pending w fd)
  unfolding trust_server_key
  trust_server_key-goes key s w trusts = elim (Bool-cases s.has_trusted_peer_key) [
    | inl known ↦ (w, ground (arith, bytes_eq_self key, trusts known), λ fd. refl)
    | inr new ↦ (
      ((crypto_config_path trusted_key_name path_max >>= λ path. crypto_trust_key_save path key)
          w).1,
      rw new refl,
      config_keeps key w,
    )
  ]

  pub client_answers-goes :
      (c : Session) (w home u : W) (ask : AuthChallenge) (ssk : List ℕ)
      → c.socket ≡ near
      → c.protocol_version ≡ current_protocol_version
      → (rnd.sign_keypair home).0 ≡ some (c.crypto.public_key, c.crypto.private_key)
      → (c.has_trusted_peer_key ≡ true → ask.public_key ≡ c.trusted_peer_key)
      → (rnd.kx_keypair u).0 ≡ some (ask.eph_public_key, ssk)
      → crypto_verify_message ask.public_key (ask.nonce ++ ask.eph_public_key) ask.signature ≡ true
      → length (challenge_bytes ask) ≡ 144
      → parse_challenge (challenge_bytes ask) ≡ ask
      → Traffic laws live near far w
          ((server_hello, []) ∷ (auth_request, challenge_bytes ask) ∷ [])
          []
      → (v : W) × (pk sk rx tx : List ℕ) × (r : AuthResponse) × (client_answers (c, w)
          ≡ (some tt, (answered c ask.public_key pk sk rx tx, v)))
        × (na.kx_server ask.eph_public_key ssk pk ≡ some (tx, rx))
        × Response c ask.nonce pk r
        × Traffic laws live near far v [] ((auth_response, response_bytes r) ∷ [])
  unfolding client_answers answer_challenge generate_ephemeral crypto_generate_ephemeral
      crypto_sign_message crypto_verify_message crypto_derive_client_keys
  client_answers-goes c w home u ask ssk at_near speaks own trusts theirs valid whole reads t =
      let (w1, hello, t1) =
        receive_message-Traffic laws live link server_hello [] c w
          ((auth_request, challenge_bytes ask) ∷ []) [] at_near (omega arith) t in
      let (w2, asks, t2) =
        receive_message-Traffic laws live link auth_request (challenge_bytes ask) c w1 [] [] at_near
          (omega (arith, whole)) t1 in
      let sized : (length (challenge_bytes ask) == 144) ≡ true = ground arith in
      let (w3, trusted, kept) = trust_server_key-goes ask.public_key c w2 trusts in
      let (pk, sk, drawn, size) = sizes.kx_keypair_some w3 in
      let (tx, rx, server_side, client_side) =
        keys.kx_agree u w3 ask.eph_public_key ssk pk sk theirs drawn in
      let (sig, signs, verifies) =
        keys.verify-sign home c.crypto.public_key c.crypto.private_key (ask.nonce ++ pk) own in
      let r : AuthResponse = record {
        signature = sig;
        public_key = c.crypto.public_key;
        eph_public_key = pk;
      } in
      let w4 = (rnd.kx_keypair w3).1 in
      let s = answered c ask.public_key pk sk rx tx in
      let (fits, reads') = parse_response-response_bytes r (record {
        signature_size =
            sizes.length-sign_detached _ _ sig (keys.sign_keypair_sizes home _ _ own).1 signs;
        public_key_size = (keys.sign_keypair_sizes home _ _ own).0;
        eph_public_key_size = size;
      }) in
      let t4 =
        Traffic-keeps laws live near far w4 w2 [] [] (λ fd. link.kx_keypair_keeps w3 fd ∙ kept fd)
          t2 in
      let (w5, answers, t5) =
        send_message-Traffic laws live link auth_response s.protocol_version (response_bytes r)
          (record s { state = c.state }) w4 [] [] at_near speaks (omega (arith, fits)) t4 in
      (
        w5,
        pk,
        sk,
        rx,
        tx,
        r,
        rw (hello, asks, sized, reads, trusted, valid, drawn, client_side, signs, answers) refl,
        server_side,
        (refl, refl, verifies, fits, reads'),
        t5,
      )
