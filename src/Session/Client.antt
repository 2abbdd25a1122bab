-- ===== src/Session/Client.antt =====
-- The client's side of the handshake in src/sessions/session.c: whom it takes for its server.
mod Answer
use sencd.Base.{
  ℕ, ◌≡◌, ◌⊎◌, inl, inr, [], refl, ap, ◌∙◌, subst, true, false, Option, none, some, List, ◌++◌,
  arith, ◌==◌, bytes_eq→eq,
}
use sencd.Base.Control.{◌>>=◌, cases, guard_cases, option_cases}
use sencd.Platform.Os.{Os, FileLaws}
use sencd.Platform.Sodium.{Random, Sodium}
use sencd.Packet.{
  Packet, client_hello, auth_request, auth_response, server_hello, auth_success,
  current_protocol_version,
}
use sencd.Crypto.{
  CryptoContext, crypto_sign_message, crypto_verify_message, crypto_derive_client_keys,
  crypto_config_path, crypto_trust_key_save, save, path_max,
}
use sencd.Session.{
  Session, wait_auth, established, send_message, receive_message, generate_ephemeral,
  trust_server_key, answer_challenge, session_authenticate_client, session_client_connect,
  trusted_key_name,
}
use sencd.Session.Auth.{AuthChallenge, parse_challenge, parse_success}
use sencd.Session.Steps.{send_kept, receive_kept, Ephemeral, generate_ephemeral-Ephemeral}
use Answer.{Trusts, trust_server_key-Trusts, Answered, answer_challenge-Answered}

module _ {W : Type 0} ⦃os : Os W⦄ ⦃rnd : Random W⦄ ⦃na : Sodium⦄ where
  -- How a client's handshake ends. If it succeeds, the session is established under keys derived
  -- from the ephemeral key of a challenge whose signature verifies under the server's public key;
  -- that key is now trusted and recorded as the peer's, and it is the one that was trusted before,
  -- if there was one. All else but the session's number and nonce is as it was. If it fails, the
  -- session is in its old state or waits for authentication, and a trusted key is still the same.
  abbrev pub Settled : Session → Option (Unit {0}) × (Session × W) → Type 0
  Settled s (none, q) =
      ((q.0.state ≡ s.state) ⊎ (q.0.state ≡ wait_auth))
      × (s.has_trusted_peer_key ≡ true
          → (q.0.has_trusted_peer_key ≡ true) × (q.0.trusted_peer_key ≡ s.trusted_peer_key))
  Settled s (some _, q) =
      (c : AuthChallenge) × (pk sk rx tx nonce : List ℕ) × (id : ℕ) × (s.has_trusted_peer_key ≡ true
        → c.public_key ≡ s.trusted_peer_key)
      × (crypto_verify_message c.public_key (c.nonce ++ c.eph_public_key) c.signature ≡ true)
      × (na.kx_client pk sk c.eph_public_key ≡ some (rx, tx))
      × (q.0 ≡ record s {
        crypto = record s.crypto {
          eph_public_key = pk;
          eph_private_key = sk;
          peer_public_key = c.public_key;
          rx_key = rx;
          tx_key = tx;
        };
        trusted_peer_key = c.public_key;
        has_trusted_peer_key = true;
        session_id = id;
        session_nonce = nonce;
        state = established;
      })

  unsettled : (s : Session) (q : Session × W) → q.0 ≡ s → Settled s (none, q)
  unsettled s q e = (inl (ap (λ x. x.state) e), λ known. ground arith)

  -- A client that has answered and then hears nothing that it can use.
  waits :
      (c : AuthChallenge) (s : Session) (x y : Session × W)
      → x.0.state ≡ wait_auth
      → x.0.has_trusted_peer_key ≡ true
      → x.0.trusted_peer_key ≡ c.public_key
      → (s.has_trusted_peer_key ≡ true → c.public_key ≡ s.trusted_peer_key)
      → y.0 ≡ x.0
      → Settled s (none, y)
  waits c s x y state has key first same =
      (inr (ground arith), λ known. (ground arith, ground (arith, first known)))

  authenticate_client-Settled :
      (p : Session × W) (t : Option (Unit {0}) × (Session × W))
      → session_authenticate_client p ≡ t
      → Settled p.0 t
  unfolding session_authenticate_client
  authenticate_client-Settled p t e =
      cases (Settled p.0) (receive_message auth_request p) _ e
        (λ q nothing. unsettled p.0 q (receive_kept _ p _ nothing))
        λ packet q got e.
          let same = receive_kept _ p _ got in
          let c = parse_challenge packet.payload in
          guard_cases (Settled p.0) (packet.header.payload_length == 144) q _ e
            (unsettled p.0 q same)
            λ _ e.
              cases (Settled p.0) (trust_server_key c.public_key q) _ e
                (λ u refused.
                  let (_, stays) =
                    subst (Trusts c.public_key q.0) refused
                      (trust_server_key-Trusts c.public_key q) in
                  unsettled p.0 u (stays ∙ same))
                λ _ u trusted e.
                  let (pinned, known) =
                    subst (Trusts c.public_key q.0) trusted
                      (trust_server_key-Trusts c.public_key q) in
                  let pins : u.0 ≡ record p.0 {
                    trusted_peer_key = c.public_key;
                    has_trusted_peer_key = true;
                  } =
                    ground arith in
                  let first : p.0.has_trusted_peer_key ≡ true
                      → c.public_key ≡ p.0.trusted_peer_key =
                    λ h. ground arith in
                  cases (Settled p.0) (answer_challenge c u) _ e
                    (λ x failed.
                      let (state, kept, has) = answer_challenge-Answered c u _ failed in
                      (inl (ground arith), λ h. ground (arith, first h)))
                    λ _ x answered e.
                      let (pk, sk, rx, tx, valid, keys, shape) =
                        answer_challenge-Answered c u _ answered in
                      cases (Settled p.0) (receive_message auth_success x) _ e
                        (λ y nothing.
                          waits c p.0 x y (ground arith) (ground arith) (ground arith) first
                            (receive_kept _ x _ nothing))
                        λ result y told e.
                          let success = parse_success result.payload in
                          let still = receive_kept _ x _ told in
                          guard_cases (Settled p.0) (result.header.payload_length == 40) y _ e
                            (waits c p.0 x y (ground arith) (ground arith) (ground arith) first
                              still)
                            λ _ e. subst (Settled p.0) e (
                              c,
                              pk,
                              sk,
                              rx,
                              tx,
                              success.session_nonce,
                              success.session_id,
                              first,
                              valid,
                              keys,
                              ground arith,
                            )

  client_connect-Settled :
      (p : Session × W) (t : Option (Unit {0}) × (Session × W))
      → session_client_connect p ≡ t
      → Settled p.0 t
  unfolding session_client_connect
  client_connect-Settled p t e =
      cases (Settled p.0) (send_message client_hello current_protocol_version [] p) _ e
        (λ q nothing. unsettled p.0 q (send_kept _ _ _ p _ nothing))
        λ _ q sent e.
          let same = send_kept _ _ _ p _ sent in
          cases (Settled p.0) (receive_message server_hello q) _ e
            (λ u nothing. unsettled p.0 u (receive_kept _ q _ nothing ∙ same))
            λ packet u got e.
              let same' = receive_kept _ q _ got ∙ same in
              guard_cases (Settled p.0) (packet.header.version == current_protocol_version) u _ e
                (unsettled p.0 u same')
                λ _ e. subst (λ s. Settled s t) same' (authenticate_client-Settled u t e)

  -- Every run of `session_client_connect` either fails, with the session in its old state or waiting
  -- for authentication and a trusted key unchanged, or succeeds, and then the session is established
  -- under keys derived from the ephemeral key of a challenge whose signature verifies under the key
  -- that the session now trusts and records as its peer's; if a key was trusted before, it is that
  -- one. Nothing else of the session has changed but its number, its nonce and its keys.
  pub session_client_connect-Settled : (p : Session × W) → Settled p.0 (session_client_connect p)
  session_client_connect-Settled p = client_connect-Settled p _ refl

  -- The same, with the world that the call leaves.
  poisoned_world :
      (p q : Session × W) (packet : Packet)
      → receive_message auth_request p ≡ (some packet, q)
      → packet.header.payload_length ≡ 144
      → p.0.has_trusted_peer_key ≡ false
      → let c = parse_challenge packet.payload in
        crypto_verify_message c.public_key (c.nonce ++ c.eph_public_key) c.signature ≡ false
        → ((session_authenticate_client p).0 ≡ none)
          × ((session_authenticate_client p).1.0.has_trusted_peer_key ≡ true)
          × ((session_authenticate_client p).1.0.trusted_peer_key
              ≡ (parse_challenge packet.payload).public_key)
          × ((session_authenticate_client p).1.1
              ≡ ((crypto_config_path trusted_key_name path_max >>= λ path.
                    crypto_trust_key_save path (parse_challenge packet.payload).public_key)
                  q.1).1)
  unfolding session_authenticate_client answer_challenge trust_server_key
  poisoned_world p q packet got size new bad = ground (arith, receive_kept auth_request p _ got)

  -- On a disk that keeps what was written, a client that trusts no key yet, receives a challenge of
  -- 144 bytes whose signature does not verify, and can write its key file: it refuses the handshake,
  -- and yet trusts the challenge's key from then on, in the session and in the key file.
  pub session_authenticate_client_poisoned :
      (files : FileLaws os) (p q : Session × W) (packet : Packet) (path : List ℕ) (v : W)
      → receive_message auth_request p ≡ (some packet, q)
      → crypto_config_path trusted_key_name path_max q.1 ≡ (some path, v)
      → (os.write_file v path (parse_challenge packet.payload).public_key).0 ≡ true
      → packet.header.payload_length ≡ 144
      → p.0.has_trusted_peer_key ≡ false
      → let c = parse_challenge packet.payload in
        crypto_verify_message c.public_key (c.nonce ++ c.eph_public_key) c.signature ≡ false
        → ((session_authenticate_client p).0 ≡ none)
          × ((session_authenticate_client p).1.0.has_trusted_peer_key ≡ true)
          × ((session_authenticate_client p).1.0.trusted_peer_key
              ≡ (parse_challenge packet.payload).public_key)
          × (os.read_file (session_authenticate_client p).1.1 path
              ≡ some (parse_challenge packet.payload).public_key)
  unfolding session_authenticate_client answer_challenge trust_server_key crypto_trust_key_save save
  session_authenticate_client_poisoned files p q packet path v got finds writes size new bad =
      let key = (parse_challenge packet.payload).public_key in
      let (refuses, trusts, same, ends) = poisoned_world p q packet got size new bad in
      let saved : ((crypto_config_path trusted_key_name path_max >>= λ path.
      crypto_trust_key_save path key)
            q.1).1
          ≡ (os.write_file v path key).1 =
        rw (finds, writes) refl in
      (
        refuses,
        trusts,
        same,
        ap (λ x. os.read_file x path) (ends ∙ saved) ∙ files.read-write v path key writes,
      )
