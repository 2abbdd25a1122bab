-- ===== src/Session/Keeps.antt =====
-- What the handshakes of src/sessions/session.c leave alone: the session's sockets, and anything
-- that can be seen of the world and that the calls under them keep.
pub mod Server
pub mod Client
use sencd.Base.{
  ℕ, ◌≡◌, refl, ◌∙◌, inl, inr, true, List, [], ◌++◌, arith, ◌==◌, ℤ, Bool-cases, bytes_eq, length,
  subst,
}
use sencd.Base.Control.{◌>>=◌, guard, or_fail, on_second, then_with-keeps, guard-keeps}
use sencd.Platform.Os.{Os}
use sencd.Platform.Sodium.{Random, Sodium}
use sencd.Packet.{
  PacketHeaderT, PacketConstructor, client_hello, server_hello, auth_request, auth_response,
  auth_success, code, current_protocol_version, packet_receive, packet_construct,
}
use sencd.Packet.Keeps.{packet_send-keeps, packet_receive-keeps, packet_construct-keeps}
use sencd.Crypto.{
  config_dirname, path_max, crypto_config_path, crypto_trust_key_save, save, home_dir, join_path,
  crypto_generate_nonce, crypto_generate_ephemeral, crypto_sign_message, crypto_verify_message,
  crypto_derive_server_keys, crypto_derive_client_keys,
}
use sencd.Session.{
  Session, Handshake, wait_auth, established, send_message, receive_message, trust_server_key,
  generate_ephemeral, trusted_key_name, session_authenticate_server, session_verify_client,
  session_server_connect, answer_challenge, session_authenticate_client, session_client_connect,
}
use sencd.Session.Auth.{
  AuthChallenge, challenge_bytes, response_bytes, success_bytes, parse_success, auth_nonce_size,
  session_nonce_size, parse_challenge, parse_response,
}

-- What the calls of a handshake do not change of what is seen of the session and the world: of the
-- session, only its two sockets are seen.
pub record Unseen {W V : Type 0} (os : Os W) (rnd : Random W) (see : Session × W → V) : Type 0 where
  pub same :
      (p q : Session × W) → p.0.socket ≡ q.0.socket → p.0.udp ≡ q.0.udp → p.1 ≡ q.1 → see p ≡ see q
  pub send_kept :
      (s : Session) (w : W) (fd : ℤ) (buf : List ℕ) → see (s, (os.send w fd buf).1) ≡ see (s, w)
  pub recv_kept : (s : Session) (w : W) (fd : ℤ) (n : ℕ) → see (s, (os.recv w fd n).2) ≡ see (s, w)
  pub malloc_kept : (s : Session) (w : W) (n : ℕ) → see (s, (os.malloc w n).1) ≡ see (s, w)
  pub mkdir_kept : (s : Session) (w : W) (path : List ℕ) → see (s, (os.mkdir w path).1) ≡ see (s, w)
  pub write_file_kept :
      (s : Session) (w : W) (path bytes : List ℕ)
      → see (s, (os.write_file w path bytes).1) ≡ see (s, w)
  pub randombytes_kept :
      (s : Session) (w : W) (n : ℕ) → see (s, (rnd.randombytes w n).1) ≡ see (s, w)
  pub kx_keypair_kept : (s : Session) (w : W) → see (s, (rnd.kx_keypair w).1) ≡ see (s, w)

module _ {W V : Type 0} ⦃os : Os W⦄ ⦃rnd : Random W⦄ ⦃na : Sodium⦄ (see : Session × W → V)
    (unseen : Unseen os rnd see) where
  -- A call that keeps what is seen, whatever its result.
  abbrev pub Keeps : {A : Type 0} → Handshake W A → Type 0
  Keeps m = (p : Session × W) → see (m p).1 ≡ see p

  pub send_message-Keeps :
      (type : PacketHeaderT) (version : ℕ) (payload : List ℕ)
      → Keeps (send_message type version payload)
  unfolding send_message
  send_message-Keeps type version payload p =
      let c : PacketConstructor = record {
        payload = payload;
        payload_length = length payload;
        header_type = type;
        header_version = version;
      } in
      let (packet, w) = packet_construct c p.1 in
      let view = λ (x : W). see (p.0, x) in
      packet_send-keeps view p.0.socket (λ x buf. unseen.send_kept p.0 x p.0.socket buf) packet w
      ∙ packet_construct-keeps view (λ x n. unseen.malloc_kept p.0 x n) c p.1

  pub receive_message-Keeps : (type : PacketHeaderT) → Keeps (receive_message type)
  unfolding receive_message
  receive_message-Keeps type p =
      then_with-keeps see (on_second (packet_receive p.0.socket) p) _ _
        (packet_receive-keeps (λ x. see (p.0, x)) p.0.socket
          (λ x n. unseen.recv_kept p.0 x p.0.socket n) (λ x n. unseen.malloc_kept p.0 x n) p.1)
        λ packet q.
          then_with-keeps see (guard (packet.header.type == code type) q) _ _ (guard-keeps see _ q)
            λ _ u. refl

  save_key-keeps :
      (key : List ℕ) (s : Session) (w : W)
      → see (
        s,
        ((crypto_config_path trusted_key_name path_max >>= λ path. crypto_trust_key_save path key)
            w).1,
      )
        ≡ see (s, w)
  unfolding crypto_config_path crypto_trust_key_save save
  save_key-keeps key s w =
      let view = λ (x : W). see (s, x) in
      then_with-keeps view (crypto_config_path trusted_key_name path_max w) _ _
        (then_with-keeps view (or_fail (home_dir w) w) _ _ refl λ home u.
          then_with-keeps view (or_fail (join_path home config_dirname path_max) u) _ _ refl
            λ dir u.
              then_with-keeps view (guard (os.mkdir u dir).0 (os.mkdir u dir).1) _ _
                (guard-keeps view _ _ ∙ unseen.mkdir_kept s u dir) λ _ v. refl)
        λ path u. guard-keeps view _ _ ∙ unseen.write_file_kept s u path key

  pub trust_server_key-Keeps : (key : List ℕ) → Keeps (trust_server_key key)
  unfolding trust_server_key
  trust_server_key-Keeps key p = elim (Bool-cases p.0.has_trusted_peer_key) [
    | inl known ↦
        let run : guard (bytes_eq key p.0.trusted_peer_key) p ≡ trust_server_key key p =
          ground arith in
        subst (λ r. see r.1 ≡ see p) run (guard-keeps see (bytes_eq key p.0.trusted_peer_key) p)
    | inr new ↦ rw new (
        save_key-keeps key (record p.0 { trusted_peer_key = key; has_trusted_peer_key = true }) p.1
        ∙ unseen.same _ _ refl refl refl)
  ]

  pub generate_ephemeral-Keeps : Keeps generate_ephemeral
  unfolding generate_ephemeral crypto_generate_ephemeral
  generate_ephemeral-Keeps p =
      then_with-keeps see (on_second (crypto_generate_ephemeral p.0.crypto) p) _ _
        (then_with-keeps (λ (x : W). see (p.0, x)) (rnd.kx_keypair p.1) _ _
          (unseen.kx_keypair_kept p.0 p.1) λ _ u. refl)
        λ crypto q. unseen.same _ _ refl refl refl
