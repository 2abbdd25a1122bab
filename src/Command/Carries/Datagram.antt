-- ===== src/Command/Carries/Datagram.antt =====
-- The datagram that the sender threads of src/commands/client_env.c and
-- src/sessions/session_manager.c make of a packet, and what it is sealed under.
use sencd.Base.{
  ℕ, ◌+◌, ◌^◌, ◌≤◌, ◌<◌, ◌≡◌, sym, ap, ◌∙◌, subst, false, Option, none, some, List, [], ◌++◌, arith,
  length, ◌==◌,
}
use sencd.Base.Bytes.{be_bytes}
use sencd.Platform.Sodium.{Sodium, AeadLaws}
use sencd.Platform.Zstd.{Zstd, ZstdLaws}
use sencd.Crypto.{CryptoContext, crypto_build_nonce, crypto_encrypt_packet}
use sencd.Session.{Session}
use sencd.Tunnel.Frame.{
  tunnel_packet_max_plaintext, tunnel_packet_max_size, tunnel_packet_peek_session_id,
  tunnel_packet_encode,
}
use sencd.Tunnel.Compress.{
  tunnel_compress_header_size, tunnel_pipeline_compress, tunnel_pipeline_fits,
  tunnel_pipeline_compress-ne-nil,
}
use sencd.Tunnel.Pipeline.{outbound, inbound, inbound-outbound}

-- The bytes of an encoded packet; none where it was not encoded.
abbrev pub encoded_bytes : Option (List ℕ) → List ℕ
encoded_bytes none = []
encoded_bytes (some b) = b

module _ ⦃na : Sodium⦄ ⦃z : Zstd⦄ where
  -- The datagram that a session makes of a raw packet.
  abbrev pub datagram_of : List ℕ → Session → List ℕ
  datagram_of raw s = encoded_bytes (outbound raw s.session_id s.crypto.tx_nonce s.crypto)

  -- The bytes are the session's number, the counter, and the compressed packet encrypted with the
  -- nonce of that counter under the session's key.
  abbrev pub SealedUnder : ℕ → List ℕ → Session → List ℕ → Type 0
  SealedUnder counter raw s b =
      (c : List ℕ) × (b ≡ be_bytes 8 s.session_id ++ be_bytes 8 counter ++ c)
      × (na.aead_encrypt (tunnel_pipeline_compress raw tunnel_packet_max_plaintext)
            (crypto_build_nonce counter) s.crypto.tx_key
          ≡ some c)

module _ ⦃na : Sodium⦄ ⦃z : Zstd⦄ (aead : AeadLaws na) (zstd : ZstdLaws z) where
  -- It fits the buffers, shows its session, and opens under the matching key.
  pub datagram_of-outbound :
      (raw : List ℕ) (s : Session) (receiver : CryptoContext)
      → 1 ≤ length raw
      → length raw + tunnel_compress_header_size ≤ tunnel_packet_max_plaintext
      → s.session_id < 2 ^ 64
      → s.crypto.tx_nonce < 2 ^ 64
      → receiver.rx_key ≡ s.crypto.tx_key
      → (outbound raw s.session_id s.crypto.tx_nonce s.crypto ≡ some (datagram_of raw s))
        × (length (datagram_of raw s) ≤ tunnel_packet_max_size)
        × (tunnel_packet_peek_session_id (datagram_of raw s) ≡ some s.session_id)
        × (inbound (datagram_of raw s) receiver ≡ some raw)
  datagram_of-outbound raw s receiver long fits small count_small keys =
      let (b, sent, short, shows, opens) =
        inbound-outbound aead zstd raw s.session_id s.crypto.tx_nonce s.crypto receiver long fits
          small count_small keys in
      let same : b ≡ datagram_of raw s = sym (ap encoded_bytes sent) in
      (
        sent ∙ ap some same,
        subst (λ a. length a ≤ tunnel_packet_max_size) same short,
        subst (λ a. tunnel_packet_peek_session_id a ≡ some s.session_id) same shows,
        subst (λ a. inbound a receiver ≡ some raw) same opens,
      )

  -- It is sealed under the session's counter.
  pub datagram_of-SealedUnder :
      (raw : List ℕ) (s : Session)
      → length raw + tunnel_compress_header_size ≤ tunnel_packet_max_plaintext
      → (outbound raw s.session_id s.crypto.tx_nonce s.crypto ≡ some (datagram_of raw s))
        × SealedUnder s.crypto.tx_nonce raw s (datagram_of raw s)
  unfolding outbound tunnel_packet_encode crypto_encrypt_packet
  datagram_of-SealedUnder raw s fits =
      let text = tunnel_pipeline_compress raw tunnel_packet_max_plaintext in
      let n = s.crypto.tx_nonce in
      let some_text = tunnel_pipeline_compress-ne-nil raw tunnel_packet_max_plaintext fits in
      let nonempty : (length text == 0) ≡ false = ground (arith, some_text) in
      let short = (tunnel_pipeline_fits zstd raw tunnel_packet_max_plaintext).0 in
      let (c, e) = aead.encrypt_some text (crypto_build_nonce n) s.crypto.tx_key in
      let sent : outbound raw s.session_id n s.crypto
          ≡ some (be_bytes 8 s.session_id ++ be_bytes 8 n ++ c) =
        rw nonempty (ground (arith, short, e)) in
      let same : datagram_of raw s ≡ be_bytes 8 s.session_id ++ be_bytes 8 n ++ c =
        ap encoded_bytes sent in
      (sent ∙ ap some (sym same), (c, same, e))
