-- ===== src/Tunnel/Pipeline.antt =====
-- What the sender and receiver threads of src/sessions/session_manager.c and
-- src/commands/client_env.c do with one packet: compress and encode, decode and decompress.
use sencd.Base.{
  ℕ, ◌+◌, ◌^◌, ◌≤◌, ◌<◌, ◌≡◌, false, Option, none, some, List, ◌++◌, arith, ◌==◌, if◌then◌else◌,
  length,
}
use sencd.Base.Bytes.{be_bytes}
use sencd.Platform.Sodium.{Sodium, AeadLaws}
use sencd.Platform.Zstd.{Zstd, ZstdLaws}
use sencd.Crypto.{CryptoContext, crypto_build_nonce, crypto_encrypt_packet}
use sencd.Tunnel.Frame.{
  TunnelPacketEncode, tunnel_packet_max_size, tunnel_packet_max_plaintext, tunnel_packet_encode,
  tunnel_packet_decode, tunnel_packet_peek_session_id, tunnel_packet_decode-encode,
}
use sencd.Tunnel.Compress.{
  tunnel_compress_header_size, tunnel_pipeline_compress, tunnel_pipeline_decompress,
  tunnel_pipeline_fits, tunnel_pipeline_decompress-compress, tunnel_pipeline_compress-ne-nil,
}

module _ ⦃na : Sodium⦄ ⦃z : Zstd⦄ where
  -- The datagram for a raw packet: `none` is a `continue`.
  unfoldable pub outbound : List ℕ → ℕ → ℕ → CryptoContext → Option (List ℕ)
  outbound raw session_id counter ctx =
      let compressed = tunnel_pipeline_compress raw tunnel_packet_max_plaintext in
      if length compressed == 0
      then none
      else tunnel_packet_encode
          (record { session_id = session_id; counter = counter; plaintext = compressed }) ctx

  -- The length test on what was decompressed.
  abbrev some_bytes : List ℕ → Option (List ℕ)
  some_bytes final = if length final == 0 then none else some final

  -- The raw packet in a datagram.
  unfoldable pub inbound : List ℕ → CryptoContext → Option (List ℕ)
  inbound buffer ctx = elim (tunnel_packet_decode buffer ctx) [
    | none ↦ none
    | some plaintext ↦ some_bytes (tunnel_pipeline_decompress plaintext tunnel_packet_max_plaintext)
  ]

module _ ⦃na : Sodium⦄ ⦃z : Zstd⦄ (aead : AeadLaws na) (zstd : ZstdLaws z) where
  encode_some :
      (packet : TunnelPacketEncode) (ctx : CryptoContext)
      → length packet.plaintext ≤ tunnel_packet_max_plaintext
      → (b : List ℕ) × (tunnel_packet_encode packet ctx ≡ some b)
  unfolding tunnel_packet_encode crypto_encrypt_packet
  encode_some packet ctx h =
      let (c, e) =
        aead.encrypt_some packet.plaintext (crypto_build_nonce packet.counter) ctx.tx_key in
      (be_bytes 8 packet.session_id ++ be_bytes 8 packet.counter ++ c, ground arith)

  -- End to end: under a 64-bit session number and counter, every packet from 1 to 65499 bytes becomes a datagram that fits the buffers, shows
  -- its session's number, and gives the receiver that holds the matching key the same packet.
  pub inbound-outbound :
      (raw : List ℕ) (session_id counter : ℕ) (sender receiver : CryptoContext)
      → 1 ≤ length raw
      → length raw + tunnel_compress_header_size ≤ tunnel_packet_max_plaintext
      → session_id < 2 ^ 64
      → counter < 2 ^ 64
      → receiver.rx_key ≡ sender.tx_key
      → (b : List ℕ) × (outbound raw session_id counter sender ≡ some b)
        × (length b ≤ tunnel_packet_max_size)
        × (tunnel_packet_peek_session_id b ≡ some session_id)
        × (inbound b receiver ≡ some raw)
  unfolding outbound inbound
  inbound-outbound raw session_id counter sender receiver some_raw fits hs hc keys =
      let text = tunnel_pipeline_compress raw tunnel_packet_max_plaintext in
      let packet : TunnelPacketEncode = record {
        session_id = session_id;
        counter = counter;
        plaintext = text;
      } in
      let sent = tunnel_pipeline_compress-ne-nil raw tunnel_packet_max_plaintext fits in
      let (b, e) =
        encode_some packet sender (tunnel_pipeline_fits zstd raw tunnel_packet_max_plaintext).0 in
      let (size, small, seen, decoded) =
        tunnel_packet_decode-encode aead packet sender receiver b hs hc keys e in
      let back =
        tunnel_pipeline_decompress-compress zstd raw tunnel_packet_max_plaintext
          tunnel_packet_max_plaintext (omega arith) (omega arith) sent in
      let nonempty : (length text == 0) ≡ false = ground arith in
      let nonempty_raw : (length raw == 0) ≡ false = ground arith in
      (b, rw (nonempty, e), small, seen, rw (decoded, inbound, back, nonempty_raw))
