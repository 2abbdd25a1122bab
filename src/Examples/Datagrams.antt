-- ===== src/Examples/Datagrams.antt =====
-- A packet of 21 bytes as a datagram.
use sencd.Base.{ℕ, ◌≡◌, ◌≤◌, ◌+◌, refl, some, List, ◌∷◌, ◌++◌, arith, length, replicate}
use sencd.Base.Tests.{bytes_eq}
use sencd.Base.Bytes.{be_bytes, be_value}
use sencd.Sim.{sim_sodium, sim_zstd, sim_aead, sim_zstd_laws}
use sencd.Crypto.{CryptoContext, crypto_context_init, crypto_encrypt_packet, crypto_decrypt_packet}
use sencd.Tunnel.Frame.{
  TunnelPacketEncode, tunnel_packet_max_size, tunnel_packet_encode, tunnel_packet_decode,
  tunnel_packet_peek_session_id, tunnel_packet_decode-encode,
}
use sencd.Tunnel.Compress.{
  tunnel_pipeline_compress, tunnel_pipeline_decompress, tunnel_pipeline_fits,
}
use sencd.Tunnel.Pipeline.{outbound, inbound, inbound-outbound}

abbrev raw : List ℕ
raw = 69 ∷ replicate 20 3

abbrev packet : TunnelPacketEncode
packet = record { session_id = 77; counter = 300; plaintext = raw }

abbrev ctx : CryptoContext
ctx = crypto_context_init

encoded : List ℕ
encoded = be_bytes 8 77 ++ be_bytes 8 300 ++ (raw ++ replicate 16 1)

encodes : tunnel_packet_encode packet ctx ≡ some encoded
unfolding tunnel_packet_encode crypto_encrypt_packet sim_sodium be_bytes encoded
encodes = refl

tunnel_packet_decode-encode_example :
    (length encoded ≡ length raw + 32)
    × (length encoded ≤ tunnel_packet_max_size)
    × (tunnel_packet_peek_session_id encoded ≡ some 77)
    × (tunnel_packet_decode encoded ctx ≡ some raw)
unfolding crypto_context_init
tunnel_packet_decode-encode_example =
    tunnel_packet_decode-encode sim_aead packet ctx ctx encoded (omega arith) (omega arith) refl
      encodes

decodes : tunnel_packet_decode encoded ctx ≡ some raw
unfolding tunnel_packet_decode crypto_decrypt_packet sim_sodium be_bytes be_value encoded bytes_eq
decodes = refl

inbound-outbound_example :
    (b : List ℕ) × (outbound raw 77 300 ctx ≡ some b)
    × (length b ≤ tunnel_packet_max_size)
    × (tunnel_packet_peek_session_id b ≡ some 77)
    × (inbound b ctx ≡ some raw)
unfolding crypto_context_init
inbound-outbound_example =
    inbound-outbound sim_aead sim_zstd_laws raw 77 300 ctx ctx (omega arith) (omega arith)
      (omega arith) (omega arith) refl

tunnel_pipeline_fits_example :
    (length (tunnel_pipeline_compress raw 30) ≤ 30)
    × (length (tunnel_pipeline_decompress raw 30) ≤ 30)
tunnel_pipeline_fits_example = tunnel_pipeline_fits sim_zstd_laws raw 30
