-- ===== src/Tunnel/Frame.antt =====
-- src/tunnel/tunnel_packet.h and tunnel_packet.c: [session_id][counter][ciphertext and tag]. A
-- result of 1 is `none`; an out buffer and its length are a list.
use sencd.Base.{
  ℕ, ◌+◌, ◌-◌, ◌^◌, ◌≤◌, ◌<◌, ◌≡◌, refl, sym, ap, ◌∙◌, false, ◌||◌, Option, none, some, List, ◌++◌,
  arith, ltb, if◌then◌else◌, length, take, drop, length-append, length-drop, take-append,
  drop-append, drop-drop, append_assoc,
}
use sencd.Base.Bytes.{be_bytes, be_value, length-be_bytes, be_value-be_bytes}
use sencd.Platform.Sodium.{Sodium, AeadLaws}
use sencd.Crypto.{
  CryptoContext, tunnel_aead_tag_size, crypto_build_nonce, crypto_encrypt_packet,
  crypto_decrypt_packet,
}
use sencd.Crypto.Nonce.{crypto_decrypt-encrypt}

-- sizeof(uint64_t) twice.
abbrev pub tunnel_header_size : ℕ
tunnel_header_size = 16

abbrev pub tunnel_packet_max_size : ℕ
tunnel_packet_max_size = 65536

abbrev pub tunnel_packet_max_plaintext : ℕ
tunnel_packet_max_plaintext = tunnel_packet_max_size - tunnel_header_size - tunnel_aead_tag_size

pub record TunnelPacketEncode : Type 0 where
  pub session_id : ℕ
  pub counter : ℕ
  pub plaintext : List ℕ

module _ ⦃na : Sodium⦄ where
  abbrev prefixed : List ℕ → Option (List ℕ) → Option (List ℕ)
  prefixed head none = none
  prefixed head (some ciphertext) = some (head ++ ciphertext)

  unfoldable pub tunnel_packet_encode : TunnelPacketEncode → CryptoContext → Option (List ℕ)
  tunnel_packet_encode packet ctx =
      if ltb tunnel_packet_max_plaintext (length packet.plaintext)
      then none
      else prefixed (be_bytes 8 packet.session_id ++ be_bytes 8 packet.counter)
          (crypto_encrypt_packet ctx packet.counter packet.plaintext)

  unfoldable pub tunnel_packet_decode : List ℕ → CryptoContext → Option (List ℕ)
  tunnel_packet_decode buffer ctx =
      let counter = be_value (take 8 (drop 8 buffer)) in
      if ltb (length buffer) (tunnel_header_size + tunnel_aead_tag_size)
        || ltb tunnel_packet_max_size (length buffer)
      then none
      else crypto_decrypt_packet ctx counter (drop tunnel_header_size buffer)

unfoldable pub tunnel_packet_peek_session_id : List ℕ → Option ℕ
tunnel_packet_peek_session_id buffer =
    if ltb (length buffer) tunnel_header_size then none else some (be_value (take 8 buffer))

-- What encoding a packet of a fitting size amounts to.
record Parts (packet : TunnelPacketEncode) (buffer ciphertext : List ℕ) : Type 0 where
  short : length packet.plaintext ≤ tunnel_packet_max_plaintext
  whole : buffer ≡ be_bytes 8 packet.session_id ++ (be_bytes 8 packet.counter ++ ciphertext)

module _ ⦃na : Sodium⦄ where
  encode-Parts :
      (packet : TunnelPacketEncode) (ctx : CryptoContext) (buffer : List ℕ)
      → tunnel_packet_encode packet ctx ≡ some buffer
      → (c : List ℕ) × (crypto_encrypt_packet ctx packet.counter packet.plaintext ≡ some c)
        × Parts packet buffer c
  unfolding tunnel_packet_encode
  encode-Parts packet ctx buffer e =
      go (crypto_encrypt_packet ctx packet.counter packet.plaintext) refl
    where
      sid : List ℕ
      sid = be_bytes 8 packet.session_id

      go :
          (r : Option (List ℕ))
          → crypto_encrypt_packet ctx packet.counter packet.plaintext ≡ r
          → (c : List ℕ) × (crypto_encrypt_packet ctx packet.counter packet.plaintext ≡ some c)
            × Parts packet buffer c
      go none h = ground arith
      go (some c) h = (
        c,
        h,
        record {
          short = ground arith;
          whole = ground (arith, append_assoc sid (be_bytes 8 packet.counter) c);
        },
      )

-- The three parts of an encoded datagram, read where the decoder reads them.
read_parts :
    (packet : TunnelPacketEncode) (buffer c : List ℕ)
    → packet.session_id < 2 ^ 64
    → packet.counter < 2 ^ 64
    → buffer ≡ be_bytes 8 packet.session_id ++ (be_bytes 8 packet.counter ++ c)
    → (be_value (take 8 buffer) ≡ packet.session_id)
      × (be_value (take 8 (drop 8 buffer)) ≡ packet.counter)
      × (drop 16 buffer ≡ c)
read_parts packet buffer c hs hc whole =
    let sid = be_bytes 8 packet.session_id in
    let cnt = be_bytes 8 packet.counter in
    let sid_size = length-be_bytes 8 packet.session_id in
    let cnt_size = length-be_bytes 8 packet.counter in
    let tail : drop 8 buffer ≡ cnt ++ c =
      ap (λ b. drop 8 b) whole ∙ drop-append sid (cnt ++ c) 8 sid_size in
    (
      ap (λ b. be_value (take 8 b)) whole
          ∙ ap be_value (take-append sid (cnt ++ c) 8 sid_size)
          ∙ be_value-be_bytes 8 packet.session_id (omega arith),
      ap (λ b. be_value (take 8 b)) tail
          ∙ ap be_value (take-append cnt c 8 cnt_size)
          ∙ be_value-be_bytes 8 packet.counter (omega arith),
      sym (drop-drop 8 8 buffer) ∙ ap (λ b. drop 8 b) tail ∙ drop-append cnt c 8 cnt_size,
    )

module _ ⦃na : Sodium⦄ (laws : AeadLaws na) where
  encrypted_size :
      (ctx : CryptoContext) (n : ℕ) (text c : List ℕ)
      → crypto_encrypt_packet ctx n text ≡ some c
      → length c ≡ length text + 16
  unfolding crypto_encrypt_packet
  encrypted_size ctx n text c e = laws.length-encrypt text (crypto_build_nonce n) ctx.tx_key c e

  -- What one end encodes, the other end reads: the datagram is 32 bytes longer than the text and
  -- fits the receive buffer, it shows its session's number, and an end that receives with the
  -- sender's key decodes the text.
  pub tunnel_packet_decode-encode :
      (packet : TunnelPacketEncode) (sender receiver : CryptoContext) (buffer : List ℕ)
      → packet.session_id < 2 ^ 64
      → packet.counter < 2 ^ 64
      → receiver.rx_key ≡ sender.tx_key
      → tunnel_packet_encode packet sender ≡ some buffer
      → (length buffer ≡ length packet.plaintext + 32)
        × (length buffer ≤ tunnel_packet_max_size)
        × (tunnel_packet_peek_session_id buffer ≡ some packet.session_id)
        × (tunnel_packet_decode buffer receiver ≡ some packet.plaintext)
  unfolding tunnel_packet_peek_session_id tunnel_packet_decode
  tunnel_packet_decode-encode packet sender receiver buffer hs hc keys e =
      let (c, encrypted, parts) = encode-Parts packet sender buffer e in
      let sid = be_bytes 8 packet.session_id in
      let cnt = be_bytes 8 packet.counter in
      let size : length buffer ≡ length packet.plaintext + 32 = omega (
        arith,
        ap length parts.whole,
        length-append sid (cnt ++ c),
        length-append cnt c,
        length-be_bytes 8 packet.session_id,
        length-be_bytes 8 packet.counter,
        encrypted_size sender packet.counter packet.plaintext c encrypted,
      ) in
      let (read_sid, read_cnt, read_c) = read_parts packet buffer c hs hc parts.whole in
      let fits : ltb (length buffer) tunnel_header_size ≡ false = ground arith in
      let decoded = crypto_decrypt-encrypt laws sender receiver packet.counter _ c keys encrypted in
      let small : (ltb (length buffer) 32 || ltb tunnel_packet_max_size (length buffer)) ≡ false =
        ground arith in
      (
        size,
        ground arith,
        rw fits (ap (λ v. some v) read_sid),
        rw (small, read_cnt, read_c) decoded,
      )

  -- A decoded text is 32 bytes shorter than its datagram and fits the plaintext buffer.
  pub tunnel_packet_decode_bounds :
      (buffer : List ℕ) (ctx : CryptoContext) (text : List ℕ)
      → tunnel_packet_decode buffer ctx ≡ some text
      → (length buffer ≡ length text + 32) × (length text ≤ tunnel_packet_max_plaintext)
  unfolding tunnel_packet_decode crypto_decrypt_packet
  tunnel_packet_decode_bounds buffer ctx text e = ground (
    arith,
    laws.length-decrypt (drop 16 buffer) (crypto_build_nonce (be_value (take 8 (drop 8 buffer))))
        ctx.rx_key text,
    length-drop 16 buffer,
  )
