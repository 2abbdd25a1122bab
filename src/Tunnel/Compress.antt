-- ===== src/Tunnel/Compress.antt =====
-- src/tunnel/tunnel_compress.h and tunnel_compress.c. A result is the bytes that the out buffer
-- holds up to the returned length; [] is the result 0.
use sencd.Base.{
  ℕ, suc, ◌+◌, ◌-◌, ◌^◌, ◌%◌, ◌≤◌, ◌<◌, ◌≡◌, refl, ap, ◌∙◌, false, ◌&&◌, Option, none, some, List,
  [], ◌∷◌, ◌++◌, arith, ltb, leb, ◌==◌, if◌then◌else◌, length, take, drop, get_or, replicate,
  length-append, take-append, drop-append, Option-cases, Bool-cases, inl, inr,
}
use sencd.Base.Bytes.{be_bytes, be_value, length-be_bytes, be_value-be_bytes}
use sencd.Platform.Zstd.{Zstd, ZstdLaws}

abbrev pub tunnel_compress_flag_none : ℕ
tunnel_compress_flag_none = 0

abbrev pub tunnel_compress_flag_zstd : ℕ
tunnel_compress_flag_zstd = 1

abbrev pub tunnel_compress_header_size : ℕ
tunnel_compress_header_size = 5

-- Flag 0, four zero bytes and the packet itself, if they fit.
stored : List ℕ → ℕ → List ℕ
stored raw max_payload =
    if ltb max_payload (length raw) then [] else tunnel_compress_flag_none ∷ replicate 4 0 ++ raw

-- Flag 1, the length in network order and what zstd made of the packet, if that is shorter.
choose : List ℕ → ℕ → Option (List ℕ) → List ℕ
unfolding stored
choose raw max_payload none = stored raw max_payload
choose raw max_payload (some compressed) =
    if ltb 0 (length compressed) && ltb (length compressed) (length raw)
    then tunnel_compress_flag_zstd ∷ be_bytes 4 (length raw % 2 ^ 32) ++ compressed
    else stored raw max_payload

module _ ⦃z : Zstd⦄ where
  -- What zstd makes of the packet, if its worst case fits and it reports no error.
  attempt : List ℕ → ℕ → Option (List ℕ)
  attempt raw max_payload =
      if leb (z.compress_bound (length raw)) max_payload then z.compress max_payload raw else none

  unfoldable pub tunnel_pipeline_compress : List ℕ → ℕ → List ℕ
  unfolding choose attempt
  tunnel_pipeline_compress raw out_capacity =
      let max_payload = out_capacity - tunnel_compress_header_size in
      if ltb out_capacity tunnel_compress_header_size
      then []
      else choose raw max_payload (attempt raw max_payload)

  -- The result of `ZSTD_decompress`, held to the announced length.
  announced : ℕ → Option (List ℕ) → List ℕ
  announced original none = []
  announced original (some raw) = if length raw == original then raw else []

  unfoldable pub tunnel_pipeline_decompress : List ℕ → ℕ → List ℕ
  unfolding announced
  tunnel_pipeline_decompress in_buffer out_capacity =
      let flag = get_or in_buffer 0 0 in
      let payload = drop tunnel_compress_header_size in_buffer in
      let original = be_value (take 4 (drop 1 in_buffer)) in
      if ltb (length in_buffer) tunnel_compress_header_size
      then []
      else if flag == tunnel_compress_flag_none
      then (if ltb out_capacity (length payload) then [] else payload)
      else if flag == tunnel_compress_flag_zstd
      then (if ltb out_capacity original
          then []
          else announced original (z.decompress out_capacity payload))
      else []

-- The three outcomes of compression.
data Outcome ⦃z : Zstd⦄ (raw : List ℕ) (capacity : ℕ) (out : List ℕ) : Type 0 where
  dropped : out ≡ [] → Outcome raw capacity out
  kept : out ≡ 0 ∷ 0 ∷ 0 ∷ 0 ∷ 0 ∷ raw → length raw + 5 ≤ capacity → Outcome raw capacity out
  shrunk :
      (c : List ℕ)
      → out ≡ 1 ∷ be_bytes 4 (length raw % 2 ^ 32) ++ c
      → z.compress (capacity - 5) raw ≡ some c
      → 5 ≤ capacity
      → Outcome raw capacity out

module _ ⦃z : Zstd⦄ where
  stored-Outcome :
      (raw : List ℕ) (capacity : ℕ)
      → 5 ≤ capacity
      → Outcome raw capacity (stored raw (capacity - 5))
  unfolding stored
  stored-Outcome raw capacity h = elim (Bool-cases (ltb (capacity - 5) (length raw))) [
    | inl long ↦ dropped (rw long)
    | inr short ↦ kept (rw short) (ground arith)
  ]

  choose-Outcome :
      (raw : List ℕ) (capacity : ℕ) (o : Option (List ℕ))
      → 5 ≤ capacity
      → ((c : List ℕ) → o ≡ some c → z.compress (capacity - 5) raw ≡ some c)
      → Outcome raw capacity (choose raw (capacity - 5) o)
  unfolding choose
  choose-Outcome raw capacity none h from = stored-Outcome raw capacity h
  choose-Outcome raw capacity (some c) h from =
      elim (Bool-cases (ltb 0 (length c) && ltb (length c) (length raw))) [
        | inl smaller ↦ shrunk c (rw smaller) (from c refl) h
        | inr larger ↦ rw larger (stored-Outcome raw capacity h)
      ]

  attempt_made :
      (raw : List ℕ) (max_payload : ℕ) (c : List ℕ)
      → attempt raw max_payload ≡ some c
      → z.compress max_payload raw ≡ some c
  unfolding attempt
  attempt_made raw max_payload c e = ground arith

  compress-Outcome :
      (raw : List ℕ) (capacity : ℕ) → Outcome raw capacity (tunnel_pipeline_compress raw capacity)
  unfolding tunnel_pipeline_compress
  compress-Outcome raw capacity = elim (Bool-cases (ltb capacity 5)) [
    | inl tiny ↦ dropped (rw tiny)
    | inr enough ↦ rw enough (
        choose-Outcome raw capacity (attempt raw (capacity - 5)) (ground arith)
          (attempt_made raw (capacity - 5)))
  ]

  decompress_stored :
      (raw : List ℕ) (room : ℕ)
      → length raw ≤ room
      → tunnel_pipeline_decompress (0 ∷ 0 ∷ 0 ∷ 0 ∷ 0 ∷ raw) room ≡ raw
  unfolding tunnel_pipeline_decompress
  decompress_stored raw room h = ground arith

module _ ⦃z : Zstd⦄ (laws : ZstdLaws z) where
  decompress_shrunk :
      (raw c : List ℕ) (capacity room : ℕ)
      → length raw < 2 ^ 32
      → length raw ≤ room
      → z.compress capacity raw ≡ some c
      → tunnel_pipeline_decompress (1 ∷ be_bytes 4 (length raw % 2 ^ 32) ++ c) room ≡ raw
  unfolding tunnel_pipeline_decompress
  decompress_shrunk raw c capacity room small fits e =
      let len = be_bytes 4 (length raw % 2 ^ 32) in
      let size = length-be_bytes 4 (length raw % 2 ^ 32) in
      let announced_len : be_value (take 4 (len ++ c)) ≡ length raw =
        ap be_value (take-append len c 4 size)
        ∙ be_value-be_bytes 4 (length raw % 2 ^ 32) (omega arith)
        ∙ omega arith in
      let long : ltb (suc (length (len ++ c))) 5 ≡ false = ground (arith, length-append len c) in
      let room_enough : ltb room (length raw) ≡ false = ground arith in
      rw
        (
          long,
          announced_len,
          room_enough,
          drop-append len c 4 size,
          laws.decompress-compress capacity room raw c e fits,
        )
        (ground arith)

  announced_fits :
      (capacity : ℕ) (bytes : List ℕ) (original : ℕ)
      → length (announced original (z.decompress capacity (drop 5 bytes))) ≤ capacity
  unfolding announced
  announced_fits capacity bytes original =
      elim (Option-cases (z.decompress capacity (drop 5 bytes))) [
        | inl e ↦ rw e (omega arith)
        | inr (raw, e) ↦ rw e (ground (arith, laws.decompress_fits capacity (drop 5 bytes) raw e))
      ]

  compressed_fits :
      (raw : List ℕ) (capacity : ℕ) (out : List ℕ)
      → Outcome raw capacity out
      → length out ≤ capacity
  compressed_fits raw capacity out (dropped e) = rw e (omega arith)
  compressed_fits raw capacity out (kept e h) = rw e (omega arith)
  compressed_fits raw capacity out (shrunk c e made h) =
      let len = be_bytes 4 (length raw % 2 ^ 32) in
      rw e (
        omega (
          arith,
          length-append len c,
          length-be_bytes 4 (length raw % 2 ^ 32),
          laws.compress_fits (capacity - 5) raw c made,
        ))

  decompress_fits :
      (bytes : List ℕ) (capacity : ℕ)
      → length (tunnel_pipeline_decompress bytes capacity) ≤ capacity
  unfolding tunnel_pipeline_decompress
  decompress_fits bytes capacity =
      ground (arith, announced_fits capacity bytes (be_value (take 4 (drop 1 bytes))))

  -- Memory safety: neither direction returns more bytes than its out buffer was said to hold.
  pub tunnel_pipeline_fits :
      (bytes : List ℕ) (capacity : ℕ)
      → (length (tunnel_pipeline_compress bytes capacity) ≤ capacity)
        × (length (tunnel_pipeline_decompress bytes capacity) ≤ capacity)
  tunnel_pipeline_fits bytes capacity = (
    compressed_fits bytes capacity _ (compress-Outcome bytes capacity),
    decompress_fits bytes capacity,
  )

  -- A packet of at least one byte that compresses into anything comes out again unchanged, if it
  -- fits the receiver's buffer and its length fits the header's 32 bits.
  pub tunnel_pipeline_decompress-compress :
      (raw : List ℕ) (capacity room : ℕ)
      → length raw < 2 ^ 32
      → length raw ≤ room
      → 1 ≤ length (tunnel_pipeline_compress raw capacity)
      → tunnel_pipeline_decompress (tunnel_pipeline_compress raw capacity) room ≡ raw
  tunnel_pipeline_decompress-compress raw capacity room small fits sent =
      elim (compress-Outcome raw capacity) [
        | dropped e ↦ absurd (omega (arith, ap length e))
        | kept e _ ↦ rw e (decompress_stored raw room fits)
        | shrunk c e made _ ↦ rw e (decompress_shrunk raw c (capacity - 5) room small fits made)
      ]

module _ ⦃z : Zstd⦄ where
  -- A packet that fits behind the header uncompressed is never dropped by the sender.
  pub tunnel_pipeline_compress-ne-nil :
      (raw : List ℕ) (capacity : ℕ)
      → length raw + tunnel_compress_header_size ≤ capacity
      → 1 ≤ length (tunnel_pipeline_compress raw capacity)
  unfolding tunnel_pipeline_compress
  tunnel_pipeline_compress-ne-nil raw capacity h = ground arith
