-- ===== src/Platform/Zstd.antt =====
-- zstd: the calls that the program makes of it, and what its documentation says of them.
use sencd.Base.{ℕ, ◌≤◌, ◌≡◌, Option, some, List, length}

pub record Zstd : Type 0 where
  -- `ZSTD_compressBound`.
  pub compress_bound : ℕ → ℕ
  -- `ZSTD_compress` at level 3: capacity, source. `none` where `ZSTD_isError` holds.
  pub compress : ℕ → List ℕ → Option (List ℕ)
  -- `ZSTD_decompress`: capacity, source.
  pub decompress : ℕ → List ℕ → Option (List ℕ)

pub record ZstdLaws (z : Zstd) : Type 0 where
  -- What was compressed decompresses wherever it has room.
  pub decompress-compress :
      (cap room : ℕ) (raw c : List ℕ)
      → z.compress cap raw ≡ some c
      → length raw ≤ room
      → z.decompress room c ≡ some raw
  -- Nothing is written past the capacity.
  pub compress_fits : (cap : ℕ) (raw c : List ℕ) → z.compress cap raw ≡ some c → length c ≤ cap
  pub decompress_fits :
      (cap : ℕ) (src raw : List ℕ) → z.decompress cap src ≡ some raw → length raw ≤ cap
