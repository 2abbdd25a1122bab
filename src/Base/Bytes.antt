-- ===== src/Base/Bytes.antt =====
-- Numbers as fixed-width byte strings: `htobe64`, `htonl` and their inverses followed by a copy of
-- the bytes (most significant first), and the copy of a host integer (least significant first).
use sencd.Base.Lists.{length, All, length-append}
use Prim.Native.Nat.{ℕ, zero, suc, ◌+◌, ◌*◌, ◌/◌, ◌%◌, ◌^◌, ◌<◌}
use mathlib.Core.Path.{◌≡◌, refl, ap, ◌∙◌, sym}
use mathlib.Core.List.{List, [], ◌∷◌, ◌++◌}
use native.Mathlib.Omega.{arith}
use native.Mathlib.Nat.{pow-suc}

abbrev pub IsByte : ℕ → Type 0
IsByte b = b < 256

-- The lowest `n` bytes of `v`, least significant first.
unfoldable pub le_bytes : ℕ → ℕ → List ℕ
le_bytes zero v = []
le_bytes (suc n) v = (v % 256) ∷ le_bytes n (v / 256)

unfoldable pub le_value : List ℕ → ℕ
le_value [] = 0
le_value (b ∷ bs) = b + 256 * le_value bs

-- The lowest `n` bytes of `v`, most significant first.
unfoldable pub be_bytes : ℕ → ℕ → List ℕ
be_bytes zero v = []
be_bytes (suc n) v = be_bytes n (v / 256) ++ (v % 256) ∷ []

unfoldable pub be_from : ℕ → List ℕ → ℕ
be_from acc [] = acc
be_from acc (b ∷ bs) = be_from (acc * 256 + b) bs

unfoldable pub be_value : List ℕ → ℕ
unfolding be_from
be_value = be_from 0

pub length-le_bytes : (n v : ℕ) → length (le_bytes n v) ≡ n
unfolding le_bytes
length-le_bytes zero v = refl
length-le_bytes (suc n) v = ap suc (length-le_bytes n (v / 256))

pub length-be_bytes : (n v : ℕ) → length (be_bytes n v) ≡ n
unfolding be_bytes
length-be_bytes zero v = refl
length-be_bytes (suc n) v =
    omega
      (arith, length-append (be_bytes n (v / 256)) ((v % 256) ∷ []), length-be_bytes n (v / 256))

pub le_value-le_bytes : (n v : ℕ) → v < 256 ^ n → le_value (le_bytes n v) ≡ v
unfolding le_bytes le_value
le_value-le_bytes zero v h = omega arith
le_value-le_bytes (suc n) v h =
    omega (arith, le_value-le_bytes n (v / 256) (omega (arith, pow-suc 256 n)))

be_from-append :
    (acc : ℕ) (xs : List ℕ) (b : ℕ) → be_from acc (xs ++ b ∷ []) ≡ be_from acc xs * 256 + b
unfolding be_from
be_from-append acc [] b = refl
be_from-append acc (x ∷ xs) b = be_from-append (acc * 256 + x) xs b

pub be_value-be_bytes : (n v : ℕ) → v < 256 ^ n → be_value (be_bytes n v) ≡ v
unfolding be_value be_from be_bytes
be_value-be_bytes zero v h = omega arith
be_value-be_bytes (suc n) v h = omega (
  arith,
  be_from-append 0 (be_bytes n (v / 256)) (v % 256),
  be_value-be_bytes n (v / 256) (omega (arith, pow-suc 256 n)),
)

-- Two numbers of the same bytes are one.
pub be_bytes-injective :
    (n v w : ℕ) → v < 256 ^ n → w < 256 ^ n → be_bytes n v ≡ be_bytes n w → v ≡ w
be_bytes-injective n v w hv hw e =
    sym (be_value-be_bytes n v hv) ∙ ap be_value e ∙ be_value-be_bytes n w hw

pub be_bytes-All : (n v : ℕ) → All IsByte (be_bytes n v)
unfolding be_bytes
be_bytes-All zero v = tt
be_bytes-All (suc n) v = snoc (be_bytes n (v / 256)) (be_bytes-All n (v / 256))
  where
    snoc : (xs : List ℕ) → All IsByte xs → All IsByte (xs ++ (v % 256) ∷ [])
    snoc [] a = (omega arith, tt)
    snoc (x ∷ xs) a = (a.0, snoc xs a.1)
