-- ===== src/Platform/Stdin.antt =====
-- The standard input as the C library reads it. `getchar` returns a byte, or -1 at the end of the
-- input; `fgets` with a buffer of `n` bytes returns the text that it read, if any.
use sencd.Base.{
  ℕ, ◌+◌, ◌≤◌, ◌≡◌, Bool, true, ◌&&◌, not, ◌==◌, Option, none, some, List, [], ◌∷◌, ◌++◌, length, ℤ,
  pos, negsuc,
}

pub record Stdin (S : Type 0) : Type 0 where
  pub getchar : S → ℤ × S
  pub fgets : S → ℕ → Option (List ℕ) × S

-- A line's text: neither a newline nor a null byte is in it.
unfoldable pub is_text : List ℕ → Bool
is_text [] = true
is_text (c ∷ rest) = not (c == 10) && (not (c == 0) && is_text rest)

-- What is documented of both, on a stream whose end stays the end.
pub record StdinLaws {S : Type 0} (io : Stdin S) : Type 0 where
  pub pending : S → List ℕ
  pub getchar_takes :
      (s : S) (c : ℕ) (rest : List ℕ)
      → pending s ≡ c ∷ rest
      → ((io.getchar s).0 ≡ pos c) × (pending (io.getchar s).1 ≡ rest)
  pub getchar_ends :
      (s : S) → pending s ≡ [] → ((io.getchar s).0 ≡ negsuc 0) × (pending (io.getchar s).1 ≡ [])
  pub fgets_takes :
      (s : S) (n : ℕ) (text rest : List ℕ)
      → pending s ≡ text ++ 10 ∷ rest
      → is_text text ≡ true
      → length text + 2 ≤ n
      → ((io.fgets s n).0 ≡ some (text ++ 10 ∷ [])) × (pending (io.fgets s n).1 ≡ rest)
  pub fgets_ends :
      (s : S) (n : ℕ) → pending s ≡ [] → ((io.fgets s n).0 ≡ none) × (pending (io.fgets s n).1 ≡ [])
