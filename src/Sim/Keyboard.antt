-- ===== src/Sim/Keyboard.antt =====
-- A standard input that is the list of the bytes to come.
use sencd.Base.{
  ℕ, zero, suc, ◌-◌, ◌+◌, ◌≤◌, ◌<◌, ◌≡◌, refl, ap, ◌∙◌, true, false, Option, none, some, List, [],
  ◌∷◌, ◌++◌, arith, ◌==◌, if◌then◌else◌, length, ℤ, pos, negsuc,
}
use sencd.Platform.Stdin.{Stdin, StdinLaws, is_text}

abbrev more_of : ℕ → List ℕ × List ℕ → List ℕ × List ℕ
more_of c (line, rest) = (c ∷ line, rest)

-- At most so many bytes, up to a newline and with it.
cut_line : ℕ → List ℕ → List ℕ × List ℕ
cut_line zero bytes = ([], bytes)
cut_line (suc n) [] = ([], [])
cut_line (suc n) (c ∷ rest) =
    let more = more_of c (cut_line n rest) in if c == 10 then (c ∷ [], rest) else more

abbrev read_line : List ℕ → ℕ → Option (List ℕ) × List ℕ
read_line [] n = (none, [])
read_line (c ∷ rest) n = let (line, left) = cut_line (n - 1) (c ∷ rest) in (some line, left)

abbrev read_char : List ℕ → ℤ × List ℕ
read_char [] = (negsuc 0, [])
read_char (c ∷ rest) = (pos c, rest)

instance unfoldable pub sim_stdin : Stdin (List ℕ)
unfolding cut_line
sim_stdin = record { getchar = read_char; fgets = read_line }

cut_line-line :
    (text rest : List ℕ) (n : ℕ)
    → is_text text ≡ true
    → length text < n
    → cut_line n (text ++ 10 ∷ rest) ≡ (text ++ 10 ∷ [], rest)
unfolding cut_line is_text
cut_line-line text rest zero clean short = absurd (omega arith)
cut_line-line [] rest (suc n) clean short = refl
cut_line-line (c ∷ text) rest (suc n) clean short =
    let other : (c == 10) ≡ false = ground arith in
    rw other (ap (more_of c) (cut_line-line text rest n (ground arith) (omega arith)))

read_line-line :
    (text rest : List ℕ) (n : ℕ)
    → is_text text ≡ true
    → length text + 2 ≤ n
    → read_line (text ++ 10 ∷ rest) n ≡ (some (text ++ 10 ∷ []), rest)
read_line-line [] rest n clean short =
    ap (λ p. (some p.0, p.1)) (cut_line-line [] rest (n - 1) clean (omega arith))
read_line-line (c ∷ text) rest n clean short =
    ap (λ p. (some p.0, p.1)) (cut_line-line (c ∷ text) rest (n - 1) clean (omega arith))

pub sim_stdin_laws : StdinLaws sim_stdin
unfolding sim_stdin
sim_stdin_laws = record {
  pending = λ s. s;
  getchar_takes = λ s c rest e. (ap (λ x. (read_char x).0) e, ap (λ x. (read_char x).1) e);
  getchar_ends = λ s e. (ap (λ x. (read_char x).0) e, ap (λ x. (read_char x).1) e);
  fgets_takes = λ s n text rest e clean short.
      let line = ap (λ x. read_line x n) e ∙ read_line-line text rest n clean short in
      (ap (λ p. p.0) line, ap (λ p. p.1) line);
  fgets_ends = λ s n e. (ap (λ x. (read_line x n).0) e, ap (λ x. (read_line x n).1) e);
}

pub sim_pending : (s : List ℕ) → sim_stdin_laws.pending s ≡ s
unfolding sim_stdin_laws
sim_pending s = refl
