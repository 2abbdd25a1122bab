-- ===== src/Command/Idle.antt =====
-- src/server/serverinit/idle.c: the idle mode, in which the server's messages are printed, on the
-- standard input that it shares with the shell. The terminal's modes are left out.
use sencd.Base.{
  ℕ, zero, suc, ◌<◌, ◌≡◌, refl, Bool, true, false, ◌&&◌, not, ◌⊎◌, inl, inr, Option, none, some,
  List, [], ◌∷◌, ◌++◌, arith, ◌==◌, length, ℤ, pos, negsuc, if◌then◌else◌,
}
use sencd.Platform.Stdin.{Stdin, StdinLaws}

-- EXIT_KEY, C-x.
abbrev pub exit_key : ℕ
exit_key = 24

unfoldable pub is_exit : ℤ → Bool
is_exit (pos c) = c == exit_key
is_exit (negsuc n) = false

module _ {S : Type 0} ⦃io : Stdin S⦄ where
  -- The loop of `idle_mode`, of which `fuel` rounds are looked at: the input that it leaves, `none`
  -- where it goes on after them.
  unfoldable pub idle_loop : ℕ → S → Option S
  unfolding is_exit
  idle_loop zero s = none
  idle_loop (suc fuel) s =
      let (c, s') = io.getchar s in
      let later = idle_loop fuel s' in if is_exit c then some s' else later

  -- `idle_mode`: `idle_f` when it returns, and the input that it leaves.
  unfoldable pub idle_mode : ℕ → S → Option (ℕ × S)
  unfolding idle_loop
  idle_mode fuel s = elim (idle_loop fuel s) [ none ↦ none | some rest ↦ some (0, rest) ]

-- No character of a text is the exit key.
unfoldable pub has_no_exit : List ℕ → Bool
has_no_exit [] = true
has_no_exit (c ∷ rest) = not (c == exit_key) && has_no_exit rest

module _ {S : Type 0} ⦃io : Stdin S⦄ where
  -- The input after the text and the key behind it were read.
  unfoldable pub after_key : List ℕ → S → S
  after_key [] s = (io.getchar s).1
  after_key (c ∷ before) s = after_key before (io.getchar s).1

module _ {S : Type 0} ⦃io : Stdin S⦄ (laws : StdinLaws io) where
  open laws use {pending}

  after_key-pending :
      (before rest : List ℕ) (s : S)
      → pending s ≡ before ++ exit_key ∷ rest
      → pending (after_key before s) ≡ rest
  unfolding after_key
  after_key-pending [] rest s at = (laws.getchar_takes s exit_key rest at).1
  after_key-pending (c ∷ before) rest s at =
      after_key-pending before rest (io.getchar s).1
        (laws.getchar_takes s c (before ++ exit_key ∷ rest) at).1

  -- With the exit key in the input, the loop stops behind it; it has not stopped before.
  idle_loop-stops :
      (before rest : List ℕ) (fuel : ℕ) (s : S)
      → pending s ≡ before ++ exit_key ∷ rest
      → has_no_exit before ≡ true
      → (length before < fuel → idle_loop fuel s ≡ some (after_key before s))
        × ((idle_loop fuel s ≡ none) ⊎ (idle_loop fuel s ≡ some (after_key before s)))
  unfolding idle_loop is_exit has_no_exit after_key
  idle_loop-stops before rest zero s at free = (λ long. absurd (omega arith), inl refl)
  idle_loop-stops [] rest (suc fuel) s at free =
      let (key, _) = laws.getchar_takes s exit_key rest at in
      (λ long. rw key refl, inr (rw key refl))
  idle_loop-stops (c ∷ before) rest (suc fuel) s at free =
      let (read, left) = laws.getchar_takes s c (before ++ exit_key ∷ rest) at in
      let other : (c == exit_key) ≡ false = ground arith in
      let (stops, either) = idle_loop-stops before rest fuel (io.getchar s).1 left (ground arith) in
      (λ long. rw (read, other) (stops (omega arith)), rw (read, other) either)

  -- Without the key the loop goes on for ever, at the end of the input too.
  idle_loop-waits :
      (before : List ℕ) (fuel : ℕ) (s : S)
      → pending s ≡ before
      → has_no_exit before ≡ true
      → idle_loop fuel s ≡ none
  unfolding idle_loop is_exit has_no_exit
  idle_loop-waits before zero s at free = refl
  idle_loop-waits [] (suc fuel) s at free =
      let (over, still) = laws.getchar_ends s at in
      rw over (idle_loop-waits [] fuel (io.getchar s).1 still refl)
  idle_loop-waits (c ∷ before) (suc fuel) s at free =
      let (read, left) = laws.getchar_takes s c before at in
      let other : (c == exit_key) ≡ false = ground arith in
      rw (read, other) (idle_loop-waits before fuel (io.getchar s).1 left (ground arith))

  pub idle_mode_either :
      (before rest : List ℕ) (fuel : ℕ) (s : S)
      → pending s ≡ before ++ exit_key ∷ rest
      → has_no_exit before ≡ true
      → (idle_mode fuel s ≡ none) ⊎ (idle_mode fuel s ≡ some (0, after_key before s))
  unfolding idle_mode
  idle_mode_either before rest fuel s at free =
      elim ((idle_loop-stops before rest fuel s at free).1) [
        | inl on ↦ inl (rw (idle_mode, on) refl)
        | inr off ↦ inr (rw (idle_mode, off) refl)
      ]

  -- The idle mode returns at the first exit key in the input, with `idle_f` reset and what follows the
  -- key unread, when its loop may have more rounds than there are bytes before the key.
  pub idle_mode_returns :
      (before rest : List ℕ) (fuel : ℕ) (s : S)
      → pending s ≡ before ++ exit_key ∷ rest
      → has_no_exit before ≡ true
      → length before < fuel
      → (idle_mode fuel s ≡ some (0, after_key before s)) × (pending (after_key before s) ≡ rest)
  unfolding idle_mode
  idle_mode_returns before rest fuel s at free long = (
    rw (idle_mode, (idle_loop-stops before rest fuel s at free).0 long) refl,
    after_key-pending before rest s at,
  )

  -- On an input without the exit key the idle mode never returns: not after any number of rounds,
  -- since the end of the input does not stop its loop.
  pub idle_mode_waits :
      (before : List ℕ) (fuel : ℕ) (s : S)
      → pending s ≡ before
      → has_no_exit before ≡ true
      → idle_mode fuel s ≡ none
  unfolding idle_mode
  idle_mode_waits before fuel s at free = rw (idle_mode, idle_loop-waits before fuel s at free) refl
