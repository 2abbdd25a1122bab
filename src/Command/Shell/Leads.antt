-- ===== src/Command/Shell/Leads.antt =====
-- Where the shell of src/commands/server_env.c comes to on what has been typed.
use sencd.Base.{
  ℕ, zero, suc, ◌+◌, ◌≤◌, ◌≡◌, refl, ap, ◌∙◌, ◌⊎◌, inl, inr, true, none, List, [], ◌∷◌, ◌++◌, arith,
  length,
}
use sencd.Platform.Stdin.{Stdin, StdinLaws, is_text}
use sencd.Command.Idle.{exit_key, has_no_exit, after_key, idle_mode_either, idle_mode_returns}
use sencd.Command.Shell.{Flags, idle_name, server_shell, input_size}
use sencd.Command.Shell.Script.{
  Typed, line, idling, keys, is_harmless, all_harmless, idle_length, Serving,
}
use sencd.Command.Shell.Rounds.{line-keeps, round_reads, idle_text, execute_command-idle}

module _ {S : Type 0} ⦃io : Stdin S⦄ (laws : StdinLaws io) where
  open laws use {pending}

  -- From the one state the shell comes to the other, in as many rounds as have been typed, if the
  -- idle modes end within the fuel; and in any case it comes there or has not come to its end.
  abbrev pub Leads : List Typed → Flags × S → Flags × S → Type 0
  Leads typed p q =
      (fuel rounds : ℕ)
      → (idle_length typed ≤ fuel
          → (k : ℕ) → rounds ≡ length typed + k
          → server_shell fuel rounds p ≡ server_shell fuel k q)
        × ((server_shell fuel rounds p ≡ none)
            ⊎ ((k : ℕ) × (server_shell fuel rounds p ≡ server_shell fuel k q)))

  -- One round, which needs `n` rounds of an idle mode.
  abbrev Steps : ℕ → Flags × S → Flags × S → Type 0
  Steps n p q =
      (fuel rounds : ℕ)
      → (n ≤ fuel → server_shell fuel (suc rounds) p ≡ server_shell fuel rounds q)
        × ((server_shell fuel (suc rounds) p ≡ none)
            ⊎ (server_shell fuel (suc rounds) p ≡ server_shell fuel rounds q))

  Steps-Leads :
      (n : ℕ) (first : Typed) (rest : List Typed) (p q u : Flags × S)
      → idle_length (first ∷ rest) ≡ n + idle_length rest
      → Steps n p q
      → Leads rest q u
      → Leads (first ∷ rest) p u
  unfolding server_shell
  Steps-Leads n first rest p q u needs step more fuel zero =
      (λ long k e. absurd (omega arith), inl refl)
  Steps-Leads n first rest p q u needs step more fuel (suc rounds) =
      let (goes, either) = step fuel rounds in
      let (on, or_not) = more fuel rounds in
      (
        λ long k e. goes (omega arith) ∙ on (omega arith) k (omega arith),
        elim either [
          | inl stuck ↦ inl stuck
          | inr there ↦ elim or_not [
            | inl stuck ↦ inl (there ∙ stuck)
            | inr (k, far) ↦ inr (k, there ∙ far)
          ]
        ],
      )

  line-Steps :
      (text rest : List ℕ) (f : Flags) (s : S)
      → pending s ≡ text ++ 10 ∷ rest
      → is_harmless (line text) ≡ true
      → Serving f
      → (g : Flags) × (t : S) × Serving g × (pending t ≡ rest) × Steps 0 (f, s) (g, t)
  unfolding is_harmless
  line-Steps text rest f s at safe serving =
      let clean : is_text text ≡ true = ground arith in
      let short : length text + 2 ≤ input_size = ground arith in
      let (_, left) = laws.fgets_takes s input_size text rest at clean short in
      let s' = (io.fgets s input_size).1 in
      let (g, serving', keeps) = line-keeps text f (ground arith) (ground arith) serving in
      (
        g,
        s',
        serving',
        left,
        λ fuel rounds.
            let (goes, _) = round_reads laws fuel rounds text rest f s at clean short serving in
            let there = goes (g, s') (keeps fuel s') in (λ long. there, inr there),
      )

  idling-Steps :
      (before rest : List ℕ) (f : Flags) (s : S)
      → pending s ≡ idle_name ++ 10 ∷ before ++ exit_key ∷ rest
      → has_no_exit before ≡ true
      → Serving f
      → (t : S) × (pending t ≡ rest)
        × Steps (suc (length before)) (f, s) (record f { idle_f = 0 }, t)
  idling-Steps before rest f s at safe serving =
      let (_, left) =
        laws.fgets_takes s input_size idle_name (before ++ exit_key ∷ rest) at idle_text
          (omega arith) in
      let s' = (io.fgets s input_size).1 in
      let t = after_key before s' in
      (
        t,
        (idle_mode_returns laws before rest (suc (length before)) s' left safe (omega arith)).1,
        λ fuel rounds.
            let (goes, stays) =
              round_reads laws fuel rounds idle_name (before ++ exit_key ∷ rest) f s at idle_text
                (omega arith) serving in
            let (on, off) = execute_command-idle laws fuel f s' in
            (
              λ long.
                  goes (record f { idle_f = 0 }, t)
                    (off t (idle_mode_returns laws before rest fuel s' left safe (omega arith)).0),
              elim (idle_mode_either laws before rest fuel s' left safe) [
                | inl waits ↦ inl (stays (on waits))
                | inr ends ↦ inr (goes (record f { idle_f = 0 }, t) (off t ends))
              ],
            ),
      )

  -- What has been typed leads to one state of the shell, with the rest of the input.
  pub keys-Leads :
      (typed : List Typed) (tail : List ℕ) (f : Flags) (s : S)
      → pending s ≡ keys typed tail
      → all_harmless typed ≡ true
      → Serving f
      → (g : Flags) × (t : S) × Serving g × (pending t ≡ tail) × Leads typed (f, s) (g, t)
  unfolding keys all_harmless is_harmless idle_length
  keys-Leads [] tail f s at safe serving = (
    f,
    s,
    serving,
    at,
    λ fuel rounds. (
      λ long k e. let same : rounds ≡ k = omega arith in ap (λ n. server_shell fuel n (f, s)) same,
      inr (rounds, refl),
    ),
  )
  keys-Leads (line text ∷ rest) tail f s at safe serving =
      let (g, t, serving', left, step) =
        line-Steps text (keys rest tail) f s at (ground arith) serving in
      let (g', t', over, end, more) = keys-Leads rest tail g t left (ground arith) serving' in
      (
        g',
        t',
        over,
        end,
        Steps-Leads 0 (line text) rest (f, s) (g, t) (g', t') (omega arith) step more,
      )
  keys-Leads (idling before ∷ rest) tail f s at safe serving =
      let (t, left, step) = idling-Steps before (keys rest tail) f s at (ground arith) serving in
      let g = record f { idle_f = 0 } in
      let (g', t', over, end, more) = keys-Leads rest tail g t left (ground arith) serving in
      (
        g',
        t',
        over,
        end,
        Steps-Leads (suc (length before)) (idling before) rest (f, s) (g, t) (g', t') refl step
            more,
      )
