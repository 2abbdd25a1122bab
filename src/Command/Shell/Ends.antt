-- ===== src/Command/Shell/Ends.antt =====
-- How the shell of src/commands/server_env.c ends, or does not.
use sencd.Base.{
  ℕ, zero, suc, ◌+◌, ◌≤◌, ◌<◌, ◌≡◌, refl, ◌∙◌, inl, inr, true, none, some, List, [], ◌∷◌, ◌++◌,
  arith, length,
}
use sencd.Platform.Stdin.{Stdin, StdinLaws}
use sencd.Command.Idle.{has_no_exit, idle_mode_waits}
use sencd.Command.Shell.{Flags, idle_name, shutdown_name, server_shell, input_size}
use sencd.Command.Shell.Script.{Typed, keys, all_harmless, idle_length, Serving}
use sencd.Command.Shell.Rounds.{
  split, round_reads, idle_text, shutdown_text, execute_command-idle, execute_command-shutdown,
}
use sencd.Command.Shell.Leads.{keys-Leads}

module _ {S : Type 0} ⦃io : Stdin S⦄ (laws : StdinLaws io) where
  open laws use {pending}

  -- The shell of a running server on an input of harmless lines, of at most 254 bytes and neither
  -- "idle" nor "shutdown", and idle modes that are left, and then the line "shutdown": with more
  -- rounds than have been typed, and as many for the idle modes as they need, it ends with the
  -- shutdown requested and what follows that line unread.
  pub server_shell_shuts_down :
      (typed : List Typed) (rest : List ℕ) (fuel rounds : ℕ) (f : Flags) (s : S)
      → pending s ≡ keys typed (shutdown_name ++ 10 ∷ rest)
      → all_harmless typed ≡ true
      → Serving f
      → idle_length typed ≤ fuel
      → length typed + 2 ≤ rounds
      → (g : Flags) × (t : S) × (server_shell fuel rounds (f, s) ≡ some (g, t))
        × (g.shutdown_requested ≡ 1)
        × (pending t ≡ rest)
  unfolding server_shell
  server_shell_shuts_down typed rest fuel rounds f s at safe serving enough long =
      let (g, t, serving', left, leads) =
        keys-Leads laws typed (shutdown_name ++ 10 ∷ rest) f s at safe serving in
      let (k, more) = split (length typed + 2) rounds long in
      let same : rounds ≡ length typed + suc (suc k) = omega arith in
      let goes = (leads fuel rounds).0 enough (suc (suc k)) same in
      let (_, left') =
        laws.fgets_takes t input_size shutdown_name rest left shutdown_text (omega arith) in
      let t' = (io.fgets t input_size).1 in
      let asked = record g { force_logs = 0; shutdown_requested = 1 } in
      let (reads, _) =
        round_reads laws fuel (suc k) shutdown_name rest g t left shutdown_text (omega arith)
          serving' in
      let down = reads (asked, t') (execute_command-shutdown laws fuel g t' serving') in
      (asked, t', goes ∙ down, refl, left')

  -- On an input of harmless lines and idle modes that are left, and nothing else, it ends with its
  -- input and no shutdown requested.
  pub server_shell_ends :
      (typed : List Typed) (fuel rounds : ℕ) (f : Flags) (s : S)
      → pending s ≡ keys typed []
      → all_harmless typed ≡ true
      → Serving f
      → idle_length typed ≤ fuel
      → length typed < rounds
      → (g : Flags) × (t : S) × (server_shell fuel rounds (f, s) ≡ some (g, t))
        × Serving g
        × (pending t ≡ [])
  unfolding server_shell
  server_shell_ends typed fuel rounds f s at safe serving enough long =
      let (g, t, serving', left, leads) = keys-Leads laws typed [] f s at safe serving in
      let (k, more) = split (suc (length typed)) rounds long in
      let same : rounds ≡ length typed + suc k = omega arith in
      let goes = (leads fuel rounds).0 enough (suc k) same in
      let (over, left') = laws.fgets_ends t input_size left in
      (g, (io.fgets t input_size).1, goes ∙ rw (serving'.1, over) refl, serving', left')

  idle-hangs :
      (before : List ℕ) (fuel rounds : ℕ) (f : Flags) (s : S)
      → pending s ≡ idle_name ++ 10 ∷ before
      → has_no_exit before ≡ true
      → Serving f
      → server_shell fuel rounds (f, s) ≡ none
  unfolding server_shell
  idle-hangs before fuel zero f s at stays serving = refl
  idle-hangs before fuel (suc k) f s at stays serving =
      let (_, left) = laws.fgets_takes s input_size idle_name before at idle_text (omega arith) in
      let (_, waits) =
        round_reads laws fuel k idle_name before f s at idle_text (omega arith) serving in
      let s' = (io.fgets s input_size).1 in
      waits
        ((execute_command-idle laws fuel f s').0 (idle_mode_waits laws before fuel s' left stays))

  -- Where an idle mode is never left, whatever lines follow "idle", a shutdown too, the shell never
  -- ends: not after any number of rounds.
  pub server_shell_hangs :
      (typed : List Typed) (before : List ℕ) (fuel rounds : ℕ) (f : Flags) (s : S)
      → pending s ≡ keys typed (idle_name ++ 10 ∷ before)
      → all_harmless typed ≡ true
      → has_no_exit before ≡ true
      → Serving f
      → server_shell fuel rounds (f, s) ≡ none
  unfolding server_shell
  server_shell_hangs typed before fuel rounds f s at safe stays serving =
      let (g, t, serving', left, leads) =
        keys-Leads laws typed (idle_name ++ 10 ∷ before) f s at safe serving in
      elim ((leads fuel rounds).1) [
        | inl waits ↦ waits
        | inr (k, goes) ↦ goes ∙ idle-hangs before fuel k g t left stays serving'
      ]
