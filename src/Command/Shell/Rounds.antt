-- ===== src/Command/Shell/Rounds.antt =====
-- One round of the shell of src/commands/server_env.c, by the line that it reads.
use sencd.Base.{
  ℕ, suc, ◌+◌, ◌-◌, ◌≤◌, ◌≡◌, refl, inl, inr, true, false, none, some, List, [], ◌∷◌, ◌++◌, arith,
  ◌==◌, length, Bool-cases,
}
use sencd.Base.Tests.{bytes_eq}
use sencd.Platform.Stdin.{Stdin, StdinLaws, is_text}
use sencd.Command.Idle.{idle_mode}
use sencd.Command.Shell.{
  Flags, idle_name, shutdown_name, clear_name, until_newline, find_command, cmd_shutdown,
  run_command, execute_command, server_shell, input_size,
}
use sencd.Command.Shell.Script.{Serving}

pub until_newline-line :
    (text : List ℕ) → is_text text ≡ true → until_newline (text ++ 10 ∷ []) ≡ text
unfolding until_newline is_text
until_newline-line [] h = refl
until_newline-line (c ∷ text) h =
    let rest = until_newline-line text (ground arith) in
    let no_newline : (c == 10) ≡ false = ground arith in
    let no_null : (c == 0) ≡ false = ground arith in rw (no_newline, no_null, rest) refl

pub split : (m n : ℕ) → m ≤ n → (k : ℕ) × (n ≡ m + k)
split m n h = (n - m, omega arith)

pub idle_text : is_text idle_name ≡ true
unfolding is_text
idle_text = refl

pub shutdown_text : is_text shutdown_name ≡ true
unfolding is_text
shutdown_text = refl

module _ {S : Type 0} ⦃io : Stdin S⦄ where
  pub line-keeps :
      (text : List ℕ) (f : Flags)
      → bytes_eq text idle_name ≡ false
      → bytes_eq text shutdown_name ≡ false
      → Serving f
      → (g : Flags) × Serving g
        × ((fuel : ℕ) (s : S) → execute_command fuel text (f, s) ≡ some (g, s))
  unfolding execute_command run_command find_command
  line-keeps text f not_idle not_shutdown serving = elim (Bool-cases (bytes_eq text clear_name)) [
    | inl clears ↦ (f, serving, λ fuel s. rw (not_idle, clears) refl)
    | inr other ↦
        (record f { force_logs = 0 }, serving, λ fuel s. rw (not_idle, other, not_shutdown) refl)
  ]

module _ {S : Type 0} ⦃io : Stdin S⦄ (laws : StdinLaws io) where
  open laws use {pending}

  -- A round of the shell that reads a line, and what the line's command comes to.
  pub round_reads :
      (fuel rounds : ℕ) (text rest : List ℕ) (f : Flags) (s : S)
      → pending s ≡ text ++ 10 ∷ rest
      → is_text text ≡ true
      → length text + 2 ≤ input_size
      → Serving f
      → ((p : Flags × S)
          → execute_command fuel text (f, (io.fgets s input_size).1) ≡ some p
          → server_shell fuel (suc rounds) (f, s) ≡ server_shell fuel rounds p)
        × (execute_command fuel text (f, (io.fgets s input_size).1) ≡ none
            → server_shell fuel (suc rounds) (f, s) ≡ none)
  unfolding server_shell
  round_reads fuel rounds text rest f s at clean short serving =
      let (reads, _) = laws.fgets_takes s input_size text rest at clean short in
      let cut = until_newline-line text clean in
      (λ p e. rw (serving.1, reads, cut, e) refl, λ e. rw (serving.1, reads, cut, e) refl)

  -- The command "idle" comes to what the idle mode comes to.
  pub execute_command-idle :
      (fuel : ℕ) (f : Flags) (s : S)
      → (idle_mode fuel s ≡ none → execute_command fuel idle_name (f, s) ≡ none)
        × ((t : S)
            → idle_mode fuel s ≡ some (0, t)
            → execute_command fuel idle_name (f, s) ≡ some (record f { idle_f = 0 }, t))
  unfolding execute_command run_command find_command bytes_eq
  execute_command-idle fuel f s = (
    λ e. rw (execute_command, run_command, e) refl,
    λ t e. rw (execute_command, run_command, e) refl,
  )

  pub execute_command-shutdown :
      (fuel : ℕ) (f : Flags) (s : S)
      → Serving f
      → execute_command fuel shutdown_name (f, s)
        ≡ some (record f { force_logs = 0; shutdown_requested = 1 }, s)
  unfolding execute_command run_command find_command bytes_eq cmd_shutdown
  execute_command-shutdown fuel f s serving = rw serving.0 refl
