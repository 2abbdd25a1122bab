-- ===== src/Command/Shell.antt =====
-- The shell of src/commands/server_env.c: lines of input, the commands that they name, and what the
-- commands set. What a command prints is left out.
pub mod Script
pub mod Rounds
pub mod Leads
pub mod Ends
use sencd.Base.{
  ℕ, zero, suc, ◌≡◌, true, false, ◌||◌, Option, none, some, List, [], ◌∷◌, ◌==◌, if◌then◌else◌,
}
use sencd.Base.Tests.{bytes_eq}
use sencd.Platform.Stdin.{Stdin}
use sencd.Command.Idle.{idle_mode}

-- `input[strcspn(input, "\n")] = 0`: the text up to the first newline, or to the null byte that ends
-- the string before it.
unfoldable pub until_newline : List ℕ → List ℕ
until_newline [] = []
until_newline (c ∷ rest) =
    let more = c ∷ until_newline rest in if c == 10 || c == 0 then [] else more

pub data ServerCommand : Type 0 where
  idle : ServerCommand
  clear : ServerCommand
  shutdown : ServerCommand

abbrev pub shutdown_name : List ℕ
shutdown_name = b's' ∷ b'h' ∷ b'u' ∷ b't' ∷ b'd' ∷ b'o' ∷ b'w' ∷ b'n' ∷ []

abbrev pub idle_name : List ℕ
idle_name = b'i' ∷ b'd' ∷ b'l' ∷ b'e' ∷ []

abbrev pub clear_name : List ℕ
clear_name = b'c' ∷ b'l' ∷ b'e' ∷ b'a' ∷ b'r' ∷ []

-- The table `commands`, in its order.
abbrev pub server_commands : List (List ℕ × ServerCommand)
server_commands = (idle_name, idle) ∷ (clear_name, clear) ∷ (shutdown_name, shutdown) ∷ []

-- The loop of `execute_command`: the first command of the name.
unfoldable pub find_command : {A : Type 0} → List ℕ → List (List ℕ × A) → Option A
find_command input [] = none
find_command input ((name, command) ∷ rest) =
    let later = find_command input rest in if bytes_eq input name then some command else later

-- The server's flags: `running` of the active server, `shutdown_requested`, `force_logs` and
-- `idle_f`.
pub record Flags : Type 0 where
  pub running : ℕ
  pub shutdown_requested : ℕ
  pub force_logs : ℕ
  pub idle_f : ℕ

unfoldable pub cmd_shutdown : Flags → Flags
cmd_shutdown f =
    if f.running == 0
    then record f { force_logs = 1 }
    else record f { force_logs = 0; shutdown_requested = 1 }

-- `char input[256]`.
abbrev pub input_size : ℕ
input_size = 256

module _ {S : Type 0} ⦃io : Stdin S⦄ where
  -- An unknown command is reported with `force_logs` set for the time. The idle mode reads on in the
  -- shell's input; `none` where it has not returned after `fuel` rounds of its loop.
  unfoldable pub run_command : ℕ → Option ServerCommand → Flags × S → Option (Flags × S)
  unfolding cmd_shutdown
  run_command fuel none (f, s) = some (record f { force_logs = 0 }, s)
  run_command fuel (some idle) (f, s) = elim (idle_mode fuel s) [
    | none ↦ none
    | some (idle_f, t) ↦ some (record f { idle_f = idle_f }, t)
  ]
  run_command fuel (some clear) p = some p
  run_command fuel (some shutdown) (f, s) = some (cmd_shutdown f, s)

  unfoldable pub execute_command : ℕ → List ℕ → Flags × S → Option (Flags × S)
  unfolding run_command
  execute_command fuel input p = run_command fuel (find_command input server_commands) p

  -- The loop of `start_server_environment`, of which `rounds` rounds are looked at and as many as
  -- `fuel` of each idle mode's loop: the flags and the input that it ends with.
  unfoldable pub server_shell : ℕ → ℕ → Flags × S → Option (Flags × S)
  unfolding execute_command until_newline
  server_shell fuel zero p = none
  server_shell fuel (suc rounds) (f, s) =
      let (line, s') = io.fgets s input_size in
      let next : Option (Flags × S) = elim line [
        | none ↦ some (f, s')
        | some text ↦ elim (execute_command fuel (until_newline text) (f, s')) [
          | none ↦ none
          | some p ↦ server_shell fuel rounds p
        ]
      ] in
      if f.shutdown_requested == 0 then next else some (f, s)
