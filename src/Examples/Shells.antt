-- ===== src/Examples/Shells.antt =====
-- The server's shell and its idle mode on a typed input.
use sencd.Base.{ℕ, ◌≡◌, refl, true, none, some, List, [], ◌∷◌, ◌++◌, arith}
use sencd.Base.Tests.{bytes_eq}
use sencd.Platform.Stdin.{is_text}
use sencd.Sim.Keyboard.{sim_stdin, sim_stdin_laws, sim_pending}
use sencd.Command.Idle.{exit_key, has_no_exit, after_key, idle_mode, idle_mode_returns}
use sencd.Command.Shell.{Flags, idle_name, shutdown_name, server_shell}
use sencd.Command.Shell.Script.{
  Typed, line, idling, keys, is_harmless, all_harmless, idle_length, Serving,
}
use sencd.Command.Shell.Ends.{server_shell_shuts_down, server_shell_ends, server_shell_hangs}

-- The text of a shutdown, typed in the idle mode.
abbrev ignored : List ℕ
ignored = shutdown_name ++ 10 ∷ []

no_exit : has_no_exit ignored ≡ true
unfolding has_no_exit
no_exit = refl

abbrev flags : Flags
flags = record { running = 1; shutdown_requested = 0; force_logs = 0; idle_f = 0 }

-- An unknown command, and an idle mode.
abbrev script : List Typed
script = line (b'x' ∷ []) ∷ idling ignored ∷ []

harmless : all_harmless script ≡ true
unfolding all_harmless is_harmless is_text bytes_eq has_no_exit
harmless = refl

idle_mode_returns_example :
    (idle_mode 10 (ignored ++ exit_key ∷ b'y' ∷ [])
      ≡ some (0, after_key ignored (ignored ++ exit_key ∷ b'y' ∷ [])))
    × (sim_stdin_laws.pending (after_key ignored (ignored ++ exit_key ∷ b'y' ∷ [])) ≡ b'y' ∷ [])
idle_mode_returns_example =
    idle_mode_returns sim_stdin_laws ignored (b'y' ∷ []) 10 (ignored ++ exit_key ∷ b'y' ∷ [])
      (sim_pending _) no_exit (omega arith)

server_shell_shuts_down_example :
    (g : Flags) × (t : List ℕ) × (server_shell 10 4
        (flags, keys script (shutdown_name ++ 10 ∷ b'z' ∷ []))
      ≡ some (g, t))
    × (g.shutdown_requested ≡ 1)
    × (sim_stdin_laws.pending t ≡ b'z' ∷ [])
unfolding idle_length
server_shell_shuts_down_example =
    server_shell_shuts_down sim_stdin_laws script (b'z' ∷ []) 10 4 flags
      (keys script (shutdown_name ++ 10 ∷ b'z' ∷ [])) (sim_pending _) harmless (refl, refl)
      (omega arith) (omega arith)

server_shell_ends_example :
    (g : Flags) × (t : List ℕ) × (server_shell 10 3 (flags, keys script []) ≡ some (g, t))
    × Serving g
    × (sim_stdin_laws.pending t ≡ [])
unfolding idle_length
server_shell_ends_example =
    server_shell_ends sim_stdin_laws script 10 3 flags (keys script []) (sim_pending _) harmless
      (refl, refl) (omega arith) (omega arith)

server_shell_hangs_example :
    server_shell 50 60 (flags, keys script (idle_name ++ 10 ∷ ignored)) ≡ none
server_shell_hangs_example =
    server_shell_hangs sim_stdin_laws script ignored 50 60 flags
      (keys script (idle_name ++ 10 ∷ ignored)) (sim_pending _) harmless no_exit (refl, refl)
