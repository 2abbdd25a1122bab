-- ===== src/Command/Entry.antt =====
-- src/main/client.c and src/main/server.c: what the two programs do with their arguments. What they
-- print is left out. `atoi` is the C library's, `sodium_init` libsodium's.
use sencd.Base.{
  ℕ, ◌≡◌, refl, Option, none, some, List, [], ◌∷◌, ℤ, nonneg, get_elem?, if◌then◌else◌, bytes_eq,
  Bool-cases, inl, inr, sym, ◌∙◌, arith,
}
use sencd.Base.Control.{M}
use sencd.Platform.Os.{Os, DescriptorLaws}
use sencd.Platform.Calls.{QuietLaws}
use sencd.Platform.Sodium.{Random, Sodium}
use sencd.Platform.Zstd.{Zstd}
use sencd.Endpoint.Server.{Server}
use sencd.Endpoint.Device.{Interfaces}
use sencd.Endpoint.Device.Opening.{InterfaceLaws}
use sencd.Manager.{SessionManager}
use sencd.Manager.Trusted.{IsGuarded}
use sencd.Command.Client.{ClientRun}
use sencd.Command.Client.Steps.{ClientReaches}
use sencd.Command.Client.Program.{to_uint16, start_client_environment}
use sencd.Command.Client.Ends.{Finished, start_client_environment-Finished}
use sencd.Command.Server.{start_server_environment}
use sencd.Command.Server.Reach.{ServerState, ServerReaches, server-IsGuarded}

-- What the first argument asks for.
pub data Asked : Type 0 where
  usage : Asked
  help : Asked
  environment : Asked
  invalid : Asked

-- "--help", "connect" and "start".
abbrev pub help_word : List ℕ
help_word = b'-' ∷ b'-' ∷ b'h' ∷ b'e' ∷ b'l' ∷ b'p' ∷ []

abbrev pub connect_word : List ℕ
connect_word = b'c' ∷ b'o' ∷ b'n' ∷ b'n' ∷ b'e' ∷ b'c' ∷ b't' ∷ []

abbrev pub start_word : List ℕ
start_word = b's' ∷ b't' ∷ b'a' ∷ b'r' ∷ b't' ∷ []

abbrev word_asks : List ℕ → Option (List ℕ) → Asked
word_asks word none = usage
word_asks word (some text) =
    if bytes_eq text help_word then help else if bytes_eq text word then environment else invalid

-- The arguments, the program's name among them.
unfoldable pub asks : List ℕ → List (List ℕ) → Asked
asks word argv = word_asks word (get_elem? argv 1)

-- Only one of the four branches starts an environment.
unfoldable pub dispatch : {W A : Type 0} → Asked → Option A × W → W → Option A × W
dispatch usage run w = (none, w)
dispatch help run w = (none, w)
dispatch environment run w = run
dispatch invalid run w = (none, w)

dispatch-eq-some :
    {W A : Type 0} (a : Asked) (run : Option A × W) (w : W) {b : A} {v : W}
    → dispatch a run w ≡ (some b, v)
    → run ≡ (some b, v)
unfolding dispatch
dispatch-eq-some usage run w e = cc e
dispatch-eq-some help run w e = cc e
dispatch-eq-some environment run w e = e
dispatch-eq-some invalid run w e = cc e

-- `crypto_init`, after which the program goes on only if `sodium_init` has not failed.
unfoldable pub crypto_init : {W A : Type 0} → (W → ℤ × W) → M W A → M W A
crypto_init sodium_init go w =
    let (result, w') = sodium_init w in if nonneg result then go w' else (none, w')

abbrev pub server_default_port : ℕ
server_default_port = 8080

abbrev pub server_port : (List ℕ → ℤ) → Option (List ℕ) → ℕ
server_port atoi none = server_default_port
server_port atoi (some text) = to_uint16 (atoi text)

module _ {W : Type 0} ⦃os : Os W⦄ ⦃net : Interfaces W⦄ ⦃rnd : Random W⦄ ⦃na : Sodium⦄ where
  unfoldable pub client_main : (List ℕ → ℤ) → ℕ → List (List ℕ) → W → Option ClientRun × W
  unfolding dispatch asks
  client_main atoi size argv w =
      dispatch (asks connect_word argv) (start_client_environment atoi size argv w) w

  unfoldable pub server_main :
      (List ℕ → ℤ) → (W → ℤ × W) → ℕ → List (List ℕ) → W → Option (Server × SessionManager) × W
  unfolding dispatch asks crypto_init
  server_main atoi sodium_init size argv w =
      let port = server_port atoi (get_elem? argv 2) in
      dispatch (asks start_word argv)
        (crypto_init sodium_init (start_server_environment size port) w) w

module _ {W : Type 0} ⦃os : Os W⦄ ⦃net : Interfaces W⦄ ⦃rnd : Random W⦄ ⦃na : Sodium⦄
    ⦃z : Zstd⦄ where
  -- The client's program, with whatever arguments, once it has connected: after rounds of its threads
  -- and commands of its shell in any order and any number it ends with the connection disconnected
  -- and without a socket, and every descriptor but that of the session's tunnel is open exactly if it was
  -- before the start or is the device's, which stays open.
  pub client_main-Finished :
      (laws : DescriptorLaws os) (quiet : QuietLaws os rnd laws) (calls : InterfaceLaws net laws)
      (atoi : List ℕ → ℤ) (size : ℕ) (argv : List (List ℕ)) (w v : W) (r : ClientRun)
      (q : ClientRun × W)
      → client_main atoi size argv w ≡ (some r, v)
      → ClientReaches (r, v) q
      → Finished laws quiet calls w r q
  unfolding client_main
  client_main-Finished laws quiet calls atoi size argv w v r q e run =
      start_client_environment-Finished laws quiet calls atoi size argv w v r q
        (dispatch-eq-some (asks connect_word argv) (start_client_environment atoi size argv w) w e)
        run

  crypto_init-IsGuarded :
      (sodium_init : W → ℤ × W) (size port : ℕ) (w v : W) (s : Server) (m : SessionManager)
      (y : ServerState W)
      → crypto_init sodium_init (start_server_environment size port) w ≡ (some (s, m), v)
      → ServerReaches (s, m, v) y
      → IsGuarded y.1
  unfolding crypto_init
  crypto_init-IsGuarded sodium_init size port w v s m y e run =
      elim (Bool-cases (nonneg (sodium_init w).0)) [
        | inl ready ↦
            server-IsGuarded size port (sodium_init w).1 v s m y (sym (rw ready refl) ∙ e) run
        | inr failed ↦ absurd (ground (arith, failed, e))
      ]

  -- The server's program, with whatever arguments, once it has started: in whatever order the rounds
  -- of its three threads and the shutdown of its socket follow each other, the table has its 1024
  -- slots, its count is the number of sessions in it, each session's octet is that of its slot, and
  -- every session in it is established with a verified peer.
  pub server_main-IsGuarded :
      (atoi : List ℕ → ℤ) (sodium_init : W → ℤ × W) (size : ℕ) (argv : List (List ℕ)) (w v : W)
      (s : Server) (m : SessionManager) (y : ServerState W)
      → server_main atoi sodium_init size argv w ≡ (some (s, m), v)
      → ServerReaches (s, m, v) y
      → IsGuarded y.1
  unfolding server_main
  server_main-IsGuarded atoi sodium_init size argv w v s m y e run =
      crypto_init-IsGuarded sodium_init size (server_port atoi (get_elem? argv 2)) w v s m y
        (dispatch-eq-some (asks start_word argv) _ w e) run
