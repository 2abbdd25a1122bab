-- ===== src/Command/Client/Program.antt =====
-- `start_client_environment` of src/commands/client_env.c from its arguments to its shell. `atoi` is
-- the C library's.
use sencd.Base.{
  ℕ, zero, suc, ◌-◌, ◌%◌, ◌^◌, Option, none, some, List, [], ◌∷◌, ℤ, pos, negsuc, get_elem?,
}
use sencd.Platform.Os.{Os}
use sencd.Platform.Sodium.{Random, Sodium}
use sencd.Endpoint.Device.{Interfaces}
use sencd.Command.Client.{Client, ClientRun, open_client, client_listener}
use sencd.Command.Client.Start.{started}

-- "127.0.0.1".
abbrev pub client_default_ip : List ℕ
client_default_ip = b'1' ∷ b'2' ∷ b'7' ∷ b'.' ∷ b'0' ∷ b'.' ∷ b'0' ∷ b'.' ∷ b'1' ∷ []

abbrev pub client_default_port : ℕ
client_default_port = 8080

-- `(uint16_t)` of an int.
abbrev pub to_uint16 : ℤ → ℕ
to_uint16 (pos n) = n % 2 ^ 16
to_uint16 (negsuc n) = 2 ^ 16 - 1 - n % 2 ^ 16

abbrev pub ip_from : Option (List ℕ) → List ℕ
ip_from none = client_default_ip
ip_from (some text) = text

abbrev pub port_from : (List ℕ → ℤ) → Option (List ℕ) → ℕ
port_from atoi none = client_default_port
port_from atoi (some text) = to_uint16 (atoi text)

-- The address and the port that the arguments name; the program's name is among them.
unfoldable pub client_target : (List ℕ → ℤ) → List (List ℕ) → List ℕ × ℕ
client_target atoi argv = (ip_from (get_elem? argv 2), port_from atoi (get_elem? argv 3))

-- `if (data.connection_status != 0) return;`.
unfoldable pub connected_client : {W : Type 0} → ℕ × Client × W → Option ClientRun × W
connected_client (zero, c, w) = (some (started c), w)
connected_client (suc status, c, w) = (none, w)

module _ {W : Type 0} ⦃os : Os W⦄ ⦃net : Interfaces W⦄ ⦃rnd : Random W⦄ ⦃na : Sodium⦄ where
  -- What follows the opening of the device.
  unfoldable pub listen_client : List ℕ × ℕ → Option Client × W → Option ClientRun × W
  unfolding connected_client
  listen_client target (none, w) = (none, w)
  listen_client target (some c, w) = connected_client (client_listener target.0 target.1 c w)

  -- `start_client_environment` up to its shell, or an early return. `size` is that of the device.
  unfoldable pub start_client_environment :
      (List ℕ → ℤ) → ℕ → List (List ℕ) → W → Option ClientRun × W
  unfolding listen_client client_target
  start_client_environment atoi size argv w =
      listen_client (client_target atoi argv) (open_client size w)
