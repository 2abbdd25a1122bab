-- ===== src/Manager/Start.antt =====
-- `session_manager_init` of src/sessions/session_manager.c.
use sencd.Base.{ℕ, some, List, [], ◌∷◌}
use sencd.Base.Control.{M, ◌>>=◌, pure}
use sencd.Platform.Os.{Os}
use sencd.Platform.Sodium.{Random, Sodium}
use sencd.Crypto.{crypto_context_init, path_max, crypto_config_path, crypto_identity_load_or_create}
use sencd.Endpoint.Device.{TunConfig, Interfaces, tun_open}
use sencd.Manager.{SessionManager, cleared_manager}

-- "server_identity.key".
abbrev pub server_identity_name : List ℕ
server_identity_name =
    b's' ∷ b'e' ∷ b'r' ∷ b'v' ∷ b'e' ∷ b'r' ∷ b'_' ∷ b'i' ∷ b'd' ∷ b'e' ∷ b'n' ∷ b't' ∷ b'i' ∷ b't'
    ∷ b'y' ∷ b'.' ∷ b'k' ∷ b'e' ∷ b'y' ∷ []

-- "255.255.255.0".
abbrev pub default_netmask : List ℕ
default_netmask =
    b'2' ∷ b'5' ∷ b'5' ∷ b'.' ∷ b'2' ∷ b'5' ∷ b'5' ∷ b'.' ∷ b'2' ∷ b'5' ∷ b'5' ∷ b'.' ∷ b'0' ∷ []

-- The address "10.8.0.1" and the name "sencd0".
abbrev pub server_tun_config : TunConfig
server_tun_config = record {
  address = b'1' ∷ b'0' ∷ b'.' ∷ b'8' ∷ b'.' ∷ b'0' ∷ b'.' ∷ b'1' ∷ [];
  netmask = default_netmask;
  ifname = b's' ∷ b'e' ∷ b'n' ∷ b'c' ∷ b'd' ∷ b'0' ∷ [];
}

module _ {W : Type 0} ⦃os : Os W⦄ ⦃net : Interfaces W⦄ ⦃rnd : Random W⦄ ⦃na : Sodium⦄ where
  -- `none` is the result 1, after which the manager is not used. `size` is that of the device.
  unfoldable pub session_manager_init : ℕ → M W SessionManager
  session_manager_init size = do
    path ← crypto_config_path server_identity_name path_max
    identity ← crypto_identity_load_or_create crypto_context_init path
    dev ← tun_open size server_tun_config
    pure (record cleared_manager { identity = identity; tun = some dev.fd })
