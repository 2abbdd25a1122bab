-- ===== src/Command/Client.antt =====
-- src/commands/client_env.h and client_env.c: the client's threads and its shell. A round of a
-- thread's loop is one step, from the return of `select` or of a blocking call on; creating threads
-- is not modelled, and what the commands print is left out.
pub mod Steps
pub mod Coherent
pub mod Rounds
pub mod Start
pub mod Nonces
pub mod Race
pub mod Program
pub mod Ends
use sencd.Base.{
  ℕ, zero, suc, Bool, true, false, ◌&&◌, not, Option, none, some, List, [], ◌∷◌, length, ◌==◌,
  if◌then◌else◌, ℤ, pos, negsuc, nonneg, no_fd,
}
use sencd.Base.Control.{M, ◌>>=◌}
use sencd.Platform.Os.{Os}
use sencd.Platform.Sodium.{Random, Sodium}
use sencd.Platform.Zstd.{Zstd}
use sencd.Packet.{Packet, disconnect, code, packet_receive}
use sencd.Crypto.{
  CryptoContext, path_max, crypto_context_init, crypto_config_path, crypto_trust_key_load,
  crypto_identity_load_or_create,
}
use sencd.Tunnel.Udp.{UdpTunnel, udp_tunnel_client_open}
use sencd.Tunnel.Frame.{tunnel_packet_max_size, tunnel_packet_max_plaintext}
use sencd.Tunnel.Compress.{tunnel_pipeline_compress}
use sencd.Tunnel.Pipeline.{outbound, inbound}
use sencd.Session.{
  Session, client, session_init, session_create, session_destroy, session_client_connect,
  trusted_key_name,
}
use sencd.Manager.Slots.{is_established}
use sencd.Manager.Traffic.{count_sent}
use sencd.Manager.Start.{default_netmask}
use sencd.Endpoint.Client.{
  Connection, disconnected, is_disconnected, connection_init, connection_connect,
  connection_disconnect,
}
use sencd.Endpoint.Device.{TunConfig, TunDevice, Interfaces, tun_open, tun_read}
use sencd.Command.Shell.{find_command, until_newline}

pub record Client : Type 0 where
  pub session : Session
  pub identity : CryptoContext
  pub connection : Connection
  pub tun : TunDevice

pub data ClientCommand : Type 0 where
  clear : ClientCommand
  disconnect_now : ClientCommand

-- The table `commands`: "clear" and "disconnect".
abbrev pub client_commands : List (List ℕ × ClientCommand)
client_commands =
    (b'c' ∷ b'l' ∷ b'e' ∷ b'a' ∷ b'r' ∷ [], clear)
    ∷ (b'd' ∷ b'i' ∷ b's' ∷ b'c' ∷ b'o' ∷ b'n' ∷ b'n' ∷ b'e' ∷ b'c' ∷ b't' ∷ [], disconnect_now)
    ∷ []

-- "client_identity.key".
abbrev pub client_identity_name : List ℕ
client_identity_name =
    b'c' ∷ b'l' ∷ b'i' ∷ b'e' ∷ b'n' ∷ b't' ∷ b'_' ∷ b'i' ∷ b'd' ∷ b'e' ∷ b'n' ∷ b't' ∷ b'i' ∷ b't'
    ∷ b'y' ∷ b'.' ∷ b'k' ∷ b'e' ∷ b'y' ∷ []

-- The address "10.8.0.2" and the name "sencd1".
abbrev pub client_tun_config : TunConfig
client_tun_config = record {
  address = b'1' ∷ b'0' ∷ b'.' ∷ b'8' ∷ b'.' ∷ b'0' ∷ b'.' ∷ b'2' ∷ [];
  netmask = default_netmask;
  ifname = b's' ∷ b'e' ∷ b'n' ∷ b'c' ∷ b'd' ∷ b'1' ∷ [];
}

-- The client, `should_exit`, and whether `client_receiver` has not returned yet.
pub record ClientRun : Type 0 where
  pub client : Client
  pub should_exit : ℕ
  pub receiving : Bool

module _ {W : Type 0} ⦃os : Os W⦄ ⦃net : Interfaces W⦄ ⦃rnd : Random W⦄ ⦃na : Sodium⦄ where
  -- `start_client_environment` up to the creation of the listener; `size` is that of the device.
  unfoldable pub open_client : ℕ → M W Client
  open_client size = do
    path ← crypto_config_path client_identity_name path_max
    identity ← crypto_identity_load_or_create crypto_context_init path
    dev ← tun_open size client_tun_config
    (λ w. (
      some (record {
        session = session_init client;
        identity = identity;
        connection = connection_init;
        tun = dev;
      }),
      w,
    ))

module _ {W : Type 0} ⦃os : Os W⦄ where
  -- The server's key that is in the key file, if any.
  unfoldable pub trusted_on_disk : W → Option (List ℕ) × W
  trusted_on_disk w =
      let (path, w') = crypto_config_path trusted_key_name path_max w in
      (elim path [ none ↦ none | some name ↦ crypto_trust_key_load name w' ], w')

  -- The end of `client_listener`: `connection_status`, the client and the world.
  unfoldable pub tunnel_opened :
      Client → Session → Option (Unit {0}) × UdpTunnel × W → ℕ × Client × W
  tunnel_opened c s (none, udp, w) = (1, record c { session = record s { udp = udp } }, w)
  tunnel_opened c s (some _, udp, w) = (0, record c { session = record s { udp = udp } }, w)

  unfoldable pub open_tunnel :
      List ℕ → ℕ → Client → Option (Unit {0}) × (Session × W) → ℕ × Client × W
  unfolding tunnel_opened
  open_tunnel ip port c (none, (s, w)) = (1, record c { session = s }, w)
  open_tunnel ip port c (some _, (s, w)) =
      tunnel_opened c s (udp_tunnel_client_open s.udp ip port w)

module _ {W : Type 0} ⦃os : Os W⦄ ⦃rnd : Random W⦄ ⦃na : Sodium⦄ where
  -- What follows `connection_connect`.
  unfoldable pub open_session :
      List ℕ → ℕ → Client → Option (Unit {0}) × (Connection × W) → ℕ × Client × W
  unfolding open_tunnel trusted_on_disk
  open_session ip port c (none, (con, w)) = (1, record c { connection = con }, w)
  open_session ip port c (some _, (con, w)) =
      let (trusted, w₁) = trusted_on_disk w in
      let created = session_create client con.socket ip c.identity trusted w₁ in
      open_tunnel ip port (record c { connection = con }) (session_client_connect created)

  unfoldable pub client_listener : List ℕ → ℕ → Client → W → ℕ × Client × W
  unfolding open_session
  client_listener ip port c w =
      open_session ip port c (connection_connect ip port (c.connection, w))
