-- ===== src/Examples/Devices.antt =====
-- The TUN device, a client's socket at the server, the shells and the idle mode.
use sencd.Base.{replicate, Option, ◌≡◌, refl, false, none, some, [], ◌∷◌, pos}
use sencd.Sim.{World, sim_zstd, sim_os, sim_descriptors, sim_random, sim_sodium}
use sencd.Sim.Calls.{sim_net, sim_quiet, sim_interfaces}
use sencd.Endpoint.Server.{
  Server, server_init, server_start, open_server, server_create_socket, server_bind, server_listen,
  or_cleanup,
}
use sencd.Crypto.{
  crypto_context_init, crypto_config_path, crypto_identity_load_or_create, home_dir, join_path,
  crypto_generate_identity, save, load_identity,
}
use sencd.Manager.{SessionManager}
use sencd.Manager.Start.{session_manager_init}
use sencd.Manager.Rounds.{session_manager_udp_listener}
use sencd.Command.Server.Reach.{ServerState}
use sencd.Command.Server.{
  stop_server_environment, start_server_environment, start_manager, bind_tunnel,
}
use sencd.Endpoint.Device.{
  TunConfig, tun_open, create_interface, configure, read_flags, tun_assign_address, make_device,
}
use sencd.Endpoint.Device.Opening.{DeviceOpened, tun_open-DeviceOpened}
use sencd.Session.{Session, server, session_create}
use sencd.Command.Server.Stop.{Stopped, stop_server_environment-Stopped}
use sencd.Manager.{cleared_manager}
use sencd.Manager.Connect.{session_manager_udp_bind, bound_to}
use sencd.Command.Server.{server_listener_round, stop_server_environment}
use sencd.Command.Server.Sockets.{Heard, server_listener_round-Heard}

abbrev calm : World
calm = record {
  inbox = [];
  outbox = [];
  file = none;
  device = [];
  wire = [];
  next = 3;
  closed = λ k. false;
}

abbrev config : TunConfig
config = record { address = b'1' ∷ []; netmask = b'1' ∷ []; ifname = b'x' ∷ [] }

tun_open-DeviceOpened_example :
    DeviceOpened sim_descriptors sim_interfaces calm (tun_open 20 config calm)
tun_open-DeviceOpened_example = tun_open-DeviceOpened sim_descriptors sim_interfaces 20 config calm

abbrev serving : Server
serving = record { socket = pos 2; running = 1; port = 8080 }

server_listener_round-Heard_example :
    Heard sim_descriptors sim_quiet cleared_manager calm
      (server_listener_round 600 (pos 1) false serving cleared_manager calm).1
server_listener_round-Heard_example =
    server_listener_round-Heard sim_descriptors sim_quiet 600 (pos 1) false serving cleared_manager
      calm

-- The server after its start on the concrete platform.
abbrev launched : Option (Server × SessionManager) × World
launched = start_server_environment 20 8080 calm

abbrev parts : Option (Server × SessionManager) → Server × SessionManager
parts (some p) = p
parts none = (serving, cleared_manager)

abbrev up : Server × SessionManager
up = parts launched.0

launched_up : launched ≡ (some (up.0, up.1), launched.1)
unfolding start_server_environment start_manager bind_tunnel server_start open_server
    server_create_socket server_bind server_listen or_cleanup session_manager_init
    crypto_config_path crypto_identity_load_or_create home_dir join_path tun_open create_interface
    configure read_flags tun_assign_address make_device session_manager_udp_bind bound_to sim_os
    sim_net sim_random sim_sodium crypto_generate_identity save load_identity server_init
launched_up = refl

abbrev served : ServerState World
served = (
  up.0,
  (session_manager_udp_listener (pos 1) up.1 launched.1).0,
  (session_manager_udp_listener (pos 1) up.1 launched.1).1,
)

-- A running server with a tunnel's socket, a device and one session.
abbrev visitor : Session
visitor = (session_create server (pos 6) [] crypto_context_init none calm).0

abbrev in_use : SessionManager
in_use = record cleared_manager {
  sessions = some visitor ∷ replicate 1023 none;
  session_count = 1;
  udp_socket = pos 4;
  tun = some (pos 3);
}

stop_server_environment-Stopped_example :
    Stopped sim_descriptors sim_quiet serving in_use calm
      (stop_server_environment serving in_use calm)
stop_server_environment-Stopped_example =
    stop_server_environment-Stopped sim_descriptors sim_quiet serving in_use calm 4 refl refl
