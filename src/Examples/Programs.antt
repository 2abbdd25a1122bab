-- ===== src/Examples/Programs.antt =====
-- The two programs from their arguments on.
use sencd.Base.{
  not, ◌||◌, ◌&&◌, List, Option, some, ℤ, ℕ, ◌≡◌, refl, none, [], ◌∷◌, ◌++◌, replicate, pos, ◌==◌,
}
use sencd.Base.Tests.{bytes_eq}
use sencd.Base.Bytes.{be_value, be_bytes, le_value}
use sencd.Sim.{World, sim_os, sim_descriptors, sim_random, sim_sodium, sim_zstd}
use sencd.Sim.Calls.{sim_quiet}
use sencd.Packet.{
  recv_all, recv_loop, recv_round, send_all, send_loop, send_round, parse_header, header_bytes,
  packet_receive, packet_send, packet_construct, receive_payload,
}
use sencd.Crypto.{
  crypto_config_path, home_dir, join_path, crypto_trust_key_load, crypto_trust_key_save, save,
  crypto_verify_message, crypto_sign_message, crypto_derive_client_keys, crypto_generate_ephemeral,
  crypto_context_init,
}
use sencd.Session.{
  session_init, cleared_session, session_create, generate_session_id, with_trusted_key,
  session_client_connect, session_authenticate_client, answer_challenge, trust_server_key,
  generate_ephemeral, send_message, receive_message,
}
use sencd.Session.Auth.{parse_challenge, parse_success, response_bytes}
use sencd.Tunnel.Udp.{udp_tunnel_init, udp_tunnel_client_open, udp_connect}
use sencd.Endpoint.Client.{
  connection_init, connection_connect, open_connection, connection_create_socket, connection_open,
  connect_to, is_connected,
}
use sencd.Command.Client.{
  Client, ClientRun, client_listener, open_session, open_tunnel, tunnel_opened, trusted_on_disk,
}
use sencd.Command.Client.Steps.{here, later, receiver, client_receiver_round}
use sencd.Command.Client.Start.{started}
use sencd.Crypto.{crypto_identity_load_or_create, crypto_generate_identity, load_identity}
use sencd.Endpoint.Device.{
  tun_open, create_interface, configure, read_flags, tun_assign_address, make_device,
}
use sencd.Endpoint.Server.{
  server_init, server_start, open_server, server_create_socket, server_bind, server_listen,
  or_cleanup, Server,
}
use sencd.Sim.Calls.{sim_net, sim_interfaces}
use sencd.Command.Client.{open_client, client_tun_config, client_identity_name}
use sencd.Crypto.{path_max}
use sencd.Command.Client.Program.{
  client_default_ip, client_default_port, client_target, connected_client, listen_client,
  start_client_environment,
}
use sencd.Command.Client.Ends.{Finished}
use sencd.Manager.{SessionManager, cleared_manager}
use sencd.Manager.Start.{session_manager_init}
use sencd.Manager.Connect.{session_manager_udp_bind, bound_to}
use sencd.Manager.Rounds.{session_manager_udp_listener}
use sencd.Manager.Trusted.{IsGuarded}
use sencd.Command.Server.{start_server_environment, start_manager, bind_tunnel}
use sencd.Command.Server.Reach.{ServerState, ServerReaches, hears, after}
use sencd.Command.Entry.{
  environment, connect_word, start_word, asks, dispatch, crypto_init, client_main, server_main,
  client_main-Finished, server_main-IsGuarded,
}
use sencd.Examples.Clients.{answered, idle_client}

abbrev unwrap : Option (List ℕ) → List ℕ
unwrap none = []
unwrap (some text) = text

-- Every number is 8080, and libsodium starts.
abbrev atoi : List ℕ → ℤ
atoi text = pos 8080

abbrev sodium_init : World → ℤ × World
sodium_init w = (pos 0, w)

abbrev program : List ℕ
program = b's' ∷ []

abbrev connect_args : List (List ℕ)
connect_args = program ∷ connect_word ∷ []

-- The client and the world once its device is open: a new identity is on the disk.
abbrev equipped : Client
equipped = record idle_client { tun = record { name = client_tun_config.ifname; fd = pos 4 } }

abbrev key_path : List ℕ
key_path = unwrap (crypto_config_path client_identity_name path_max answered).0

abbrev with_key : World
with_key = record answered {
  file = some (key_path, replicate 32 7 ++ replicate 64 7);
  next = 6;
  closed = λ k. k == 5 || (not (k == 5) && (not (k == 4) && answered.closed k));
}

equips : open_client 20 answered ≡ (some equipped, with_key)
unfolding open_client crypto_identity_load_or_create crypto_generate_identity load_identity tun_open
    create_interface configure read_flags tun_assign_address make_device sim_net crypto_config_path
    home_dir join_path save crypto_context_init sim_os sim_random sim_sodium connection_init
    session_init cleared_session bytes_eq
equips = refl

abbrev joined : Client × World
joined =
    let (status, c, w) = client_listener client_default_ip client_default_port equipped with_key in
    (c, w)

joins :
    client_listener client_default_ip client_default_port equipped with_key
    ≡ (0, joined.0, joined.1)
unfolding client_listener open_session open_tunnel tunnel_opened trusted_on_disk recv_all recv_loop
    recv_round send_all send_loop send_round parse_header header_bytes packet_receive packet_send
    packet_construct receive_payload crypto_config_path home_dir join_path crypto_trust_key_load
    crypto_trust_key_save save crypto_verify_message crypto_sign_message crypto_derive_client_keys
    crypto_generate_ephemeral crypto_context_init session_init cleared_session session_create
    generate_session_id with_trusted_key session_client_connect session_authenticate_client
    answer_challenge trust_server_key generate_ephemeral send_message receive_message
    parse_challenge parse_success response_bytes udp_tunnel_init udp_tunnel_client_open udp_connect
    connection_init connection_connect open_connection connection_create_socket connection_open
    connect_to is_connected sim_os sim_random sim_sodium bytes_eq be_value be_bytes le_value
joins = refl

abbrev begun : ClientRun × World
begun = (started joined.0, joined.1)

asked : asks connect_word connect_args ≡ environment
unfolding asks bytes_eq
asked = refl

connects : client_main atoi 20 connect_args answered ≡ (some begun.0, begun.1)
unfolding client_main dispatch start_client_environment listen_client client_target connected_client
connects = rw (asked, equips, joins) refl

client_main-Finished_example :
    Finished sim_descriptors sim_quiet sim_interfaces answered begun.0 (client_receiver_round begun)
client_main-Finished_example =
    client_main-Finished sim_descriptors sim_quiet sim_interfaces atoi 20 connect_args answered
      begun.1 begun.0 (client_receiver_round begun) connects
      (later begun begun (client_receiver_round begun) (here begun) (receiver begun refl))

abbrev start_args : List (List ℕ)
start_args = program ∷ start_word ∷ []

abbrev served : Option (Server × SessionManager) × World
served = server_main atoi sodium_init 20 start_args answered

abbrev parts : Option (Server × SessionManager) → Server × SessionManager
parts (some p) = p
parts none = (server_init, cleared_manager)

abbrev up : Server × SessionManager
up = parts served.0

starts : served ≡ (some (up.0, up.1), served.1)
unfolding server_main asks dispatch crypto_init start_server_environment start_manager bind_tunnel
    server_start open_server server_create_socket server_bind server_listen or_cleanup
    session_manager_init crypto_config_path crypto_identity_load_or_create home_dir join_path
    tun_open create_interface configure read_flags tun_assign_address make_device
    session_manager_udp_bind bound_to sim_os sim_net sim_random sim_sodium crypto_generate_identity
    save load_identity server_init bytes_eq
starts = refl

abbrev heard : ServerState World
heard = (
  up.0,
  (session_manager_udp_listener (pos 1) up.1 served.1).0,
  (session_manager_udp_listener (pos 1) up.1 served.1).1,
)

server_main-IsGuarded_example : IsGuarded heard.1
server_main-IsGuarded_example =
    server_main-IsGuarded atoi sodium_init 20 start_args answered served.1 up.0 up.1 heard starts (
      after (up.0, up.1, served.1) (up.0, up.1, served.1) heard
        (ServerReaches.here (up.0, up.1, served.1)) (hears (pos 1) up.0 up.1 served.1))
