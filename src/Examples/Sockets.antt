-- ===== src/Examples/Sockets.antt =====
-- A server, a client's connection and a tunnel's end that open and close.
use sencd.Base.{ℕ, ◌≡◌, refl, false, none, some, List, [], ◌∷◌, no_fd}
use sencd.Sim.{World, sim_os, sim_descriptors}
use sencd.Tunnel.Udp.{udp_tunnel_init, udp_tunnel_client_open}
use sencd.Endpoint.Server.{
  Server, server_init, server_start, server_shutdown, open_server, server_create_socket,
  server_bind, server_listen, or_cleanup,
}
use sencd.Endpoint.Client.{
  Connection, connection_init, disconnected, connection_connect, connection_disconnect,
  open_connection, connection_create_socket, connection_open, connect_to, is_connected,
}
use sencd.Endpoint.Descriptors.{Same, server_shutdown-server_start}
use sencd.Endpoint.Connections.{
  TunnelOpened, connection_disconnect-connection_connect, udp_tunnel_client_open-TunnelOpened,
}

abbrev calm : World
calm = record {
  inbox = [];
  outbox = [];
  file = none;
  device = [];
  wire = [];
  next = 3;
  closed = λ k. false;
}

idle : server_init.running ≡ 0
unfolding server_init
idle = refl

abbrev serving : Server × World
serving = (server_start 5555 (server_init, calm)).1

serves : server_start 5555 (server_init, calm) ≡ (some tt, serving)
unfolding server_start open_server server_create_socket server_bind server_listen or_cleanup sim_os
    server_init
serves = refl

server_shutdown-server_start_example :
    (q : Server × World) × (server_shutdown serving ≡ (some tt, q))
    × (q.0.running ≡ 0)
    × (q.0.socket ≡ no_fd)
    × Same sim_descriptors calm q.1
server_shutdown-server_start_example =
    server_shutdown-server_start sim_descriptors 5555 server_init calm serving idle serves

unconnected : is_connected connection_init.state ≡ false
unfolding is_connected connection_init
unconnected = refl

abbrev address : List ℕ
address = b'1' ∷ []

abbrev joined : Connection × World
joined = (connection_connect address 5555 (connection_init, calm)).1

joins : connection_connect address 5555 (connection_init, calm) ≡ (some tt, joined)
unfolding connection_connect open_connection connection_create_socket connection_open connect_to
    is_connected connection_init sim_os
joins = refl

connection_disconnect-connection_connect_example :
    (q : Connection × World) × (connection_disconnect joined ≡ (some tt, q))
    × (q.0.state ≡ disconnected)
    × (q.0.socket ≡ no_fd)
    × Same sim_descriptors calm q.1
connection_disconnect-connection_connect_example =
    connection_disconnect-connection_connect sim_descriptors address 5555 connection_init calm
      joined unconnected joins

udp_tunnel_client_open-TunnelOpened_example :
    TunnelOpened sim_descriptors calm (udp_tunnel_client_open (udp_tunnel_init 9) address 5555 calm)
udp_tunnel_client_open-TunnelOpened_example =
    udp_tunnel_client_open-TunnelOpened sim_descriptors (udp_tunnel_init 9) address 5555 calm
