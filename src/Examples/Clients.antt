-- ===== src/Examples/Clients.antt =====
-- A client that connects, hears nothing more and ends.
use sencd.Base.{◌≡◌, refl, false, none, [], ◌∷◌, ◌++◌, replicate, pos}
use sencd.Base.Tests.{bytes_eq}
use sencd.Base.Bytes.{be_value, be_bytes, le_value}
use sencd.Sim.{World, sim_os, sim_random, sim_sodium, sim_zstd}
use sencd.Packet.{
  recv_all, recv_loop, recv_round, send_all, send_loop, send_round, parse_header, header_bytes,
  packet_receive, packet_send, packet_construct, receive_payload,
}
use sencd.Crypto.{
  crypto_config_path, home_dir, join_path, crypto_trust_key_load, crypto_trust_key_save, save,
  crypto_verify_message, crypto_sign_message, crypto_derive_client_keys, crypto_generate_ephemeral,
  crypto_context_init,
}
use sencd.Session.{
  client, session_init, cleared_session, session_create, generate_session_id, with_trusted_key,
  session_client_connect, session_authenticate_client, answer_challenge, trust_server_key,
  generate_ephemeral, send_message, receive_message,
}
use sencd.Session.Auth.{parse_challenge, parse_success, response_bytes}
use sencd.Tunnel.Udp.{udp_tunnel_init, udp_tunnel_client_open, udp_connect}
use sencd.Endpoint.Client.{
  connection_init, connection_connect, open_connection, connection_create_socket, connection_open,
  connect_to, is_connected,
}
use sencd.Command.Client.{
  Client, ClientRun, client_listener, open_session, open_tunnel, tunnel_opened, trusted_on_disk,
}
use sencd.Command.Client.Start.{started}

-- The server's hello, its challenge and its last message.
abbrev pub answered : World
answered = record {
  inbox =
      0 ∷ 0 ∷ 0 ∷ 0 ∷ 1 ∷ 1 ∷ 0 ∷ 0 ∷ 0 ∷ 0 ∷ 0 ∷ 144 ∷ 1 ∷ 2 ∷ 0 ∷ 0 ∷ replicate 64 7
      ++ (replicate 32 7
          ++ (replicate 32 8
              ++ (replicate 16 4
                  ++ (0 ∷ 0 ∷ 0 ∷ 40 ∷ 1 ∷ 4 ∷ 0 ∷ 0 ∷ replicate 32 6 ++ replicate 8 1))));
  outbox = [];
  file = none;
  device = [];
  wire = [];
  next = 4;
  closed = λ k. false;
}

abbrev pub idle_client : Client
idle_client = record {
  session = session_init client;
  identity = record crypto_context_init {
    public_key = replicate 32 7;
    private_key = replicate 64 7;
  };
  connection = connection_init;
  tun = record { name = b'x' ∷ []; fd = pos 3 };
}

abbrev joined : Client × World
joined = let (status, c, w) = client_listener (b'1' ∷ []) 8080 idle_client answered in (c, w)

unconnected : is_connected idle_client.connection.state ≡ false
unfolding is_connected connection_init
unconnected = refl

joins : client_listener (b'1' ∷ []) 8080 idle_client answered ≡ (0, joined.0, joined.1)
unfolding client_listener open_session open_tunnel tunnel_opened trusted_on_disk recv_all recv_loop
    recv_round send_all send_loop send_round parse_header header_bytes packet_receive packet_send
    packet_construct receive_payload crypto_config_path home_dir join_path crypto_trust_key_load
    crypto_trust_key_save save crypto_verify_message crypto_sign_message crypto_derive_client_keys
    crypto_generate_ephemeral crypto_context_init session_init cleared_session session_create
    generate_session_id with_trusted_key session_client_connect session_authenticate_client
    answer_challenge trust_server_key generate_ephemeral send_message receive_message
    parse_challenge parse_success response_bytes udp_tunnel_init udp_tunnel_client_open udp_connect
    connection_init connection_connect open_connection connection_create_socket connection_open
    connect_to is_connected sim_os sim_random sim_sodium bytes_eq be_value be_bytes le_value
joins = refl

abbrev begun : ClientRun × World
begun = (started joined.0, joined.1)
