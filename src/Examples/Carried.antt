-- ===== src/Examples/Carried.antt =====
-- A packet from a client's device to the server's and one back.
use sencd.Base.{
  length, ◌≤◌, ℕ, ◌^◌, ◌<◌, ◌≡◌, refl, true, false, Option, none, some, List, [], ◌∷◌, ◌++◌, arith,
  replicate, get_or, pos, suc, ap, sym, length-replicate,
}
use sencd.Base.Bytes.{be_bytes}
use sencd.Sim.{World, sim_random, sim_sodium, sim_zstd, sim_aead, sim_zstd_laws}
use sencd.Sim.Wire.{wire_os, client_address}
use sencd.Crypto.{crypto_context_init, crypto_encrypt_packet, crypto_build_nonce}
use sencd.Session.{Session, client, server, session_init, cleared_session, established}
use sencd.Session.Complete.{Agreed}
use sencd.Tunnel.Frame.{tunnel_packet_encode}
use sencd.Tunnel.Compress.{tunnel_pipeline_compress}
use sencd.Tunnel.Pipeline.{outbound}
use sencd.Manager.{SessionManager, session_manager_get, cleared_manager}
use sencd.Manager.Count.{occupied-replicate, replicate-Addressed, IsSound, Addressed}
use sencd.Manager.Slots.{find_id, octet_of}
use sencd.Manager.Traffic.{store, heard_from, count_sent}
use sencd.Manager.Rounds.{session_manager_udp_listener, session_manager_tun_sender}
use sencd.Endpoint.Client.{connection_init}
use sencd.Command.Client.{ClientRun}
use sencd.Command.Client.Steps.{with_session, client_tun_sender_round, client_udp_receiver_round}
use sencd.Command.Carries.Datagram.{datagram_of, encoded_bytes}
use sencd.Command.Carries.{client_to_server, server_to_client}

-- The two sessions after a handshake, with one key for each direction.
abbrev pub near_session : Session
near_session = record (session_init client) {
  session_id = 77;
  state = established;
  has_trusted_peer_key = true;
  trusted_peer_key = replicate 32 7;
  udp = record (session_init client).udp { socket = pos 6; peer_known = 1 };
  crypto = record (session_init client).crypto {
    public_key = replicate 32 5;
    peer_public_key = replicate 32 7;
    rx_key = replicate 32 1;
    tx_key = replicate 32 2;
  };
}

abbrev pub far_session : Session
far_session = record (session_init server) {
  session_id = 77;
  state = established;
  tunnel_ip_octet = 2;
  crypto = record (session_init server).crypto {
    public_key = replicate 32 7;
    peer_public_key = replicate 32 5;
    rx_key = replicate 32 2;
    tx_key = replicate 32 1;
    verified = 1;
  };
}

agree : Agreed near_session far_session near_session far_session
unfolding session_init cleared_session
agree = record {
  client_established = refl;
  server_established = refl;
  same_number = refl;
  same_nonce = refl;
  client_hears_server = refl;
  server_hears_client = refl;
  client_knows_server = refl;
  server_knows_client = refl;
  client_verified = refl;
  server_trusted = refl;
  trusts_a_key = refl;
}

abbrev pub near : ClientRun
near = record {
  client = record {
    session = near_session;
    identity = crypto_context_init;
    connection = connection_init;
    tun = record { name = b'x' ∷ []; fd = pos 3 };
  };
  should_exit = 0;
  receiving = true;
}

abbrev pub far : SessionManager
far = record cleared_manager {
  sessions = some far_session ∷ replicate 1023 none;
  session_count = 1;
  udp_socket = pos 5;
  tun = some (pos 3);
}

-- An IPv4 packet for 10.8.0.2.
abbrev pub raw : List ℕ
raw = 69 ∷ replicate 15 0 ++ 10 ∷ 8 ∷ 0 ∷ 2 ∷ 1 ∷ []

abbrev datagram : List ℕ
datagram = be_bytes 8 77 ++ (be_bytes 8 0 ++ ((0 ∷ 0 ∷ 0 ∷ 0 ∷ 0 ∷ raw) ++ replicate 16 1))

abbrev pub world : List (List ℕ) → List (List ℕ) → World
world device wire = record {
  inbox = [];
  outbox = [];
  file = none;
  device = device;
  wire = wire;
  next = 7;
  closed = λ k. false;
}

seals :
    outbound raw near_session.session_id near_session.crypto.tx_nonce near_session.crypto
    ≡ some datagram
unfolding outbound tunnel_pipeline_compress tunnel_packet_encode crypto_encrypt_packet
    crypto_build_nonce be_bytes session_init cleared_session crypto_context_init sim_sodium sim_zstd
seals = refl

made : datagram_of raw near_session ≡ datagram
made = ap encoded_bytes seals

seals_back :
    outbound raw far_session.session_id far_session.crypto.tx_nonce far_session.crypto
    ≡ some datagram
unfolding outbound tunnel_pipeline_compress tunnel_packet_encode crypto_encrypt_packet
    crypto_build_nonce be_bytes session_init cleared_session crypto_context_init sim_sodium sim_zstd
seals_back = refl

made_back : datagram_of raw far_session ≡ datagram
made_back = ap encoded_bytes seals_back

reads : wire_os.read (world (raw ∷ []) []) (pos 3) 65504 ≡ (pos 21, raw, world [] [])
unfolding wire_os
reads = refl

arrives :
    wire_os.recvfrom (world [] (datagram ∷ [])) (pos 5) 65536
    ≡ (pos 58, datagram_of raw near_session, client_address, world [] [])
unfolding wire_os be_bytes
arrives = ap (λ b. (pos 58, b, client_address, world [] [])) (sym made)

arrives_back :
    wire_os.recv (world [] (datagram ∷ [])) (pos 6) 65536
    ≡ (pos 58, datagram_of raw far_session, world [] [])
unfolding wire_os be_bytes
arrives_back = ap (λ b. (pos 58, b, world [] [])) (sym made_back)

found : session_manager_get far far_session.session_id ≡ some (0, far_session)
unfolding session_manager_get find_id
found = refl

fresh : near_session.crypto.tx_nonce < 2 ^ 64
unfolding session_init cleared_session crypto_context_init
fresh = omega arith

fresh_back : far_session.crypto.tx_nonce < 2 ^ 64
unfolding session_init cleared_session crypto_context_init
fresh_back = omega arith

pub for_the_slot : get_or raw 19 0 ≡ octet_of 0
unfolding octet_of
for_the_slot = refl

far-IsSound : IsSound far
unfolding Addressed octet_of
far-IsSound = record {
  size = ap suc (length-replicate {A = Option Session} 1023 none);
  counted = ap suc (sym (occupied-replicate 1023));
  addressed = (refl, replicate-Addressed 1023 1);
}

client_to_server_example :
    (length (datagram_of raw near_session) ≤ 65536)
    × (client_tun_sender_round (pos 1) (near, world (raw ∷ []) []) ≡ (
      with_session near (count_sent near_session),
      (wire_os.send (world [] []) (pos 6) (datagram_of raw near_session)).1,
    ))
    × (session_manager_udp_listener (pos 1) far (world [] (datagram ∷ [])) ≡ (
      store far 0 (heard_from client_address far_session),
      wire_os.write (world [] []) (pos 3) raw,
    ))
client_to_server_example =
    client_to_server sim_aead sim_zstd_laws near_session far_session far_session raw near
      (world (raw ∷ []) []) (world [] []) (pos 1) (pos 21) 6 far (world [] (datagram ∷ []))
      (world [] []) (pos 1) (pos 58) 0 5 3 client_address agree refl refl refl reads (omega arith)
      (omega arith) (omega arith) fresh found refl refl refl refl arrives

server_to_client_example :
    let heard = store far 0 (heard_from client_address far_session) in
    (length (datagram_of raw far_session) ≤ 65536)
    × (session_manager_tun_sender (pos 1) heard (world (raw ∷ []) []) ≡ (
      store heard 0 (count_sent (heard_from client_address far_session)),
      wire_os.sendto (world [] []) (pos 5) (datagram_of raw far_session) client_address,
    ))
    × (client_udp_receiver_round (pos 1) (near, world [] (datagram ∷ []))
        ≡ (near, wire_os.write (world [] []) (pos 3) raw))
server_to_client_example =
    server_to_client sim_aead sim_zstd_laws near_session far_session far_session raw far
      (world (raw ∷ []) []) (world [] []) (pos 1) (pos 21) 0 5 (pos 3) client_address near
      (world [] (datagram ∷ [])) (world [] []) (pos 1) (pos 58) 6 agree far-IsSound found
      (omega arith) refl refl refl refl reads for_the_slot (omega arith) (omega arith) (omega arith)
      fresh_back refl refl refl arrives_back

-- The table before it takes the session.
abbrev empty : SessionManager
empty = record cleared_manager { udp_socket = pos 5; tun = some (pos 3) }
