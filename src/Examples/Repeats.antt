-- ===== src/Examples/Repeats.antt =====
-- Nonces of consecutive packets, of the client and of the server.
use sencd.Base.{
  ℕ, suc, ◌≡◌, ◌≢◌, refl, ap, sym, Option, none, some, [], ◌∷◌, arith, pos, length-replicate,
}
use sencd.Sim.{World, sim_random, sim_sodium, sim_zstd, sim_aead, sim_zstd_laws}
use sencd.Sim.Wire.{wire_os, client_address}
use sencd.Crypto.{crypto_context_init, crypto_encrypt_packet, crypto_build_nonce}
use sencd.Session.{Session, session_init, cleared_session, established}
use sencd.Tunnel.Frame.{tunnel_packet_encode}
use sencd.Tunnel.Compress.{tunnel_pipeline_compress}
use sencd.Tunnel.Pipeline.{outbound}
use sencd.Manager.{SessionManager}
use sencd.Manager.Slots.{find_octet, takes_octet, is_established, octet_of}
use sencd.Endpoint.Server.{Server}
use sencd.Manager.Held.{Holds}
use sencd.Manager.Count.{occupied-replicate, replicate-Addressed, Addressed}
use sencd.Manager.Trusted.{IsGuarded, AllTrusted, replicate-AllTrusted}
use sencd.Command.Server.Reach.{ServerReaches, hears, after}
use sencd.Command.Server.Nonces.{server_steps, ForwardsUnder, server_nonces_differ}
use sencd.Manager.Traffic.{tun_sender_round, forward_to, forward, store, heard_from, count_sent}
use sencd.Manager.Rounds.{read_packet, session_manager_udp_listener, session_manager_tun_sender}
use sencd.Command.Client.{ClientRun}
use sencd.Command.Client.Nonces.{steps, SendsUnder, nonces_differ}
use sencd.Endpoint.Device.{tun_read}
use sencd.Command.Client.Steps.{
  carries, send_raw, send_encoded, is_up, here, later, udp_receiver, client_tun_sender_round,
  client_udp_receiver_round,
}
use sencd.Examples.Carried.{near_session, far_session, near, far, raw, world, for_the_slot}

-- The client with two packets on its device.
abbrev ready_to_send : ClientRun × World
ready_to_send = (near, world (raw ∷ raw ∷ []) [])

abbrev has_sent : ClientRun × World
has_sent = client_tun_sender_round (pos 1) ready_to_send

abbrev has_waited : ClientRun × World
has_waited = client_udp_receiver_round (pos 0) has_sent

waits_up : has_waited.0.client.session.state ≡ established
unfolding client_udp_receiver_round client_tun_sender_round carries send_raw send_encoded tun_read
    is_established is_up tunnel_pipeline_compress session_init cleared_session sim_zstd wire_os
    count_sent
waits_up = refl

waits_socket : has_waited.0.client.session.udp.socket ≡ pos 6
unfolding client_udp_receiver_round client_tun_sender_round carries send_raw send_encoded tun_read
    is_established is_up tunnel_pipeline_compress session_init cleared_session sim_zstd wire_os
    count_sent
waits_socket = refl

-- The worlds after the two packets were read.
abbrev read_once : World
read_once = (wire_os.read (world (raw ∷ raw ∷ []) []) (pos 3) 65504).2

abbrev read_twice : World
read_twice = (wire_os.read has_waited.1 (pos 3) 65504).2

reads_once : wire_os.read (world (raw ∷ raw ∷ []) []) (pos 3) 65504 ≡ (pos 21, raw, read_once)
unfolding wire_os
reads_once = refl

reads_twice : wire_os.read has_waited.1 has_waited.0.client.tun.fd 65504 ≡ (pos 21, raw, read_twice)
unfolding client_udp_receiver_round client_tun_sender_round carries send_raw send_encoded tun_read
    is_established is_up tunnel_pipeline_compress session_init cleared_session sim_zstd wire_os
    count_sent outbound tunnel_packet_encode crypto_encrypt_packet crypto_build_nonce
    crypto_context_init sim_sodium
reads_twice = refl

nonces_differ_example :
    (n n' : ℕ) × SendsUnder sim_aead sim_zstd_laws n raw near_session read_once 6 has_sent.1
    × SendsUnder sim_aead sim_zstd_laws n' raw has_waited.0.client.session read_twice 6
        (client_tun_sender_round (pos 1) has_waited).1
    × (crypto_build_nonce n ≢ crypto_build_nonce n')
unfolding session_init cleared_session crypto_context_init steps
nonces_differ_example =
    nonces_differ sim_aead sim_zstd_laws raw raw near has_waited.0 (world (raw ∷ raw ∷ []) [])
      read_once has_waited.1 read_twice (pos 1) (pos 21) (pos 1) (pos 21) 6 6
      (later has_sent has_sent has_waited (here has_sent) (udp_receiver has_sent (pos 0))) refl refl
      refl refl reads_once (omega arith) (omega arith) waits_up waits_socket refl refl reads_twice
      (omega arith)

-- The server, which has heard the client, with two packets on its device.
abbrev heard : SessionManager
heard = store far 0 (heard_from client_address far_session)

abbrev serving : Server
serving = record { socket = pos 2; running = 1; port = 8080 }

abbrev answered : SessionManager × World
answered = session_manager_tun_sender (pos 1) heard (world (raw ∷ raw ∷ []) [])

abbrev rested : SessionManager × World
rested = session_manager_udp_listener (pos 0) answered.0 answered.1

hears_client : Holds 0 (heard_from client_address far_session) heard
unfolding store
hears_client = refl

heard-IsGuarded : IsGuarded heard
unfolding store Addressed octet_of AllTrusted heard_from
heard-IsGuarded = record {
  sound = record {
    size = ap suc (length-replicate {A = Option Session} 1023 none);
    counted = ap suc (sym (occupied-replicate 1023));
    addressed = (refl, replicate-Addressed 1023 1);
  };
  trusted = ((refl, refl), replicate-AllTrusted 1023);
}

has_rested : Holds 0 (count_sent (heard_from client_address far_session)) rested.0
unfolding session_manager_tun_sender read_packet tun_sender_round forward_to forward find_octet
    takes_octet is_established store heard_from outbound tunnel_pipeline_compress
    tunnel_packet_encode crypto_encrypt_packet crypto_build_nonce session_init cleared_session
    crypto_context_init sim_sodium sim_zstd wire_os session_manager_udp_listener
has_rested = refl

rests_bound : rested.0.udp_socket ≡ pos 5
unfolding session_manager_tun_sender read_packet tun_sender_round forward_to forward find_octet
    takes_octet is_established store heard_from outbound tunnel_pipeline_compress
    tunnel_packet_encode crypto_encrypt_packet crypto_build_nonce session_init cleared_session
    crypto_context_init sim_sodium sim_zstd wire_os session_manager_udp_listener
rests_bound = refl

rests_device : rested.0.tun ≡ some (pos 3)
unfolding session_manager_tun_sender read_packet tun_sender_round forward_to forward find_octet
    takes_octet is_established store heard_from outbound tunnel_pipeline_compress
    tunnel_packet_encode crypto_encrypt_packet crypto_build_nonce session_init cleared_session
    crypto_context_init sim_sodium sim_zstd wire_os session_manager_udp_listener
rests_device = refl

abbrev rested_read : World
rested_read = (wire_os.read rested.1 (pos 3) 65504).2

rests_reads : wire_os.read rested.1 (pos 3) 65504 ≡ (pos 21, raw, rested_read)
unfolding session_manager_tun_sender read_packet tun_sender_round forward_to forward find_octet
    takes_octet is_established store heard_from outbound tunnel_pipeline_compress
    tunnel_packet_encode crypto_encrypt_packet crypto_build_nonce session_init cleared_session
    crypto_context_init sim_sodium sim_zstd wire_os session_manager_udp_listener
rests_reads = refl

server_nonces_differ_example :
    let s = heard_from client_address far_session in
    (n n' : ℕ) × ForwardsUnder sim_aead sim_zstd_laws n raw s read_once 5 answered.1
    × ForwardsUnder sim_aead sim_zstd_laws n' raw
        (count_sent s)
        rested_read
        5
        (session_manager_tun_sender (pos 1) rested.0 rested.1).1
    × ((count_sent s).crypto.tx_key ≡ s.crypto.tx_key)
    × (crypto_build_nonce n ≢ crypto_build_nonce n')
unfolding session_init cleared_session crypto_context_init server_steps heard_from store count_sent
server_nonces_differ_example =
    server_nonces_differ sim_aead sim_zstd_laws raw raw serving serving heard rested.0
      (world (raw ∷ raw ∷ []) []) read_once rested.1 rested_read (pos 1) (pos 21) (pos 1) (pos 21) 0
      5 5 (pos 3) (pos 3) (heard_from client_address far_session)
      (count_sent (heard_from client_address far_session))
      (after (serving, answered.0, answered.1) (serving, answered.0, answered.1)
        (serving, rested.0, rested.1) (ServerReaches.here (serving, answered.0, answered.1))
        (hears (pos 0) serving answered.0 answered.1))
      heard-IsGuarded hears_client (omega arith) refl refl refl refl refl reads_once for_the_slot
      (omega arith) (omega arith) (omega arith) has_rested refl rests_bound rests_device refl refl
      rests_reads for_the_slot (omega arith) (omega arith)
