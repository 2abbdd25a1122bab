-- ===== src/Command/Carries/Rounds.antt =====
-- One round of each thread of src/commands/client_env.c and src/sessions/session_manager.c that moves
-- a packet.
use sencd.Base.{
  ℕ, ◌+◌, ◌≤◌, ◌≡◌, refl, true, false, some, List, arith, length, ◌==◌, ℤ, pos, is_positive,
}
use sencd.Platform.Os.{Os, SockAddr}
use sencd.Platform.Sodium.{Sodium}
use sencd.Platform.Zstd.{Zstd}
use sencd.Session.{Session, established}
use sencd.Tunnel.Frame.{tunnel_packet_max_plaintext, tunnel_packet_max_size}
use sencd.Tunnel.Compress.{
  tunnel_compress_header_size, tunnel_pipeline_compress, tunnel_pipeline_compress-ne-nil,
}
use sencd.Tunnel.Pipeline.{outbound, inbound}
use sencd.Manager.{SessionManager}
use sencd.Manager.Slots.{is_established}
use sencd.Manager.Traffic.{store, count_sent, forward, udp_listener_round, tun_sender_round}
use sencd.Manager.Rounds.{session_manager_udp_listener, session_manager_tun_sender, read_packet}
use sencd.Endpoint.Device.{tun_read}
use sencd.Command.Client.{ClientRun}
use sencd.Command.Client.Steps.{
  is_up, carries, with_session, send_encoded, send_raw, write_plain, client_tun_sender_round,
  client_udp_receiver_round,
}

module _ {W : Type 0} ⦃os : Os W⦄ ⦃na : Sodium⦄ ⦃z : Zstd⦄ where
  -- The client's sender with a packet from its device.
  pub client_sends :
      (raw : List ℕ) (r : ClientRun) (w v : W) (ready count : ℤ) (fd : ℕ) (b : List ℕ)
      → r.client.session.state ≡ established
      → r.client.session.udp.socket ≡ pos fd
      → is_positive ready ≡ true
      → is_positive count ≡ true
      → os.read w r.client.tun.fd tunnel_packet_max_plaintext ≡ (count, raw, v)
      → length raw + tunnel_compress_header_size ≤ tunnel_packet_max_plaintext
      → outbound raw r.client.session.session_id r.client.session.crypto.tx_nonce
          r.client.session.crypto
        ≡ some b
      → client_tun_sender_round ready (r, w)
        ≡ (with_session r (count_sent r.client.session), (os.send v (pos fd) b).1)
  unfolding client_tun_sender_round carries is_up send_raw send_encoded tun_read is_established
  client_sends raw r w v ready count fd b up socket wakes got read fits sent =
      let nonempty : (length (tunnel_pipeline_compress raw tunnel_packet_max_plaintext) == 0)
          ≡ false =
        ground (arith, tunnel_pipeline_compress-ne-nil raw tunnel_packet_max_plaintext fits) in
      rw (up, wakes, read, got, nonempty, sent, socket) refl

  -- The client's receiver with a datagram from its tunnel's socket.
  pub client_receives :
      (raw b : List ℕ) (r : ClientRun) (w v : W) (ready count : ℤ) (fd : ℕ)
      → r.client.session.state ≡ established
      → r.client.session.udp.socket ≡ pos fd
      → is_positive ready ≡ true
      → is_positive count ≡ true
      → os.recv w (pos fd) tunnel_packet_max_size ≡ (count, b, v)
      → inbound b r.client.session.crypto ≡ some raw
      → client_udp_receiver_round ready (r, w) ≡ (r, os.write v r.client.tun.fd raw)
  unfolding client_udp_receiver_round carries is_up write_plain is_established
  client_receives raw b r w v ready count fd up socket wakes got read opens =
      rw (up, socket, wakes, read, got, opens) refl

  -- The server's listener with a datagram on the tunnel's socket.
  pub server_receives :
      (b : List ℕ) (m : SessionManager) (w v : W) (ready count : ℤ) (port : ℕ) (from : SockAddr)
      → m.udp_socket ≡ pos port
      → is_positive ready ≡ true
      → is_positive count ≡ true
      → os.recvfrom w (pos port) tunnel_packet_max_size ≡ (count, b, from, v)
      → session_manager_udp_listener ready m w ≡ udp_listener_round b from m v
  unfolding session_manager_udp_listener
  server_receives b m w v ready count port from bound wakes got arrives =
      rw (bound, wakes, arrives, got) refl

  -- The server's sender with a packet from its device.
  pub server_reads :
      (raw : List ℕ) (m : SessionManager) (w v : W) (ready count : ℤ) (port : ℕ) (dev : ℤ)
      → m.udp_socket ≡ pos port
      → m.tun ≡ some dev
      → is_positive ready ≡ true
      → is_positive count ≡ true
      → os.read w dev tunnel_packet_max_plaintext ≡ (count, raw, v)
      → session_manager_tun_sender ready m w ≡ tun_sender_round raw m v
  unfolding session_manager_tun_sender read_packet
  server_reads raw m w v ready count port dev bound device wakes got read =
      rw (bound, device, wakes, read, got) refl

  pub forwards :
      (raw b : List ℕ) (i : ℕ) (s : Session) (m : SessionManager) (w : W) (port : ℕ)
      → m.udp_socket ≡ pos port
      → outbound raw s.session_id s.crypto.tx_nonce s.crypto ≡ some b
      → forward raw i s m w ≡ (store m i (count_sent s), os.sendto w (pos port) b s.udp.peer_addr)
  unfolding forward
  forwards raw b i s m w port bound sent = rw (forward, sent, bound) refl
