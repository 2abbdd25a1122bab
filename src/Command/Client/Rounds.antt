-- ===== src/Command/Client/Rounds.antt =====
-- src/commands/client_env.c: each round of the client's threads keeps the client coherent.
use sencd.Base.{
  ℕ, is_positive, refl, ◌∙◌, ◌&&◌, inl, inr, Option, none, some, List, ◌==◌, ℤ, Bool-cases, length,
}
use sencd.Platform.Os.{Os, DescriptorLaws}
use sencd.Platform.Calls.{QuietLaws}
use sencd.Platform.Sodium.{Random, Sodium}
use sencd.Platform.Zstd.{Zstd}
use sencd.Packet.{Packet, disconnect, code, packet_receive}
use sencd.Packet.Keeps.{packet_receive-keeps}
use sencd.Tunnel.Frame.{tunnel_packet_max_size, tunnel_packet_max_plaintext}
use sencd.Endpoint.Device.{tun_read}
use sencd.Tunnel.Compress.{tunnel_pipeline_compress}
use sencd.Manager.Traffic.{count_sent}
use sencd.Endpoint.Descriptors.{Same}
use sencd.Command.Client.{ClientRun}
use sencd.Command.Client.Steps.{
  carries, with_session, receiver, tun_sender, udp_receiver, command, here, later,
  client_execute_command, on_packet, client_receiver_round, client_tun_sender_round,
  client_udp_receiver_round, send_raw, send_encoded, write_plain, ClientStep, ClientReaches,
}
use sencd.Command.Client.Coherent.{
  Up, Coherent, Up-Same, Up-is_up, Down-is_up, still_Down, end_receiver-Down, command-Coherent,
}

module _ {W : Type 0} ⦃os : Os W⦄ ⦃rnd : Random W⦄ ⦃na : Sodium⦄ ⦃z : Zstd⦄
    (laws : DescriptorLaws os) (quiet : QuietLaws os rnd laws) where
  open laws use {is_open}

  on_packet-Coherent :
      (o : W) (n m : ℕ) (r : ClientRun) (w : W) (t : Option Packet × W)
      → Up laws o n m r w
      → Same laws w t.1
      → Coherent laws o n m (on_packet r t)
  unfolding on_packet
  on_packet-Coherent o n m r w (none, v) u same =
      inr (end_receiver-Down laws o n m r v (inl (Up-Same laws o n m r w v u same)))
  on_packet-Coherent o n m r w (some packet, v) u same =
      let still = Up-Same laws o n m r w v u same in
      elim (Bool-cases (packet.header.type == code disconnect)) [
        | inl notice ↦ rw notice (inr (end_receiver-Down laws o n m r v (inl still)))
        | inr other ↦ rw other (inl still)
      ]

  receiver-Coherent :
      (o : W) (n m : ℕ) (p : ClientRun × W)
      → Coherent laws o n m p
      → Coherent laws o n m (client_receiver_round p)
  unfolding client_receiver_round
  receiver-Coherent o n m (r, w) (inl u) =
      let fd = r.client.session.socket in
      rw (Up-is_up laws o n m r w u) (
        on_packet-Coherent o n m r w (packet_receive fd w) u λ k.
          packet_receive-keeps (λ (x : W). is_open x k) fd (λ x a. quiet.recv_keeps x fd a k)
            (λ x a. quiet.malloc_keeps x a k) w)
  receiver-Coherent o n m (r, w) (inr d) =
      rw (Down-is_up laws o r w d) (inr (still_Down laws o r w d))

  send_encoded-Same :
      (fd : ℤ) (encoded : Option (List ℕ)) (w : W) → Same laws w (send_encoded fd encoded w)
  unfolding send_encoded
  send_encoded-Same fd none w k = refl
  send_encoded-Same fd (some b) w k = quiet.send_keeps w fd b k

  write_plain-Same :
      (fd : ℤ) (packet : Option (List ℕ)) (w : W) → Same laws w (write_plain fd packet w)
  unfolding write_plain
  write_plain-Same fd none w k = refl
  write_plain-Same fd (some b) w k = quiet.write_keeps w fd b k

  -- The counter of what was sent is no part of being connected.
  Up-count_sent :
      (o : W) (n m : ℕ) (r : ClientRun) (w : W)
      → Up laws o n m r w
      → Up laws o n m (with_session r (count_sent r.client.session)) w
  unfolding count_sent
  Up-count_sent o n m r w u = record {
    is_established = u.is_established;
    is_connected = u.is_connected;
    stream = u.stream;
    same_stream = u.same_stream;
    datagrams = u.datagrams;
    stays = u.stays;
    stream_fresh = u.stream_fresh;
    datagrams_fresh = u.datagrams_fresh;
    opened = u.opened;
  }

  send_raw-Coherent :
      (o : W) (n m : ℕ) (raw : List ℕ) (r : ClientRun) (w : W)
      → Up laws o n m r w
      → Coherent laws o n m (send_raw raw (r, w))
  unfolding send_raw
  send_raw-Coherent o n m raw r w u =
      elim (Bool-cases (length (tunnel_pipeline_compress raw tunnel_packet_max_plaintext) == 0)) [
        | inl nothing ↦ rw nothing (inl u)
        | inr some_bytes ↦
            rw some_bytes
              (inl (Up-Same laws o n m _ w _ (Up-count_sent o n m r w u) (send_encoded-Same _ _ w)))
      ]

  tun_sender-Coherent :
      (o : W) (n m : ℕ) (ready : ℤ) (p : ClientRun × W)
      → Coherent laws o n m p
      → Coherent laws o n m (client_tun_sender_round ready p)
  unfolding client_tun_sender_round carries tun_read
  tun_sender-Coherent o n m ready (r, w) (inr d) = rw (Down-is_up laws o r w d) (inr d)
  tun_sender-Coherent o n m ready (r, w) (inl u) =
      let fd = r.client.tun.fd in
      let (count, raw, v) = os.read w fd tunnel_packet_max_plaintext in
      let still =
        Up-Same laws o n m r w v u λ k. quiet.read_keeps w fd tunnel_packet_max_plaintext k in
      elim (Bool-cases (carries r && is_positive ready)) [
        | inr idle ↦ rw idle (inl u)
        | inl wakes ↦ rw wakes (elim (Bool-cases (is_positive count)) [
          | inl got ↦ rw got (send_raw-Coherent o n m raw r v still)
          | inr nothing ↦ rw nothing (inl still)
        ])
      ]

  udp_receiver-Coherent :
      (o : W) (n m : ℕ) (ready : ℤ) (p : ClientRun × W)
      → Coherent laws o n m p
      → Coherent laws o n m (client_udp_receiver_round ready p)
  unfolding client_udp_receiver_round carries
  udp_receiver-Coherent o n m ready (r, w) (inr d) = rw (Down-is_up laws o r w d) (inr d)
  udp_receiver-Coherent o n m ready (r, w) (inl u) =
      let fd = r.client.session.udp.socket in
      let (count, buffer, v) = os.recv w fd tunnel_packet_max_size in
      let same : Same laws w v = λ k. quiet.recv_keeps w fd tunnel_packet_max_size k in
      elim (Bool-cases (carries r && is_positive ready)) [
        | inr idle ↦ rw idle (inl u)
        | inl wakes ↦ rw wakes (elim (Bool-cases (is_positive count)) [
          | inl got ↦
              rw got (inl (Up-Same laws o n m r w _ u λ k. write_plain-Same _ _ v k ∙ same k))
          | inr nothing ↦ rw nothing (inl (Up-Same laws o n m r w v u same))
        ])
      ]

  -- Each step of the client keeps it coherent.
  step-Coherent :
      (o : W) (n m : ℕ) (p q : ClientRun × W)
      → ClientStep p q
      → Coherent laws o n m p
      → Coherent laws o n m q
  unfolding client_execute_command
  step-Coherent o n m p q (receiver _ _) h = receiver-Coherent o n m p h
  step-Coherent o n m p q (tun_sender _ ready) h = tun_sender-Coherent o n m ready p h
  step-Coherent o n m p q (udp_receiver _ ready) h = udp_receiver-Coherent o n m ready p h
  step-Coherent o n m p q (command _ line _) h = command-Coherent laws o n m _ p h

  -- In whatever order the rounds of the threads and the commands of the shell follow each other, a
  -- client that is connected is, at each point, either still connected, with the stream socket and
  -- the tunnel's socket open, or not connected, with the descriptors open that were open before it
  -- connected and the shell told to end: no socket is left open and none is closed twice.
  pub client_steps-Coherent :
      (o : W) (n m : ℕ) (p q : ClientRun × W)
      → Coherent laws o n m p
      → ClientReaches p q
      → Coherent laws o n m q
  client_steps-Coherent o n m p q h (here _) = h
  client_steps-Coherent o n m p q h (later _ r _ before step) =
      step-Coherent o n m r q step (client_steps-Coherent o n m p r h before)
