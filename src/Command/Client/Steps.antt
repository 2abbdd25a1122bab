-- ===== src/Command/Client/Steps.antt =====
-- src/commands/client_env.c: the rounds of the client's threads and the commands of its shell, and
-- the order in which they can follow each other.
use sencd.Base.{
  ℕ, ◌≡◌, Bool, true, false, ◌&&◌, Option, none, some, List, length, ◌==◌, if◌then◌else◌, ℤ, nonneg,
  is_positive, no_fd,
}
use sencd.Platform.Os.{Os}
use sencd.Platform.Sodium.{Sodium}
use sencd.Platform.Zstd.{Zstd}
use sencd.Packet.{Packet, disconnect, code, packet_receive}
use sencd.Tunnel.Frame.{tunnel_packet_max_size, tunnel_packet_max_plaintext}
use sencd.Tunnel.Compress.{tunnel_pipeline_compress}
use sencd.Tunnel.Pipeline.{outbound, inbound}
use sencd.Session.{Session, session_destroy}
use sencd.Manager.Slots.{is_established}
use sencd.Manager.Traffic.{count_sent}
use sencd.Endpoint.Client.{disconnected, is_disconnected, connection_disconnect}
use sencd.Endpoint.Device.{tun_read}
use sencd.Command.Shell.{find_command, until_newline}
use sencd.Command.Client.{ClientCommand, ClientRun, clear, disconnect_now, client_commands}

unfoldable pub is_up : ClientRun → Bool
is_up r = is_established r.client.session.state

-- The condition of the two loops on packets.
unfoldable pub carries : ClientRun → Bool
unfolding is_up
carries r = is_up r && nonneg r.client.session.udp.socket

abbrev pub with_session : ClientRun → Session → ClientRun
with_session r s = record r { client = record r.client { session = s } }

module _ {W : Type 0} ⦃os : Os W⦄ where
  -- `session_destroy` and the two assignments after it.
  unfoldable pub tear_down : ClientRun × W → ClientRun × W
  tear_down (r, w) =
      let (s, w') = session_destroy r.client.session w in
      let c = record r.client.connection { socket = no_fd; state = disconnected } in
      (record r { client = record r.client { session = s; connection = c } }, w')

  unfoldable pub cmd_disconnect : ClientRun × W → ClientRun × W
  unfolding is_up tear_down
  cmd_disconnect (r, w) =
      let (r', w') = tear_down (r, w) in
      if is_up r then (record r' { should_exit = 1 }, w') else (r, w)

  unfoldable pub run_client_command : Option ClientCommand → ClientRun × W → ClientRun × W
  unfolding cmd_disconnect
  run_client_command none p = p
  run_client_command (some clear) p = p
  run_client_command (some disconnect_now) p = cmd_disconnect p

  unfoldable pub client_execute_command : List ℕ → ClientRun × W → ClientRun × W
  unfolding run_client_command
  client_execute_command input p = run_client_command (find_command input client_commands) p

  -- The part of `client_receiver` after its loop.
  unfoldable pub end_receiver : ClientRun × W → ClientRun × W
  unfolding is_up tear_down
  end_receiver (r, w) =
      let (r', w') = if is_up r then tear_down (r, w) else (r, w) in
      (record r' { should_exit = 1; receiving = false }, w')

  -- What `packet_receive` returned in the loop.
  unfoldable pub on_packet : ClientRun → Option Packet × W → ClientRun × W
  unfolding end_receiver
  on_packet r (none, w) = end_receiver (r, w)
  on_packet r (some packet, w) =
      if packet.header.type == code disconnect then end_receiver (r, w) else (r, w)

  unfoldable pub client_receiver_round : ClientRun × W → ClientRun × W
  unfolding is_up end_receiver on_packet
  client_receiver_round (r, w) =
      if is_up r
      then on_packet r (packet_receive r.client.session.socket w)
      else end_receiver (r, w)

  -- The end of `start_client_environment`.
  unfoldable pub finish : ClientRun × W → ClientRun × W
  finish (r, w) =
      let (c, w') = (connection_disconnect (r.client.connection, w)).1 in
      if is_disconnected r.client.connection.state
      then (r, w)
      else (record r { client = record r.client { connection = c } }, w')

module _ {W : Type 0} ⦃os : Os W⦄ ⦃na : Sodium⦄ ⦃z : Zstd⦄ where
  -- A datagram that was encoded; `none` is a `continue`.
  unfoldable pub send_encoded : ℤ → Option (List ℕ) → W → W
  send_encoded fd none w = w
  send_encoded fd (some encoded) w = (os.send w fd encoded).1

  -- A raw packet from the device. The counter moves on where encoding fails, too.
  unfoldable pub send_raw : List ℕ → ClientRun × W → ClientRun × W
  unfolding send_encoded count_sent
  send_raw raw (r, w) =
      let s = r.client.session in
      if length (tunnel_pipeline_compress raw tunnel_packet_max_plaintext) == 0 then (r, w) else (
        with_session r (count_sent s),
        send_encoded s.udp.socket (outbound raw s.session_id s.crypto.tx_nonce s.crypto) w,
      )

  -- A round of `client_tun_sender`; `ready` is what `select` returned.
  unfoldable pub client_tun_sender_round : ℤ → ClientRun × W → ClientRun × W
  unfolding carries send_raw tun_read
  client_tun_sender_round ready (r, w) =
      let (count, raw, w') = tun_read r.client.tun tunnel_packet_max_plaintext w in
      let got = if is_positive count then send_raw raw (r, w') else (r, w') in
      if carries r && is_positive ready then got else (r, w)

  unfoldable pub write_plain : ℤ → Option (List ℕ) → W → W
  write_plain fd none w = w
  write_plain fd (some packet) w = os.write w fd packet

  -- A round of `client_udp_receiver`.
  unfoldable pub client_udp_receiver_round : ℤ → ClientRun × W → ClientRun × W
  unfolding carries write_plain
  client_udp_receiver_round ready (r, w) =
      let s = r.client.session in
      let (count, buffer, w') = os.recv w s.udp.socket tunnel_packet_max_size in
      let got =
        if is_positive count
        then (r, write_plain r.client.tun.fd (inbound buffer s.crypto) w')
        else (r, w') in
      if carries r && is_positive ready then got else (r, w)

  -- One step of the client: a round of one of its threads, or a command that its shell has read.
  pub data ClientStep : ClientRun × W → ClientRun × W → Type 0 where
    receiver : (p : ClientRun × W) → p.0.receiving ≡ true → ClientStep p (client_receiver_round p)
    tun_sender : (p : ClientRun × W) (ready : ℤ) → ClientStep p (client_tun_sender_round ready p)
    udp_receiver :
        (p : ClientRun × W) (ready : ℤ) → ClientStep p (client_udp_receiver_round ready p)
    command :
        (p : ClientRun × W) (line : List ℕ)
        → p.0.should_exit ≡ 0
        → ClientStep p (client_execute_command (until_newline line) p)

  -- Any number of steps.
  pub data ClientReaches : ClientRun × W → ClientRun × W → Type 0 where
    here : (p : ClientRun × W) → ClientReaches p p
    later : (p q r : ClientRun × W) → ClientReaches p q → ClientStep q r → ClientReaches p r
