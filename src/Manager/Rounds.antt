-- ===== src/Manager/Rounds.antt =====
-- src/sessions/session_manager.c: the rounds of its two threads, from the return of `select` on.
use sencd.Base.{◌&&◌, Option, none, some, if◌then◌else◌, ℤ, nonneg, is_positive}
use sencd.Platform.Os.{Os}
use sencd.Platform.Sodium.{Sodium}
use sencd.Platform.Zstd.{Zstd}
use sencd.Tunnel.Frame.{tunnel_packet_max_size, tunnel_packet_max_plaintext}
use sencd.Manager.{SessionManager}
use sencd.Manager.Traffic.{udp_listener_round, tun_sender_round}

module _ {W : Type 0} ⦃os : Os W⦄ ⦃na : Sodium⦄ ⦃z : Zstd⦄ where
  -- A round of `session_manager_udp_listener`; `ready` is what `select` returned.
  unfoldable pub session_manager_udp_listener : ℤ → SessionManager → W → SessionManager × W
  session_manager_udp_listener ready m w =
      let (count, buffer, from, w') = os.recvfrom w m.udp_socket tunnel_packet_max_size in
      let got = if is_positive count then udp_listener_round buffer from m w' else (m, w') in
      if nonneg m.udp_socket && is_positive ready then got else (m, w)

  -- The packet read from the device `tun`, and a round of `session_manager_tun_sender`. The thread
  -- ends at once where there is no device.
  unfoldable pub read_packet : Option ℤ → SessionManager → W → SessionManager × W
  read_packet none m w = (m, w)
  read_packet (some fd) m w =
      let (count, raw, w') = os.read w fd tunnel_packet_max_plaintext in
      if is_positive count then tun_sender_round raw m w' else (m, w')

  unfoldable pub session_manager_tun_sender : ℤ → SessionManager → W → SessionManager × W
  unfolding read_packet
  session_manager_tun_sender ready m w =
      let got = read_packet m.tun m w in
      if nonneg m.udp_socket && is_positive ready then got else (m, w)
