-- ===== src/Manager/Traffic.antt =====
-- src/sessions/session_manager.c: what the listener and the sender thread do with one packet, and
-- src/platform/linux/tun.c's `tun_write`.
use sencd.Base.{
  ℕ, ◌+◌, ◌%◌, ◌^◌, Option, none, some, List, set, get_or, length, ltb, ◌==◌, if◌then◌else◌, ℤ,
}
use sencd.Platform.Os.{Os, SockAddr}
use sencd.Platform.Sodium.{Sodium}
use sencd.Platform.Zstd.{Zstd}
use sencd.Session.{Session}
use sencd.Tunnel.Frame.{tunnel_packet_max_plaintext, tunnel_packet_peek_session_id}
use sencd.Tunnel.Compress.{tunnel_pipeline_compress}
use sencd.Tunnel.Pipeline.{outbound, inbound}
use sencd.Manager.Slots.{find_octet}
use sencd.Manager.{SessionManager, session_manager_get}

-- A write through the pointer in a slot.
unfoldable pub store : SessionManager → ℕ → Session → SessionManager
store m i s = record m { sessions = set m.sessions i (some s) }

-- A datagram names the address that its session sends to from now on.
unfoldable pub heard_from : SockAddr → Session → Session
heard_from from s = record s { udp = record s.udp { peer_addr = from; peer_known = 1 } }

-- `tx_nonce++` on a uint64_t.
unfoldable pub count_sent : Session → Session
count_sent s = record s { crypto = record s.crypto { tx_nonce = (s.crypto.tx_nonce + 1) % 2 ^ 64 } }

module _ {W : Type 0} ⦃os : Os W⦄ where
  unfoldable pub tun_write : Option ℤ → Option (List ℕ) → W → W
  tun_write none packet w = w
  tun_write (some fd) none w = w
  tun_write (some fd) (some packet) w = os.write w fd packet

  unfoldable pub send_datagram : ℤ → Option (List ℕ) → SockAddr → W → W
  send_datagram fd none peer w = w
  send_datagram fd (some encoded) peer w = os.sendto w fd encoded peer

module _ {W : Type 0} ⦃os : Os W⦄ ⦃na : Sodium⦄ ⦃z : Zstd⦄ where
  -- A datagram for the session in slot `i`.
  unfoldable pub deliver : List ℕ → SockAddr → ℕ → Session → SessionManager → W → SessionManager × W
  unfolding store heard_from
  deliver buffer from i s m w =
      let s' = heard_from from s in (store m i s', tun_write m.tun (inbound buffer s'.crypto) w)

  unfoldable pub deliver_to :
      List ℕ → SockAddr → Option (ℕ × Session) → SessionManager → W → SessionManager × W
  deliver_to buffer from none m w = (m, w)
  deliver_to buffer from (some (i, s)) m w = deliver buffer from i s m w

  -- `session_manager_udp_listener` with one datagram that `recvfrom` returned.
  unfoldable pub udp_listener_round : List ℕ → SockAddr → SessionManager → W → SessionManager × W
  udp_listener_round buffer from m w = elim (tunnel_packet_peek_session_id buffer) [
    | none ↦ (m, w)
    | some id ↦ deliver_to buffer from (session_manager_get m id) m w
  ]

  -- The session in slot `i` sends. The counter moves on where encoding fails, too.
  unfoldable pub forward : List ℕ → ℕ → Session → SessionManager → W → SessionManager × W
  unfolding store count_sent
  forward raw i s m w = elim (outbound raw s.session_id s.crypto.tx_nonce s.crypto) [
    | none ↦ (store m i (count_sent s), w)
    | some encoded ↦ (store m i (count_sent s), os.sendto w m.udp_socket encoded s.udp.peer_addr)
  ]

  unfoldable pub forward_to :
      List ℕ → Option (ℕ × Session) → SessionManager → W → SessionManager × W
  forward_to raw none m w = (m, w)
  forward_to raw (some (i, s)) m w = forward raw i s m w

  -- `session_manager_tun_sender` with one packet that `tun_read` returned. Byte 19 is the last of
  -- an IPv4 header's destination.
  unfoldable pub tun_sender_round : List ℕ → SessionManager → W → SessionManager × W
  tun_sender_round raw m w =
      let compressed = tunnel_pipeline_compress raw tunnel_packet_max_plaintext in
      if ltb (length raw) 20
      then (m, w)
      else (if length compressed == 0
          then (m, w)
          else forward_to raw (find_octet 0 (get_or raw 19 0) m.sessions) m w)
