-- ===== src/Manager/Deliver.antt =====
-- End to end through src/sessions/session_manager.c: what a peer with the matching keys reads.
use sencd.Base.{ℕ, ◌+◌, ◌^◌, ◌≤◌, ◌<◌, ◌≡◌, ◌∙◌, some, List, arith, get_or, get_elem?, length, pos}
use sencd.Platform.Os.{Os, SockAddr}
use sencd.Platform.Sodium.{Sodium, AeadLaws}
use sencd.Platform.Zstd.{Zstd, ZstdLaws}
use sencd.Crypto.{CryptoContext}
use sencd.Session.{Session, established}
use sencd.Tunnel.Frame.{tunnel_packet_max_plaintext}
use sencd.Tunnel.Compress.{tunnel_compress_header_size}
use sencd.Tunnel.Pipeline.{outbound, inbound, inbound-outbound}
use sencd.Manager.{SessionManager, session_manager_get}
use sencd.Manager.Slots.{octet_of}
use sencd.Manager.Traffic.{
  store, heard_from, count_sent, deliver, deliver_to, tun_write, forward, udp_listener_round,
  tun_sender_round,
}
use sencd.Manager.Count.{IsSound}
use sencd.Manager.Lookup.{get_elem-Addressed}
use sencd.Manager.Forward.{tun_sender_round_routes}

module _ {W : Type 0} ⦃os : Os W⦄ ⦃na : Sodium⦄ ⦃z : Zstd⦄ (aead : AeadLaws na)
    (zstd : ZstdLaws z) where
  -- A packet of 20 to 65499 bytes for the octet of one of the first 256 slots, whose session is
  -- established with a known peer, leaves in one datagram to that peer, which a receiver with the
  -- session's key reads as the same packet; the session's counter has moved on, and nothing else
  -- of the table has changed.
  pub tun_sender_round_reaches :
      (raw : List ℕ) (m : SessionManager) (w : W) (i : ℕ) (s : Session) (receiver : CryptoContext)
      → IsSound m
      → i < 256
      → get_elem? m.sessions i ≡ some (some s)
      → s.state ≡ established
      → s.udp.peer_known ≡ 1
      → get_or raw 19 0 ≡ octet_of i
      → 20 ≤ length raw
      → length raw + tunnel_compress_header_size ≤ tunnel_packet_max_plaintext
      → s.session_id < 2 ^ 64
      → s.crypto.tx_nonce < 2 ^ 64
      → receiver.rx_key ≡ s.crypto.tx_key
      → (b : List ℕ) × (tun_sender_round raw m w
          ≡ (store m i (count_sent s), os.sendto w m.udp_socket b s.udp.peer_addr))
        × (inbound b receiver ≡ some raw)
  unfolding forward
  tun_sender_round_reaches raw m w i s receiver sound near at up known octet long fits hs hc keys =
      let (b, sent, _, _, back) =
        inbound-outbound aead zstd raw s.session_id s.crypto.tx_nonce s.crypto receiver
          (omega arith) fits hs hc keys in
      let routed = tun_sender_round_routes raw m w i s sound near at up known octet long fits in
      (b, ground (arith, routed, sent), back)

  -- The datagram that a client with the matching key makes of a packet of 1 to 65499 bytes has the
  -- listener write that packet to the TUN device and remember where it came from.
  pub udp_listener_round_delivers :
      (raw : List ℕ) (from : SockAddr) (m : SessionManager) (w : W) (id counter i fd : ℕ)
      (s : Session) (sender : CryptoContext)
      → session_manager_get m id ≡ some (i, s)
      → m.tun ≡ some (pos fd)
      → 1 ≤ length raw
      → length raw + tunnel_compress_header_size ≤ tunnel_packet_max_plaintext
      → id < 2 ^ 64
      → counter < 2 ^ 64
      → s.crypto.rx_key ≡ sender.tx_key
      → (b : List ℕ) × (outbound raw id counter sender ≡ some b)
        × (udp_listener_round b from m w ≡ (store m i (heard_from from s), os.write w (pos fd) raw))
  unfolding udp_listener_round deliver_to deliver heard_from tun_write
  udp_listener_round_delivers raw from m w id counter i fd s sender found device some_raw fits hs hc
        keys =
      let (b, sent, _, seen, back) =
        inbound-outbound aead zstd raw id counter sender s.crypto some_raw fits hs hc keys in
      (b, sent, ground (arith, seen, found, back, device))

module _ {W : Type 0} ⦃os : Os W⦄ ⦃na : Sodium⦄ ⦃z : Zstd⦄ where
  -- When a session in one of the first 256 slots is up, the packets for the session 256 slots
  -- further on are sent to it instead: the two have one octet.
  pub tun_sender_round_shadowed :
      (raw : List ℕ) (m : SessionManager) (w : W) (i : ℕ) (s t : Session)
      → IsSound m
      → i < 256
      → get_elem? m.sessions i ≡ some (some s)
      → get_elem? m.sessions (256 + i) ≡ some (some t)
      → s.state ≡ established
      → s.udp.peer_known ≡ 1
      → get_or raw 19 0 ≡ t.tunnel_ip_octet
      → 20 ≤ length raw
      → length raw + tunnel_compress_header_size ≤ tunnel_packet_max_plaintext
      → tun_sender_round raw m w ≡ forward raw i s m w
  unfolding octet_of
  tun_sender_round_shadowed raw m w i s t sound near at other up known octet long fits =
      let far = get_elem-Addressed 0 m.sessions (256 + i) t sound.addressed other in
      let same : octet_of (0 + (256 + i)) ≡ octet_of i = omega arith in
      tun_sender_round_routes raw m w i s sound near at up known (octet ∙ far ∙ same) long fits
