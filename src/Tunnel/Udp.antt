-- ===== src/Tunnel/Udp.antt =====
-- src/tunnel/udp_tunnel.h and udp_tunnel.c: one end of the datagram tunnel.
use sencd.Base.{ℕ, false, Option, none, some, List, if◌then◌else◌, ℤ, pos, negsuc, nonneg, no_fd}
use sencd.Platform.Os.{Os, SockAddr}

pub record UdpTunnel : Type 0 where
  pub peer_addr : SockAddr
  pub session_id : ℕ
  pub socket : ℤ
  pub peer_known : ℕ

abbrev pub zero_addr : SockAddr
zero_addr = record { addr = 0; port = 0 }

unfoldable pub udp_tunnel_init : ℕ → UdpTunnel
udp_tunnel_init session_id = record {
  peer_addr = zero_addr;
  session_id = session_id;
  socket = no_fd;
  peer_known = 0;
}

module _ {W : Type 0} ⦃os : Os W⦄ where
  -- The world after `if (fd >= 0) close(fd);`.
  abbrev pub close_open : ℤ → W → W
  close_open (pos n) w = os.close w (pos n)
  close_open (negsuc n) w = w

  unfoldable pub udp_tunnel_close : UdpTunnel → W → UdpTunnel × W
  udp_tunnel_close tunnel w =
      (record tunnel { socket = no_fd; peer_known = 0 }, close_open tunnel.socket w)

  -- The calls after the socket was created, `fd` being nonnegative.
  unfoldable pub udp_connect : UdpTunnel → Option ℕ → ℕ → W → Option (Unit {0}) × UdpTunnel × W
  udp_connect tunnel none port w =
      (none, record tunnel { socket = no_fd }, os.close w tunnel.socket)
  udp_connect tunnel (some addr) port w =
      let server : SockAddr = record { addr = addr; port = port } in
      let (result, w') = os.connect w tunnel.socket server in
      if nonneg result
      then (some tt, record tunnel { peer_addr = server; peer_known = 1 }, w')
      else (none, record tunnel { socket = no_fd }, os.close w' tunnel.socket)

  unfoldable pub udp_tunnel_client_open :
      UdpTunnel → List ℕ → ℕ → W → Option (Unit {0}) × UdpTunnel × W
  unfolding udp_connect
  udp_tunnel_client_open tunnel server_ip port w =
      let (fd, w') = os.socket w false in
      let opened = record tunnel { socket = fd } in
      if nonneg fd then udp_connect opened (os.inet_pton server_ip) port w' else (none, opened, w')
