-- ===== src/Endpoint/Connections.antt =====
-- src/client/client_core.c and src/tunnel/udp_tunnel.c: how connecting ends, and which descriptors it
-- leaves open.
use sencd.Base.{
  ℕ, ◌≡◌, refl, sym, ap, ◌∙◌, subst, Bool, true, false, Option, none, some, List, arith, ℤ, pos,
  nonneg, no_fd, Bool-cases, inl, inr, take,
}
use sencd.Base.Control.{cases}
use sencd.Platform.Os.{Os, SockAddr, DescriptorLaws}
use sencd.Tunnel.Udp.{UdpTunnel, close_open, udp_connect, udp_tunnel_client_open}
use sencd.Endpoint.Client.{
  Connection, connecting, connected, disconnected, is_connected, is_disconnected,
  connection_cleanup, connection_create_socket, connect_to, connection_open, open_connection,
  connection_connect, connection_disconnect,
}
use sencd.Endpoint.Descriptors.{Same, Opened, close-Same, ℤ-cases}

module _ {W : Type 0} ⦃os : Os W⦄ (laws : DescriptorLaws os) where
  -- A socket that was just created.
  fresh_socket :
      (w : W) (stream : Bool) (n : ℕ)
      → (os.socket w stream).0 ≡ pos n
      → Opened laws w n (os.socket w stream).1
  fresh_socket w stream n e =
      (laws.socket_fresh w stream n e, λ k. laws.socket_opens w stream n k e)

  closed_again :
      (w u : W) (fd : ℤ) (n : ℕ) → fd ≡ pos n → Opened laws w n u → Same laws w (close_open fd u)
  closed_again w u fd n here opened =
      subst (λ (z : ℤ). Same laws w (close_open z u)) (sym here) (close-Same laws w u n opened)

  -- How connecting ends.
  abbrev pub Joined : W → Option (Unit {0}) × (Connection × W) → Type 0
  Joined w (none, q) = (q.0.socket ≡ no_fd) × (q.0.state ≡ disconnected) × Same laws w q.1
  Joined w (some _, q) =
      (n : ℕ) × (q.0.socket ≡ pos n) × (q.0.state ≡ connected) × Opened laws w n q.1

  -- How connecting the socket `n` ends.
  abbrev Reached : W → ℕ → Option (Unit {0}) × (Connection × W) → Type 0
  Reached w n (none, q) = (q.0.socket ≡ no_fd) × (q.0.state ≡ disconnected) × Same laws w q.1
  Reached w n (some _, q) = (q.0.socket ≡ pos n) × Opened laws w n q.1

  connect_to-Reached :
      (address : Option ℕ) (c : Connection) (w u : W) (n : ℕ)
      → c.socket ≡ pos n
      → Opened laws w n u
      → Reached w n (connect_to address (c, u))
  unfolding connect_to connection_cleanup
  connect_to-Reached none c w u n here opened =
      (refl, refl, closed_again w u c.socket n here opened)
  connect_to-Reached (some addr) c w u n here (free, opened) =
      let server : SockAddr = record { addr = addr; port = c.port } in
      let v = (os.connect u c.socket server).1 in
      let still : Opened laws w n v =
        (free, λ k. laws.connect_keeps u c.socket server k ∙ opened k) in
      elim (Bool-cases (nonneg (os.connect u c.socket server).0)) [
        | inl good ↦
            let same : (some tt, (c, v)) ≡ connect_to (some addr) (c, u) = ground arith in
            subst (Reached w n) same (here, still)
        | inr bad ↦
            let same : (none, connection_cleanup c v) ≡ connect_to (some addr) (c, u) =
              ground arith in
            subst (Reached w n) same (refl, refl, closed_again w v c.socket n here still)
      ]

  -- How creating the socket ends.
  abbrev Made : W → Option (Unit {0}) × (Connection × W) → Type 0
  Made w (none, q) = (q.0.socket ≡ no_fd) × (q.0.state ≡ disconnected) × Same laws w q.1
  Made w (some _, q) = (n : ℕ) × (q.0.socket ≡ pos n) × Opened laws w n q.1

  create_socket-Made : (c : Connection) (w : W) → Made w (connection_create_socket (c, w))
  unfolding connection_create_socket connection_cleanup
  create_socket-Made c w =
      let u = (os.socket w true).1 in
      elim (ℤ-cases (os.socket w true).0) [
        | inr (m, failed) ↦
            let q : Connection × W = (record c { socket = no_fd; state = disconnected }, u) in
            let same : (none, q) ≡ connection_create_socket (c, w) = ground arith in
            subst (Made w) same (refl, refl, λ k. laws.socket_fails w true m k failed)
        | inl (n, here) ↦
            let q : Connection × W = (record c { socket = (os.socket w true).0 }, u) in
            let same : (some tt, q) ≡ connection_create_socket (c, w) = ground arith in
            subst (Made w) same (n, here, fresh_socket w true n here)
      ]

  open_connection-Joined :
      (c : Connection) (w : W) (t : Option (Unit {0}) × (Connection × W))
      → open_connection (c, w) ≡ t
      → Joined w t
  unfolding open_connection connection_open
  open_connection-Joined c w t e =
      cases (Joined w) (connection_create_socket (c, w)) _ e
        (λ q stop. subst (Made w) stop (create_socket-Made c w))
        λ _ q made e.
          let (n, here, opened) = subst (Made w) made (create_socket-Made c w) in
          let reached = connect_to-Reached (os.inet_pton q.0.ip) q.0 w q.1 n here opened in
          cases (Joined w) (connect_to (os.inet_pton q.0.ip) q) _ e
            (λ x stop. subst (Reached w n) stop reached)
            λ _ x there e.
              let (here', opened') = subst (Reached w n) there reached in
              let done : Joined w (some tt, (record x.0 { state = connected }, x.1)) =
                (n, here', refl, opened') in
              subst (Joined w) e done

  pub connection_connect-Joined :
      (ip : List ℕ) (port : ℕ) (c : Connection) (w : W)
      → is_connected c.state ≡ false
      → Joined w (connection_connect ip port (c, w))
  unfolding connection_connect
  connection_connect-Joined ip port c w idle =
      let aimed = record c { ip = take 63 ip; port = port; state = connecting } in
      let same : open_connection (aimed, w) ≡ connection_connect ip port (c, w) = ground arith in
      open_connection-Joined aimed w (connection_connect ip port (c, w)) same

  -- After a connect that succeeds, a disconnect succeeds and leaves the descriptors open that were
  -- open before the connect.
  pub connection_disconnect-connection_connect :
      (ip : List ℕ) (port : ℕ) (c : Connection) (w : W) (p : Connection × W)
      → is_connected c.state ≡ false
      → connection_connect ip port (c, w) ≡ (some tt, p)
      → (q : Connection × W) × (connection_disconnect p ≡ (some tt, q))
        × (q.0.state ≡ disconnected)
        × (q.0.socket ≡ no_fd)
        × Same laws w q.1
  unfolding connection_disconnect connection_cleanup is_disconnected
  connection_disconnect-connection_connect ip port c w p idle up =
      let (n, here, state, opened) =
        subst (Joined w) up (connection_connect-Joined ip port c w idle) in
      let q : Connection × W =
        (record p.0 { socket = no_fd; state = disconnected }, close_open p.0.socket p.1) in
      (q, ground arith, refl, refl, closed_again w p.1 p.0.socket n here opened)

  -- How opening the tunnel's end ends: an end whose socket is no descriptor and the descriptors as
  -- they were, or an end that knows its peer, on one new descriptor.
  abbrev pub TunnelOpened : W → Option (Unit {0}) × UdpTunnel × W → Type 0
  TunnelOpened w (none, tunnel, u) = (nonneg tunnel.socket ≡ false) × Same laws w u
  TunnelOpened w (some _, tunnel, u) =
      (n : ℕ) × (tunnel.socket ≡ pos n) × (tunnel.peer_known ≡ 1) × Opened laws w n u

  udp_connect-TunnelOpened :
      (tunnel : UdpTunnel) (address : Option ℕ) (port n : ℕ) (w u : W)
      → tunnel.socket ≡ pos n
      → Opened laws w n u
      → TunnelOpened w (udp_connect tunnel address port u)
  unfolding udp_connect
  udp_connect-TunnelOpened tunnel none port n w u here opened = (
    refl,
    subst (λ (z : ℤ). Same laws w (os.close u z)) (sym here) (close-Same laws w u n opened),
  )
  udp_connect-TunnelOpened tunnel (some addr) port n w u here (free, opened) =
      let server : SockAddr = record { addr = addr; port = port } in
      let v = (os.connect u tunnel.socket server).1 in
      let still : Opened laws w n v =
        (free, λ k. laws.connect_keeps u tunnel.socket server k ∙ opened k) in
      elim (Bool-cases (nonneg (os.connect u tunnel.socket server).0)) [
        | inl good ↦
            let same : (some tt, record tunnel { peer_addr = server; peer_known = 1 }, v)
                ≡ udp_connect tunnel (some addr) port u =
              ground arith in
            subst (TunnelOpened w) same (n, here, refl, still)
        | inr bad ↦
            let same : (none, record tunnel { socket = no_fd }, os.close v tunnel.socket)
                ≡ udp_connect tunnel (some addr) port u =
              ground arith in
            subst (TunnelOpened w) same (
              refl,
              subst (λ (z : ℤ). Same laws w (os.close v z)) (sym here)
                  (close-Same laws w v n still),
            )
      ]

  -- Opening the tunnel's end either fails and leaves the same descriptors open, or leaves an end
  -- with a known peer, on one descriptor that was free and is the only one opened.
  pub udp_tunnel_client_open-TunnelOpened :
      (tunnel : UdpTunnel) (ip : List ℕ) (port : ℕ) (w : W)
      → TunnelOpened w (udp_tunnel_client_open tunnel ip port w)
  unfolding udp_tunnel_client_open
  udp_tunnel_client_open-TunnelOpened tunnel ip port w =
      let u = (os.socket w false).1 in
      let opened = record tunnel { socket = (os.socket w false).0 } in
      let whole = udp_tunnel_client_open tunnel ip port w in
      elim (ℤ-cases (os.socket w false).0) [
        | inr (m, failed) ↦
            let same : (none, opened, u) ≡ whole = ground arith in
            subst (TunnelOpened w) same
              (ap nonneg failed, λ k. laws.socket_fails w false m k failed)
        | inl (n, here) ↦
            let same : udp_connect opened (os.inet_pton ip) port u ≡ whole = ground arith in
            subst (TunnelOpened w) same (
              udp_connect-TunnelOpened opened (os.inet_pton ip) port n w u here
                (fresh_socket w false n here))
      ]
