-- ===== src/Endpoint/Descriptors.antt =====
-- src/server/server_core.c, src/client/client_core.c and src/tunnel/udp_tunnel.c: which descriptors
-- their functions leave open.
use sencd.Base.{
  ℕ, ◌≡◌, refl, sym, ap, ◌∙◌, subst, true, false, ◌||◌, Option, none, some, arith, ◌==◌, ℤ, pos,
  negsuc, no_fd, Bool-cases, inl, inr, ◌⊎◌, ==_iff,
}
use sencd.Base.Control.{cases}
use sencd.Platform.Os.{Os, DescriptorLaws}
use sencd.Tunnel.Udp.{close_open}
use sencd.Endpoint.Server.{
  Server, server_cleanup, or_cleanup, server_create_socket, server_bind, server_listen, open_server,
  server_start, server_shutdown,
}

-- To split on the sign of a result.
pub ℤ-cases : (z : ℤ) → ((n : ℕ) × (z ≡ pos n)) ⊎ ((n : ℕ) × (z ≡ negsuc n))
ℤ-cases (pos n) = inl (n, refl)
ℤ-cases (negsuc n) = inr (n, refl)

module _ {W : Type 0} ⦃os : Os W⦄ (laws : DescriptorLaws os) where
  open laws use {is_open}

  -- The same descriptors are open in both worlds.
  abbrev pub Same : W → W → Type 0
  Same w u = (k : ℕ) → is_open u k ≡ is_open w k

  -- One descriptor more is open in the second world.
  abbrev pub Opened : W → ℕ → W → Type 0
  Opened w n u = (is_open w n ≡ false) × ((k : ℕ) → is_open u k ≡ (k == n || is_open w k))

  pub close-Same : (w u : W) (n : ℕ) → Opened w n u → Same w (os.close u (pos n))
  close-Same w u n (free, opened) k = elim (Bool-cases (k == n)) [
    | inl same ↦
        let here : k ≡ n = (==_iff k n).0 same in
        let closed : is_open w k ≡ false = ap (λ j. is_open w j) here ∙ free in
        ground (arith, laws.close_frees u n k)
    | inr other ↦ ground (arith, laws.close_frees u n k, opened k)
  ]

  -- How a step on the listening socket `n` ends.
  abbrev Holds : W → ℕ → ℕ → Option (Unit {0}) × (Server × W) → Type 0
  Holds w n port (none, q) = (q.0.socket ≡ no_fd) × (q.0.running ≡ 0) × Same w q.1
  Holds w n port (some _, q) = (q.0.socket ≡ pos n) × (q.0.port ≡ port) × Opened w n q.1

  or_cleanup-Holds :
      (result : ℤ) (s : Server) (w u : W) (n : ℕ)
      → s.socket ≡ pos n
      → Opened w n u
      → Holds w n s.port (or_cleanup result (s, u))
  unfolding or_cleanup server_cleanup
  or_cleanup-Holds (pos m) s w u n here opened = (here, refl, opened)
  or_cleanup-Holds (negsuc m) s w u n here opened =
      let closed : close_open s.socket u ≡ os.close u (pos n) = ap (λ fd. close_open fd u) here in
      (refl, refl, subst (λ x. Same w x) (sym closed) (close-Same w u n opened))

  -- How opening the listening socket ends, and how a start ends.
  abbrev Created : W → ℕ → Option (Unit {0}) × (Server × W) → Type 0
  Created w port (none, q) = (q.0.socket ≡ no_fd) × (q.0.running ≡ 0) × Same w q.1
  Created w port (some _, q) = (n : ℕ) × (q.0.socket ≡ pos n) × (q.0.port ≡ port) × Opened w n q.1

  abbrev pub Started : W → ℕ → Option (Unit {0}) × (Server × W) → Type 0
  Started w port (none, q) = (q.0.socket ≡ no_fd) × (q.0.running ≡ 0) × Same w q.1
  Started w port (some _, q) =
      (n : ℕ) × (q.0.socket ≡ pos n) × (q.0.running ≡ 1) × (q.0.port ≡ port) × Opened w n q.1

  Holds-Created :
      (w : W) (n port : ℕ) (t : Option (Unit {0}) × (Server × W))
      → Holds w n port t
      → Created w port t
  Holds-Created w n port (none, q) h = h
  Holds-Created w n port (some _, q) h = (n, h.0, h.1, h.2)

  create_socket-Created : (s : Server) (w : W) → Created w s.port (server_create_socket (s, w))
  unfolding server_create_socket server_cleanup
  create_socket-Created s w = elim (ℤ-cases (os.socket w true).0) [
    | inr (m, e) ↦
        let q : Server × W = (record s { socket = no_fd; running = 0 }, (os.socket w true).1) in
        let same : (none, q) ≡ server_create_socket (s, w) = ground arith in
        subst (Created w s.port) same (refl, refl, λ k. laws.socket_fails w true m k e)
    | inl (n, e) ↦
        let fd = (os.socket w true).0 in
        let u = (os.socket w true).1 in
        let opened : Server = record s { socket = fd } in
        let (result, v) = os.set_reuse_addr u fd in
        let same : or_cleanup result (opened, v) ≡ server_create_socket (s, w) = ground arith in
        let more : Opened w n v = (
          laws.socket_fresh w true n e,
          λ k. laws.set_reuse_addr_keeps u fd k ∙ laws.socket_opens w true n k e,
        ) in
        subst (Created w s.port) same
          (Holds-Created w n s.port _ (or_cleanup-Holds result opened w v n e more))
  ]

  bind-Holds :
      (s : Server) (w u : W) (n : ℕ)
      → s.socket ≡ pos n
      → Opened w n u
      → Holds w n s.port (server_bind (s, u))
  unfolding server_bind
  bind-Holds s w u n here (free, opened) =
      or_cleanup-Holds (os.bind u s.socket s.port).0 s w (os.bind u s.socket s.port).1 n here
        (free, λ k. laws.bind_keeps u s.socket s.port k ∙ opened k)

  listen-Holds :
      (s : Server) (w u : W) (n : ℕ)
      → s.socket ≡ pos n
      → Opened w n u
      → Holds w n s.port (server_listen (s, u))
  unfolding server_listen
  listen-Holds s w u n here (free, opened) =
      or_cleanup-Holds (os.listen u s.socket).0 s w (os.listen u s.socket).1 n here
        (free, λ k. laws.listen_keeps u s.socket k ∙ opened k)

  open_server-Started :
      (s : Server) (w : W) (t : Option (Unit {0}) × (Server × W))
      → open_server (s, w) ≡ t
      → Started w s.port t
  unfolding open_server
  open_server-Started s w t e =
      cases (Started w s.port) (server_create_socket (s, w)) _ e
        (λ q stop. subst (Created w s.port) stop (create_socket-Created s w))
        λ _ q made e.
          let (n, here, port, opened) = subst (Created w s.port) made (create_socket-Created s w) in
          cases (Started w s.port) (server_bind q) _ e
            (λ x stop. subst (Holds w n q.0.port) stop (bind-Holds q.0 w q.1 n here opened))
            λ _ x bound e.
              let (here', port', opened') =
                subst (Holds w n q.0.port) bound (bind-Holds q.0 w q.1 n here opened) in
              cases (Started w s.port) (server_listen x) _ e
                (λ y stop. subst (Holds w n x.0.port) stop (listen-Holds x.0 w x.1 n here' opened'))
                λ _ y listens e.
                  let (here₃, port₃, opened₃) =
                    subst (Holds w n x.0.port) listens (listen-Holds x.0 w x.1 n here' opened') in
                  let done : Started w s.port (some tt, (record y.0 { running = 1 }, y.1)) =
                    (n, here₃, refl, port₃ ∙ port' ∙ port, opened₃) in
                  subst (Started w s.port) e done

  pub server_start-Started :
      (port : ℕ) (s : Server) (w : W) → s.running ≡ 0 → Started w port (server_start port (s, w))
  unfolding server_start
  server_start-Started port s w idle =
      let fresh = record s { port = port } in
      let same : open_server (fresh, w) ≡ server_start port (s, w) = ground arith in
      open_server-Started fresh w (server_start port (s, w)) same

  -- A start that succeeds and a shutdown after it leave the descriptors open that were open before,
  -- and the server as one that can be started again.
  pub server_shutdown-server_start :
      (port : ℕ) (s : Server) (w : W) (p : Server × W)
      → s.running ≡ 0
      → server_start port (s, w) ≡ (some tt, p)
      → (q : Server × W) × (server_shutdown p ≡ (some tt, q))
        × (q.0.running ≡ 0)
        × (q.0.socket ≡ no_fd)
        × Same w q.1
  unfolding server_shutdown server_cleanup
  server_shutdown-server_start port s w p idle started =
      let (n, here, running, _, opened) =
        subst (Started w port) started (server_start-Started port s w idle) in
      let q : Server × W =
        (record p.0 { socket = no_fd; running = 0 }, close_open p.0.socket p.1) in
      let closed : close_open p.0.socket p.1 ≡ os.close p.1 (pos n) =
        ap (λ fd. close_open fd p.1) here in
      (q, ground arith, refl, refl, subst (λ x. Same w x) (sym closed) (close-Same w p.1 n opened))
