-- ===== src/Command/Server/Reach.antt =====
-- src/commands/server_env.c: the server's table in whatever order the rounds of its threads follow
-- each other.
use sencd.Base.{
  ℕ, zero, suc, ◌≡◌, Bool, Option, none, some, List, ℤ, pos, negsuc, Bool-cases, inl, inr, ◌==◌,
}
use sencd.Platform.Os.{Os}
use sencd.Platform.Sodium.{Random, Sodium}
use sencd.Platform.Zstd.{Zstd}
use sencd.Session.{server}
use sencd.Manager.{SessionManager}
use sencd.Manager.Connect.{session_manager_connect}
use sencd.Manager.Rounds.{session_manager_udp_listener, session_manager_tun_sender}
use sencd.Manager.Trusted.{
  IsGuarded, session_manager_connect-IsGuarded, session_manager_udp_listener-IsGuarded,
  session_manager_tun_sender-IsGuarded,
}
use sencd.Endpoint.Device.{Interfaces}
use sencd.Endpoint.Server.{Server, server_accept, server_shutdown}
use sencd.Command.Server.{
  close_refused, welcome, on_ready, server_listener_round, inet_addrstrlen,
  start_server_environment,
}
use sencd.Command.Server.Launch.{start_server_environment-IsGuarded}

-- The server's part of the state, the table and the world.
abbrev pub ServerState : Type 0 → Type 0
ServerState W = Server × SessionManager × W

module _ {W : Type 0} ⦃os : Os W⦄ ⦃rnd : Random W⦄ ⦃na : Sodium⦄ ⦃z : Zstd⦄ where
  -- One step of the server: a round of one of its three threads, or the shutdown of its socket when
  -- the shell has ended. What `select` returned is free.
  pub data ServerStep : ServerState W → ServerState W → Type 0 where
    listens :
        (size : ℕ) (ready : ℤ) (interrupted : Bool) (s : Server) (m : SessionManager) (w : W)
        → ServerStep
            (s, m, w)
            (
              s,
              (server_listener_round size ready interrupted s m w).1.0,
              (server_listener_round size ready interrupted s m w).1.1,
            )
    hears :
        (ready : ℤ) (s : Server) (m : SessionManager) (w : W)
        → ServerStep
            (s, m, w)
            (
              s,
              (session_manager_udp_listener ready m w).0,
              (session_manager_udp_listener ready m w).1,
            )
    sends :
        (ready : ℤ) (s : Server) (m : SessionManager) (w : W)
        → ServerStep
            (s, m, w)
            (s, (session_manager_tun_sender ready m w).0, (session_manager_tun_sender ready m w).1)
    shuts_down :
        (s : Server) (m : SessionManager) (w : W)
        → ServerStep (s, m, w) ((server_shutdown (s, w)).1.0, m, (server_shutdown (s, w)).1.1)

  -- Any number of steps, the last one last.
  pub data ServerReaches : ServerState W → ServerState W → Type 0 where
    here : (x : ServerState W) → ServerReaches x x
    after : (x y z : ServerState W) → ServerReaches x y → ServerStep y z → ServerReaches x z

-- What the manager keeps when a session is connected, a round of the listener keeps.
module _ {W : Type 0} ⦃os : Os W⦄ ⦃rnd : Random W⦄ ⦃na : Sodium⦄ (P : SessionManager → Type 0)
    (connects : (size : ℕ) (m : SessionManager) (client : ℤ) (ip : List ℕ) (w : W)
      → P m
      → P (session_manager_connect size m server client ip w).1) where
  close_refused-keeps :
      (client : ℤ) (t : Option (Unit {0}) × SessionManager × W)
      → P t.1
      → P (close_refused client t).0
  unfolding close_refused
  close_refused-keeps client (none, m, w) h = h
  close_refused-keeps client (some _, m, w) h = h

  welcome-keeps :
      (size : ℕ) (m : SessionManager) (r : Option (ℤ × List ℕ) × W) → P m → P (welcome size m r).0
  unfolding welcome
  welcome-keeps size m (none, w) h = h
  welcome-keeps size m (some (client, ip), w) h =
      close_refused-keeps client (session_manager_connect size m server client ip w)
        (connects size m client ip w h)

  on_ready-keeps :
      (size : ℕ) (ready : ℤ) (interrupted : Bool) (s : Server) (m : SessionManager) (w : W)
      → P m
      → P (on_ready size ready interrupted s m w).1.0
  unfolding on_ready
  on_ready-keeps size (negsuc n) interrupted s m w h = h
  on_ready-keeps size (pos zero) interrupted s m w h = h
  on_ready-keeps size (pos (suc n)) interrupted s m w h =
      welcome-keeps size m (server_accept inet_addrstrlen s w) h

  pub server_listener_round-keeps :
      (size : ℕ) (ready : ℤ) (interrupted : Bool) (s : Server) (m : SessionManager) (w : W)
      → P m
      → P (server_listener_round size ready interrupted s m w).1.0
  unfolding server_listener_round on_ready
  server_listener_round-keeps size ready interrupted s m w h = elim (Bool-cases (s.running == 0)) [
    | inl over ↦ rw over h
    | inr runs ↦ rw runs (on_ready-keeps size ready interrupted s m w h)
  ]

module _ {W : Type 0} ⦃os : Os W⦄ ⦃rnd : Random W⦄ ⦃na : Sodium⦄ ⦃z : Zstd⦄ where
  pub step-IsGuarded : (x y : ServerState W) → ServerStep x y → IsGuarded x.1 → IsGuarded y.1
  step-IsGuarded x y (listens size ready interrupted s m w) g =
      server_listener_round-keeps IsGuarded
        (λ size m client ip w. session_manager_connect-IsGuarded size m server client ip w) size
        ready interrupted s m w g
  step-IsGuarded x y (hears ready s m w) g = session_manager_udp_listener-IsGuarded ready m w g
  step-IsGuarded x y (sends ready s m w) g = session_manager_tun_sender-IsGuarded ready m w g
  step-IsGuarded x y (shuts_down s m w) g = g

  pub reaches-IsGuarded : (x y : ServerState W) → ServerReaches x y → IsGuarded x.1 → IsGuarded y.1
  reaches-IsGuarded x y (here k) g = g
  reaches-IsGuarded x y (after u k v before last) g =
      step-IsGuarded k y last (reaches-IsGuarded x k before g)

module _ {W : Type 0} ⦃os : Os W⦄ ⦃net : Interfaces W⦄ ⦃rnd : Random W⦄ ⦃na : Sodium⦄
    ⦃z : Zstd⦄ where
  -- Once the server has started, in whatever order the rounds of its three threads and the shutdown
  -- of its socket follow each other, the table has its 1024 slots, its count is the number of
  -- sessions in it, each session's octet is that of its slot, and every session in it is
  -- established with a verified peer.
  pub server-IsGuarded :
      (size port : ℕ) (w v : W) (s : Server) (m : SessionManager) (y : ServerState W)
      → start_server_environment size port w ≡ (some (s, m), v)
      → ServerReaches (s, m, v) y
      → IsGuarded y.1
  server-IsGuarded size port w v s m y started run =
      reaches-IsGuarded (s, m, v) y run
        (start_server_environment-IsGuarded size port w v s m started)
