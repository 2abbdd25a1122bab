-- ===== src/Command/Server.antt =====
-- src/commands/server_env.c: the thread that listens for clients, and how the server starts and
-- stops. A round of the thread is one step; creating, joining and cancelling threads is not
-- modelled, and neither is the lock.
pub mod Sockets
pub mod Launch
pub mod Reach
pub mod Stop
pub mod Nonces
use sencd.Base.{
  ℕ, zero, suc, Bool, true, false, Option, none, some, List, ◌==◌, if◌then◌else◌, ℤ, pos, negsuc,
  no_fd,
}
use sencd.Base.Control.{M}
use sencd.Platform.Os.{Os}
use sencd.Platform.Sodium.{Random, Sodium}
use sencd.Session.{server}
use sencd.Manager.{SessionManager}
use sencd.Manager.Connect.{
  session_manager_connect, session_manager_udp_bind, session_manager_disconnect_all,
}
use sencd.Manager.Start.{session_manager_init}
use sencd.Endpoint.Device.{Interfaces}
use sencd.Endpoint.Server.{Server, server_init, server_start, server_accept, server_shutdown}

-- Whether a thread's loop goes on after a round.
pub data Loop : Type 0 where
  goes_on : Loop
  stops : Loop

-- INET_ADDRSTRLEN.
abbrev pub inet_addrstrlen : ℕ
inet_addrstrlen = 16

module _ {W : Type 0} ⦃os : Os W⦄ ⦃rnd : Random W⦄ ⦃na : Sodium⦄ where
  -- The client's socket is closed if the manager takes no session of it.
  unfoldable pub close_refused : ℤ → Option (Unit {0}) × SessionManager × W → SessionManager × W
  close_refused client (none, m, w) = (m, os.close w client)
  close_refused client (some _, m, w) = (m, w)

  -- What follows `server_accept`.
  unfoldable pub welcome : ℕ → SessionManager → Option (ℤ × List ℕ) × W → SessionManager × W
  unfolding close_refused
  welcome size m (none, w) = (m, w)
  welcome size m (some (client, ip), w) =
      close_refused client (session_manager_connect size m server client ip w)

  -- What `select` returned, while the server runs; `interrupted` is `errno == EINTR`.
  unfoldable pub on_ready : ℕ → ℤ → Bool → Server → SessionManager → W → Loop × (SessionManager × W)
  unfolding welcome
  on_ready size (negsuc n) interrupted s m w = ((if interrupted then goes_on else stops), (m, w))
  on_ready size (pos zero) interrupted s m w = (goes_on, (m, w))
  on_ready size (pos (suc n)) interrupted s m w =
      (goes_on, welcome size m (server_accept inet_addrstrlen s w))

  -- A round of `server_listener` from the return of `select` on.
  unfoldable pub server_listener_round :
      ℕ → ℤ → Bool → Server → SessionManager → W → Loop × (SessionManager × W)
  unfolding on_ready
  server_listener_round size ready interrupted s m w =
      if s.running == 0 then (stops, (m, w)) else on_ready size ready interrupted s m w

  -- `server_shutdown`, and `none` for the failed start.
  abbrev give_up : Server → W → Option (Server × SessionManager) × W
  give_up s w = (none, (server_shutdown (s, w)).1.1)

  -- What follows `session_manager_init`, and what follows `session_manager_udp_bind`.
  unfoldable pub bind_tunnel :
      ℕ → Server → Option SessionManager × W → Option (Server × SessionManager) × W
  bind_tunnel port s (none, w) = give_up s w
  bind_tunnel port s (some m, w) =
      let (bound, m', w') = session_manager_udp_bind m port w in
      elim bound [ none ↦ give_up s w' | some _ ↦ (some (s, m'), w') ]

  -- The end of `start_server_environment`, once the threads are joined.
  unfoldable pub stop_server_environment : Server → SessionManager → W → Server × SessionManager × W
  stop_server_environment s m w =
      let (s', w₁) = (server_shutdown (s, w)).1 in
      let closed = record m { udp_socket = no_fd } in
      let (m', w') = session_manager_disconnect_all closed (os.close w₁ m.udp_socket) in
      (s', m', w')

module _ {W : Type 0} ⦃os : Os W⦄ ⦃net : Interfaces W⦄ ⦃rnd : Random W⦄ ⦃na : Sodium⦄ where
  -- What follows `server_start`.
  unfoldable pub start_manager :
      ℕ → ℕ → Option (Unit {0}) × (Server × W) → Option (Server × SessionManager) × W
  start_manager size port (none, (s, w)) = (none, w)
  start_manager size port (some _, (s, w)) = bind_tunnel port s (session_manager_init size w)

  -- `start_server_environment` up to the creation of the threads: the server and the manager that
  -- they share, or `none` for the early returns.
  unfoldable pub start_server_environment : ℕ → ℕ → W → Option (Server × SessionManager) × W
  unfolding start_manager
  start_server_environment size port w =
      start_manager size port (server_start port (server_init, w))
