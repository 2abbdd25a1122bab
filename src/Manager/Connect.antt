-- ===== src/Manager/Connect.antt =====
-- src/sessions/session_manager.c: the functions that open and close sessions and sockets.
use sencd.Base.{
  ℕ, Option, none, some, List, [], ◌∷◌, if◌then◌else◌, ℤ, nonneg, no_fd, replicate, false,
}
use sencd.Platform.Os.{Os}
use sencd.Platform.Sodium.{Random, Sodium}
use sencd.Packet.{disconnect}
use sencd.Tunnel.Udp.{close_open}
use sencd.Session.{
  Session, SessionRole, session_create, session_destroy, session_server_connect, send_message,
}
use sencd.Manager.Slots.{SlotTable}
use sencd.Manager.{SessionManager, session_manager_add, max_sessions}

module _ {W : Type 0} ⦃os : Os W⦄ where
  -- `session_destroy` and `free` of a session that no slot holds.
  unfoldable pub dropped : SessionManager → Session → W → Option (Unit {0}) × SessionManager × W
  dropped m s w = (none, m, (session_destroy s w).1)

  -- The end of `session_manager_connect`: what the table takes, and what it has no room for.
  unfoldable pub register : SessionManager → Session → W → Option (Unit {0}) × SessionManager × W
  register m s w = elim (session_manager_add m s) [
    | none ↦ dropped m s w
    | some m' ↦ (some tt, m', w)
  ]

  -- One slot of the loop of `session_manager_disconnect_all`.
  unfoldable pub disconnect_session : Option Session → W → W
  disconnect_session none w = w
  disconnect_session (some s) w =
      let (s', w') = (send_message disconnect s.protocol_version [] (s, w)).1 in
      (session_destroy s' w').1

  unfoldable pub disconnect_slots : SlotTable → W → W
  disconnect_slots [] w = w
  disconnect_slots (slot ∷ rest) w = disconnect_slots rest (disconnect_session slot w)

  -- `tun_close` closes the descriptor, if it is one, of a device that is not NULL.
  unfoldable pub tun_close : Option ℤ → W → W
  tun_close none w = w
  tun_close (some fd) w = close_open fd w

  unfoldable pub session_manager_disconnect_all : SessionManager → W → SessionManager × W
  session_manager_disconnect_all m w = (
    record m { sessions = replicate max_sessions none; session_count = 0; tun = none },
    tun_close m.tun (disconnect_slots m.sessions w),
  )

  unfoldable pub bound_to : SessionManager → ℤ → W → Option (Unit {0}) × SessionManager × W
  bound_to m result w =
      if nonneg result
      then (some tt, m, w)
      else (none, record m { udp_socket = no_fd }, os.close w m.udp_socket)

  unfoldable pub session_manager_udp_bind :
      SessionManager → ℕ → W → Option (Unit {0}) × SessionManager × W
  session_manager_udp_bind m port w =
      let (fd, w') = os.socket w false in
      let opened = record m { udp_socket = fd } in
      let (_, w'') = os.set_reuse_addr w' fd in
      let (result, w₃) = os.bind w'' fd port in
      if nonneg fd then bound_to opened result w₃ else (none, opened, w')

module _ {W : Type 0} ⦃os : Os W⦄ ⦃rnd : Random W⦄ ⦃na : Sodium⦄ where
  -- `size` is `sizeof(SESSION_T)`. The session that is returned is the one that the table took;
  -- `none` is NULL.
  unfoldable pub session_manager_connect :
      ℕ → SessionManager → SessionRole → ℤ → List ℕ → W → Option (Unit {0}) × SessionManager × W
  session_manager_connect size m role socket ip w =
      let (allocated, w₁) = os.malloc w size in
      let created = session_create role socket ip m.identity none w₁ in
      let (result, (s, w₂)) = session_server_connect created in
      if allocated
      then (elim result [ none ↦ dropped m s w₂ | some _ ↦ register m s w₂ ])
      else (none, m, w₁)
