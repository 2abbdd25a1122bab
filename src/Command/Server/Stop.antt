-- ===== src/Command/Server/Stop.antt =====
-- src/commands/server_env.c and src/sessions/session_manager.c: what the end of the server closes.
use sencd.Base.{
  ℕ, ◌≡◌, refl, ap, ◌∙◌, Bool, true, false, ◌&&◌, ◌||◌, not, Option, none, some, [], ◌∷◌, arith,
  ◌==◌, ℤ, pos, negsuc, no_fd, replicate,
}
use sencd.Platform.Os.{Os, DescriptorLaws}
use sencd.Platform.Calls.{QuietLaws}
use sencd.Platform.Sodium.{Random, Sodium}
use sencd.Packet.{disconnect}
use sencd.Tunnel.Udp.{close_open, udp_tunnel_close}
use sencd.Session.{Session, session_destroy, send_message}
use sencd.Session.Keeps.{send_message-Keeps}
use sencd.Session.Sockets.{sockets, sockets-Unseen}
use sencd.Manager.Slots.{SlotTable}
use sencd.Manager.{SessionManager, max_sessions}
use sencd.Manager.Connect.{
  disconnect_session, disconnect_slots, tun_close, session_manager_disconnect_all,
}
use sencd.Endpoint.Server.{Server, server_shutdown, server_cleanup}
use sencd.Command.Server.{stop_server_environment}

-- Whether a descriptor is the number `k`.
abbrev pub is_number : ℤ → ℕ → Bool
is_number (pos n) k = k == n
is_number (negsuc n) k = false

-- Whether one of the descriptors of the table's sessions is the number `k`.
unfoldable pub in_table : SlotTable → ℕ → Bool
in_table [] k = false
in_table (none ∷ rest) k = in_table rest k
in_table (some s ∷ rest) k = is_number s.socket k || is_number s.udp.socket k || in_table rest k

abbrev pub of_device : Option ℤ → ℕ → Bool
of_device none k = false
of_device (some fd) k = is_number fd k

-- Whether the server, its manager or one of its sessions holds the descriptor `k`.
unfoldable pub belongs : Server → SessionManager → ℕ → Bool
unfolding in_table
belongs s m k =
    is_number s.socket k || is_number m.udp_socket k || in_table m.sessions k || of_device m.tun k

module _ {W : Type 0} ⦃os : Os W⦄ ⦃rnd : Random W⦄ ⦃na : Sodium⦄ (laws : DescriptorLaws os)
    (quiet : QuietLaws os rnd laws) where
  open laws use {is_open}

  close_open-is_open :
      (fd : ℤ) (w : W) (k : ℕ) → is_open (close_open fd w) k ≡ (not (is_number fd k) && is_open w k)
  close_open-is_open (pos n) w k = laws.close_frees w n k
  close_open-is_open (negsuc n) w k = refl

  destroy-is_open :
      (s : Session) (w : W) (k : ℕ)
      → is_open (session_destroy s w).1 k
        ≡ (not (is_number s.socket k || is_number s.udp.socket k) && is_open w k)
  unfolding session_destroy udp_tunnel_close
  destroy-is_open s w k = ground (
    arith,
    close_open-is_open s.udp.socket (close_open s.socket w) k,
    close_open-is_open s.socket w k,
  )

  disconnect_session-is_open :
      (s : Session) (w : W) (k : ℕ)
      → is_open (disconnect_session (some s) w) k
        ≡ (not (is_number s.socket k || is_number s.udp.socket k) && is_open w k)
  unfolding disconnect_session
  disconnect_session-is_open s w k =
      let q = (send_message disconnect s.protocol_version [] (s, w)).1 in
      let kept : sockets laws quiet k q ≡ sockets laws quiet k (s, w) =
        send_message-Keeps (sockets laws quiet k) (sockets-Unseen laws quiet k) disconnect
          s.protocol_version [] (s, w) in
      let here = ap (λ t. t.0) kept in
      let there = ap (λ t. t.1.socket) kept in
      let same = ap (λ t. t.2) kept in rw (destroy-is_open q.0 q.1 k, here, there, same) refl

  rest_last : (a b c : Bool) → (not b && (not a && c)) ≡ (not (a || b) && c)
  rest_last true true c = refl
  rest_last true false c = refl
  rest_last false true c = refl
  rest_last false false c = refl

  disconnect_slots-is_open :
      (xs : SlotTable) (w : W) (k : ℕ)
      → is_open (disconnect_slots xs w) k ≡ (not (in_table xs k) && is_open w k)
  unfolding disconnect_slots in_table disconnect_session
  disconnect_slots-is_open [] w k = refl
  disconnect_slots-is_open (none ∷ rest) w k = disconnect_slots-is_open rest w k
  disconnect_slots-is_open (some s ∷ rest) w k =
      let v = disconnect_session (some s) w in
      disconnect_slots-is_open rest v k
      ∙ ap (λ b. not (in_table rest k) && b) (disconnect_session-is_open s w k)
      ∙ rest_last (is_number s.socket k || is_number s.udp.socket k) (in_table rest k) (is_open w k)

  tun_close-is_open :
      (tun : Option ℤ) (w : W) (k : ℕ)
      → is_open (tun_close tun w) k ≡ (not (of_device tun k) && is_open w k)
  unfolding tun_close
  tun_close-is_open none w k = refl
  tun_close-is_open (some fd) w k = close_open-is_open fd w k

  one_after_another :
      (a b c d e : Bool)
      → (not d && (not c && (not b && (not a && e)))) ≡ (not (a || b || c || d) && e)
  one_after_another true true c d e = ground arith
  one_after_another true false c d e = ground arith
  one_after_another false true c d e = ground arith
  one_after_another false false c d e = ground arith

  shutdown_runs :
      (s : Server) (w : W) → s.running ≡ 1 → server_shutdown (s, w) ≡ (some tt, server_cleanup s w)
  unfolding server_shutdown
  shutdown_runs s w runs = let on : (s.running == 0) ≡ false = rw runs refl in rw on refl

  manager_end-is_open :
      (m : SessionManager) (fd : ℤ) (w : W) (n k : ℕ)
      → m.udp_socket ≡ pos n
      → is_open
          (tun_close m.tun (disconnect_slots m.sessions (os.close (close_open fd w) m.udp_socket)))
          k
        ≡ (not (
              is_number fd k
              || is_number m.udp_socket k
              || in_table m.sessions k
              || of_device m.tun k)
            && is_open w k)
  manager_end-is_open m fd w n k bound =
      let v = os.close (close_open fd w) m.udp_socket in
      let shut : is_open v k
          ≡ (not (is_number m.udp_socket k) && (not (is_number fd k) && is_open w k)) =
        rw bound (
          laws.close_frees (close_open fd w) n k
          ∙ ap (λ b. not (k == n) && b) (close_open-is_open fd w k)) in
      tun_close-is_open m.tun (disconnect_slots m.sessions v) k
      ∙ ap (λ b. not (of_device m.tun k) && b)
          (disconnect_slots-is_open m.sessions v k
            ∙ ap (λ b. not (in_table m.sessions k) && b) shut)
      ∙ one_after_another (is_number fd k) (is_number m.udp_socket k) (in_table m.sessions k)
          (of_device m.tun k) (is_open w k)

  -- The state after the end: the descriptors that belonged to the server are closed and the others
  -- as before, the table is empty, there is no device, and the server does not run.
  unfoldable pub Stopped : Server → SessionManager → W → Server × SessionManager × W → Type 0
  Stopped s m w (s', m', u) =
      ((k : ℕ) → is_open u k ≡ (not (belongs s m k) && is_open w k))
      × (m'.sessions ≡ replicate max_sessions none)
      × (m'.session_count ≡ 0)
      × (m'.tun ≡ none)
      × (m'.udp_socket ≡ no_fd)
      × (s'.socket ≡ no_fd)
      × (s'.running ≡ 0)

  -- The end of a running server that has its tunnel's socket closes the descriptors that the server,
  -- its manager and the table's sessions hold, and no others, and leaves no session in the table, no
  -- device, and a server that does not run.
  pub stop_server_environment-Stopped :
      (s : Server) (m : SessionManager) (w : W) (n : ℕ)
      → s.running ≡ 1
      → m.udp_socket ≡ pos n
      → Stopped s m w (stop_server_environment s m w)
  unfolding stop_server_environment session_manager_disconnect_all server_cleanup belongs Stopped
  stop_server_environment-Stopped s m w n runs bound =
      let ran = shutdown_runs s w runs in
      let ended : (k : ℕ)
          → is_open (stop_server_environment s m w).2 k ≡ (not (belongs s m k) && is_open w k) =
        λ k. rw ran (manager_end-is_open m s.socket w n k bound) in
      (ended, refl, refl, refl, refl, ap (λ r. r.1.0.socket) ran, ap (λ r. r.1.0.running) ran)
