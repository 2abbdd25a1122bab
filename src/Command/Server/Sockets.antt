-- ===== src/Command/Server/Sockets.antt =====
-- src/sessions/session_manager.c and src/commands/server_env.c: what becomes of a client's socket.
use sencd.Base.{
  ℕ, ◌+◌, zero, suc, ◌≡◌, refl, ap, ◌∙◌, subst, Bool, true, false, ◌&&◌, not, ◌⊎◌, inl, inr, Option,
  none, some, List, [], ◌∷◌, sym, get_elem?, set, arith, ◌==◌, ℤ, pos, negsuc, no_fd, Bool-cases,
  Option-cases, ==_iff,
}
use sencd.Platform.Os.{Os, DescriptorLaws}
use sencd.Platform.Calls.{QuietLaws}
use sencd.Platform.Sodium.{Random, Sodium}
use sencd.Tunnel.Udp.{udp_tunnel_init, udp_tunnel_close}
use sencd.Session.{
  Session, server, session_create, generate_session_id, session_destroy, session_server_connect,
}
use sencd.Session.Keeps.Server.{server_connect-Keeps}
use sencd.Session.Sockets.{sockets, sockets-Unseen}
use sencd.Manager.Slots.{SlotTable, insert, in_slot}
use sencd.Manager.{SessionManager, session_manager_add}
use sencd.Manager.Connect.{dropped, register, session_manager_connect}
use sencd.Endpoint.Server.{Server, address_text, server_accept}
use sencd.Endpoint.Descriptors.{Same, Opened, close-Same, ℤ-cases}
use sencd.Command.Server.{close_refused, welcome, on_ready, server_listener_round, inet_addrstrlen}

insert-set :
    (i : ℕ) (s : Session) (xs ys : SlotTable)
    → insert i s xs ≡ some ys
    → (k : ℕ) × (get_elem? xs k ≡ some none) × (ys ≡ set xs k (some (in_slot (i + k) s)))
unfolding insert
insert-set i s [] ys e = cc e
insert-set i s (none ∷ xs) ys e = (
  0,
  refl,
  let zero_more : i + 0 ≡ i = omega arith in
      subst (λ j. ys ≡ some (in_slot j s) ∷ xs) (sym zero_more) (cc e),
)
insert-set i s (some t ∷ xs) ys e = elim (Option-cases (insert (suc i) s xs)) [
  | inl stop ↦ absurd (ground arith)
  | inr (rest, taken) ↦
      let (k, free, placed) = insert-set (suc i) s xs rest taken in
      let same : some t ∷ rest ≡ ys = ground arith in
      let there : suc i + k ≡ i + suc k = omega arith in
      (
        suc k,
        free,
        sym same
            ∙ ap (λ zs. some t ∷ zs) placed
            ∙ ap (λ j. some t ∷ set xs k (some (in_slot j s))) there,
      )
]

module _ {W : Type 0} ⦃os : Os W⦄ ⦃rnd : Random W⦄ ⦃na : Sodium⦄ (laws : DescriptorLaws os)
    (quiet : QuietLaws os rnd laws) where
  open laws use {is_open}

  -- All but one number are open as before.
  abbrev pub Closed : W → ℕ → W → Type 0
  Closed w n u = (k : ℕ) → is_open u k ≡ (not (k == n) && is_open w k)

  create-sockets :
      (n : ℕ) (ip : List ℕ) (m : SessionManager) (w : W)
      → let p = session_create server (pos n) ip m.identity none w in
        (p.0.socket ≡ pos n) × (p.0.udp.socket ≡ no_fd) × Same laws w p.1
  unfolding session_create generate_session_id udp_tunnel_init
  create-sockets n ip m w = (refl, refl, λ k. quiet.randombytes_keeps w 8 k)

  handshake-sockets :
      (p : Session × W)
      → let q = (session_server_connect p).1 in
        (q.0.socket ≡ p.0.socket) × (q.0.udp.socket ≡ p.0.udp.socket) × Same laws p.1 q.1
  handshake-sockets p =
      let kept : (k : ℕ)
          → sockets laws quiet k (session_server_connect p).1 ≡ sockets laws quiet k p =
        λ k. server_connect-Keeps (sockets laws quiet k) (sockets-Unseen laws quiet k) p in
      (ap (λ t. t.0) (kept 0), ap (λ t. t.1.socket) (kept 0), λ k. ap (λ t. t.2) (kept k))

  destroy-Closed :
      (s : Session) (n : ℕ) (w u : W)
      → s.socket ≡ pos n
      → s.udp.socket ≡ no_fd
      → Same laws w u
      → Closed w n (session_destroy s u).1
  unfolding session_destroy udp_tunnel_close
  destroy-Closed s n w u here none_open same k =
      rw (here, none_open) (laws.close_frees u n k ∙ ap (λ b. not (k == n) && b) (same k))

  -- A session on the socket `n` has been put into a slot that was free, with that slot's octet, and
  -- no other slot has changed.
  abbrev pub Placed : SessionManager → ℕ → SessionManager → Type 0
  Placed m n m' =
      (i : ℕ) × (s : Session) × (s.socket ≡ pos n)
      × (get_elem? m.sessions i ≡ some none)
      × (m'.sessions ≡ set m.sessions i (some (in_slot i s)))
      × (m'.session_count ≡ m.session_count + 1)

  -- What becomes of the client's socket `n`.
  abbrev pub Handed : SessionManager → ℕ → W → ℕ → Option (Unit {0}) × SessionManager × W → Type 0
  Handed m size w n (some _, m', u) = Placed m n m' × Same laws w u
  Handed m size w n (none, m', u) =
      (m' ≡ m)
      × ((((os.malloc w size).0 ≡ false) × Same laws w u)
          ⊎ (((os.malloc w size).0 ≡ true) × Closed w n u))

  add-Placed :
      (n : ℕ) (m : SessionManager) (s : Session) (m' : SessionManager)
      → s.socket ≡ pos n
      → session_manager_add m s ≡ some m'
      → Placed m n m'
  unfolding session_manager_add
  add-Placed n m s m' here e = elim (Option-cases (insert 0 s m.sessions)) [
    | inl stop ↦ absurd (ground arith)
    | inr (slots, taken) ↦
        let (i, free, placed) = insert-set 0 s m.sessions slots taken in
        let same : slots ≡ m'.sessions = ground arith in
        let there : 0 + i ≡ i = omega arith in
        (
          i,
          s,
          here,
          free,
          sym same ∙ placed ∙ ap (λ j. set m.sessions i (some (in_slot j s))) there,
          ground arith,
        )
  ]

  register-Handed :
      (size : ℕ) (m : SessionManager) (s : Session) (n : ℕ) (w u : W)
      → (os.malloc w size).0 ≡ true
      → s.socket ≡ pos n
      → s.udp.socket ≡ no_fd
      → Same laws w u
      → Handed m size w n (register m s u)
  unfolding register dropped
  register-Handed size m s n w u given here none_open same =
      elim (Option-cases (session_manager_add m s)) [
        | inl full ↦
            let run : dropped m s u ≡ register m s u = rw (register, full) refl in
            subst (Handed m size w n) run
              (refl, inr (given, destroy-Closed s n w u here none_open same))
        | inr (m', taken) ↦
            let run : (some tt, m', u) ≡ register m s u = rw (register, taken) refl in
            subst (Handed m size w n) run (add-Placed n m s m' here taken, same)
      ]

  pub session_manager_connect-Handed :
      (size n : ℕ) (m : SessionManager) (ip : List ℕ) (w : W)
      → Handed m size w n (session_manager_connect size m server (pos n) ip w)
  unfolding session_manager_connect dropped
  session_manager_connect-Handed size n m ip w = elim (Bool-cases (os.malloc w size).0) [
    | inr refused ↦
        let run : (none, m, (os.malloc w size).1)
            ≡ session_manager_connect size m server (pos n) ip w =
          rw refused refl in
        subst (Handed m size w n) run (refl, inl (refused, λ k. quiet.malloc_keeps w size k))
    | inl given ↦
        let w₁ = (os.malloc w size).1 in
        let created = session_create server (pos n) ip m.identity none w₁ in
        let (here, closed, same) = create-sockets n ip m w₁ in
        let (here', closed', same') = handshake-sockets created in
        let q = (session_server_connect created).1 in
        let kept : Same laws w q.1 = λ k. same' k ∙ same k ∙ quiet.malloc_keeps w size k in
        elim (Option-cases (session_server_connect created).0) [
          | inl failed ↦
              let run : dropped m q.0 q.1 ≡ session_manager_connect size m server (pos n) ip w =
                rw (given, failed) refl in
              subst (Handed m size w n) run (
                refl,
                inr (given, destroy-Closed q.0 n w q.1 (here' ∙ here) (closed' ∙ closed) kept),
              )
          | inr (_, passed) ↦
              let run : register m q.0 q.1 ≡ session_manager_connect size m server (pos n) ip w =
                rw (given, passed) refl in
              subst (Handed m size w n) run
                (register-Handed size m q.0 n w q.1 given (here' ∙ here) (closed' ∙ closed) kept)
        ]
  ]

  -- How a round of the listener ends: with a session more, on the one socket that is open more, or
  -- with the table as it was and no socket opened.
  unfoldable pub Heard : SessionManager → W → SessionManager × W → Type 0
  Heard m w (m', u) = ((m' ≡ m) × Same laws w u) ⊎ ((n : ℕ) × Placed m n m' × Opened laws w n u)

  -- A number that was free, opened, and closed once or twice.
  twice-Same :
      (w v u : W) (n : ℕ) → Opened laws w n v → Closed v n u → Same laws w (os.close u (pos n))
  twice-Same w v u n (free, opened) closed k = elim (Bool-cases (k == n)) [
    | inl same ↦
        let here : k ≡ n = (==_iff k n).0 same in
        let shut : is_open w k ≡ false = ap (λ j. is_open w j) here ∙ free in
        ground (arith, laws.close_frees u n k)
    | inr other ↦ ground (arith, laws.close_frees u n k, closed k, opened k)
  ]

  close_refused-Heard :
      (m : SessionManager) (size n : ℕ) (w v : W) (t : Option (Unit {0}) × SessionManager × W)
      → Opened laws w n v
      → Handed m size v n t
      → Heard m w (close_refused (pos n) t)
  unfolding close_refused Heard
  close_refused-Heard m size n w v (some _, m', u) (free, opened) (placed, same) =
      inr (n, placed, (free, λ k. same k ∙ opened k))
  close_refused-Heard m size n w v (none, m', u) (free, opened) (kept, inl (_, same)) =
      inl (kept, close-Same laws w u n (free, λ k. same k ∙ opened k))
  close_refused-Heard m size n w v (none, m', u) opened (kept, inr (_, closed)) =
      inl (kept, twice-Same w v u n opened closed)

  welcome-Heard :
      (size : ℕ) (m : SessionManager) (s : Server) (w : W)
      → Heard m w (welcome size m (server_accept inet_addrstrlen s w))
  unfolding welcome server_accept Heard
  welcome-Heard size m s w = elim (ℤ-cases (os.accept w s.socket).0) [
    | inr (k, failed) ↦
        let run : (m, (os.accept w s.socket).2)
            ≡ welcome size m (server_accept inet_addrstrlen s w) =
          rw failed refl in
        subst (Heard m w) run (inl (refl, λ j. quiet.accept_fails w s.socket k j failed))
    | inl (n, client) ↦
        let from = (os.accept w s.socket).1 in
        let v = (os.accept w s.socket).2 in
        let ip = address_text (os.inet_ntop from.addr inet_addrstrlen) inet_addrstrlen in
        let run : close_refused (pos n) (session_manager_connect size m server (pos n) ip v)
            ≡ welcome size m (server_accept inet_addrstrlen s w) =
          rw client refl in
        subst (Heard m w) run (
          close_refused-Heard m size n w v _
            (quiet.accept_fresh w s.socket n client, λ k. quiet.accept_opens w s.socket n k client)
            (session_manager_connect-Handed size n m ip v))
  ]

  on_ready-Heard :
      (size : ℕ) (ready : ℤ) (interrupted : Bool) (s : Server) (m : SessionManager) (w : W)
      → Heard m w (on_ready size ready interrupted s m w).1
  unfolding on_ready Heard
  on_ready-Heard size (negsuc n) interrupted s m w = inl (refl, λ k. refl)
  on_ready-Heard size (pos zero) interrupted s m w = inl (refl, λ k. refl)
  on_ready-Heard size (pos (suc n)) interrupted s m w = welcome-Heard size m s w

  -- A round of the listener, whatever `select` and `accept` return and however the handshake goes,
  -- either puts one session, whose socket was free and is the only one open more, into a slot that
  -- was free and counts it, or leaves the table as it is and the same descriptors open as before.
  pub server_listener_round-Heard :
      (size : ℕ) (ready : ℤ) (interrupted : Bool) (s : Server) (m : SessionManager) (w : W)
      → Heard m w (server_listener_round size ready interrupted s m w).1
  unfolding server_listener_round on_ready Heard
  server_listener_round-Heard size ready interrupted s m w = elim (Bool-cases (s.running == 0)) [
    | inl over ↦ rw over (inl (refl, λ k. refl))
    | inr runs ↦ rw runs (on_ready-Heard size ready interrupted s m w)
  ]
