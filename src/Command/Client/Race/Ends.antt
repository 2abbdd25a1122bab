-- ===== src/Command/Client/Race/Ends.antt =====
-- src/commands/client_env.c: how the shell and the receiver end when both tear the session down.
use sencd.Base.{
  ℕ, ◌-◌, ◌≤◌, ◌≡◌, refl, sym, ap, ◌∙◌, subst, inl, inr, true, false, List, [], ◌∷◌, ◌++◌, arith,
  ◌==◌, Bool-cases, ==_iff, replicate,
}
use sencd.Platform.Os.{Os, DescriptorLaws}
use sencd.Tunnel.Udp.{udp_tunnel_close}
use sencd.Session.{disconnected, cleared_session, session_destroy}
use sencd.Command.Client.{ClientRun}
use sencd.Command.Client.Steps.{is_up, tear_down, cmd_disconnect, end_receiver}
use sencd.Command.Client.Coherent.{Up, Up-is_up}
use sencd.Command.Client.Race.{
  Ender, shell, receiver_thread, Stage, tests, closes_stream, closes_datagrams, marks_tunnel,
  zeroes, resets, zeroed, disconnects, exits, done, advance, Race, turn, race, turns,
}
use sencd.Command.Client.Race.Torn.{Down, Torn}
use sencd.Command.Client.Race.Statements.{advance-Torn, dead-Gone}

-- How many statements are left at most.
abbrev left : Stage → ℕ
left tests = 8
left closes_stream = 7
left closes_datagrams = 6
left marks_tunnel = 5
left zeroes = 4
left resets = 3
left disconnects = 2
left exits = 1
left done = 0

left_done : (a : Stage) → left a ≡ 0 → a ≡ done
left_done tests e = absurd (omega (arith, e))
left_done closes_stream e = absurd (omega (arith, e))
left_done closes_datagrams e = absurd (omega (arith, e))
left_done marks_tunnel e = absurd (omega (arith, e))
left_done zeroes e = absurd (omega (arith, e))
left_done resets e = absurd (omega (arith, e))
left_done disconnects e = absurd (omega (arith, e))
left_done exits e = absurd (omega (arith, e))
left_done done e = refl

module _ {W : Type 0} ⦃os : Os W⦄ where
  left-advance :
      (t : Ender) (a : Stage) (r : ClientRun) (w : W) → left (advance t a (r, w)).0 ≤ left a - 1
  unfolding advance
  left-advance shell tests r w = elim (Bool-cases (is_up r)) [
    | inl up ↦ rw up (omega arith)
    | inr down ↦ rw down (omega arith)
  ]
  left-advance receiver_thread tests r w = elim (Bool-cases (is_up r)) [
    | inl up ↦ rw up (omega arith)
    | inr down ↦ rw down (omega arith)
  ]
  left-advance t closes_stream r w = omega arith
  left-advance t closes_datagrams r w = omega arith
  left-advance t marks_tunnel r w = omega arith
  left-advance t zeroes r w = omega arith
  left-advance t resets r w = omega arith
  left-advance t disconnects r w = omega arith
  left-advance t exits r w = omega arith
  left-advance t done r w = omega arith

  -- Every turn takes a thread one statement further.
  left-race :
      (schedule : List Ender) (a b : Stage) (r : ClientRun) (w : W)
      → let x = race schedule (a, b, r, w) in
        (left x.0 ≤ left a - turns shell schedule)
        × (left x.1 ≤ left b - turns receiver_thread schedule)
  unfolding race turn turns
  left-race [] a b r w = (omega arith, omega arith)
  left-race (shell ∷ rest) a b r w =
      let (a', r', w') = advance shell a (r, w) in
      let (first, second) = left-race rest a' b r' w' in
      (omega (arith, first, left-advance shell a r w), second)
  left-race (receiver_thread ∷ rest) a b r w =
      let (b', r', w') = advance receiver_thread b (r, w) in
      let (first, second) = left-race rest a b' r' w' in
      (first, omega (arith, second, left-advance receiver_thread b r w))

  -- Without the other thread in between, the statements of each are its function.
  pub race-alone :
      (a b : Stage) (p : ClientRun × W)
      → (race (replicate 8 shell) (tests, b, p.0, p.1)
          ≡ (done, b, (cmd_disconnect p).0, (cmd_disconnect p).1))
        × (race (replicate 8 receiver_thread) (a, tests, p.0, p.1)
            ≡ (a, done, (end_receiver p).0, (end_receiver p).1))
  unfolding race turn advance zeroed cleared_session cmd_disconnect end_receiver tear_down
      session_destroy udp_tunnel_close
  race-alone a b (r, w) = elim (Bool-cases (is_up r)) [
    | inl up ↦ (rw up refl, rw up refl)
    | inr down ↦ (rw down refl, rw down refl)
  ]

-- Both pass the test before either goes on.
abbrev pub both_pass : List Ender
both_pass = shell ∷ receiver_thread ∷ replicate 7 shell ++ replicate 7 receiver_thread

module _ {W : Type 0} ⦃os : Os W⦄ (laws : DescriptorLaws os) where
  open laws use {is_open}

  swap :
      (o : W) (n m : ℕ) (t u : Ender) (a b : Stage) (r : ClientRun) (w : W)
      → Torn laws o n m t u a b r w
      → Torn laws o n m u t b a r w
  swap o n m t u a b r w h = record {
    session = elim h.session [
      | inl whole ↦ inl whole
      | inr (dead, state, fd, udp, closed, down) ↦ inr (
        dead,
        elim state [ inl over ↦ inl over | inr (inl x) ↦ inr (inr x) | inr (inr x) ↦ inr (inl x) ],
        fd,
        udp,
        closed,
        elim down [ inl over ↦ inl over | inr (inl x) ↦ inr (inr x) | inr (inr x) ↦ inr (inl x) ],
      )
    ];
    mine = h.theirs;
    theirs = h.mine;
    elsewhere = h.elsewhere;
  }

  race-Torn :
      (o : W) (n m : ℕ) (schedule : List Ender) (a b : Stage) (r : ClientRun) (w : W)
      → Torn laws o n m shell receiver_thread a b r w
      → let x = race schedule (a, b, r, w) in Torn laws o n m shell receiver_thread x.0 x.1 x.2 x.3
  unfolding race turn
  race-Torn o n m [] a b r w h = h
  race-Torn o n m (shell ∷ rest) a b r w h =
      let (a', r', w') = advance shell a (r, w) in
      race-Torn o n m rest a' b r' w' (advance-Torn laws o n m shell receiver_thread a b r w h)
  race-Torn o n m (receiver_thread ∷ rest) a b r w h =
      let (b', r', w') = advance receiver_thread b (r, w) in
      race-Torn o n m rest a b' r' w' (
        swap o n m receiver_thread shell b' a r' w' (
          advance-Torn laws o n m receiver_thread shell b a r w
            (swap o n m shell receiver_thread a b r w h)))

  -- How both threads end.
  unfoldable pub Ended : W → Race W → Type 0
  Ended o (a, b, r, w) =
      (a ≡ done)
      × (b ≡ done)
      × (r.client.session.state ≡ disconnected)
      × Down r
      × (r.should_exit ≡ 1)
      × ((k : ℕ) → (k == 0) ≡ false → is_open w k ≡ is_open o k)

  Torn-ended :
      (o : W) (n m : ℕ) (r : ClientRun) (w : W)
      → is_open o n ≡ false
      → is_open o m ≡ false
      → Torn laws o n m shell receiver_thread done done r w
      → (r.client.session.state ≡ disconnected)
        × Down r
        × (r.should_exit ≡ 1)
        × ((k : ℕ) → (k == 0) ≡ false → is_open w k ≡ is_open o k)
  Torn-ended o n m r w hn hm h =
      let (dead, state, fd, udp, closed, down) =
        dead-Gone laws o n m done done r w h.mine h.session in
      (
        elim state [ inl over ↦ over | inr (inl x) ↦ cc x | inr (inr x) ↦ cc x ],
        elim down [ inl over ↦ over | inr (inl x) ↦ cc x | inr (inr x) ↦ cc x ],
        h.theirs.1,
        λ k k0. elim (Bool-cases (k == n)) [
          | inl at_n ↦
              let same : k ≡ n = (==_iff k n).0 at_n in
              ap (λ j. is_open w j) same ∙ closed.0 ∙ sym (ap (λ j. is_open o j) same ∙ hn)
          | inr off_n ↦ elim (Bool-cases (k == m)) [
            | inl at_m ↦
                let same : k ≡ m = (==_iff k m).0 at_m in
                ap (λ j. is_open w j) same ∙ closed.1 ∙ sym (ap (λ j. is_open o j) same ∙ hm)
            | inr off_m ↦ h.elsewhere k k0 off_n off_m
          ]
        ],
      )

  -- A connected client whose shell runs cmd_disconnect while its receiver ends, one statement of
  -- either at a time in any order: after eight turns each, both have ended, the session and the
  -- connection are disconnected, the client is told to exit, and every descriptor but 0 is open
  -- exactly if it was before the client connected.
  pub race-Ended :
      (o : W) (n m : ℕ) (r : ClientRun) (w : W) (schedule : List Ender)
      → Up laws o n m r w
      → 8 ≤ turns shell schedule
      → 8 ≤ turns receiver_thread schedule
      → Ended o (race schedule (tests, tests, r, w))
  unfolding Ended
  race-Ended o n m r w schedule up first second =
      let x = race schedule (tests, tests, r, w) in
      let (la, lb) = left-race schedule tests tests r w in
      let ha = left_done x.0 (omega (arith, la, first)) in
      let hb = left_done x.1 (omega (arith, lb, second)) in
      let start : Torn laws o n m shell receiver_thread tests tests r w = record {
        session = inl (up.is_established, up.stream, inl up.datagrams);
        mine = tt;
        theirs = tt;
        elsewhere = λ k k0 kn km. ground (arith, up.opened k);
      } in
      let last = race-Torn o n m schedule tests tests r w start in
      let over =
        subst (λ c. Torn laws o n m shell receiver_thread done c x.2 x.3) hb
          (subst (λ c. Torn laws o n m shell receiver_thread c x.1 x.2 x.3) ha last) in
      let (state, down, told, restored) =
        Torn-ended o n m x.2 x.3 up.stream_fresh up.datagrams_fresh over in
      (ha, hb, state, down, told, restored)

  -- When the descriptor 0 was open before the client connected, and both threads of the connected
  -- client pass their tests, the shell then goes on to its end and the receiver after it, the
  -- descriptor 0 is open before and closed after.
  pub race_closes_stdin :
      (o : W) (n m : ℕ) (r : ClientRun) (w : W)
      → Up laws o n m r w
      → is_open o 0 ≡ true
      → (is_open w 0 ≡ true) × (is_open (race both_pass (tests, tests, r, w)).3 0 ≡ false)
  unfolding race turn advance zeroed cleared_session
  race_closes_stdin o n m r w up standard =
      (ground (arith, up.opened 0), rw (Up-is_up laws o n m r w up) (laws.close_frees _ 0 0))
