-- ===== src/Command/Client/Coherent.antt =====
-- src/commands/client_env.c: what a client is in whatever order its threads' rounds and its commands
-- follow each other.
use sencd.Base.{
  ℕ, ◌≡◌, refl, ap, ◌∙◌, Bool, true, false, ◌||◌, ◌⊎◌, inl, inr, Option, none, some, arith, ◌==◌,
  pos, no_fd, Bool-cases, ==_iff,
}
use sencd.Platform.Os.{Os, DescriptorLaws}
use sencd.Tunnel.Udp.{udp_tunnel_close}
use sencd.Session.{Session, SessionState, established, disconnected, session_destroy}
use sencd.Manager.Slots.{is_established}
use sencd.Endpoint.Client.{is_disconnected, connection_disconnect, connection_cleanup}
use sencd.Endpoint.Descriptors.{Same}
use sencd.Command.Client.{Client, ClientCommand, ClientRun, client_commands}
use sencd.Command.Client.Steps.{
  is_up, finish, tear_down, cmd_disconnect, run_client_command, end_receiver,
}

module _ {W : Type 0} ⦃os : Os W⦄ (laws : DescriptorLaws os) where
  open laws use {is_open}

  -- A client that is connected: its session is established, it and the connection hold the same
  -- stream socket, and beside that and the tunnel's socket the descriptors are open that were open
  -- in the world `o` that it connected in.
  pub record Up (o : W) (n m : ℕ) (r : ClientRun) (w : W) : Type 0 where
    pub is_established : r.client.session.state ≡ established
    pub is_connected : r.client.connection.state ≡ sencd.Endpoint.Client.connected
    pub stream : r.client.session.socket ≡ pos n
    pub same_stream : r.client.connection.socket ≡ pos n
    pub datagrams : r.client.session.udp.socket ≡ pos m
    pub stays : r.should_exit ≡ 0
    pub stream_fresh : is_open o n ≡ false
    pub datagrams_fresh : is_open o m ≡ false
    pub opened : (k : ℕ) → is_open w k ≡ (k == m || (k == n || is_open o k))

  -- A client that is not: no socket is left, and the shell is told to end.
  pub record Down (o : W) (r : ClientRun) (w : W) : Type 0 where
    pub is_ended : r.client.session.state ≡ disconnected
    pub is_closed : r.client.connection.state ≡ sencd.Endpoint.Client.disconnected
    pub no_stream : r.client.connection.socket ≡ no_fd
    pub exits : r.should_exit ≡ 1
    pub restored : Same laws o w

  abbrev pub Coherent : W → ℕ → ℕ → ClientRun × W → Type 0
  Coherent o n m p = Up o n m p.0 p.1 ⊎ Down o p.0 p.1

  -- A world with the same descriptors open will do.
  pub Up-Same :
      (o : W) (n m : ℕ) (r : ClientRun) (w v : W) → Up o n m r w → Same laws w v → Up o n m r v
  Up-Same o n m r w v u same = record {
    is_established = u.is_established;
    is_connected = u.is_connected;
    stream = u.stream;
    same_stream = u.same_stream;
    datagrams = u.datagrams;
    stays = u.stays;
    stream_fresh = u.stream_fresh;
    datagrams_fresh = u.datagrams_fresh;
    opened = λ k. same k ∙ u.opened k;
  }

  pub Up-is_up : (o : W) (n m : ℕ) (r : ClientRun) (w : W) → Up o n m r w → is_up r ≡ true
  unfolding is_up sencd.Manager.Slots.is_established
  Up-is_up o n m r w u = rw u.is_established refl

  pub Down-is_up : (o : W) (r : ClientRun) (w : W) → Down o r w → is_up r ≡ false
  unfolding is_up sencd.Manager.Slots.is_established
  Down-is_up o r w d = rw d.is_ended refl

  both_closed :
      (o w : W) (n m : ℕ)
      → is_open o n ≡ false
      → is_open o m ≡ false
      → ((k : ℕ) → is_open w k ≡ (k == m || (k == n || is_open o k)))
      → Same laws o (os.close (os.close w (pos n)) (pos m))
  both_closed o w n m hn hm opened k =
      let once = laws.close_frees w n k in
      let twice = laws.close_frees (os.close w (pos n)) m k in
      elim (Bool-cases (k == n)) [
        | inl at_n ↦
            let shut : is_open o k ≡ false = ap (λ j. is_open o j) ((==_iff k n).0 at_n) ∙ hn in
            ground (arith, once, twice)
        | inr off_n ↦ elim (Bool-cases (k == m)) [
          | inl at_m ↦
              let shut : is_open o k ≡ false = ap (λ j. is_open o j) ((==_iff k m).0 at_m) ∙ hm in
              ground (arith, once, twice)
          | inr off_m ↦ ground (arith, once, twice, opened k)
        ]
      ]

  tear_down-Down :
      (o : W) (n m : ℕ) (r : ClientRun) (w : W)
      → Up o n m r w
      → let q = tear_down (r, w) in
        (e : ℕ) (b : Bool) → e ≡ 1 → Down o (record q.0 { should_exit = e; receiving = b }) q.1
  unfolding tear_down session_destroy udp_tunnel_close sencd.Session.cleared_session
  tear_down-Down o n m r w u e b one = record {
    is_ended = refl;
    is_closed = refl;
    no_stream = refl;
    exits = one;
    restored =
        rw (u.stream, u.datagrams) (both_closed o w n m u.stream_fresh u.datagrams_fresh u.opened);
  }

  pub still_Down :
      (o : W) (r : ClientRun) (w : W)
      → Down o r w
      → Down o (record r { should_exit = 1; receiving = false }) w
  still_Down o r w d = record {
    is_ended = d.is_ended;
    is_closed = d.is_closed;
    no_stream = d.no_stream;
    exits = refl;
    restored = d.restored;
  }

  pub end_receiver-Down :
      (o : W) (n m : ℕ) (r : ClientRun) (w : W)
      → Coherent o n m (r, w)
      → Down o (end_receiver (r, w)).0 (end_receiver (r, w)).1
  unfolding end_receiver
  end_receiver-Down o n m r w (inl u) =
      rw (Up-is_up o n m r w u) (tear_down-Down o n m r w u 1 false refl)
  end_receiver-Down o n m r w (inr d) = rw (Down-is_up o r w d) (still_Down o r w d)

  cmd_disconnect-Coherent :
      (o : W) (n m : ℕ) (p : ClientRun × W) → Coherent o n m p → Coherent o n m (cmd_disconnect p)
  unfolding cmd_disconnect
  cmd_disconnect-Coherent o n m (r, w) (inl u) =
      rw (Up-is_up o n m r w u) (inr (tear_down-Down o n m r w u 1 _ refl))
  cmd_disconnect-Coherent o n m (r, w) (inr d) = rw (Down-is_up o r w d) (inr d)

  pub command-Coherent :
      (o : W) (n m : ℕ) (c : Option ClientCommand) (p : ClientRun × W)
      → Coherent o n m p
      → Coherent o n m (run_client_command c p)
  unfolding run_client_command
  command-Coherent o n m none p h = h
  command-Coherent o n m (some sencd.Command.Client.clear) p h = h
  command-Coherent o n m (some sencd.Command.Client.disconnect_now) p h =
      cmd_disconnect-Coherent o n m p h

  finish-Up :
      (o w : W) (n m : ℕ)
      → is_open o n ≡ false
      → ((k : ℕ) → is_open w k ≡ (k == m || (k == n || is_open o k)))
      → (k : ℕ) → (k == m) ≡ false
      → is_open (os.close w (pos n)) k ≡ is_open o k
  finish-Up o w n m free opened k off = elim (Bool-cases (k == n)) [
    | inl at_n ↦
        let shut : is_open o k ≡ false = ap (λ j. is_open o j) ((==_iff k n).0 at_n) ∙ free in
        ground (arith, laws.close_frees w n k)
    | inr off_n ↦ ground (arith, laws.close_frees w n k, opened k)
  ]

  pub finish-Coherent :
      (o : W) (n m : ℕ) (p : ClientRun × W)
      → Coherent o n m p
      → (is_disconnected (finish p).0.client.connection.state ≡ true)
        × ((finish p).0.client.connection.socket ≡ no_fd)
        × ((k : ℕ) → (k == m) ≡ false → is_open (finish p).1 k ≡ is_open o k)
  unfolding finish is_disconnected connection_disconnect connection_cleanup
  finish-Coherent o n m (r, w) (inl u) =
      rw (u.is_connected, u.same_stream) (refl, refl, finish-Up o w n m u.stream_fresh u.opened)
  finish-Coherent o n m (r, w) (inr d) = rw d.is_closed (refl, d.no_stream, λ k _. d.restored k)
