-- ===== src/Command/Client/Race/Torn.antt =====
-- src/commands/client_env.c: what holds between any two statements while the shell and the receiver
-- tear the session down, and how they end.
use sencd.Base.{ℕ, ◌≡◌, ap, ◌⊎◌, inl, inr, Bool, true, false, arith, ◌==◌, pos, negsuc, no_fd, ℤ}
use sencd.Platform.Os.{Os, DescriptorLaws}
use sencd.Tunnel.Udp.{close_open}
use sencd.Session.{established, disconnected}
use sencd.Manager.Slots.{is_established}
use sencd.Command.Client.{ClientRun}
use sencd.Command.Client.Race.{
  Ender, shell, receiver_thread, Stage, tests, closes_stream, closes_datagrams, marks_tunnel,
  zeroes, resets, disconnects, exits, done,
}

-- The thread has cleared the session and not yet disconnected the connection.
abbrev pub owing : Stage → Bool
owing resets = true
owing disconnects = true
owing _ = false

-- What a cleared session has for a socket: all zero bytes, or -1.
abbrev pub Stale : ℤ → Type 0
Stale fd = (fd ≡ pos 0) ⊎ (fd ≡ no_fd)

-- The session is not established.
abbrev pub Dead : ClientRun → Type 0
Dead r = is_established r.client.session.state ≡ false

-- The connection is disconnected.
abbrev pub Down : ClientRun → Type 0
Down r =
    (r.client.connection.state ≡ sencd.Endpoint.Client.disconnected)
    × (r.client.connection.socket ≡ no_fd)

module _ {W : Type 0} ⦃os : Os W⦄ (laws : DescriptorLaws os) (o : W) (n m : ℕ) where
  open laws use {is_open}

  abbrev pub Closed : W → Type 0
  Closed w = (is_open w n ≡ false) × (is_open w m ≡ false)

  -- What a thread has reached at a stage.
  abbrev pub Reached : Ender → Stage → ClientRun → W → Type 0
  Reached t tests r w = Unit {0}
  Reached t closes_stream r w = Unit {0}
  Reached t closes_datagrams r w = is_open w n ≡ false
  Reached t marks_tunnel r w = Closed w
  Reached t zeroes r w = Closed w
  Reached t resets r w = Dead r
  Reached t disconnects r w = Dead r
  Reached t exits r w = Dead r
  Reached shell done r w = Dead r
  Reached receiver_thread done r w = Dead r × (r.should_exit ≡ 1)

  -- The session before and after it was cleared.
  abbrev pub Whole : ClientRun → W → Type 0
  Whole r w =
      (r.client.session.state ≡ established)
      × (r.client.session.socket ≡ pos n)
      × ((r.client.session.udp.socket ≡ pos m)
          ⊎ ((r.client.session.udp.socket ≡ no_fd) × (is_open w m ≡ false)))

  abbrev pub Gone : Stage → Stage → ClientRun → W → Type 0
  Gone a b r w =
      Dead r
      × ((r.client.session.state ≡ disconnected) ⊎ ((a ≡ resets) ⊎ (b ≡ resets)))
      × Stale r.client.session.socket
      × Stale r.client.session.udp.socket
      × Closed w
      × (Down r ⊎ ((owing a ≡ true) ⊎ (owing b ≡ true)))

  abbrev pub Elsewhere : W → Type 0
  Elsewhere w =
      (k : ℕ) → (k == 0) ≡ false → (k == n) ≡ false → (k == m) ≡ false → is_open w k ≡ is_open o k

  -- Thread `t` at stage `a` and thread `u` at stage `b`.
  pub record Torn (t u : Ender) (a b : Stage) (r : ClientRun) (w : W) : Type 0 where
    pub session : Whole r w ⊎ Gone a b r w
    pub mine : Reached t a r w
    pub theirs : Reached u b r w
    pub elsewhere : Elsewhere w

  -- What one thread has reached, the other's statement does not undo.
  pub Reached-stays :
      (t : Ender) (a : Stage) (r r' : ClientRun) (w w' : W)
      → (Dead r → Dead r')
      → (is_open w n ≡ false → is_open w' n ≡ false)
      → (is_open w m ≡ false → is_open w' m ≡ false)
      → (r.should_exit ≡ 1 → r'.should_exit ≡ 1)
      → Reached t a r w
      → Reached t a r' w'
  Reached-stays t tests r r' w w' dead hn hm ex h = tt
  Reached-stays t closes_stream r r' w w' dead hn hm ex h = tt
  Reached-stays t closes_datagrams r r' w w' dead hn hm ex h = hn h
  Reached-stays t marks_tunnel r r' w w' dead hn hm ex h = (hn h.0, hm h.1)
  Reached-stays t zeroes r r' w w' dead hn hm ex h = (hn h.0, hm h.1)
  Reached-stays t resets r r' w w' dead hn hm ex h = dead h
  Reached-stays t disconnects r r' w w' dead hn hm ex h = dead h
  Reached-stays t exits r r' w w' dead hn hm ex h = dead h
  Reached-stays shell done r r' w w' dead hn hm ex h = dead h
  Reached-stays receiver_thread done r r' w w' dead hn hm ex h = (dead h.0, ex h.1)

  pub closed_stays :
      (fd : ℤ) (w : W) (k : ℕ) → is_open w k ≡ false → is_open (close_open fd w) k ≡ false
  closed_stays (pos j) w k h = ground (arith, laws.close_frees w j k)
  closed_stays (negsuc j) w k h = h

  -- The stage `a` plays no part in what is owed.
  pub Gone-moves :
      (a a' b : Stage) (r : ClientRun) (w : W) → owing a ≡ false → Gone a b r w → Gone a' b r w
  Gone-moves a a' b r w free (dead, state, fd, udp, closed, down) = (
    dead,
    elim state [
      | inl over ↦ inl over
      | inr (inl mine) ↦ cc (free, ap owing mine)
      | inr (inr theirs) ↦ inr (inr theirs)
    ],
    fd,
    udp,
    closed,
    elim down [
      | inl over ↦ inl over
      | inr (inl mine) ↦ cc (free, mine)
      | inr (inr theirs) ↦ inr (inr theirs)
    ],
  )

  pub Gone-closes :
      (a b : Stage) (r : ClientRun) (w : W) (fd : ℤ) → Gone a b r w → Gone a b r (close_open fd w)
  Gone-closes a b r w fd (dead, state, stream, udp, (hn, hm), down) =
      (dead, state, stream, udp, (closed_stays fd w n hn, closed_stays fd w m hm), down)

  -- Closing one of these descriptors leaves the others alone.
  pub Elsewhere-closes :
      (fd : ℤ) (w : W)
      → (Stale fd ⊎ ((fd ≡ pos n) ⊎ (fd ≡ pos m)))
      → Elsewhere w
      → Elsewhere (close_open fd w)
  Elsewhere-closes fd w (inl (inl e)) h k k0 kn km =
      rw e (ground (arith, laws.close_frees w 0 k, h k k0 kn km))
  Elsewhere-closes fd w (inl (inr e)) h k k0 kn km = rw e (h k k0 kn km)
  Elsewhere-closes fd w (inr (inl e)) h k k0 kn km =
      rw e (ground (arith, laws.close_frees w n k, h k k0 kn km))
  Elsewhere-closes fd w (inr (inr e)) h k k0 kn km =
      rw e (ground (arith, laws.close_frees w m k, h k k0 kn km))

  pub closes_it : (w : W) (k : ℕ) (fd : ℤ) → fd ≡ pos k → is_open (close_open fd w) k ≡ false
  closes_it w k fd e = rw e (ground (arith, laws.close_frees w k k))

  pub theirs_after_close :
      (u : Ender) (b : Stage) (r : ClientRun) (w : W) (fd : ℤ)
      → Reached u b r w
      → Reached u b r (close_open fd w)
  theirs_after_close u b r w fd h =
      Reached-stays u b r r w (close_open fd w) (λ d. d) (closed_stays fd w n) (closed_stays fd w m)
        (λ e. e) h
