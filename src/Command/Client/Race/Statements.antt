-- ===== src/Command/Client/Race/Statements.antt =====
-- src/commands/client_env.c: each statement of the two threads that tear the session down.
use sencd.Base.{ℕ, refl, ap, ◌⊎◌, inl, inr}
use sencd.Platform.Os.{Os, DescriptorLaws}
use sencd.Session.{cleared_session}
use sencd.Manager.Slots.{is_established}
use sencd.Command.Client.{ClientRun}
use sencd.Command.Client.Steps.{with_session}
use sencd.Command.Client.Race.{
  Ender, shell, receiver_thread, Stage, tests, closes_stream, closes_datagrams, marks_tunnel,
  zeroes, resets, zeroed, reset, disconnects, exits, done, told, tunnel_marked, connection_dropped,
  advance,
}
use sencd.Command.Client.Race.Torn.{Dead, Whole, Gone, Torn, Reached-stays, Gone-moves}
use sencd.Command.Client.Race.Closes.{tests-Torn, closes_stream-Torn, closes_datagrams-Torn}

module _ {W : Type 0} ⦃os : Os W⦄ (laws : DescriptorLaws os) (o : W) (n m : ℕ) where
  open laws use {is_open}

  marks_tunnel-Torn :
      (t u : Ender) (b : Stage) (r : ClientRun) (w : W)
      → Torn laws o n m t u marks_tunnel b r w
      → Torn laws o n m t u zeroes b (tunnel_marked r) w
  marks_tunnel-Torn t u b r w h =
      let theirs =
        Reached-stays laws o n m u b r (tunnel_marked r) w w (λ d. d) (λ e. e) (λ e. e) (λ e. e)
          h.theirs in
      elim h.session [
        | inl (up, here, there) ↦ record {
          session = inl (up, here, inr (refl, h.mine.1));
          mine = h.mine;
          theirs = theirs;
          elsewhere = h.elsewhere;
        }
        | inr gone ↦
            let (dead, state, fd, udp, closed, down) =
              Gone-moves laws o n m marks_tunnel zeroes b r w refl gone in
            record {
              session = inr (dead, state, fd, inr refl, closed, down);
              mine = h.mine;
              theirs = theirs;
              elsewhere = h.elsewhere;
            }
      ]

  zeroes-Torn :
      (t u : Ender) (b : Stage) (r : ClientRun) (w : W)
      → Torn laws o n m t u zeroes b r w
      → Torn laws o n m t u resets b (with_session r zeroed) w
  unfolding zeroed cleared_session is_established
  zeroes-Torn t u b r w h = record {
    session = inr (refl, inr (inl refl), inl refl, inl refl, h.mine, inr (inl refl));
    mine = refl;
    theirs =
        Reached-stays laws o n m u b r (with_session r zeroed) w w (λ d. refl) (λ e. e) (λ e. e)
          (λ e. e) h.theirs;
    elsewhere = h.elsewhere;
  }

  -- A dead session is gone.
  pub dead-Gone :
      (a b : Stage) (r : ClientRun) (w : W)
      → Dead r
      → (Whole laws o n m r w ⊎ Gone laws o n m a b r w)
      → Gone laws o n m a b r w
  unfolding is_established
  dead-Gone a b r w dead (inl (up, _, _)) = cc (dead, ap is_established up)
  dead-Gone a b r w dead (inr gone) = gone

  resets-Torn :
      (t u : Ender) (b : Stage) (r : ClientRun) (w : W)
      → Torn laws o n m t u resets b r w
      → Torn laws o n m t u disconnects b (reset r) w
  unfolding is_established
  resets-Torn t u b r w h =
      let (dead, state, fd, udp, closed, down) = dead-Gone resets b r w h.mine h.session in
      record {
        session = inr (refl, inl refl, inr refl, udp, closed, inr (inl refl));
        mine = refl;
        theirs =
            Reached-stays laws o n m u b r (reset r) w w (λ d. refl) (λ e. e) (λ e. e) (λ e. e)
              h.theirs;
        elsewhere = h.elsewhere;
      }

  disconnects-Torn :
      (t u : Ender) (b : Stage) (r : ClientRun) (w : W)
      → Torn laws o n m t u disconnects b r w
      → Torn laws o n m t u exits b (connection_dropped r) w
  disconnects-Torn t u b r w h =
      let (dead, state, fd, udp, closed, down) = dead-Gone disconnects b r w h.mine h.session in
      record {
        session = inr (
          dead,
          elim state [
            | inl over ↦ inl over
            | inr (inl mine) ↦ cc mine
            | inr (inr theirs) ↦ inr (inr theirs)
          ],
          fd,
          udp,
          closed,
          inl (refl, refl),
        );
        mine = h.mine;
        theirs =
            Reached-stays laws o n m u b r (connection_dropped r) w w (λ d. d) (λ e. e) (λ e. e)
              (λ e. e) h.theirs;
        elsewhere = h.elsewhere;
      }

  exits-Torn :
      (t u : Ender) (b : Stage) (r : ClientRun) (w : W)
      → Torn laws o n m t u exits b r w
      → Torn laws o n m t u done b (told t r) w
  exits-Torn shell u b r w h = record {
    session =
        inr (Gone-moves laws o n m exits done b r w refl (dead-Gone exits b r w h.mine h.session));
    mine = h.mine;
    theirs =
        Reached-stays laws o n m u b r (told shell r) w w (λ d. d) (λ e. e) (λ e. e) (λ e. refl)
          h.theirs;
    elsewhere = h.elsewhere;
  }
  exits-Torn receiver_thread u b r w h = record {
    session =
        inr (Gone-moves laws o n m exits done b r w refl (dead-Gone exits b r w h.mine h.session));
    mine = (h.mine, refl);
    theirs =
        Reached-stays laws o n m u b r (told receiver_thread r) w w (λ d. d) (λ e. e) (λ e. e)
          (λ e. refl) h.theirs;
    elsewhere = h.elsewhere;
  }

  -- Whatever statement comes next.
  pub advance-Torn :
      (t u : Ender) (a b : Stage) (r : ClientRun) (w : W)
      → Torn laws o n m t u a b r w
      → let x = advance t a (r, w) in Torn laws o n m t u x.0 b x.1 x.2
  unfolding advance
  advance-Torn t u tests b r w h = tests-Torn laws o n m t u b r w h
  advance-Torn t u closes_stream b r w h = closes_stream-Torn laws o n m t u b r w h
  advance-Torn t u closes_datagrams b r w h = closes_datagrams-Torn laws o n m t u b r w h
  advance-Torn t u marks_tunnel b r w h = marks_tunnel-Torn t u b r w h
  advance-Torn t u zeroes b r w h = zeroes-Torn t u b r w h
  advance-Torn t u resets b r w h = resets-Torn t u b r w h
  advance-Torn t u disconnects b r w h = disconnects-Torn t u b r w h
  advance-Torn t u exits b r w h = exits-Torn t u b r w h
  advance-Torn t u done b r w h = h
