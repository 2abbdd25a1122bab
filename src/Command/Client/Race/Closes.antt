-- ===== src/Command/Client/Race/Closes.antt =====
-- src/commands/client_env.c: the test and the two calls of close in the threads that tear the session
-- down.
use sencd.Base.{ℕ, ◌≡◌, refl, inl, inr, true}
use sencd.Platform.Os.{Os, DescriptorLaws}
use sencd.Tunnel.Udp.{close_open}
use sencd.Manager.Slots.{is_established}
use sencd.Command.Client.{ClientRun}
use sencd.Command.Client.Steps.{is_up}
use sencd.Command.Client.Race.{
  Ender, shell, receiver_thread, Stage, tests, closes_stream, closes_datagrams, marks_tunnel,
  otherwise, advance,
}
use sencd.Command.Client.Race.Torn.{
  Dead, Reached, Torn, closed_stays, Gone-moves, Gone-closes, Elsewhere-closes, closes_it,
  theirs_after_close,
}

module _ {W : Type 0} ⦃os : Os W⦄ (laws : DescriptorLaws os) (o : W) (n m : ℕ) where
  open laws use {is_open}

  skipped : (t : Ender) (r : ClientRun) (w : W) → Dead r → Reached laws o n m t (otherwise t) r w
  skipped shell r w dead = dead
  skipped receiver_thread r w dead = dead

  pub tests-Torn :
      (t u : Ender) (b : Stage) (r : ClientRun) (w : W)
      → Torn laws o n m t u tests b r w
      → let x = advance t tests (r, w) in Torn laws o n m t u x.0 b x.1 x.2
  unfolding advance is_up is_established
  tests-Torn t u b r w h = elim h.session [
    | inl whole ↦
        let up : is_established r.client.session.state ≡ true = rw whole.0 refl in
        rw up
          (record { session = inl whole; mine = tt; theirs = h.theirs; elsewhere = h.elsewhere })
    | inr gone ↦ rw gone.0 (record {
      session = inr (Gone-moves laws o n m tests (otherwise t) b r w refl gone);
      mine = skipped t r w gone.0;
      theirs = h.theirs;
      elsewhere = h.elsewhere;
    })
  ]

  pub closes_stream-Torn :
      (t u : Ender) (b : Stage) (r : ClientRun) (w : W)
      → Torn laws o n m t u closes_stream b r w
      → Torn laws o n m t u closes_datagrams b r (close_open r.client.session.socket w)
  closes_stream-Torn t u b r w h =
      let fd = r.client.session.socket in
      let theirs = theirs_after_close laws o n m u b r w fd h.theirs in
      elim h.session [
        | inl (up, here, there) ↦ record {
          session = inl (
            up,
            here,
            elim there [
              | inl kept ↦ inl kept
              | inr (marked, shut) ↦ inr (marked, closed_stays laws o n m fd w m shut)
            ],
          );
          mine = closes_it laws o n m w n fd here;
          theirs = theirs;
          elsewhere = Elsewhere-closes laws o n m fd w (inr (inl here)) h.elsewhere;
        }
        | inr gone ↦ record {
          session = inr (
              Gone-moves laws o n m closes_stream closes_datagrams b r (close_open fd w) refl
                (Gone-closes laws o n m closes_stream b r w fd gone));
          mine = closed_stays laws o n m fd w n gone.4.0;
          theirs = theirs;
          elsewhere = Elsewhere-closes laws o n m fd w (inl gone.2) h.elsewhere;
        }
      ]

  pub closes_datagrams-Torn :
      (t u : Ender) (b : Stage) (r : ClientRun) (w : W)
      → Torn laws o n m t u closes_datagrams b r w
      → Torn laws o n m t u marks_tunnel b r (close_open r.client.session.udp.socket w)
  closes_datagrams-Torn t u b r w h =
      let fd = r.client.session.udp.socket in
      let theirs = theirs_after_close laws o n m u b r w fd h.theirs in
      let hn = closed_stays laws o n m fd w n h.mine in
      elim h.session [
        | inl (up, here, inl kept) ↦ record {
          session = inl (up, here, inl kept);
          mine = (hn, closes_it laws o n m w m fd kept);
          theirs = theirs;
          elsewhere = Elsewhere-closes laws o n m fd w (inr (inr kept)) h.elsewhere;
        }
        | inl (up, here, inr (marked, shut)) ↦ record {
          session = inl (up, here, inr (marked, closed_stays laws o n m fd w m shut));
          mine = (hn, closed_stays laws o n m fd w m shut);
          theirs = theirs;
          elsewhere = Elsewhere-closes laws o n m fd w (inl (inr marked)) h.elsewhere;
        }
        | inr gone ↦ record {
          session = inr (
              Gone-moves laws o n m closes_datagrams marks_tunnel b r (close_open fd w) refl
                (Gone-closes laws o n m closes_datagrams b r w fd gone));
          mine = (hn, closed_stays laws o n m fd w m gone.4.1);
          theirs = theirs;
          elsewhere = Elsewhere-closes laws o n m fd w (inl gone.3) h.elsewhere;
        }
      ]
