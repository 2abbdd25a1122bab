-- ===== src/Command/Client/Start.antt =====
-- src/commands/client_env.c: a client that `client_listener` has connected.
use sencd.Base.{
  ℕ, ◌≡◌, refl, ap, ◌∙◌, subst, true, false, ◌||◌, Option, none, some, List, arith, ◌==◌, pos,
  no_fd, inl,
}
use sencd.Base.Control.{then_with-keeps, guard-keeps, guard, or_fail}
use sencd.Platform.Os.{Os, DescriptorLaws}
use sencd.Platform.Calls.{QuietLaws}
use sencd.Platform.Sodium.{Random, Sodium}
use sencd.Tunnel.Udp.{UdpTunnel}
use sencd.Crypto.{path_max, crypto_config_path, home_dir, join_path, config_dirname}
use sencd.Session.{
  trusted_key_name, Session, client, established, session_create, generate_session_id,
  session_client_connect,
}
use sencd.Session.Keeps.Client.{client_connect-Keeps}
use sencd.Session.Sockets.{sockets, sockets-Unseen}
use sencd.Session.Client.{Settled, session_client_connect-Settled}
use sencd.Endpoint.Client.{Connection, connected, is_connected, is_disconnected}
use sencd.Endpoint.Descriptors.{Same, Opened}
use sencd.Endpoint.Connections.{
  Joined, connection_connect-Joined, TunnelOpened, udp_tunnel_client_open-TunnelOpened,
}
use sencd.Command.Client.{
  Client, ClientRun, trusted_on_disk, tunnel_opened, open_tunnel, open_session, client_listener,
}
use sencd.Command.Client.Steps.{ClientReaches, finish}
use sencd.Command.Client.Coherent.{Up, finish-Coherent}
use sencd.Command.Client.Rounds.{client_steps-Coherent}
use sencd.Platform.Zstd.{Zstd}

-- The client as its shell starts.
abbrev pub started : Client → ClientRun
started c = record { client = c; should_exit = 0; receiving = true }

module _ {W : Type 0} ⦃os : Os W⦄ ⦃rnd : Random W⦄ ⦃na : Sodium⦄ (laws : DescriptorLaws os)
    (quiet : QuietLaws os rnd laws) where
  open laws use {is_open}

  pub config_path-Same :
      (name : List ℕ) (w : W) → Same laws w (crypto_config_path name path_max w).1
  unfolding crypto_config_path
  config_path-Same name w k =
      let see = λ (x : W). is_open x k in
      then_with-keeps see (or_fail (home_dir w) w) _ _ refl λ home u.
        then_with-keeps see (or_fail (join_path home config_dirname path_max) u) _ _ refl λ dir u.
          then_with-keeps see (guard (os.mkdir u dir).0 (os.mkdir u dir).1) _ _
            (guard-keeps see _ _ ∙ quiet.mkdir_keeps u dir k) λ _ v. refl

  trusted_on_disk-Same : (w : W) → Same laws w (trusted_on_disk w).1
  unfolding trusted_on_disk
  trusted_on_disk-Same w = config_path-Same trusted_key_name w

  handshake-sockets :
      (p : Session × W)
      → let q = (session_client_connect p).1 in (q.0.socket ≡ p.0.socket) × Same laws p.1 q.1
  handshake-sockets p =
      let kept : (k : ℕ)
          → sockets laws quiet k (session_client_connect p).1 ≡ sockets laws quiet k p =
        λ k. client_connect-Keeps (sockets laws quiet k) (sockets-Unseen laws quiet k) p in
      (ap (λ t. t.0) (kept 0), λ k. ap (λ t. t.2) (kept k))

  established_by :
      (s : Session) (t : Option (Unit {0}) × (Session × W))
      → Settled s t
      → t.0 ≡ some tt
      → t.1.0.state ≡ established
  established_by s (none, q) h e = cc e
  established_by s (some _, q) (c, pk, sk, rx, tx, nonce, id, _, _, _, shape) e =
      ap (λ x. x.state) shape

  -- A client that is connected, if its status is 0.
  abbrev Ready : W → ℕ × Client × W → Type 0
  Ready o t = t.0 ≡ 0 → (n m : ℕ) × Up laws o n m (started t.1) t.2

  tunnel_opened-Ready :
      (c : Client) (s : Session) (o w : W) (n : ℕ) (t : Option (Unit {0}) × UdpTunnel × W)
      → c.connection.state ≡ connected
      → c.connection.socket ≡ pos n
      → s.socket ≡ pos n
      → s.state ≡ established
      → Opened laws o n w
      → TunnelOpened laws w t
      → Ready o (tunnel_opened c s t)
  unfolding tunnel_opened
  tunnel_opened-Ready c s o w n (none, udp, u) state near far up opened h e = cc e
  tunnel_opened-Ready c s o w n (some _, udp, u) state near far up (free, opened)
        (m, bound, _, (free', opened')) e =
      (
        n,
        m,
        record {
          is_established = up;
          is_connected = state;
          stream = far;
          same_stream = near;
          datagrams = bound;
          stays = refl;
          stream_fresh = free;
          datagrams_fresh = ground (arith, opened m);
          opened = λ k. opened' k ∙ ap (λ b. k == m || b) (opened k);
        },
      )

  open_tunnel-Ready :
      (ip : List ℕ) (port : ℕ) (c : Client) (o : W) (n : ℕ) (t : Option (Unit {0}) × (Session × W))
      → c.connection.state ≡ connected
      → c.connection.socket ≡ pos n
      → t.1.0.socket ≡ pos n
      → (t.0 ≡ some tt → t.1.0.state ≡ established)
      → Opened laws o n t.1.1
      → Ready o (open_tunnel ip port c t)
  unfolding open_tunnel
  open_tunnel-Ready ip port c o n (none, (s, w)) state near far up opened = λ e. cc e
  open_tunnel-Ready ip port c o n (some _, (s, w)) state near far up opened =
      tunnel_opened-Ready c s o w n _ state near far (up refl) opened
        (udp_tunnel_client_open-TunnelOpened laws s.udp ip port w)

  open_session-Ready :
      (ip : List ℕ) (port : ℕ) (c : Client) (o : W) (t : Option (Unit {0}) × (Connection × W))
      → Joined laws o t
      → Ready o (open_session ip port c t)
  unfolding open_session session_create generate_session_id
  open_session-Ready ip port c o (none, (con, w)) h = λ e. cc e
  open_session-Ready ip port c o (some _, (con, w)) (n, here, state, (free, opened)) =
      let (trusted, w₁) = trusted_on_disk w in
      let created = session_create client con.socket ip c.identity trusted w₁ in
      let (kept, same) = handshake-sockets created in
      open_tunnel-Ready ip port (record c { connection = con }) o n (session_client_connect created)
        state here (kept ∙ here)
        (established_by created.0 _ (session_client_connect-Settled created))
        (free, λ k. same k ∙ quiet.randombytes_keeps w₁ 8 k ∙ trusted_on_disk-Same w k ∙ opened k)

  -- When `client_listener` leaves the status 0, the client is connected: its session is established,
  -- it and the connection hold one stream socket, its tunnel end holds one datagram socket, both
  -- were free, and no other descriptor is opened.
  pub client_listener-Up :
      (ip : List ℕ) (port : ℕ) (c c' : Client) (w v : W)
      → is_connected c.connection.state ≡ false
      → client_listener ip port c w ≡ (0, c', v)
      → (n m : ℕ) × Up laws w n m (started c') v
  unfolding client_listener
  client_listener-Up ip port c c' w v idle e =
      let joined = connection_connect-Joined laws ip port c.connection w idle in
      let ready = open_session-Ready ip port c w _ joined in
      subst (λ t. t.0 ≡ 0 → (n m : ℕ) × Up laws w n m (started t.1) t.2) e ready refl

module _ {W : Type 0} ⦃os : Os W⦄ ⦃rnd : Random W⦄ ⦃na : Sodium⦄ ⦃z : Zstd⦄
    (laws : DescriptorLaws os) (quiet : QuietLaws os rnd laws) where
  open laws use {is_open}

  -- A client that `client_listener` connected with the status 0, whose threads' rounds and whose
  -- shell's commands then follow each other in any order and any number, and that then ends: the
  -- connection is disconnected without a socket, and every descriptor but that of the tunnel is open
  -- exactly if it was before the client connected.
  pub finish-client_listener :
      (ip : List ℕ) (port : ℕ) (c c' : Client) (w v : W) (q : ClientRun × W)
      → is_connected c.connection.state ≡ false
      → client_listener ip port c w ≡ (0, c', v)
      → ClientReaches (started c', v) q
      → (m : ℕ) × (c'.session.udp.socket ≡ pos m)
        × (is_disconnected (finish q).0.client.connection.state ≡ true)
        × ((finish q).0.client.connection.socket ≡ no_fd)
        × ((k : ℕ) → (k == m) ≡ false → is_open (finish q).1 k ≡ is_open w k)
  finish-client_listener ip port c c' w v q idle e reaches =
      let (n, m, up) = client_listener-Up laws quiet ip port c c' w v idle e in
      let (over, gone, restored) =
        finish-Coherent laws w n m q
          (client_steps-Coherent laws quiet w n m (started c', v) q (inl up) reaches) in
      (m, up.datagrams, over, gone, restored)
