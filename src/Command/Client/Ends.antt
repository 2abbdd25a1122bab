-- ===== src/Command/Client/Ends.antt =====
-- `start_client_environment` of src/commands/client_env.c from its start to its end: which descriptors
-- stay open.
use sencd.Base.{
  ◌++◌, ℕ, zero, suc, ◌≡◌, refl, sym, ap, ◌∙◌, subst, true, false, ◌||◌, Option, none, some, List,
  ◌==◌, ℤ, pos, no_fd,
}
use sencd.Base.Control.{M, then_with-eq-some, then_with-keeps, guard-keeps, or_else, pure-eq-some}
use sencd.Platform.Os.{Os, DescriptorLaws}
use sencd.Platform.Calls.{QuietLaws}
use sencd.Platform.Sodium.{Random, Sodium}
use sencd.Platform.Zstd.{Zstd}
use sencd.Crypto.{
  CryptoContext, path_max, crypto_context_init, crypto_config_path, crypto_generate_identity,
  load_identity, save, crypto_identity_load_or_create,
}
use sencd.Session.{Session}
use sencd.Tunnel.Udp.{UdpTunnel, udp_tunnel_client_open}
use sencd.Endpoint.Client.{
  Connection, connection_connect, is_connected, is_disconnected, connection_init,
}
use sencd.Endpoint.Descriptors.{Same, Opened}
use sencd.Endpoint.Device.{Interfaces, tun_open}
use sencd.Endpoint.Device.Opening.{InterfaceLaws, DeviceOpened, tun_open-DeviceOpened}
use sencd.Command.Client.{
  tunnel_opened, open_tunnel, open_session, Client, ClientRun, client_identity_name,
  client_tun_config, open_client, client_listener,
}
use sencd.Command.Client.Steps.{ClientReaches, finish}
use sencd.Command.Client.Start.{started, config_path-Same, finish-client_listener}
use sencd.Command.Client.Program.{
  client_target, connected_client, listen_client, start_client_environment,
}

-- The listener leaves the device alone.
module _ {W : Type 0} ⦃os : Os W⦄ ⦃rnd : Random W⦄ ⦃na : Sodium⦄ where
  tunnel_opened-tun :
      (c : Client) (s : Session) (t : Option (Unit {0}) × UdpTunnel × W)
      → (tunnel_opened c s t).1.tun ≡ c.tun
  unfolding tunnel_opened
  tunnel_opened-tun c s (none, udp, w) = refl
  tunnel_opened-tun c s (some _, udp, w) = refl

  open_tunnel-tun :
      (ip : List ℕ) (port : ℕ) (c : Client) (t : Option (Unit {0}) × (Session × W))
      → (open_tunnel ip port c t).1.tun ≡ c.tun
  unfolding open_tunnel
  open_tunnel-tun ip port c (none, (s, w)) = refl
  open_tunnel-tun ip port c (some _, (s, w)) =
      tunnel_opened-tun c s (udp_tunnel_client_open s.udp ip port w)

  open_session-tun :
      (ip : List ℕ) (port : ℕ) (c : Client) (t : Option (Unit {0}) × (Connection × W))
      → (open_session ip port c t).1.tun ≡ c.tun
  unfolding open_session
  open_session-tun ip port c (none, (con, w)) = refl
  open_session-tun ip port c (some _, (con, w)) =
      open_tunnel-tun ip port (record c { connection = con }) _

  client_listener-tun :
      (ip : List ℕ) (port : ℕ) (c : Client) (w : W) → (client_listener ip port c w).1.tun ≡ c.tun
  unfolding client_listener
  client_listener-tun ip port c w =
      open_session-tun ip port c (connection_connect ip port (c.connection, w))

module _ {W : Type 0} ⦃os : Os W⦄ ⦃net : Interfaces W⦄ ⦃rnd : Random W⦄ ⦃na : Sodium⦄ ⦃z : Zstd⦄
    (laws : DescriptorLaws os) (quiet : QuietLaws os rnd laws)
    (calls : InterfaceLaws net laws) where
  open laws use {is_open}

  or_else-keeps :
      (k : ℕ) (o : Option CryptoContext) (create : M W CryptoContext) (w : W)
      → is_open (create w).1 k ≡ is_open w k
      → is_open (or_else o create w).1 k ≡ is_open w k
  or_else-keeps k none create w h = h
  or_else-keeps k (some found) create w h = refl

  identity-Same :
      (ctx : CryptoContext) (path : List ℕ) (w : W)
      → Same laws w (crypto_identity_load_or_create ctx path w).1
  unfolding crypto_identity_load_or_create save crypto_generate_identity
  identity-Same ctx path w k =
      let see = λ (x : W). is_open x k in
      or_else-keeps k (load_identity ctx (os.read_file w path)) _ w (
        then_with-keeps see (crypto_generate_identity ctx w) _ _
          (then_with-keeps see (rnd.sign_keypair w) _ _ (quiet.sign_keypair_keeps w k)
            λ pair u. refl)
          λ created u.
            let bytes = created.public_key ++ created.private_key in
            then_with-keeps see (save path bytes u) _ _
              (guard-keeps see _ _ ∙ quiet.write_file_keeps u path bytes k) λ _ v. refl)

  open_client-Opened :
      (size : ℕ) (w u : W) (c : Client)
      → open_client size w ≡ (some c, u)
      → (d : ℕ) × (c.tun.fd ≡ pos d) × Opened laws w d u × (is_connected c.connection.state ≡ false)
  unfolding open_client connection_init is_connected
  open_client-Opened size w u c e =
      let (path, w₁, e₁, rest₁) =
        then_with-eq-some (crypto_config_path client_identity_name path_max w) _ e in
      let (id, w₂, e₂, rest₂) =
        then_with-eq-some (crypto_identity_load_or_create crypto_context_init path w₁) _ rest₁ in
      let (dev, w₃, e₃, rest₃) = then_with-eq-some (tun_open size client_tun_config w₂) _ rest₂ in
      let opened : DeviceOpened laws calls w₂ (some dev, w₃) =
        subst (DeviceOpened laws calls w₂) e₃
          (tun_open-DeviceOpened laws calls size client_tun_config w₂) in
      let (d, here, (free, more)) = opened in
      let first : Same laws w w₁ = λ k.
        ap (λ x. is_open x.1 k) (sym e₁) ∙ config_path-Same laws quiet client_identity_name w k in
      let second : Same laws w₁ w₂ =
        λ k. ap (λ x. is_open x.1 k) (sym e₂) ∙ identity-Same crypto_context_init path w₁ k in
      let (made, end) = pure-eq-some _ c w₃ u rest₃ in
      (
        d,
        ap (λ x. x.tun.fd) (sym made) ∙ here,
        (
          sym (second d ∙ first d) ∙ free,
          λ k.
              ap (λ x. is_open x k) (sym end) ∙ more k ∙ ap (λ b. k == d || b) (second k ∙ first k),
        ),
        ap (λ x. is_connected x.connection.state) (sym made),
      )

  connected_client-eq-some :
      (x : ℕ × Client × W) (r : ClientRun) (v : W)
      → connected_client x ≡ (some r, v)
      → (c : Client) × (x ≡ (0, c, v)) × (started c ≡ r)
  unfolding connected_client
  connected_client-eq-some (zero, c, w) r v e =
      let (same, end) = pure-eq-some (started c) r w v e in (c, ap (λ u. (0, c, u)) end, same)
  connected_client-eq-some (suc status, c, w) r v e = cc e

  -- How a client ends that had `w` at its start: `d` is its device and `m` its tunnel's socket.
  abbrev pub Finished : W → ClientRun → ClientRun × W → Type 0
  Finished w r q =
      (d m : ℕ) × (r.client.tun.fd ≡ pos d)
      × (r.client.session.udp.socket ≡ pos m)
      × (is_disconnected (finish q).0.client.connection.state ≡ true)
      × ((finish q).0.client.connection.socket ≡ no_fd)
      × ((k : ℕ) → (k == m) ≡ false → is_open (finish q).1 k ≡ (k == d || is_open w k))

  listen_client-Finished :
      (target : List ℕ × ℕ) (size : ℕ) (w v : W) (t : Option Client × W) (r : ClientRun)
      (q : ClientRun × W)
      → open_client size w ≡ t
      → listen_client target t ≡ (some r, v)
      → ClientReaches (r, v) q
      → Finished w r q
  unfolding listen_client
  listen_client-Finished target size w v (none, u) r q opens e run = cc e
  listen_client-Finished target size w v (some c, u) r q opens e run =
      let (d, here, (free, opened), idle) = open_client-Opened size w u c opens in
      let (c', joined, begun) =
        connected_client-eq-some (client_listener target.0 target.1 c u) r v e in
      let run' : ClientReaches (started c', v) q =
        subst (λ a. ClientReaches (a, v) q) (sym begun) run in
      let (m, tunnel, over, gone, restored) =
        finish-client_listener laws quiet target.0 target.1 c c' u v q idle joined run' in
      let device =
        sym (ap (λ a. a.client.tun.fd) begun)
        ∙ sym (ap (λ a. a.1.tun.fd) joined)
        ∙ ap (λ a. a.fd) (client_listener-tun target.0 target.1 c u)
        ∙ here in
      (
        d,
        m,
        device,
        sym (ap (λ a. a.client.session.udp.socket) begun) ∙ tunnel,
        over,
        gone,
        λ k off. restored k off ∙ opened k,
      )

  pub start_client_environment-Finished :
      (atoi : List ℕ → ℤ) (size : ℕ) (argv : List (List ℕ)) (w v : W) (r : ClientRun)
      (q : ClientRun × W)
      → start_client_environment atoi size argv w ≡ (some r, v)
      → ClientReaches (r, v) q
      → Finished w r q
  unfolding start_client_environment
  start_client_environment-Finished atoi size argv w v r q e run =
      listen_client-Finished (client_target atoi argv) size w v (open_client size w) r q refl e run
