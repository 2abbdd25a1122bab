-- ===== src/Command/Server/Launch.antt =====
-- src/commands/server_env.c: the table of a server that has just started.
use sencd.Base.{
  ℕ, ◌≡◌, refl, sym, ap, ◌∙◌, subst, Option, none, some, arith, replicate, length, length-replicate,
  ℤ, Option-cases, inl, inr,
}
use sencd.Base.Control.{pure, then_with-eq-some}
use sencd.Platform.Os.{Os}
use sencd.Platform.Sodium.{Random, Sodium}
use sencd.Crypto.{
  CryptoContext, crypto_config_path, crypto_identity_load_or_create, crypto_context_init, path_max,
}
use sencd.Session.{Session}
use sencd.Manager.{SessionManager, cleared_manager, max_sessions}
use sencd.Manager.Connect.{session_manager_udp_bind, bound_to}
use sencd.Manager.Start.{session_manager_init, server_identity_name, server_tun_config}
use sencd.Manager.Count.{occupied-replicate, replicate-Addressed, occupied, Addressed}
use sencd.Manager.Trusted.{AllTrusted, IsGuarded, replicate-AllTrusted}
use sencd.Endpoint.Device.{Interfaces, tun_open}
use sencd.Endpoint.Server.{Server, server_init, server_start}
use sencd.Command.Server.{bind_tunnel, start_manager, start_server_environment}

-- A manager whose slots are all free is guarded.
free-IsGuarded :
    (m : SessionManager)
    → m.sessions ≡ replicate max_sessions none
    → m.session_count ≡ 0
    → IsGuarded m
free-IsGuarded m free nobody = record {
  sound = record {
    size = ap length free ∙ length-replicate {A = Option Session} max_sessions none;
    counted = nobody ∙ sym (ap occupied free ∙ occupied-replicate max_sessions);
    addressed = subst (Addressed 0) (sym free) (replicate-Addressed max_sessions 0);
  };
  trusted = subst AllTrusted (sym free) (replicate-AllTrusted max_sessions);
}

-- The same slots and the same count.
same-IsGuarded :
    (m k : SessionManager)
    → k.sessions ≡ m.sessions
    → k.session_count ≡ m.session_count
    → IsGuarded m
    → IsGuarded k
same-IsGuarded m k slots count g = record {
  sound = record {
    size = ap length slots ∙ g.sound.size;
    counted = count ∙ g.sound.counted ∙ sym (ap occupied slots);
    addressed = subst (Addressed 0) (sym slots) g.sound.addressed;
  };
  trusted = subst AllTrusted (sym slots) g.trusted;
}

module _ {W : Type 0} ⦃os : Os W⦄ ⦃net : Interfaces W⦄ ⦃rnd : Random W⦄ ⦃na : Sodium⦄ where
  -- The manager that the last step returns.
  cleared-fields :
      (m : SessionManager) (w v : W) (identity : CryptoContext) (fd : ℤ)
      → pure (record cleared_manager { identity = identity; tun = some fd }) w ≡ (some m, v)
      → (m.sessions ≡ replicate max_sessions none) × (m.session_count ≡ 0)
  unfolding cleared_manager
  cleared-fields m w v identity fd e =
      let same : record cleared_manager { identity = identity; tun = some fd } ≡ m = cc e in
      (sym (ap (λ k. k.sessions) same), sym (ap (λ k. k.session_count) same))

  init-IsGuarded :
      (size : ℕ) (w v : W) (m : SessionManager)
      → session_manager_init size w ≡ (some m, v)
      → IsGuarded m
  unfolding session_manager_init cleared_manager
  init-IsGuarded size w v m e =
      let (path, w₁, _, e₁) =
        then_with-eq-some (crypto_config_path server_identity_name path_max w) _ e in
      let (id, w₂, _, e₂) =
        then_with-eq-some (crypto_identity_load_or_create crypto_context_init path w₁) _ e₁ in
      let (dev, w₃, _, e₃) = then_with-eq-some (tun_open size server_tun_config w₂) _ e₂ in
      let (slots, count) = cleared-fields m w₃ v _ _ e₃ in free-IsGuarded m slots count

  bind-IsGuarded :
      (port : ℕ) (m : SessionManager) (w : W)
      → IsGuarded m
      → IsGuarded (session_manager_udp_bind m port w).1
  unfolding session_manager_udp_bind bound_to
  bind-IsGuarded port m w g =
      same-IsGuarded m (session_manager_udp_bind m port w).1 (ground arith) (ground arith) g

  bind_tunnel-IsGuarded :
      (port : ℕ) (s₀ s : Server) (r : Option SessionManager × W) (v : W) (m : SessionManager)
      → ((k : SessionManager) → r.0 ≡ some k → IsGuarded k)
      → bind_tunnel port s₀ r ≡ (some (s, m), v)
      → IsGuarded m
  unfolding bind_tunnel
  bind_tunnel-IsGuarded port s₀ s (none, w) v m guarded e = cc e
  bind_tunnel-IsGuarded port s₀ s (some k, w) v m guarded e =
      elim (Option-cases (session_manager_udp_bind k port w).0) [
        | inl failed ↦ ground arith
        | inr (_, bound) ↦
            let same : (session_manager_udp_bind k port w).1 ≡ m = ground arith in
            subst IsGuarded same (bind-IsGuarded port k w (guarded k refl))
      ]

  start_manager-IsGuarded :
      (size port : ℕ) (r : Option (Unit {0}) × (Server × W)) (v : W) (s : Server)
      (m : SessionManager)
      → start_manager size port r ≡ (some (s, m), v)
      → IsGuarded m
  unfolding start_manager
  start_manager-IsGuarded size port (none, (s₀, w)) v s m e = cc e
  start_manager-IsGuarded size port (some _, (s₀, w)) v s m e =
      bind_tunnel-IsGuarded port s₀ s (session_manager_init size w) v m
        (λ k found.
          init-IsGuarded size w (session_manager_init size w).1 k
            (ap (λ o. (o, (session_manager_init size w).1)) found))
        e

  pub start_server_environment-IsGuarded :
      (size port : ℕ) (w v : W) (s : Server) (m : SessionManager)
      → start_server_environment size port w ≡ (some (s, m), v)
      → IsGuarded m
  unfolding start_server_environment
  start_server_environment-IsGuarded size port w v s m e =
      start_manager-IsGuarded size port (server_start port (server_init, w)) v s m e
