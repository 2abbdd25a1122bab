-- ===== src/Command/Server/Nonces.antt =====
-- src/commands/server_env.c and src/sessions/session_manager.c: the counters from which the server's
-- sender makes its nonces, however the rounds of the threads follow each other.
use sencd.Base.{
  ℕ, suc, ◌+◌, ◌^◌, ◌≤◌, ◌<◌, ◌≡◌, ◌≢◌, refl, sym, ap, ◌∙◌, inl, inr, arith, ℤ, true, some, List,
  length, get_or, get_elem?, pos, is_positive,
}
use sencd.Platform.Os.{Os}
use sencd.Platform.Sodium.{Random, Sodium, AeadLaws}
use sencd.Platform.Zstd.{Zstd, ZstdLaws}
use sencd.Crypto.{crypto_build_nonce}
use sencd.Crypto.Nonce.{crypto_build_nonce-injective}
use sencd.Session.{Session}
use sencd.Manager.{SessionManager}
use sencd.Manager.Slots.{octet_of}
use sencd.Manager.Traffic.{count_sent, store}
use sencd.Manager.Trusted.{IsGuarded, session_manager_tun_sender-IsGuarded}
use sencd.Manager.Forward.{tun_sender_round_routes}
use sencd.Tunnel.Frame.{tunnel_packet_max_plaintext}
use sencd.Tunnel.Compress.{tunnel_compress_header_size}
use sencd.Command.Carries.Datagram.{datagram_of, SealedUnder, datagram_of-SealedUnder}
use sencd.Command.Carries.Rounds.{server_reads, forwards}
use sencd.Manager.Rounds.{session_manager_tun_sender}
use sencd.Endpoint.Server.{Server}
use sencd.Command.Server.Reach.{
  ServerState, ServerStep, listens, hears, sends, shuts_down, ServerReaches, here, after,
  server_listener_round-keeps, reaches-IsGuarded,
}
use sencd.Manager.Held.{
  get_elem-Trusted, get_elem-set, Holds, Next, connect-Holds, session_manager_udp_listener-Next,
  session_manager_tun_sender-Next,
}

module _ {W : Type 0} ⦃os : Os W⦄ ⦃rnd : Random W⦄ ⦃na : Sodium⦄ ⦃z : Zstd⦄ where
  step-Next :
      (x y : ServerState W) (i : ℕ) (s : Session) → ServerStep x y → Holds i s x.1 → Next i s y.1
  step-Next x y i s (listens size ready interrupted srv m w) at = (
    s,
    server_listener_round-keeps (Holds i s) (connect-Holds i s) size ready interrupted srv m w at,
    (refl, inl refl),
  )
  step-Next x y i s (hears ready srv m w) at = session_manager_udp_listener-Next ready m w i s at
  step-Next x y i s (sends ready srv m w) at = session_manager_tun_sender-Next ready m w i s at
  step-Next x y i s (shuts_down srv m w) at = (s, at, (refl, inl refl))

  -- How many steps a run has.
  unfoldable pub server_steps : {x y : ServerState W} → ServerReaches x y → ℕ
  server_steps (here x) = 0
  server_steps (after x y z before last) = suc (server_steps before)

  -- After `k` steps the slot holds a session under the same key, whose counter has moved on by `k` at
  -- most.
  reaches-Counts :
      (i : ℕ) (s : Session) (x y : ServerState W) (run : ServerReaches x y)
      → s.crypto.tx_nonce + server_steps run < 2 ^ 64
      → Holds i s x.1
      → (t : Session) × Holds i t y.1
        × (t.crypto.tx_key ≡ s.crypto.tx_key)
        × (s.crypto.tx_nonce ≤ t.crypto.tx_nonce)
        × (t.crypto.tx_nonce ≤ s.crypto.tx_nonce + server_steps run)
  unfolding server_steps
  reaches-Counts i s x y (here k) small at = (s, at, refl, omega arith, omega arith)
  reaches-Counts i s x y (after a b c before last) small at =
      let (t, there, key, low, high) = reaches-Counts i s a b before (omega arith) at in
      let (u, now, (key', moved)) = step-Next b c i t last there in
      elim moved [
        | inl same ↦ (u, now, key' ∙ key, omega arith, omega arith)
        | inr more ↦ (u, now, key' ∙ key, omega arith, omega arith)
      ]

module _ {W : Type 0} ⦃os : Os W⦄ ⦃rnd : Random W⦄ ⦃na : Sodium⦄ ⦃z : Zstd⦄ (aead : AeadLaws na)
    (zstd : ZstdLaws z) where
  -- A round that left the world `x` has sent the session's datagram for `raw` to the session's peer,
  -- and it is sealed under the nonce of the counter.
  abbrev pub ForwardsUnder : ℕ → List ℕ → Session → W → ℕ → W → Type 0
  ForwardsUnder counter raw s v port x =
      (b : List ℕ) × SealedUnder counter raw s b × (x ≡ os.sendto v (pos port) b s.udp.peer_addr)

  round-ForwardsUnder :
      (raw : List ℕ) (m : SessionManager) (w v : W) (ready count : ℤ) (i port : ℕ) (dev : ℤ)
      (s : Session)
      → IsGuarded m
      → Holds i s m
      → i < 256
      → s.udp.peer_known ≡ 1
      → m.udp_socket ≡ pos port
      → m.tun ≡ some dev
      → is_positive ready ≡ true
      → is_positive count ≡ true
      → os.read w dev tunnel_packet_max_plaintext ≡ (count, raw, v)
      → get_or raw 19 0 ≡ octet_of i
      → 20 ≤ length raw
      → length raw + tunnel_compress_header_size ≤ tunnel_packet_max_plaintext
      → Holds i (count_sent s) (session_manager_tun_sender ready m w).0
        × ForwardsUnder s.crypto.tx_nonce raw s v port (session_manager_tun_sender ready m w).1
  unfolding store
  round-ForwardsUnder raw m w v ready count i port dev s guarded at near known bound device wakes
        got read octet long fits =
      let (up, _) = get_elem-Trusted m.sessions i s guarded.trusted at in
      let (sent, sealed) = datagram_of-SealedUnder aead zstd raw s fits in
      let run =
        server_reads raw m w v ready count port dev bound device wakes got read
        ∙ tun_sender_round_routes raw m v i s guarded.sound near at up known octet long fits
        ∙ forwards raw (datagram_of raw s) i s m v port bound sent in
      (
        ap (λ p. get_elem? p.0.sessions i) run
            ∙ get_elem-set m.sessions i (some s) (some (count_sent s)) at,
        (datagram_of raw s, sealed, ap (λ p. p.1) run),
      )

  -- A server whose table is guarded, as it always is once it has started, sends a packet of 20 to
  -- 65499 bytes for the session in one of its first 256 slots, whose peer is known, and then, after
  -- further steps of its threads, fewer than 2^64 of them with those that the counter has counted,
  -- another for the session that the slot holds then. Each round sends one datagram to the session's
  -- peer, which carries its counter and is encrypted with the nonce of that counter; the key is the
  -- same, and the two nonces differ.
  pub server_nonces_differ :
      (raw raw' : List ℕ) (srv srv' : Server) (m m' : SessionManager) (w v w' v' : W)
      (ready count ready' count' : ℤ) (i port port' : ℕ) (dev dev' : ℤ) (s t : Session)
      (run : ServerReaches
        (srv, (session_manager_tun_sender ready m w).0, (session_manager_tun_sender ready m w).1)
        (srv', m', w'))
      → IsGuarded m
      → Holds i s m
      → i < 256
      → s.udp.peer_known ≡ 1
      → m.udp_socket ≡ pos port
      → m.tun ≡ some dev
      → is_positive ready ≡ true
      → is_positive count ≡ true
      → os.read w dev tunnel_packet_max_plaintext ≡ (count, raw, v)
      → get_or raw 19 0 ≡ octet_of i
      → 20 ≤ length raw
      → length raw + tunnel_compress_header_size ≤ tunnel_packet_max_plaintext
      → s.crypto.tx_nonce + 1 + server_steps run < 2 ^ 64
      → Holds i t m'
      → t.udp.peer_known ≡ 1
      → m'.udp_socket ≡ pos port'
      → m'.tun ≡ some dev'
      → is_positive ready' ≡ true
      → is_positive count' ≡ true
      → os.read w' dev' tunnel_packet_max_plaintext ≡ (count', raw', v')
      → get_or raw' 19 0 ≡ octet_of i
      → 20 ≤ length raw'
      → length raw' + tunnel_compress_header_size ≤ tunnel_packet_max_plaintext
      → (n n' : ℕ) × ForwardsUnder n raw s v port (session_manager_tun_sender ready m w).1
        × ForwardsUnder n' raw' t v' port' (session_manager_tun_sender ready' m' w').1
        × (t.crypto.tx_key ≡ s.crypto.tx_key)
        × (crypto_build_nonce n ≢ crypto_build_nonce n')
  unfolding count_sent
  server_nonces_differ raw raw' srv srv' m m' w v w' v' ready count ready' count' i port port' dev
        dev' s t run guarded at near known bound device wakes got read octet long fits small at'
        known' bound' device' wakes' got' read' octet' long' fits' =
      let n = s.crypto.tx_nonce in
      let n' = t.crypto.tx_nonce in
      let (counted, sent) =
        round-ForwardsUnder raw m w v ready count i port dev s guarded at near known bound device
          wakes got read octet long fits in
      let guarded' : IsGuarded m' =
        reaches-IsGuarded _ _ run (session_manager_tun_sender-IsGuarded ready m w guarded) in
      let (_, sent') =
        round-ForwardsUnder raw' m' w' v' ready' count' i port' dev' t guarded' at' near known'
          bound' device' wakes' got' read' octet' long' fits' in
      let first : (count_sent s).crypto.tx_nonce ≡ n + 1 = omega arith in
      let (u, now, key, low, high) =
        reaches-Counts i (count_sent s) _ _ run (omega (arith, first)) counted in
      let one : u ≡ t = cc (now, at') in
      let here : u.crypto.tx_nonce ≡ n' = ap (λ a. a.crypto.tx_nonce) one in
      (
        n,
        n',
        sent,
        sent',
        sym (ap (λ a. a.crypto.tx_key) one) ∙ key,
        λ e.
            let same =
              crypto_build_nonce-injective n n' (omega (arith, first)) (omega (arith, first)) e in
            omega (arith, first),
      )
