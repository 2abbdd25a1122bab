-- ===== src/Command/Client/Nonces.antt =====
-- src/commands/client_env.c: the counter from which the client's sender makes its nonces, however the
-- rounds of the threads and the commands follow each other.
use sencd.Base.{
  ℕ, suc, ◌+◌, ◌%◌, ◌^◌, ◌≤◌, ◌<◌, ◌≡◌, ◌≢◌, refl, ap, ◌∙◌, ◌⊎◌, inl, inr, true, false, ◌&&◌,
  Option, none, some, List, arith, ◌==◌, length, ℤ, pos, is_positive, Bool-cases,
}
use sencd.Platform.Os.{Os}
use sencd.Platform.Sodium.{Sodium, AeadLaws}
use sencd.Platform.Zstd.{Zstd, ZstdLaws}
use sencd.Packet.{Packet, disconnect, code, packet_receive}
use sencd.Crypto.{crypto_build_nonce}
use sencd.Crypto.Nonce.{crypto_build_nonce-injective}
use sencd.Session.{Session, session_destroy, cleared_session, established}
use sencd.Tunnel.Frame.{tunnel_packet_max_size, tunnel_packet_max_plaintext}
use sencd.Tunnel.Compress.{tunnel_pipeline_compress, tunnel_compress_header_size}
use sencd.Manager.Slots.{is_established}
use sencd.Manager.Traffic.{count_sent}
use sencd.Command.Shell.{find_command, until_newline}
use sencd.Endpoint.Device.{tun_read}
use sencd.Command.Carries.Datagram.{datagram_of, SealedUnder, datagram_of-SealedUnder}
use sencd.Command.Carries.Rounds.{client_sends}
use sencd.Command.Client.{ClientRun, ClientCommand, client_commands}
use sencd.Command.Client.Steps.{
  is_up, carries, tear_down, cmd_disconnect, run_client_command, client_execute_command,
  end_receiver, on_packet, client_receiver_round, send_raw, client_tun_sender_round,
  client_udp_receiver_round, ClientStep, receiver, tun_sender, udp_receiver, command, ClientReaches,
  here, later,
}

-- The session ends, stays, or has sent a packet.
abbrev Moved : Session → Session → Type 0
Moved s t = (is_established t.state ≡ false) ⊎ ((t ≡ s) ⊎ (t ≡ count_sent s))

-- After `k` steps the session has ended or its counter has gone from `n` by at most `k`.
abbrev Counted : ℕ → ℕ → Session → Type 0
Counted n k s =
    (is_established s.state ≡ false) ⊎ ((n ≤ s.crypto.tx_nonce) × (s.crypto.tx_nonce ≤ n + k))

Moved-Counted :
    (n k : ℕ) (s t : Session) → n + suc k < 2 ^ 64 → Moved s t → Counted n k s → Counted n (suc k) t
unfolding count_sent
Moved-Counted n k s t small (inl over) h = inl over
Moved-Counted n k s t small (inr (inl same)) (inl over) =
    inl (ap (λ x. is_established x.state) same ∙ over)
Moved-Counted n k s t small (inr (inl same)) (inr (low, high)) =
    let here : t.crypto.tx_nonce ≡ s.crypto.tx_nonce = ap (λ x. x.crypto.tx_nonce) same in
    inr (omega arith, omega arith)
Moved-Counted n k s t small (inr (inr sent)) (inl over) =
    inl (ap (λ x. is_established x.state) sent ∙ over)
Moved-Counted n k s t small (inr (inr sent)) (inr (low, high)) =
    let here : t.crypto.tx_nonce ≡ (s.crypto.tx_nonce + 1) % 2 ^ 64 =
      ap (λ x. x.crypto.tx_nonce) sent in
    inr (omega arith, omega arith)

module _ {W : Type 0} ⦃os : Os W⦄ where
  tear_down-Moved :
      (r : ClientRun) (w : W) (s : Session) → Moved s (tear_down (r, w)).0.client.session
  unfolding tear_down session_destroy cleared_session is_established
  tear_down-Moved r w s = inl refl

  end_receiver-Moved :
      (r : ClientRun) (w : W) → Moved r.client.session (end_receiver (r, w)).0.client.session
  unfolding end_receiver
  end_receiver-Moved r w = elim (Bool-cases (is_up r)) [
    | inl up ↦ rw up (tear_down-Moved r w r.client.session)
    | inr down ↦ rw down (inr (inl refl))
  ]

  on_packet-Moved :
      (r : ClientRun) (t : Option Packet × W)
      → Moved r.client.session (on_packet r t).0.client.session
  unfolding on_packet
  on_packet-Moved r (none, w) = end_receiver-Moved r w
  on_packet-Moved r (some packet, w) = elim (Bool-cases (packet.header.type == code disconnect)) [
    | inl notice ↦ rw notice (end_receiver-Moved r w)
    | inr other ↦ rw other (inr (inl refl))
  ]

  receiver-Moved :
      (p : ClientRun × W) → Moved p.0.client.session (client_receiver_round p).0.client.session
  unfolding client_receiver_round
  receiver-Moved (r, w) = elim (Bool-cases (is_up r)) [
    | inl up ↦ rw up (on_packet-Moved r (packet_receive r.client.session.socket w))
    | inr down ↦ rw down (inr (inl refl))
  ]

  command-Moved :
      (c : Option ClientCommand) (p : ClientRun × W)
      → Moved p.0.client.session (run_client_command c p).0.client.session
  unfolding run_client_command cmd_disconnect
  command-Moved none p = inr (inl refl)
  command-Moved (some sencd.Command.Client.clear) p = inr (inl refl)
  command-Moved (some sencd.Command.Client.disconnect_now) (r, w) = elim (Bool-cases (is_up r)) [
    | inl up ↦ rw up (tear_down-Moved r w r.client.session)
    | inr down ↦ rw down (inr (inl refl))
  ]

module _ {W : Type 0} ⦃os : Os W⦄ ⦃na : Sodium⦄ ⦃z : Zstd⦄ where
  send_raw-Moved :
      (raw : List ℕ) (r : ClientRun) (w : W)
      → Moved r.client.session (send_raw raw (r, w)).0.client.session
  unfolding send_raw
  send_raw-Moved raw r w =
      elim (Bool-cases (length (tunnel_pipeline_compress raw tunnel_packet_max_plaintext) == 0)) [
        | inl nothing ↦ rw nothing (inr (inl refl))
        | inr some_bytes ↦ rw some_bytes (inr (inr refl))
      ]

  tun_sender-Moved :
      (ready : ℤ) (p : ClientRun × W)
      → Moved p.0.client.session (client_tun_sender_round ready p).0.client.session
  unfolding client_tun_sender_round tun_read
  tun_sender-Moved ready (r, w) =
      let (count, raw, v) = os.read w r.client.tun.fd tunnel_packet_max_plaintext in
      elim (Bool-cases (carries r && is_positive ready)) [
        | inr idle ↦ rw idle (inr (inl refl))
        | inl wakes ↦ rw wakes (elim (Bool-cases (is_positive count)) [
          | inl got ↦ rw got (send_raw-Moved raw r v)
          | inr nothing ↦ rw nothing (inr (inl refl))
        ])
      ]

  udp_receiver-Moved :
      (ready : ℤ) (p : ClientRun × W)
      → Moved p.0.client.session (client_udp_receiver_round ready p).0.client.session
  unfolding client_udp_receiver_round
  udp_receiver-Moved ready (r, w) =
      let (count, b, v) = os.recv w r.client.session.udp.socket tunnel_packet_max_size in
      elim (Bool-cases (carries r && is_positive ready)) [
        | inr idle ↦ rw idle (inr (inl refl))
        | inl wakes ↦ rw wakes (elim (Bool-cases (is_positive count)) [
          | inl got ↦ rw got (inr (inl refl))
          | inr nothing ↦ rw nothing (inr (inl refl))
        ])
      ]

  step-Moved : (p q : ClientRun × W) → ClientStep p q → Moved p.0.client.session q.0.client.session
  unfolding client_execute_command
  step-Moved p q (receiver k _) = receiver-Moved k
  step-Moved p q (tun_sender k ready) = tun_sender-Moved ready k
  step-Moved p q (udp_receiver k ready) = udp_receiver-Moved ready k
  step-Moved p q (command k line _) =
      command-Moved (find_command (until_newline line) client_commands) k

  -- How many steps a run has.
  unfoldable pub steps : {p q : ClientRun × W} → ClientReaches p q → ℕ
  steps (here p) = 0
  steps (later p q r before last) = suc (steps before)

  reaches-Counted :
      (n : ℕ) (p q : ClientRun × W) (run : ClientReaches p q)
      → n + steps run < 2 ^ 64
      → n ≤ p.0.client.session.crypto.tx_nonce
      → p.0.client.session.crypto.tx_nonce ≤ n
      → Counted n (steps run) q.0.client.session
  unfolding steps
  reaches-Counted n p q (here k) small low high = inr (low, omega (arith, high))
  reaches-Counted n p q (later a b c before last) small low high =
      Moved-Counted n (steps before) b.0.client.session c.0.client.session small
        (step-Moved b c last) (reaches-Counted n a b before (omega (arith, small)) low high)

module _ {W : Type 0} ⦃os : Os W⦄ ⦃na : Sodium⦄ ⦃z : Zstd⦄ (aead : AeadLaws na)
    (zstd : ZstdLaws z) where
  -- A round that left the world `x` has sent the session's datagram for `raw` on the descriptor, and
  -- it is sealed under the nonce of the counter.
  abbrev pub SendsUnder : ℕ → List ℕ → Session → W → ℕ → W → Type 0
  SendsUnder counter raw s v fd x =
      (b : List ℕ) × SealedUnder counter raw s b × (x ≡ (os.send v (pos fd) b).1)

  round-SendsUnder :
      (raw : List ℕ) (r : ClientRun) (w v : W) (ready count : ℤ) (fd : ℕ)
      → r.client.session.state ≡ established
      → r.client.session.udp.socket ≡ pos fd
      → is_positive ready ≡ true
      → is_positive count ≡ true
      → os.read w r.client.tun.fd tunnel_packet_max_plaintext ≡ (count, raw, v)
      → length raw + tunnel_compress_header_size ≤ tunnel_packet_max_plaintext
      → ((client_tun_sender_round ready (r, w)).0.client.session ≡ count_sent r.client.session)
        × SendsUnder r.client.session.crypto.tx_nonce raw r.client.session v fd
            (client_tun_sender_round ready (r, w)).1
  round-SendsUnder raw r w v ready count fd up socket wakes got read fits =
      let s = r.client.session in
      let (sent, sealed) = datagram_of-SealedUnder aead zstd raw s fits in
      let run =
        client_sends raw r w v ready count fd (datagram_of raw s) up socket wakes got read fits
          sent in
      (ap (λ p. p.0.client.session) run, (datagram_of raw s, sealed, ap (λ p. p.1) run))

  -- A client whose session is up sends a packet of at most 65499 bytes, and then, after further
  -- steps of the threads and the shell that leave the session up, fewer than 2^64 of them with those
  -- that the counter has counted, another. Each round sends one datagram, which carries its counter
  -- and is encrypted with the nonce of that counter, and the two nonces differ.
  pub nonces_differ :
      (raw raw' : List ℕ) (r r' : ClientRun) (w v w' v' : W) (ready count ready' count' : ℤ)
      (fd fd' : ℕ) (run : ClientReaches (client_tun_sender_round ready (r, w)) (r', w'))
      → r.client.session.state ≡ established
      → r.client.session.udp.socket ≡ pos fd
      → is_positive ready ≡ true
      → is_positive count ≡ true
      → os.read w r.client.tun.fd tunnel_packet_max_plaintext ≡ (count, raw, v)
      → length raw + tunnel_compress_header_size ≤ tunnel_packet_max_plaintext
      → r.client.session.crypto.tx_nonce + 1 + steps run < 2 ^ 64
      → r'.client.session.state ≡ established
      → r'.client.session.udp.socket ≡ pos fd'
      → is_positive ready' ≡ true
      → is_positive count' ≡ true
      → os.read w' r'.client.tun.fd tunnel_packet_max_plaintext ≡ (count', raw', v')
      → length raw' + tunnel_compress_header_size ≤ tunnel_packet_max_plaintext
      → (n n' : ℕ) × SendsUnder n raw r.client.session v fd (client_tun_sender_round ready (r, w)).1
        × SendsUnder n' raw' r'.client.session v' fd' (client_tun_sender_round ready' (r', w')).1
        × (crypto_build_nonce n ≢ crypto_build_nonce n')
  unfolding count_sent is_established
  nonces_differ raw raw' r r' w v w' v' ready count ready' count' fd fd' run up socket wakes got
        read fits small up' socket' wakes' got' read' fits' =
      let n = r.client.session.crypto.tx_nonce in
      let n' = r'.client.session.crypto.tx_nonce in
      let (counted, sends) =
        round-SendsUnder raw r w v ready count fd up socket wakes got read fits in
      let (_, sends') =
        round-SendsUnder raw' r' w' v' ready' count' fd' up' socket' wakes' got' read' fits' in
      let first = client_tun_sender_round ready (r, w) in
      let moved : first.0.client.session.crypto.tx_nonce ≡ (n + 1) % 2 ^ 64 =
        ap (λ s. s.crypto.tx_nonce) counted in
      let next : first.0.client.session.crypto.tx_nonce ≡ n + 1 = omega arith in
      let here : is_established r'.client.session.state ≡ true = rw up' refl in
      (
        n,
        n',
        sends,
        sends',
        λ e. elim (reaches-Counted (n + 1) first (r', w') run small (omega arith) (omega arith)) [
          | inl over ↦ cc (here, over)
          | inr (low, high) ↦
              let same = crypto_build_nonce-injective n n' (omega arith) (omega arith) e in
              omega arith
        ],
      )
