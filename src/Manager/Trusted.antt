-- ===== src/Manager/Trusted.antt =====
-- src/sessions/session_manager.c: every session in the table was let through by a handshake.
use sencd.Base.{
  ℕ, zero, suc, ◌≡◌, sym, ap, ◌∙◌, subst, ◌&&◌, Option, none, some, List, [], ◌∷◌, arith, set,
  get_elem?, replicate, ℤ, nonneg, is_positive, Option-cases, Bool-cases, inl, inr,
}
use sencd.Platform.Os.{Os, SockAddr}
use sencd.Platform.Sodium.{Random, Sodium}
use sencd.Platform.Zstd.{Zstd}
use sencd.Session.{Session, SessionRole, established, session_create}
use sencd.Tunnel.Frame.{tunnel_packet_max_size, tunnel_packet_max_plaintext}
use sencd.Tunnel.Pipeline.{outbound}
use sencd.Manager.Slots.{SlotTable, insert}
use sencd.Manager.{SessionManager, session_manager_add}
use sencd.Manager.Connect.{session_manager_connect}
use sencd.Manager.Traffic.{
  store, heard_from, count_sent, udp_listener_round, tun_sender_round, deliver, forward,
}
use sencd.Manager.Rounds.{session_manager_udp_listener, session_manager_tun_sender, read_packet}
use sencd.Manager.Count.{IsSound}
use sencd.Manager.Lookup.{session_manager_get-slot}
use sencd.Manager.Forward.{
  udp_listener_round-IsSound, tun_sender_round-IsSound, udp_listener_round-cases,
  tun_sender_round-cases,
}
use sencd.Manager.Admission.{Connected, session_manager_connect-Connected}

-- A session whose peer has answered the server's challenge.
abbrev pub Trusted : Session → Type 0
Trusted s = (s.state ≡ established) × (s.crypto.verified ≡ 1)

unfoldable pub AllTrusted : SlotTable → Type 0
AllTrusted [] = Unit {0}
AllTrusted (none ∷ rest) = AllTrusted rest
AllTrusted (some s ∷ rest) = Trusted s × AllTrusted rest

-- A sound table in which every session is trusted.
pub record IsGuarded (m : SessionManager) : Type 0 where
  pub sound : IsSound m
  pub trusted : AllTrusted m.sessions

insert-AllTrusted :
    (i : ℕ) (s : Session) (xs ys : SlotTable)
    → insert i s xs ≡ some ys
    → Trusted s
    → AllTrusted xs
    → AllTrusted ys
unfolding insert AllTrusted
insert-AllTrusted i s [] ys e t h = ground arith
insert-AllTrusted i s (none ∷ xs) ys e t h = ground arith
insert-AllTrusted i s (some k ∷ xs) ys e t h = grind (arith, insert-AllTrusted (suc i) s xs)

set-AllTrusted :
    (xs : SlotTable) (i : ℕ) (s t : Session)
    → get_elem? xs i ≡ some (some s)
    → (Trusted s → Trusted t)
    → AllTrusted xs
    → AllTrusted (set xs i (some t))
unfolding AllTrusted
set-AllTrusted [] i s t e keeps h = h
set-AllTrusted (none ∷ xs) zero s t e keeps h = cc e
set-AllTrusted (some k ∷ xs) zero s t e keeps (a, h) =
    (keeps (let same : k ≡ s = cc e in subst Trusted same a), h)
set-AllTrusted (none ∷ xs) (suc i) s t e keeps h = set-AllTrusted xs i s t e keeps h
set-AllTrusted (some k ∷ xs) (suc i) s t e keeps (a, h) = (a, set-AllTrusted xs i s t e keeps h)

pub replicate-AllTrusted : (n : ℕ) → AllTrusted (replicate n none)
unfolding AllTrusted
replicate-AllTrusted zero = tt
replicate-AllTrusted (suc n) = replicate-AllTrusted n

add-AllTrusted :
    (m m' : SessionManager) (s : Session)
    → session_manager_add m s ≡ some m'
    → Trusted s
    → AllTrusted m.sessions
    → AllTrusted m'.sessions
unfolding session_manager_add
add-AllTrusted m m' s e t h = elim (Option-cases (insert 0 s m.sessions)) [
  | inl stop ↦ ground arith
  | inr (slots, found) ↦
      let same : slots ≡ m'.sessions = ground arith in
      subst AllTrusted same (insert-AllTrusted 0 s m.sessions slots found t h)
]

module _ {W : Type 0} ⦃os : Os W⦄ ⦃rnd : Random W⦄ ⦃na : Sodium⦄ where
  Connected-IsGuarded :
      (m : SessionManager) (p : Session × W) (t : Option (Unit {0}) × SessionManager × W)
      → IsGuarded m
      → Connected m p t
      → IsGuarded t.1
  Connected-IsGuarded m p (none, m', w) g same = subst IsGuarded (sym same) g
  Connected-IsGuarded m p (some _, m', w) g (s, admitted, taken, sound, _, _) =
      let (v, nonce, sn, pk, sk, rx, tx, response, _, _, _, shape) = admitted in
      record {
        sound = sound;
        trusted =
            add-AllTrusted m m' s taken (ap (λ x. x.state) shape, ap (λ x. x.crypto.verified) shape)
              g.trusted;
      }

  pub session_manager_connect-IsGuarded :
      (size : ℕ) (m : SessionManager) (role : SessionRole) (socket : ℤ) (ip : List ℕ) (w : W)
      → IsGuarded m
      → IsGuarded (session_manager_connect size m role socket ip w).1
  session_manager_connect-IsGuarded size m role socket ip w g =
      Connected-IsGuarded m (session_create role socket ip m.identity none (os.malloc w size).1) _ g
        (session_manager_connect-Connected size m role socket ip w g.sound)

store-IsGuarded :
    (m : SessionManager) (i : ℕ) (s t : Session)
    → get_elem? m.sessions i ≡ some (some s)
    → (Trusted s → Trusted t)
    → IsSound (store m i t)
    → IsGuarded m
    → IsGuarded (store m i t)
unfolding store
store-IsGuarded m i s t at keeps sound g = record {
  sound = sound;
  trusted = set-AllTrusted m.sessions i s t at keeps g.trusted;
}

module _ {W : Type 0} ⦃os : Os W⦄ ⦃na : Sodium⦄ ⦃z : Zstd⦄ where
  udp_listener_round-IsGuarded :
      (buffer : List ℕ) (from : SockAddr) (m : SessionManager) (w : W)
      → IsGuarded m
      → IsGuarded (udp_listener_round buffer from m w).0
  unfolding deliver heard_from
  udp_listener_round-IsGuarded buffer from m w g = elim (udp_listener_round-cases buffer from m w) [
    | inl same ↦ subst (λ (p : SessionManager × W). IsGuarded p.0) (sym same) g
    | inr (id, i, s, found, same) ↦
        let at = (session_manager_get-slot m id i s found).0 in
        let sound =
          subst (λ (p : SessionManager × W). IsSound p.0) same
            (udp_listener_round-IsSound buffer from m w g.sound) in
        subst (λ (p : SessionManager × W). IsGuarded p.0) (sym same)
          (store-IsGuarded m i s (heard_from from s) at (λ t. t) sound g)
  ]

  pub forward-store :
      (raw : List ℕ) (i : ℕ) (s : Session) (m : SessionManager) (w : W)
      → (forward raw i s m w).0 ≡ store m i (count_sent s)
  unfolding forward
  forward-store raw i s m w =
      elim (Option-cases (outbound raw s.session_id s.crypto.tx_nonce s.crypto)) [
        | inl e ↦ ground arith
        | inr (b, e) ↦ ground arith
      ]

  tun_sender_round-IsGuarded :
      (raw : List ℕ) (m : SessionManager) (w : W)
      → IsGuarded m
      → IsGuarded (tun_sender_round raw m w).0
  unfolding count_sent
  tun_sender_round-IsGuarded raw m w g = elim (tun_sender_round-cases raw m w) [
    | inl same ↦ subst (λ (p : SessionManager × W). IsGuarded p.0) (sym same) g
    | inr (i, s, at, same) ↦
        let stored = ap (λ (p : SessionManager × W). p.0) same ∙ forward-store raw i s m w in
        subst IsGuarded (sym stored) (
          store-IsGuarded m i s (count_sent s) at (λ t. t)
            (subst IsSound stored (tun_sender_round-IsSound raw m w g.sound)) g)
  ]

  pub session_manager_udp_listener-IsGuarded :
      (ready : ℤ) (m : SessionManager) (w : W)
      → IsGuarded m
      → IsGuarded (session_manager_udp_listener ready m w).0
  unfolding session_manager_udp_listener
  session_manager_udp_listener-IsGuarded ready m w g =
      let (count, buffer, from, v) = os.recvfrom w m.udp_socket tunnel_packet_max_size in
      elim (Bool-cases (nonneg m.udp_socket && is_positive ready)) [
        | inr waits ↦ rw waits g
        | inl wakes ↦ rw wakes (elim (Bool-cases (is_positive count)) [
          | inl got ↦ rw got (udp_listener_round-IsGuarded buffer from m v g)
          | inr nothing ↦ rw nothing g
        ])
      ]

  read_packet-IsGuarded :
      (tun : Option ℤ) (m : SessionManager) (w : W)
      → IsGuarded m
      → IsGuarded (read_packet tun m w).0
  unfolding read_packet
  read_packet-IsGuarded none m w g = g
  read_packet-IsGuarded (some fd) m w g =
      let (count, raw, v) = os.read w fd tunnel_packet_max_plaintext in
      elim (Bool-cases (is_positive count)) [
        | inl got ↦ rw got (tun_sender_round-IsGuarded raw m v g)
        | inr nothing ↦ rw nothing g
      ]

  pub session_manager_tun_sender-IsGuarded :
      (ready : ℤ) (m : SessionManager) (w : W)
      → IsGuarded m
      → IsGuarded (session_manager_tun_sender ready m w).0
  unfolding session_manager_tun_sender
  session_manager_tun_sender-IsGuarded ready m w g =
      elim (Bool-cases (nonneg m.udp_socket && is_positive ready)) [
        | inr waits ↦ rw waits g
        | inl wakes ↦ rw wakes (read_packet-IsGuarded m.tun m w g)
      ]
