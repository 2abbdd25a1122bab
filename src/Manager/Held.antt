-- ===== src/Manager/Held.antt =====
-- src/sessions/session_manager.c: what becomes of the session in a slot, step by step.
use sencd.Base.{
  ℕ, zero, suc, ◌+◌, ◌%◌, ◌^◌, ◌≡◌, refl, sym, ap, ◌∙◌, subst, ◌⊎◌, inl, inr, ◌&&◌, Option, none,
  some, List, [], ◌∷◌, arith, ℤ, nonneg, is_positive, Bool-cases, Option-cases, get_elem?, set,
}
use sencd.Platform.Os.{Os, SockAddr}
use sencd.Platform.Sodium.{Random, Sodium}
use sencd.Platform.Zstd.{Zstd}
use sencd.Session.{Session, session_create, server, session_server_connect}
use sencd.Tunnel.Frame.{tunnel_packet_max_size, tunnel_packet_max_plaintext}
use sencd.Manager.{SessionManager, session_manager_add}
use sencd.Manager.Slots.{SlotTable, insert}
use sencd.Manager.Connect.{session_manager_connect, register, dropped}
use sencd.Manager.Traffic.{
  store, heard_from, count_sent, deliver, udp_listener_round, tun_sender_round,
}
use sencd.Manager.Rounds.{session_manager_udp_listener, session_manager_tun_sender, read_packet}
use sencd.Manager.Lookup.{session_manager_get-slot}
use sencd.Manager.Forward.{udp_listener_round-cases, tun_sender_round-cases}
use sencd.Manager.Trusted.{forward-store, Trusted, AllTrusted}

-- The slot holds the session.
abbrev pub Holds : ℕ → Session → SessionManager → Type 0
Holds i s m = get_elem? m.sessions i ≡ some (some s)

-- What a slot of a guarded table holds is trusted.
pub get_elem-Trusted :
    (xs : SlotTable) (i : ℕ) (s : Session)
    → AllTrusted xs
    → get_elem? xs i ≡ some (some s)
    → Trusted s
unfolding AllTrusted
get_elem-Trusted [] i s h at = ground arith
get_elem-Trusted (none ∷ xs) zero s h at = cc at
get_elem-Trusted (some k ∷ xs) zero s (a, h) at = let same : k ≡ s = cc at in subst Trusted same a
get_elem-Trusted (none ∷ xs) (suc i) s h at = get_elem-Trusted xs i s h at
get_elem-Trusted (some k ∷ xs) (suc i) s (a, h) at = get_elem-Trusted xs i s h at

-- What was written over a slot is there.
pub get_elem-set :
    (xs : SlotTable) (i : ℕ) (u v : Option Session)
    → get_elem? xs i ≡ some u
    → get_elem? (set xs i v) i ≡ some v
get_elem-set [] i u v at = ground arith
get_elem-set (x ∷ xs) zero u v at = refl
get_elem-set (x ∷ xs) (suc i) u v at = get_elem-set xs i u v at

insert-get_elem :
    (k : ℕ) (u : Session) (xs ys : SlotTable) (i : ℕ) (s : Session)
    → insert k u xs ≡ some ys
    → get_elem? xs i ≡ some (some s)
    → get_elem? ys i ≡ some (some s)
unfolding insert
insert-get_elem k u [] ys i s e at = ground arith
insert-get_elem k u (none ∷ xs) ys zero s e at = cc at
insert-get_elem k u (none ∷ xs) ys (suc i) s e at = ground arith
insert-get_elem k u (some t ∷ xs) ys zero s e at = elim (Option-cases (insert (suc k) u xs)) [
  | inl stop ↦ ground arith
  | inr (rest, found) ↦
      let same : some t ∷ rest ≡ ys = ground arith in
      subst (λ zs. get_elem? zs 0 ≡ some (some s)) same at
]
insert-get_elem k u (some t ∷ xs) ys (suc i) s e at = elim (Option-cases (insert (suc k) u xs)) [
  | inl stop ↦ ground arith
  | inr (rest, found) ↦
      let same : some t ∷ rest ≡ ys = ground arith in
      subst (λ zs. get_elem? zs (suc i) ≡ some (some s)) same
        (insert-get_elem (suc k) u xs rest i s found at)
]

-- A slot of a table after a write to a slot that is there.
set-get_elem :
    (xs : SlotTable) (j i : ℕ) (u v : Option Session)
    → get_elem? xs j ≡ some u
    → (get_elem? (set xs j v) i ≡ get_elem? xs i) ⊎ ((i ≡ j) × (get_elem? (set xs j v) i ≡ some v))
set-get_elem [] j i u v at = inl refl
set-get_elem (x ∷ xs) zero zero u v at = inr (refl, refl)
set-get_elem (x ∷ xs) zero (suc i) u v at = inl refl
set-get_elem (x ∷ xs) (suc j) zero u v at = inl refl
set-get_elem (x ∷ xs) (suc j) (suc i) u v at = elim (set-get_elem xs j i u v at) [
  | inl same ↦ inl same
  | inr (now, written) ↦ inr (ap suc now, written)
]

-- A session under the same key that has counted nothing more, or one packet more.
abbrev pub Counts : Session → Session → Type 0
Counts s t =
    (t.crypto.tx_key ≡ s.crypto.tx_key)
    × ((t.crypto.tx_nonce ≡ s.crypto.tx_nonce)
        ⊎ (t.crypto.tx_nonce ≡ (s.crypto.tx_nonce + 1) % 2 ^ 64))

abbrev pub Next : ℕ → Session → SessionManager → Type 0
Next i s m = (t : Session) × Holds i t m × Counts s t

store-Next :
    (m : SessionManager) (j i : ℕ) (u v s : Session)
    → Holds j u m
    → Counts u v
    → Holds i s m
    → Next i s (store m j v)
unfolding store
store-Next m j i u v s there counts at =
    elim (set-get_elem m.sessions j i (some u) (some v) there) [
      | inl same ↦ (s, same ∙ at, (refl, inl refl))
      | inr (now, written) ↦
          let one : u ≡ s = cc (there, at, ap (λ k. get_elem? m.sessions k) now) in
          (v, written, subst (λ a. Counts a v) one counts)
    ]

add-Holds :
    (m m' : SessionManager) (u : Session) (i : ℕ) (s : Session)
    → session_manager_add m u ≡ some m'
    → Holds i s m
    → Holds i s m'
unfolding session_manager_add
add-Holds m m' u i s e at = elim (Option-cases (insert 0 u m.sessions)) [
  | inl stop ↦ ground arith
  | inr (slots, found) ↦
      let same : slots ≡ m'.sessions = ground arith in
      subst (λ ys. get_elem? ys i ≡ some (some s)) same
        (insert-get_elem 0 u m.sessions slots i s found at)
]

module _ {W : Type 0} ⦃os : Os W⦄ ⦃rnd : Random W⦄ ⦃na : Sodium⦄ where
  register-Holds :
      (m : SessionManager) (u : Session) (w : W) (i : ℕ) (s : Session)
      → Holds i s m
      → Holds i s (register m u w).1
  unfolding register dropped
  register-Holds m u w i s at = elim (Option-cases (session_manager_add m u)) [
    | inl full ↦ rw (register, full) at
    | inr (m', taken) ↦ rw (register, taken) (add-Holds m m' u i s taken at)
  ]

  pub connect-Holds :
      (i : ℕ) (s : Session) (size : ℕ) (m : SessionManager) (client : ℤ) (ip : List ℕ) (w : W)
      → Holds i s m
      → Holds i s (session_manager_connect size m server client ip w).1
  unfolding session_manager_connect dropped
  connect-Holds i s size m client ip w at =
      let created = session_create server client ip m.identity none (os.malloc w size).1 in
      elim (Bool-cases (os.malloc w size).0) [
        | inr refused ↦ rw refused at
        | inl given ↦ rw given (elim (Option-cases (session_server_connect created).0) [
          | inl failed ↦ rw failed at
          | inr (_, passed) ↦
              let q = (session_server_connect created).1 in
              rw passed (register-Holds m q.0 q.1 i s at)
        ])
      ]

module _ {W : Type 0} ⦃os : Os W⦄ ⦃na : Sodium⦄ ⦃z : Zstd⦄ where
  udp_listener_round-Next :
      (buffer : List ℕ) (from : SockAddr) (m : SessionManager) (w : W) (i : ℕ) (s : Session)
      → Holds i s m
      → Next i s (udp_listener_round buffer from m w).0
  unfolding deliver heard_from
  udp_listener_round-Next buffer from m w i s at = elim (udp_listener_round-cases buffer from m w) [
    | inl same ↦
        subst (λ (p : SessionManager × W). Next i s p.0) (sym same) (s, at, (refl, inl refl))
    | inr (id, j, u, found, same) ↦
        let there = (session_manager_get-slot m id j u found).0 in
        subst (λ (p : SessionManager × W). Next i s p.0) (sym same)
          (store-Next m j i u (heard_from from u) s there (refl, inl refl) at)
  ]

  tun_sender_round-Next :
      (raw : List ℕ) (m : SessionManager) (w : W) (i : ℕ) (s : Session)
      → Holds i s m
      → Next i s (tun_sender_round raw m w).0
  unfolding count_sent
  tun_sender_round-Next raw m w i s at = elim (tun_sender_round-cases raw m w) [
    | inl same ↦
        subst (λ (p : SessionManager × W). Next i s p.0) (sym same) (s, at, (refl, inl refl))
    | inr (j, u, there, same) ↦
        let stored = ap (λ (p : SessionManager × W). p.0) same ∙ forward-store raw j u m w in
        subst (Next i s) (sym stored)
          (store-Next m j i u (count_sent u) s there (refl, inr refl) at)
  ]

  pub session_manager_udp_listener-Next :
      (ready : ℤ) (m : SessionManager) (w : W) (i : ℕ) (s : Session)
      → Holds i s m
      → Next i s (session_manager_udp_listener ready m w).0
  unfolding session_manager_udp_listener
  session_manager_udp_listener-Next ready m w i s at =
      let (count, buffer, from, v) = os.recvfrom w m.udp_socket tunnel_packet_max_size in
      elim (Bool-cases (nonneg m.udp_socket && is_positive ready)) [
        | inr waits ↦ rw waits (s, at, (refl, inl refl))
        | inl wakes ↦ rw wakes (elim (Bool-cases (is_positive count)) [
          | inl got ↦ rw got (udp_listener_round-Next buffer from m v i s at)
          | inr nothing ↦ rw nothing (s, at, (refl, inl refl))
        ])
      ]

  read_packet-Next :
      (tun : Option ℤ) (m : SessionManager) (w : W) (i : ℕ) (s : Session)
      → Holds i s m
      → Next i s (read_packet tun m w).0
  unfolding read_packet
  read_packet-Next none m w i s at = (s, at, (refl, inl refl))
  read_packet-Next (some fd) m w i s at =
      let (count, raw, v) = os.read w fd tunnel_packet_max_plaintext in
      elim (Bool-cases (is_positive count)) [
        | inl got ↦ rw got (tun_sender_round-Next raw m v i s at)
        | inr nothing ↦ rw nothing (s, at, (refl, inl refl))
      ]

  pub session_manager_tun_sender-Next :
      (ready : ℤ) (m : SessionManager) (w : W) (i : ℕ) (s : Session)
      → Holds i s m
      → Next i s (session_manager_tun_sender ready m w).0
  unfolding session_manager_tun_sender
  session_manager_tun_sender-Next ready m w i s at =
      elim (Bool-cases (nonneg m.udp_socket && is_positive ready)) [
        | inr waits ↦ rw waits (s, at, (refl, inl refl))
        | inl wakes ↦ rw wakes (read_packet-Next m.tun m w i s at)
      ]
