-- ===== src/Manager/Count.antt =====
-- The table of src/sessions/session_manager.c: its count, and the octet that each slot's session
-- has in the tunnel's network.
use sencd.Base.{
  replicate, ℕ, zero, suc, ◌+◌, ◌≤◌, ◌≡◌, ◌↔◌, refl, ap, subst, none, some, [], ◌∷◌, arith, ◌==◌,
  length, set, get_elem?, Bool-cases, inl, inr, Option-cases, ◌∙◌,
}
use sencd.Session.{Session}
use sencd.Manager.{SessionManager, max_sessions, session_manager_add}
use sencd.Manager.Slots.{SlotTable, octet_of, insert, find_id}

abbrev pub occupied : SlotTable → ℕ
occupied [] = 0
occupied (none ∷ rest) = occupied rest
occupied (some s ∷ rest) = suc (occupied rest)

-- Each session has the octet of its slot, counted from slot `i`.
unfoldable pub Addressed : ℕ → SlotTable → Type 0
Addressed i [] = Unit {0}
Addressed i (none ∷ rest) = Addressed (suc i) rest
Addressed i (some s ∷ rest) = (s.tunnel_ip_octet ≡ octet_of i) × Addressed (suc i) rest

-- The table has its 1024 slots, the count is that of the sessions in it, and octets are those of
-- the slots.
pub record IsSound (m : SessionManager) : Type 0 where
  pub size : length m.sessions ≡ max_sessions
  pub counted : m.session_count ≡ occupied m.sessions
  pub addressed : Addressed 0 m.sessions

-- A table of free slots.
pub occupied-replicate : (n : ℕ) → occupied (replicate n none) ≡ 0
occupied-replicate zero = refl
occupied-replicate (suc n) = occupied-replicate n

pub replicate-Addressed : (n i : ℕ) → Addressed i (replicate n none)
unfolding Addressed
replicate-Addressed zero i = tt
replicate-Addressed (suc n) i = replicate-Addressed n (suc i)

pub occupied_bound : (xs : SlotTable) → occupied xs ≤ length xs
occupied_bound [] = omega arith
occupied_bound (none ∷ xs) = omega (arith, occupied_bound xs)
occupied_bound (some s ∷ xs) = omega (arith, occupied_bound xs)

insert-occupied :
    (i : ℕ) (s : Session) (xs ys : SlotTable)
    → insert i s xs ≡ some ys
    → (length ys ≡ length xs) × (occupied ys ≡ suc (occupied xs))
unfolding insert
insert-occupied i s [] ys e = ground arith
insert-occupied i s (none ∷ xs) ys e = ground arith
insert-occupied i s (some t ∷ xs) ys e = grind (arith, insert-occupied (suc i) s xs)

insert-Addressed :
    (i : ℕ) (s : Session) (xs ys : SlotTable)
    → insert i s xs ≡ some ys
    → Addressed i xs
    → Addressed i ys
unfolding insert Addressed
insert-Addressed i s [] ys e h = ground arith
insert-Addressed i s (none ∷ xs) ys e h = ground arith
insert-Addressed i s (some t ∷ xs) ys e h = grind (arith, insert-Addressed (suc i) s xs)

-- A slot is free exactly where the insertion succeeds.
insert_full :
    (i : ℕ) (s : Session) (xs : SlotTable) → (insert i s xs ≡ none) ↔ (occupied xs ≡ length xs)
unfolding insert
insert_full i s [] = ground arith
insert_full i s (none ∷ xs) = ground (arith, occupied_bound xs)
insert_full i s (some t ∷ xs) = ground (arith, insert_full (suc i) s xs)

pub set-occupied :
    (xs : SlotTable) (k : ℕ) (s t : Session)
    → get_elem? xs k ≡ some (some s)
    → occupied (set xs k (some t)) ≡ occupied xs
set-occupied [] k s t e = ground arith
set-occupied (none ∷ xs) zero s t e = ground arith
set-occupied (some u ∷ xs) zero s t e = refl
set-occupied (none ∷ xs) (suc k) s t e = set-occupied xs k s t e
set-occupied (some u ∷ xs) (suc k) s t e = ap suc (set-occupied xs k s t e)

pub set-Addressed :
    (i : ℕ) (xs : SlotTable) (k : ℕ) (s t : Session)
    → get_elem? xs k ≡ some (some s)
    → t.tunnel_ip_octet ≡ s.tunnel_ip_octet
    → Addressed i xs
    → Addressed i (set xs k (some t))
unfolding Addressed
set-Addressed i [] k s t e same h = h
set-Addressed i (none ∷ xs) zero s t e same h = ground arith
set-Addressed i (some u ∷ xs) zero s t e same h = ground arith
set-Addressed i (none ∷ xs) (suc k) s t e same h = set-Addressed (suc i) xs k s t e same h
set-Addressed i (some u ∷ xs) (suc k) s t e same h =
    (h.0, set-Addressed (suc i) xs k s t e same h.1)

-- What the loop of `session_manager_get` finds stands where it says.
pub find_id-slot :
    (i id : ℕ) (xs : SlotTable) (j : ℕ) (s : Session)
    → find_id i id xs ≡ some (j, s)
    → (k : ℕ) × (j ≡ i + k) × (get_elem? xs k ≡ some (some s)) × (s.session_id ≡ id)
unfolding find_id
find_id-slot i id [] j s e = ground arith
find_id-slot i id (none ∷ xs) j s e =
    let (k, at, found, same) = find_id-slot (suc i) id xs j s e in (suc k, omega arith, found, same)
find_id-slot i id (some t ∷ xs) j s e = elim (Bool-cases (t.session_id == id)) [
  | inl same ↦ (0, ground arith, ground arith, ground arith)
  | inr other ↦
      let (k, at, found, same) = find_id-slot (suc i) id xs j s (ground arith) in
      (suc k, omega arith, found, same)
]

-- The table after a session was put in.
with_slots-IsSound :
    (m : SessionManager) (s : Session) (slots : SlotTable)
    → IsSound m
    → insert 0 s m.sessions ≡ some slots
    → IsSound (record m { sessions = slots; session_count = m.session_count + 1 })
with_slots-IsSound m s slots sound e =
    let more = insert-occupied 0 s m.sessions slots e in
    record {
      size = more.0 ∙ sound.size;
      counted = omega (arith, more, sound.counted);
      addressed = insert-Addressed 0 s m.sessions slots e sound.addressed;
    }

-- On a sound manager, `session_manager_add` refuses a session exactly when the count is 1024.
pub session_manager_add_full :
    (m : SessionManager) (s : Session)
    → IsSound m
    → (session_manager_add m s ≡ none) ↔ (m.session_count ≡ max_sessions)
unfolding session_manager_add
session_manager_add_full m s sound =
    ground (arith, insert_full 0 s m.sessions, sound.counted, sound.size)

-- `session_manager_add`, when it takes a session, leaves a sound manager sound; it counts one more
-- then, and not more than 1024.
pub session_manager_add-IsSound :
    (m m' : SessionManager) (s : Session)
    → IsSound m
    → session_manager_add m s ≡ some m'
    → IsSound m' × (m'.session_count ≡ m.session_count + 1) × (m'.session_count ≤ max_sessions)
unfolding session_manager_add
session_manager_add-IsSound m m' s sound e = elim (Option-cases (insert 0 s m.sessions)) [
  | inl stop ↦ absurd (ground arith)
  | inr (slots, found) ↦
      let same : record m { sessions = slots; session_count = m.session_count + 1 } ≡ m' =
        ground arith in
      let kept = with_slots-IsSound m s slots sound found in
      subst
        (λ (n : SessionManager).
          IsSound n × (n.session_count ≡ m.session_count + 1) × (n.session_count ≤ max_sessions))
        same (kept, refl, omega (arith, kept.counted, kept.size, occupied_bound slots))
]
