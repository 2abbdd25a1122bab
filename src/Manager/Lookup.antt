-- ===== src/Manager/Lookup.antt =====
-- Which session the loops of src/sessions/session_manager.c find.
use sencd.Base.{
  ℕ, zero, suc, ◌+◌, ◌<◌, ◌≡◌, ◌%◌, ◌^◌, true, false, none, some, [], ◌∷◌, arith, ◌==◌, set,
  get_elem?, length-set, Bool-cases, inl, inr, ◌∙◌, sym, subst,
}
use sencd.Session.{Session}
use sencd.Manager.{SessionManager, session_manager_get}
use sencd.Manager.Slots.{SlotTable, octet_of, find_id, find_octet, takes_octet}
use sencd.Manager.Traffic.{store}
use sencd.Manager.Count.{Addressed, IsSound, set-occupied, set-Addressed, find_id-slot}

-- A write through a found pointer that leaves the octet alone keeps the manager sound.
pub store-IsSound :
    (m : SessionManager) (i : ℕ) (s t : Session)
    → get_elem? m.sessions i ≡ some (some s)
    → t.tunnel_ip_octet ≡ s.tunnel_ip_octet
    → IsSound m
    → IsSound (store m i t)
unfolding store
store-IsSound m i s t at same sound = record {
  size = length-set m.sessions i (some t) ∙ sound.size;
  counted = sound.counted ∙ sym (set-occupied m.sessions i s t at);
  addressed = set-Addressed 0 m.sessions i s t at same sound.addressed;
}

-- What `session_manager_get` returns stands in its slot and has the number.
pub session_manager_get-slot :
    (m : SessionManager) (id i : ℕ) (s : Session)
    → session_manager_get m id ≡ some (i, s)
    → (get_elem? m.sessions i ≡ some (some s)) × (s.session_id ≡ id)
unfolding session_manager_get
session_manager_get-slot m id i s e =
    let (k, at, found, same) = find_id-slot 0 id m.sessions i s e in
    let here : i ≡ k = omega arith in
    (subst (λ (n : ℕ). get_elem? m.sessions n ≡ some (some s)) (sym here) found, same)

-- A write to the slot that was found is found again.
find_id-set :
    (i id : ℕ) (xs : SlotTable) (k j : ℕ) (s t : Session)
    → find_id i id xs ≡ some (j, s)
    → j ≡ i + k
    → t.session_id ≡ id
    → find_id i id (set xs k (some t)) ≡ some (j, t)
unfolding find_id
find_id-set i id [] k j s t e at same = ground arith
find_id-set i id (none ∷ xs) zero j s t e at same =
    let (l, there, _, _) = find_id-slot (suc i) id xs j s e in absurd (omega arith)
find_id-set i id (none ∷ xs) (suc k) j s t e at same =
    find_id-set (suc i) id xs k j s t e (omega arith) same
find_id-set i id (some u ∷ xs) zero j s t e at same = ground arith
find_id-set i id (some u ∷ xs) (suc k) j s t e at same = elim (Bool-cases (u.session_id == id)) [
  | inl this ↦ absurd (ground arith)
  | inr other ↦
      let again = find_id-set (suc i) id xs k j s t (ground arith) (omega arith) same in
      ground (arith, again)
]

-- After a write that keeps the number, `session_manager_get` returns what was written.
pub session_manager_get-store :
    (m : SessionManager) (id i : ℕ) (s t : Session)
    → session_manager_get m id ≡ some (i, s)
    → t.session_id ≡ id
    → session_manager_get (store m i t) id ≡ some (i, t)
unfolding session_manager_get store
session_manager_get-store m id i s t e same =
    find_id-set 0 id m.sessions i i s t e (omega arith) same

pub find_octet-slot :
    (i octet : ℕ) (xs : SlotTable) (j : ℕ) (s : Session)
    → find_octet i octet xs ≡ some (j, s)
    → (k : ℕ) × (j ≡ i + k) × (get_elem? xs k ≡ some (some s))
unfolding find_octet
find_octet-slot i octet [] j s e = ground arith
find_octet-slot i octet (none ∷ xs) j s e =
    let (k, at, found) = find_octet-slot (suc i) octet xs j s e in (suc k, omega arith, found)
find_octet-slot i octet (some t ∷ xs) j s e = elim (Bool-cases (takes_octet octet t)) [
  | inl same ↦ (0, ground arith, ground arith)
  | inr other ↦
      let (k, at, found) = find_octet-slot (suc i) octet xs j s (ground arith) in
      (suc k, omega arith, found)
]

-- A session whose octet is another one is passed over.
takes_octet_other :
    (octet : ℕ) (t : Session) → (t.tunnel_ip_octet == octet) ≡ false → takes_octet octet t ≡ false
unfolding takes_octet
takes_octet_other octet t other = ground arith

-- In a table whose octets are those of the slots, none of up to 255 slots before a session's has
-- its octet, so the loop finds that session.
pub find_octet_first :
    (i : ℕ) (xs : SlotTable) (k j : ℕ) (s : Session)
    → Addressed i xs
    → j ≡ i + k
    → k < 256
    → get_elem? xs k ≡ some (some s)
    → takes_octet (octet_of j) s ≡ true
    → find_octet i (octet_of j) xs ≡ some (j, s)
unfolding find_octet Addressed octet_of
find_octet_first i [] k j s h same near at takes = ground arith
find_octet_first i (none ∷ xs) zero j s h same near at takes = ground arith
find_octet_first i (none ∷ xs) (suc k) j s h same near at takes =
    find_octet_first (suc i) xs k j s h (omega arith) (omega arith) at takes
find_octet_first i (some u ∷ xs) zero j s h same near at takes = ground arith
find_octet_first i (some u ∷ xs) (suc k) j s h same near at takes =
    let differ : (u.tunnel_ip_octet == (j + 2) % 2 ^ 8) ≡ false = ground arith in
    let over = takes_octet_other ((j + 2) % 2 ^ 8) u differ in
    let later = find_octet_first (suc i) xs k j s h.1 (omega arith) (omega arith) at takes in
    ground (arith, over, later)

-- The octet of a slot in the table.
pub get_elem-Addressed :
    (i : ℕ) (xs : SlotTable) (k : ℕ) (s : Session)
    → Addressed i xs
    → get_elem? xs k ≡ some (some s)
    → s.tunnel_ip_octet ≡ octet_of (i + k)
unfolding Addressed octet_of
get_elem-Addressed i [] k s h at = ground arith
get_elem-Addressed i (none ∷ xs) zero s h at = ground arith
get_elem-Addressed i (none ∷ xs) (suc k) s h at =
    get_elem-Addressed (suc i) xs k s h at ∙ ground arith
get_elem-Addressed i (some u ∷ xs) zero s h at = ground arith
get_elem-Addressed i (some u ∷ xs) (suc k) s h at =
    get_elem-Addressed (suc i) xs k s h.1 at ∙ ground arith
