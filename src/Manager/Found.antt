-- ===== src/Manager/Found.antt =====
-- `session_manager_add` and then `session_manager_get` of src/sessions/session_manager.c.
use sencd.Base.{
  ℕ, suc, ◌≡◌, refl, subst, inl, inr, true, false, none, some, [], ◌∷◌, arith, ◌==◌, Bool-cases,
  Option-cases, ==_iff,
}
use sencd.Session.{Session}
use sencd.Manager.Slots.{SlotTable, insert, find_id, in_slot}
use sencd.Manager.{SessionManager, session_manager_add, session_manager_get}

find_id-insert :
    (i : ℕ) (s : Session) (xs ys : SlotTable)
    → insert i s xs ≡ some ys
    → find_id i s.session_id xs ≡ none
    → (j : ℕ) × (find_id i s.session_id ys ≡ some (j, in_slot j s))
unfolding insert find_id
find_id-insert i s [] ys e h = cc e
find_id-insert i s (none ∷ xs) ys e h =
    let same : some (in_slot i s) ∷ xs ≡ ys = cc e in
    let here : (s.session_id == s.session_id) ≡ true = (==_iff s.session_id s.session_id).1 refl in
    (i, subst (λ zs. find_id i s.session_id zs ≡ some (i, in_slot i s)) same (rw here refl))
find_id-insert i s (some t ∷ xs) ys e h = elim (Option-cases (insert (suc i) s xs)) [
  | inl stop ↦ absurd (ground arith)
  | inr (rest, taken) ↦ elim (Bool-cases (t.session_id == s.session_id)) [
    | inl this ↦ absurd (ground arith)
    | inr other ↦
        let same : some t ∷ rest ≡ ys = ground arith in
        let later : find_id (suc i) s.session_id xs ≡ none = ground arith in
        let (j, found) = find_id-insert (suc i) s xs rest taken later in
        (j, subst (λ zs. find_id i s.session_id zs ≡ some (j, in_slot j s)) same (rw other found))
  ]
]

find_id-insert_other :
    (i id : ℕ) (s : Session) (xs ys : SlotTable)
    → insert i s xs ≡ some ys
    → (s.session_id == id) ≡ false
    → find_id i id ys ≡ find_id i id xs
unfolding insert find_id
find_id-insert_other i id s [] ys e h = cc e
find_id-insert_other i id s (none ∷ xs) ys e h =
    let same : some (in_slot i s) ∷ xs ≡ ys = cc e in
    subst (λ zs. find_id i id zs ≡ find_id (suc i) id xs) same (rw h refl)
find_id-insert_other i id s (some t ∷ xs) ys e h = elim (Option-cases (insert (suc i) s xs)) [
  | inl stop ↦ absurd (ground arith)
  | inr (rest, taken) ↦
      let same : some t ∷ rest ≡ ys = ground arith in
      let later = find_id-insert_other (suc i) id s xs rest taken h in
      subst (λ zs. find_id i id zs ≡ find_id i id (some t ∷ xs)) same (rw later refl)
]

-- A session whose number the table did not have is found under it once it was added, with the octet
-- of its slot, and every other number finds what it found before.
pub session_manager_get-add :
    (m m' : SessionManager) (s : Session)
    → session_manager_add m s ≡ some m'
    → session_manager_get m s.session_id ≡ none
    → ((i : ℕ) × (session_manager_get m' s.session_id ≡ some (i, in_slot i s)))
      × ((id : ℕ)
          → (s.session_id == id) ≡ false
          → session_manager_get m' id ≡ session_manager_get m id)
unfolding session_manager_add session_manager_get
session_manager_get-add m m' s e fresh = elim (Option-cases (insert 0 s m.sessions)) [
  | inl stop ↦ absurd (ground arith)
  | inr (slots, taken) ↦
      let same : slots ≡ m'.sessions = ground arith in
      let (j, found) = find_id-insert 0 s m.sessions slots taken fresh in
      (
        (j, subst (λ zs. find_id 0 s.session_id zs ≡ some (j, in_slot j s)) same found),
        λ id other.
            subst (λ zs. find_id 0 id zs ≡ find_id 0 id m.sessions) same
              (find_id-insert_other 0 id s m.sessions slots taken other),
      )
]
