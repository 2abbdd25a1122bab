-- ===== src/Manager/Removal.antt =====
-- `session_manager_remove` of src/sessions/session_manager.c.
use sencd.Base.{
  ℕ, suc, ◌+◌, ◌≡◌, refl, ap, sym, subst, Option, none, some, [], ◌∷◌, arith, ◌==◌, length,
  Bool-cases, inl, inr, Option-cases, ◌⊎◌, ◌∙◌, ◌-◌,
}
use sencd.Platform.Os.{Os}
use sencd.Session.{Session, session_destroy}
use sencd.Manager.{SessionManager, session_manager_remove}
use sencd.Manager.Slots.{SlotTable, octet_of, keep_front, remove_id}
use sencd.Manager.Count.{occupied, Addressed, IsSound}

keep_front-eq-some :
    (slot : Option Session) (o : Option (Session × SlotTable)) (s : Session) (ys : SlotTable)
    → keep_front slot o ≡ some (s, ys)
    → (rest : SlotTable) × (o ≡ some (s, rest)) × (ys ≡ slot ∷ rest)
keep_front-eq-some slot none s ys e = ground arith
keep_front-eq-some slot (some (t, rest)) s ys e = (rest, ground arith, ground arith)

-- What was taken out, and what is left of the count and of the octets.
pub remove_id-occupied :
    (i id : ℕ) (xs ys : SlotTable) (s : Session)
    → remove_id id xs ≡ some (s, ys)
    → (length ys ≡ length xs)
      × (occupied xs ≡ suc (occupied ys))
      × (s.session_id ≡ id)
      × (Addressed i xs → Addressed i ys)
unfolding remove_id Addressed
remove_id-occupied i id [] ys s e = ground arith
remove_id-occupied i id (none ∷ xs) ys s e =
    let (rest, e', same) = keep_front-eq-some none (remove_id id xs) s ys e in
    let ih = remove_id-occupied (suc i) id xs rest s e' in
    subst
      (λ (u : SlotTable).
        (length u ≡ suc (length xs))
        × (occupied xs ≡ suc (occupied u))
        × (s.session_id ≡ id)
        × (Addressed (suc i) xs → Addressed i u))
      (sym same) (ap suc ih.0, ih.1, ih.2, ih.3)
remove_id-occupied i id (some t ∷ xs) ys s e = elim (Bool-cases (t.session_id == id)) [
  | inl this ↦
      let gone : (t ≡ s) × (none ∷ xs ≡ ys) = ground arith in
      subst
        (λ (u : SlotTable).
          (length u ≡ suc (length xs))
          × (suc (occupied xs) ≡ suc (occupied u))
          × (s.session_id ≡ id)
          × ((t.tunnel_ip_octet ≡ octet_of i) × Addressed (suc i) xs → Addressed i u))
        gone.1 (refl, refl, ground arith, λ h. h.1)
  | inr other ↦
      let (rest, e', same) = keep_front-eq-some (some t) (remove_id id xs) s ys (ground arith) in
      let ih = remove_id-occupied (suc i) id xs rest s e' in
      subst
        (λ (u : SlotTable).
          (length u ≡ suc (length xs))
          × (suc (occupied xs) ≡ suc (occupied u))
          × (s.session_id ≡ id)
          × ((t.tunnel_ip_octet ≡ octet_of i) × Addressed (suc i) xs → Addressed i u))
        (sym same) (ap suc ih.0, ap suc ih.1, ih.2, λ h. (h.0, ih.3 h.1))
]

module _ {W : Type 0} ⦃os : Os W⦄ where
  -- What a removal may leave: one session less, or what there was.
  unfoldable pub RemovedFrom : SessionManager → W → Option (Unit {0}) × SessionManager × W → Type 0
  RemovedFrom m w (result, m', w') =
      IsSound m'
      × (((result ≡ some tt) × (m.session_count ≡ m'.session_count + 1))
          ⊎ ((result ≡ none) × (m' ≡ m) × (w' ≡ w)))

  -- `session_manager_remove` keeps a sound manager sound, and counts one less if it succeeds; if
  -- it fails, nothing has changed.
  pub session_manager_remove-IsSound :
      (m : SessionManager) (id : ℕ) (w : W)
      → IsSound m
      → RemovedFrom m w (session_manager_remove m id w)
  unfolding session_manager_remove RemovedFrom
  session_manager_remove-IsSound m id w sound = elim (Option-cases (remove_id id m.sessions)) [
    | inl stop ↦
        let same : (none, m, w) ≡ session_manager_remove m id w = ground arith in
        subst (RemovedFrom m w) same (sound, inr (refl, refl, refl))
    | inr ((s, slots), found) ↦
        let (size, less, _, octets) = remove_id-occupied 0 id m.sessions slots s found in
        let rest : SessionManager = record m {
          sessions = slots;
          session_count = m.session_count - 1;
        } in
        let same : (some tt, rest, (session_destroy s w).1) ≡ session_manager_remove m id w =
          ground arith in
        let kept : IsSound rest = record {
          size = size ∙ sound.size;
          counted = omega (arith, less, sound.counted);
          addressed = octets sound.addressed;
        } in
        subst (RemovedFrom m w) same (kept, inl (refl, omega (arith, less, sound.counted)))
  ]
