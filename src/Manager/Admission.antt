-- ===== src/Manager/Admission.antt =====
-- src/sessions/session_manager.c: what `session_manager_connect` lets into the table.
use sencd.Base.{
  ℕ, ◌+◌, ◌≤◌, ◌≡◌, refl, subst, inl, inr, Option, none, some, List, arith, ℤ, Option-cases,
  Bool-cases,
}
use sencd.Platform.Os.{Os}
use sencd.Platform.Sodium.{Random, Sodium}
use sencd.Session.{Session, SessionRole, session_create, session_destroy, session_server_connect}
use sencd.Session.Server.{Admitted, session_server_connect-Admitted}
use sencd.Manager.{SessionManager, max_sessions, session_manager_add}
use sencd.Manager.Connect.{session_manager_connect, dropped, register}
use sencd.Manager.Count.{IsSound, session_manager_add-IsSound}

module _ {W : Type 0} ⦃os : Os W⦄ ⦃rnd : Random W⦄ ⦃na : Sodium⦄ where
  -- How a connection ends: NULL and the table as it was, or a session that the handshake admitted
  -- and that the table has taken.
  abbrev pub Connected :
      SessionManager → Session × W → Option (Unit {0}) × SessionManager × W → Type 0
  Connected m p (none, m', w) = m' ≡ m
  Connected m p (some _, m', w) =
      (s : Session) × Admitted p.0 (some tt, (s, w))
      × (session_manager_add m s ≡ some m')
      × IsSound m'
      × (m'.session_count ≡ m.session_count + 1)
      × (m'.session_count ≤ max_sessions)

  register-Connected :
      (m : SessionManager) (p : Session × W) (s : Session) (w : W)
      → IsSound m
      → Admitted p.0 (some tt, (s, w))
      → Connected m p (register m s w)
  unfolding register dropped
  register-Connected m p s w sound admitted = elim (Option-cases (session_manager_add m s)) [
    | inl stop ↦
        let same : (none, m, (session_destroy s w).1) ≡ register m s w = ground arith in
        subst (Connected m p) same refl
    | inr (m', taken) ↦
        let same : (some tt, m', w) ≡ register m s w = ground arith in
        let (kept, more, bound) = session_manager_add-IsSound m m' s sound taken in
        subst (Connected m p) same (s, admitted, taken, kept, more, bound)
  ]

  -- A connection leaves the table as it was, or puts into it, counted and within 1024, a session
  -- that `session_server_connect` admitted, starting from the session that `session_create` makes
  -- of the socket and the server's identity.
  pub session_manager_connect-Connected :
      (size : ℕ) (m : SessionManager) (role : SessionRole) (socket : ℤ) (ip : List ℕ) (w : W)
      → IsSound m
      → Connected m
          (session_create role socket ip m.identity none (os.malloc w size).1)
          (session_manager_connect size m role socket ip w)
  unfolding session_manager_connect dropped
  session_manager_connect-Connected size m role socket ip w sound =
      let w₁ = (os.malloc w size).1 in
      let created = session_create role socket ip m.identity none w₁ in
      let run = session_server_connect created in
      let whole = session_manager_connect size m role socket ip w in
      elim (Bool-cases (os.malloc w size).0) [
        | inr refused ↦
            let same : (none, m, w₁) ≡ whole = ground arith in subst (Connected m created) same refl
        | inl given ↦ elim (Option-cases run.0) [
          | inl stop ↦
              let same : (none, m, (session_destroy run.1.0 run.1.1).1) ≡ whole = ground arith in
              subst (Connected m created) same refl
          | inr (u, through) ↦
              let same : register m run.1.0 run.1.1 ≡ whole = ground arith in
              let admitted : Admitted created.0 (some tt, run.1) =
                subst (λ (r : Option (Unit {0})). Admitted created.0 (r, run.1)) through
                  (session_server_connect-Admitted created) in
              subst (Connected m created) same
                (register-Connected m created run.1.0 run.1.1 sound admitted)
        ]
      ]
