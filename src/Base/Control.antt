-- ===== src/Base/Control.antt =====
-- The control flow of the C functions that return 0 or an error: a state, and a result that is
-- `none` after `return 1`. The state at the point of the return is kept.
use mathlib.Core.Path.{◌≡◌, ◌∙◌, refl, ap, subst}
use mathlib.Core.Bool.{Bool, true, false}
use sencd.Base.Tests.{if◌then◌else◌}
use mathlib.Core.Option.{Option, none, some}

abbrev pub M : Type 0 → Type 0 → Type 0
M S A = S → Option A × S

-- Goes on after a call that succeeded.
abbrev pub then_with : {S A B : Type 0} → Option A × S → (A → S → Option B × S) → Option B × S
then_with (none, s) f = (none, s)
then_with (some a, s) f = f a s

infixl 5 ◌>>=◌ ◌>>◌
abbrev pub ◌>>=◌ : {S A B : Type 0} → M S A → (A → M S B) → M S B
◌>>=◌ m f s = then_with (m s) f

abbrev pub ◌>>◌ : {S B : Type 0} → M S (Unit {0}) → M S B → M S B
m >> k = m >>= λ _. k

abbrev pub pure : {S A : Type 0} → A → M S A
pure a s = (some a, s)

-- `return 1`.
abbrev pub fail : {S A : Type 0} → M S A
fail s = (none, s)

-- `if (!test) return 1;`
abbrev pub guard : {S : Type 0} → Bool → M S (Unit {0})
guard true s = (some tt, s)
guard false s = (none, s)

-- A call that reports failure by its result and touches no state.
abbrev pub or_fail : {S A : Type 0} → Option A → M S A
or_fail o s = (o, s)

abbrev pub get : {S : Type 0} → M S S
get s = (some s, s)

abbrev pub modify : {S : Type 0} → (S → S) → M S (Unit {0})
modify f s = (some tt, f s)

-- A call on the second part of the state.
abbrev pub on_second : {R S A : Type 0} → M S A → M (R × S) A
on_second m p = let r = m p.1 in (r.0, (p.0, r.1))

-- What a successful chain went through.
pub then_with-eq-some :
    {S A B : Type 0} (r : Option A × S) (f : A → S → Option B × S) {b : B} {t : S}
    → then_with r f ≡ (some b, t)
    → (a : A) × (u : S) × (r ≡ (some a, u)) × (f a u ≡ (some b, t))
then_with-eq-some (none, u) f h = cc
then_with-eq-some (some a, u) f h = (a, u, refl, h)

-- A guard that was passed, and what came after it.
pub guard-eq-some :
    {S B : Type 0} (test : Bool) (s : S) (f : Unit {0} → S → Option B × S) {b : B} {t : S}
    → then_with (guard test s) f ≡ (some b, t)
    → (test ≡ true) × (f tt s ≡ (some b, t))
guard-eq-some true s f h = (refl, h)
guard-eq-some false s f h = cc

pub pure-eq-some :
    {S A : Type 0} (a b : A) (s t : S)
    → ◌≡◌ {A = Option A × S} (some a, s) (some b, t)
    → (a ≡ b) × (s ≡ t)
pure-eq-some a b s t h = (cc (ap (λ r. r.0) h), ap (λ r. r.1) h)

-- What was found, or else what the call returns.
abbrev pub or_else : {S A : Type 0} → Option A → M S A → M S A
or_else (some a) m s = (some a, s)
or_else none m s = m s

-- The two ways on from the first part of a chain, in an argument about the chain's result `t`.
pub cases :
    {S A B : Type 0} (R : Option B × S → Type 0) (r : Option A × S) (f : A → S → Option B × S)
    {t : Option B × S}
    → then_with r f ≡ t
    → ((s : S) → r ≡ (none, s) → R (none, s))
    → ((a : A) (u : S) → r ≡ (some a, u) → f a u ≡ t → R t)
    → R t
cases R (none, s) f e stop next = subst R e (stop s refl)
cases R (some a, s) f e stop next = next a s refl e

pub guard_cases :
    {S B : Type 0} (R : Option B × S → Type 0) (test : Bool) (s : S)
    (f : Unit {0} → S → Option B × S) {t : Option B × S}
    → then_with (guard test s) f ≡ t
    → R (none, s)
    → (test ≡ true → f tt s ≡ t → R t)
    → R t
guard_cases R true s f e stop next = next refl e
guard_cases R false s f e stop next = subst R e stop

pub option_cases :
    {S A B : Type 0} (R : Option B × S → Type 0) (o : Option A) (s : S) (f : A → S → Option B × S)
    {t : Option B × S}
    → then_with (or_fail o s) f ≡ t
    → R (none, s)
    → ((a : A) → o ≡ some a → f a s ≡ t → R t)
    → R t
option_cases R none s f e stop next = subst R e stop
option_cases R (some a) s f e stop next = next a refl e

-- What can be seen of a state is kept by a chain whose steps keep it.
module _ {W V : Type 0} (see : W → V) where
  -- The second step of a chain is only looked at where the first has succeeded.
  pub then_with-keeps :
      {A B : Type 0} (r : Option A × W) (f : A → W → Option B × W) (v : V)
      → see r.1 ≡ v
      → ((a : A) (w : W) → see (f a w).1 ≡ see w)
      → see (then_with r f).1 ≡ v
  then_with-keeps (none, w) f v e keeps = e
  then_with-keeps (some a, w) f v e keeps = keeps a w ∙ e

  pub guard-keeps : (test : Bool) (w : W) → see (guard test w).1 ≡ see w
  guard-keeps true w = refl
  guard-keeps false w = refl

  pub ite-keeps :
      {A : Type 0} (test : Bool) (m n : M W A) (w : W)
      → see (m w).1 ≡ see w
      → see (n w).1 ≡ see w
      → see ((if test then m else n) w).1 ≡ see w
  ite-keeps true m n w hm hn = hm
  ite-keeps false m n w hm hn = hn
