-- ===== src/Common/Checks.antt =====
-- A sequence of `if test: raise error`, and then a result.
use mathlib.Core.Path.{◌≡◌, refl}
use mathlib.Core.Logic.{◌⊎◌, inl, inr}
use mathlib.Core.Bool.{Bool, true, false}
use mathlib.Core.List.{List, [], ◌∷◌}
use deep_research_agent.Common.Tests.{Result, ok, raise, raise_if, ◌>>=◌, ◌>>◌}

module _ {X A : Type 0} where
  unfoldable pub run_checks : List (Bool × X) → A → Result X A
  run_checks [] a = ok a
  run_checks ((true, x) ∷ cs) a = raise x
  run_checks ((false, x) ∷ cs) a = run_checks cs a

-- every test has failed
abbrev pub AllPass : {X : Type 0} → List (Bool × X) → Type 0
AllPass [] = Unit
AllPass ((b, x) ∷ cs) = (b ≡ false) × AllPass cs

-- some test with the error has succeeded
abbrev pub Raises : {X : Type 0} → X → List (Bool × X) → Type 0
Raises x [] = ⊥
Raises x ((b, y) ∷ cs) = (b ≡ true) × (y ≡ x) ⊎ Raises x cs

module _ {X A : Type 0} where
  pub run_checks-ok :
      (cs : List (Bool × X)) (a b : A) → run_checks cs a ≡ ok b → (b ≡ a) × AllPass cs
  unfolding run_checks
  run_checks-ok [] a b h = (cc, tt)
  run_checks-ok ((true, x) ∷ cs) a b h = absurd (cc h)
  run_checks-ok ((false, x) ∷ cs) a b h =
      let (e, rest) = run_checks-ok cs a b h in (e, (refl, rest))

  pub run_checks-raise :
      (cs : List (Bool × X)) (a : A) (x : X) → run_checks cs a ≡ raise x → Raises x cs
  unfolding run_checks
  run_checks-raise [] a x h = absurd (cc h)
  run_checks-raise ((true, y) ∷ cs) a x h = inl (refl, cc)
  run_checks-raise ((false, y) ∷ cs) a x h = inr (run_checks-raise cs a x h)

  pub run_checks-AllPass : (cs : List (Bool × X)) (a : A) → AllPass cs → run_checks cs a ≡ ok a
  unfolding run_checks
  run_checks-AllPass [] a h = refl
  run_checks-AllPass ((true, y) ∷ cs) a h = absurd (cc (h.0))
  run_checks-AllPass ((false, y) ∷ cs) a h = run_checks-AllPass cs a h.1

  pub raise_if-ok :
      (b : Bool) (x : X) (m : Result X A) (a : A)
      → (raise_if b x >> m) ≡ ok a
      → (b ≡ false) × (m ≡ ok a)
  raise_if-ok true x m a h = absurd (cc h)
  raise_if-ok false x m a h = (refl, h)

  -- a guard followed by a result
  pub guarded-ok :
      (b : Bool) (x : X) (z a : A) → (raise_if b x >> ok z) ≡ ok a → (b ≡ false) × (a ≡ z)
  guarded-ok true x z a h = absurd (cc h)
  guarded-ok false x z a h = (refl, cc)

-- a call that returned was followed by one that returned
pub bind-ok :
    {X A B : Type 0} (m : Result X A) (k : A → Result X B) (b : B)
    → (m >>= k) ≡ ok b
    → (a : A) × (m ≡ ok a) × (k a ≡ ok b)
bind-ok (ok a) k b h = (a, refl, h)
bind-ok (raise x) k b h = absurd (cc h)
