-- ===== src/Common/Lists.antt =====
-- Lists measured by native numbers, and predicates over their elements.
use Prim.Native.Nat.{ℕ, zero, suc, ◌+◌, ◌-◌, ◌≤◌}
use mathlib.Core.Path.{◌≡◌, refl, ap, ◌∙◌}
use mathlib.Core.Logic.{inl, inr}
use mathlib.Core.Bool.{Bool, true, false, ◌||◌}
use mathlib.Core.Option.{Option, none, some}
use mathlib.Core.List.{List, [], ◌∷◌, ◌++◌, map, append-nil, append_assoc}
use native.Mathlib.Omega.{arith}
use deep_research_agent.Common.Tests.{Bool-cases, if◌then◌else◌}
use deep_research_agent.Common.Classes.{Eq, ◌==◌, ==_refl}

module _ {ℓ} {A : Type ℓ} where
  abbrev pub length : List A → ℕ
  length [] = 0
  length (x ∷ xs) = suc (length xs)

  pub length-append : (xs ys : List A) → length (xs ++ ys) ≡ length xs + length ys
  length-append [] ys = omega arith
  length-append (x ∷ xs) ys = omega (arith, length-append xs ys)

  -- `any(p(x) for x in xs)`
  abbrev pub any : (A → Bool) → List A → Bool
  any p [] = false
  any p (x ∷ xs) = p x || any p xs

  -- `sum(1 for x in xs if p(x))`
  abbrev pub count_if : (A → Bool) → List A → ℕ
  count_if p [] = 0
  count_if p (x ∷ xs) = let rest = count_if p xs in if p x then suc rest else rest

  abbrev pub keep_if : (A → Bool) → List A → List A
  keep_if p [] = []
  keep_if p (x ∷ xs) = let rest = keep_if p xs in if p x then x ∷ rest else rest

  pub length-keep_if : (p : A → Bool) (xs : List A) → length (keep_if p xs) ≡ count_if p xs
  length-keep_if p [] = refl
  length-keep_if p (x ∷ xs) = ground (arith, length-keep_if p xs)

  pub count_if-le-length : (p : A → Bool) (xs : List A) → count_if p xs ≤ length xs
  count_if-le-length p [] = omega arith
  count_if-le-length p (x ∷ xs) = ground (arith, count_if-le-length p xs)

  abbrev pub All {κ} : (A → Type κ) → List A → Type κ
  All P [] = Unit
  All P (x ∷ xs) = P x × All P xs

module _ {ℓ κ} {A : Type ℓ} {B : Type κ} where
  pub length-map : (f : A → B) (xs : List A) → length (map f xs) ≡ length xs
  length-map f [] = refl
  length-map f (x ∷ xs) = ground (arith, length-map f xs)

abbrev pub sum : List ℕ → ℕ
sum [] = 0
sum (n ∷ ns) = n + sum ns

module _ {ℓ} {A : Type ℓ} ⦃e : Eq A⦄ where
  -- `x in xs`
  abbrev pub contains : A → List A → Bool
  contains a [] = false
  contains a (x ∷ xs) = x == a || contains a xs

module _ {ℓ} {A : Type ℓ} where
  abbrev pub drop : ℕ → List A → List A
  drop zero xs = xs
  drop (suc n) [] = []
  drop (suc n) (x ∷ xs) = drop n xs

  pub length-drop : (n : ℕ) (xs : List A) → length (drop n xs) ≡ length xs - n
  length-drop zero xs = omega arith
  length-drop (suc n) [] = omega arith
  length-drop (suc n) (x ∷ xs) = omega (arith, length-drop n xs)

  abbrev pub head? : List A → Option A
  head? [] = none
  head? (x ∷ xs) = some x

module _ {ℓ} {A : Type ℓ} ⦃e : Eq A⦄ where
  -- the keys that `dict.fromkeys` adds, one after another, to a dict with the keys `seen`
  unfoldable pub unique_onto : List A → List A → List A
  unique_onto seen [] = seen
  unique_onto seen (x ∷ xs) = unique_onto (if contains x seen then seen else seen ++ x ∷ []) xs

  -- `tuple(dict.fromkeys(xs))`
  unfoldable pub unique : List A → List A
  unfolding unique_onto
  unique xs = unique_onto [] xs

  pub contains-append :
      (a : A) (xs ys : List A) → contains a (xs ++ ys) ≡ (contains a xs || contains a ys)
  contains-append a [] ys = refl
  contains-append a (x ∷ xs) ys = ground (arith, contains-append a xs ys)

  contains-unique_onto :
      (a : A) (seen xs : List A)
      → contains a (unique_onto seen xs) ≡ (contains a seen || contains a xs)
  unfolding unique_onto
  contains-unique_onto a seen [] = ground arith
  contains-unique_onto a seen (x ∷ xs) = elim (Bool-cases (contains x seen)) [
    | inl old ↦ rw old (ground (arith, contains-unique_onto a seen xs, contains_of_eq a x seen old))
    | inr new ↦ rw new (
        ground (arith, contains-unique_onto a (seen ++ x ∷ []) xs, contains-append a seen (x ∷ [])))
  ]
    where
      contains_of_eq :
          (a x : A) (ys : List A) → contains x ys ≡ true → (x == a) ≡ true → contains a ys ≡ true
      contains_of_eq a x ys h p = rw ((e.same_iff x a).0 p) at h

  -- Removing repetitions keeps the elements.
  pub contains-unique : (a : A) (xs : List A) → contains a (unique xs) ≡ contains a xs
  unfolding unique
  contains-unique a xs = contains-unique_onto a [] xs

-- No element occurs twice.
abbrev pub IsDistinct {κ} : {K : Type κ} ⦃e : Eq K⦄ → List K → Type 0
IsDistinct [] = Unit
IsDistinct (k ∷ ks) = (contains k ks ≡ false) × IsDistinct ks

module _ {ℓ} {A : Type ℓ} ⦃e : Eq A⦄ where
  -- none of the elements is in `seen`, and none occurs twice
  abbrev pub AreFresh : List A → List A → Type 0
  AreFresh seen [] = Unit
  AreFresh seen (x ∷ xs) = (contains x seen ≡ false) × AreFresh (seen ++ x ∷ []) xs

  unique_onto-AreFresh : (seen xs : List A) → AreFresh seen xs → unique_onto seen xs ≡ seen ++ xs
  unfolding unique_onto
  unique_onto-AreFresh seen [] h = rw append-nil
  unique_onto-AreFresh seen (x ∷ xs) h =
      rw h.0 (unique_onto-AreFresh (seen ++ x ∷ []) xs h.1 ∙ append_assoc seen (x ∷ []) xs)

  pub IsDistinct-AreFresh :
      (seen xs : List A)
      → IsDistinct xs
      → ((x : A) → contains x xs ≡ true → contains x seen ≡ false)
      → AreFresh seen xs
  IsDistinct-AreFresh seen [] d h = tt
  IsDistinct-AreFresh seen (x ∷ xs) d h = (
    h x (rw (==_refl x) refl),
    IsDistinct-AreFresh (seen ++ x ∷ []) xs d.1
        (λ y m. fresh_after x y seen xs d.0 m (h y (or_true (x == y) (contains y xs) m))),
  )
    where
      or_true : (b c : Bool) → c ≡ true → (b || c) ≡ true
      or_true true c h = refl
      or_true false c h = h

      fresh_after :
          (x y : A) (seen xs : List A)
          → contains x xs ≡ false
          → contains y xs ≡ true
          → contains y seen ≡ false
          → contains y (seen ++ x ∷ []) ≡ false
      fresh_after x y seen xs new m k = elim (Bool-cases (x == y)) [
        | inl same ↦ absurd (cc (new, m, ap (λ z. contains z xs) ((e.same_iff x y).0 same)))
        | inr differ ↦ rw (contains-append y seen (x ∷ []), k, differ) refl
      ]

  -- Of a list without repetitions `dict.fromkeys` keeps all.
  pub unique_of_IsDistinct : (xs : List A) → IsDistinct xs → unique xs ≡ xs
  unfolding unique
  unique_of_IsDistinct xs d = unique_onto-AreFresh [] xs (IsDistinct-AreFresh [] xs d (λ x m. refl))
