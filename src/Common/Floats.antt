-- ===== src/Common/Floats.antt =====
-- Python's `float`, which the library does not have: an interface with the operations that the
-- program uses, and the facts of IEEE arithmetic on finite numbers that it relies on.
use Prim.Native.Nat.{ℕ, ◌≤◌}
use mathlib.Core.Path.{◌≡◌}
use mathlib.Core.Bool.{Bool, true, false, not}
use mathlib.Core.Logic.{◌⊎◌}
use native.Mathlib.Omega.{arith}

pub record Floats : Type 1 where
  pub F : Type 0
  -- `a <= b`
  pub le : F → F → Bool
  pub le_refl : (a : F) → le a a ≡ true
  pub le_trans : (a b c : F) → le a b ≡ true → le b c ≡ true → le a c ≡ true
  pub le_total : (a b : F) → (le a b ≡ true) ⊎ (le b a ≡ true)
  -- the literal n / 10 ^ d
  pub decimal : ℕ → ℕ → F
  pub le-decimal : (n m d : ℕ) → n ≤ m → le (decimal n d) (decimal m d) ≡ true
  pub add : F → F → F
  pub sub : F → F → F
  pub mul : F → F → F
  pub div : F → F → F
  pub add_nonneg :
      (a b : F)
      → le (decimal 0 0) a ≡ true
      → le (decimal 0 0) b ≡ true
      → le (decimal 0 0) (add a b) ≡ true
  pub mul_nonneg :
      (a b : F)
      → le (decimal 0 0) a ≡ true
      → le (decimal 0 0) b ≡ true
      → le (decimal 0 0) (mul a b) ≡ true
  pub decimal-zero : (d : ℕ) → decimal 0 d ≡ decimal 0 0
  -- `round(a, d)`, which is monotone and keeps the literals 0.0 and 1.0
  pub round : F → ℕ → F
  pub round_mono : (a b : F) (d : ℕ) → le a b ≡ true → le (round a d) (round b d) ≡ true
  pub round-zero : (d : ℕ) → round (decimal 0 0) d ≡ decimal 0 0
  pub round-one : (d : ℕ) → round (decimal 1 0) d ≡ decimal 1 0
  -- `math.ceil(a)` of a float that is not negative
  pub ceil : F → ℕ

-- `a < b`, which on numbers that are not NaN is `not b <= a`
abbrev pub lt : (fl : Floats) → fl.F → fl.F → Bool
lt fl a b = not (fl.le b a)

-- `min(a, b)` and `max(a, b)`
abbrev pub fmin : (fl : Floats) → fl.F → fl.F → fl.F
fmin fl a b = elim (lt fl b a) [ true ↦ b | false ↦ a ]

abbrev pub fmax : (fl : Floats) → fl.F → fl.F → fl.F
fmax fl a b = elim (lt fl a b) [ true ↦ b | false ↦ a ]

-- `min(1.0, max(0.0, a))`
abbrev pub unit_clamp : (fl : Floats) → fl.F → fl.F
unit_clamp fl a = fmin fl (fl.decimal 1 0) (fmax fl (fl.decimal 0 0) a)

-- between 0.0 and 1.0
abbrev pub IsUnit : (fl : Floats) → fl.F → Type 0
IsUnit fl a = (fl.le (fl.decimal 0 0) a ≡ true) × (fl.le a (fl.decimal 1 0) ≡ true)

pub zero-le-one : (fl : Floats) → fl.le (fl.decimal 0 0) (fl.decimal 1 0) ≡ true
zero-le-one fl = fl.le-decimal 0 1 0 (omega arith)

pub unit_clamp-IsUnit : (fl : Floats) (a : fl.F) → IsUnit fl (unit_clamp fl a)
unit_clamp-IsUnit fl a =
    let z = fl.decimal 0 0 in
    let o = fl.decimal 1 0 in
    ground (
      arith,
      zero-le-one fl,
      fl.le_total a z,
      fl.le_total a o,
      fl.le_total z o,
      fl.le_refl o,
      fl.le_refl z,
    )

-- not negative
abbrev pub IsNonneg : (fl : Floats) → fl.F → Type 0
IsNonneg fl a = fl.le (fl.decimal 0 0) a ≡ true

pub decimal-IsNonneg : (fl : Floats) (n d : ℕ) → IsNonneg fl (fl.decimal n d)
decimal-IsNonneg fl n d = rw (fl.decimal-zero d) at (fl.le-decimal 0 n d (omega arith))

pub fmin-IsNonneg :
    (fl : Floats) (a b : fl.F) → IsNonneg fl a → IsNonneg fl b → IsNonneg fl (fmin fl a b)
fmin-IsNonneg fl a b h k = ground arith

-- A number that is not negative is between 0.0 and 1.0 once it is capped and rounded.
pub round-fmin-IsUnit :
    (fl : Floats) (a : fl.F) (d : ℕ)
    → IsNonneg fl a
    → IsUnit fl (fl.round (fmin fl (fl.decimal 1 0) a) d)
round-fmin-IsUnit fl a d h =
    let o = fl.decimal 1 0 in
    let c = fmin fl o a in
    let below : fl.le c o ≡ true = ground (arith, fl.le_total a o, fl.le_refl o) in
    (
      rw (fl.round-zero d) at
          (fl.round_mono (fl.decimal 0 0) c d (fmin-IsNonneg fl o a (zero-le-one fl) h)),
      rw (fl.round-one d) at (fl.round_mono c o d below),
    )
