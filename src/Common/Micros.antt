-- ===== src/Common/Micros.antt =====
-- Floats that a test can compute with: numbers of millionths.
use Prim.Native.Nat.{ℕ, zero, suc, ◌<◌, ◌+◌, ◌-◌, ◌*◌, ◌/◌, ◌^◌, ◌≤◌}
use mathlib.Core.Path.{◌≡◌, refl}
use mathlib.Core.Bool.{true}
use mathlib.Core.Logic.{◌⊎◌}
use native.Mathlib.Omega.{arith}
use native.Mathlib.Nat.{le-div_iff_mul-le, div-mul-le_self, pow-suc, zero-div}
use deep_research_agent.Common.Tests.{leb}
use deep_research_agent.Common.Floats.{Floats}

abbrev pub million : ℕ
million = 1000000

abbrev pub scaled : ℕ → ℕ → ℕ
scaled n d = n * million / 10 ^ d

pub leb_refl : (a : ℕ) → leb a a ≡ true
leb_refl a = ground arith

pub leb_trans : (a b c : ℕ) → leb a b ≡ true → leb b c ≡ true → leb a c ≡ true
leb_trans a b c h k = ground arith

pub leb_total : (a b : ℕ) → (leb a b ≡ true) ⊎ (leb b a ≡ true)
leb_total a b = ground arith

div_mono : (a b k : ℕ) → a ≤ b → 0 < k → a / k ≤ b / k
div_mono a b k h p = (le-div_iff_mul-le p).1 (omega (arith, div-mul-le_self a k))

pow_pos : (d : ℕ) → 0 < 10 ^ d
pow_pos zero = omega arith
pow_pos (suc d) = rw pow-suc (omega (arith, pow_pos d))

le→leb : (a b : ℕ) → a ≤ b → leb a b ≡ true
le→leb a b h = ground arith

pub leb-scaled : (n m d : ℕ) → n ≤ m → leb (scaled n d) (scaled m d) ≡ true
leb-scaled n m d h =
    le→leb (scaled n d) (scaled m d)
      (div_mono (n * million) (m * million) (10 ^ d) (omega arith) (pow_pos d))

pub leb_zero : (a : ℕ) → leb (scaled 0 0) a ≡ true
leb_zero a = ground arith

pub scaled_zero : (d : ℕ) → scaled 0 d ≡ scaled 0 0
scaled_zero d = zero-div (10 ^ d)

abbrev pub micros : Floats
micros = record {
  F = ℕ;
  le = leb;
  le_refl = leb_refl;
  le_trans = leb_trans;
  le_total = leb_total;
  decimal = scaled;
  le-decimal = leb-scaled;
  add = λ a b. a + b;
  sub = λ a b. a - b;
  mul = λ a b. a * b / million;
  div = λ a b. a * million / b;
  add_nonneg = λ a b _ _. leb_zero (a + b);
  mul_nonneg = λ a b _ _. leb_zero (a * b / million);
  decimal-zero = λ d. scaled_zero d;
  round = λ a d. a;
  round_mono = λ a b d h. h;
  round-zero = λ d. refl;
  round-one = λ d. refl;
  ceil = λ a. (a + (million - 1)) / million;
}
