-- ===== src/Common/Text.antt =====
-- Python's texts: `str.strip`, the test `not text.strip()`, and `str` of a count.
use Prim.Native.Char.{code}
use Prim.Native.Nat.{ℕ, zero, suc, ◌/◌, ◌%◌}
use Prim.Native.String.{String, ◌++◌ as ◌<>◌}
use mathlib.Core.Bool.{Bool, true, false, ◌&&◌, ◌||◌}
use mathlib.Core.Path.{◌≡◌, refl, ap}
use text.Mathlib.TextLemmas.{nil-append, cons-append}
use native.Mathlib.Omega.{arith}
use deep_research_agent.Common.Classes.{◌==◌, string_eq}
use deep_research_agent.Common.Tests.{ltb, leb, nat_eqb, if◌then◌else◌}

-- the code points that `str.strip` removes
unfoldable pub is_space : ℕ → Bool
is_space c =
    leb 9 c && leb c 13
    || leb 28 c && leb c 32
    || nat_eqb c 133
    || nat_eqb c 160
    || nat_eqb c 5760
    || leb 8192 c && leb c 8202
    || nat_eqb c 8232
    || nat_eqb c 8233
    || nat_eqb c 8239
    || nat_eqb c 8287
    || nat_eqb c 12288

-- `not text.strip()`
unfoldable pub is_blank : String → Bool
unfolding is_space
is_blank String.[] = true
is_blank (String.◌∷◌ c s) = is_space (code c) && is_blank s

-- `text.lstrip()`
unfoldable pub strip_start : String → String
unfolding is_space
strip_start String.[] = ""
strip_start (String.◌∷◌ c s) =
    let rest = strip_start s in if is_space (code c) then rest else String.◌∷◌ c s

-- `text.rstrip()`
unfoldable pub strip_end : String → String
unfolding is_space is_blank
strip_end String.[] = ""
strip_end (String.◌∷◌ c s) =
    let rest = strip_end s in if is_space (code c) && is_blank s then "" else String.◌∷◌ c rest

-- `text.strip()`
unfoldable pub strip : String → String
unfolding strip_start strip_end
strip s = strip_end (strip_start s)

abbrev pub digit : ℕ → String
digit n =
    if nat_eqb n 0
    then "0"
    else if nat_eqb n 1
    then "1"
    else if nat_eqb n 2
    then "2"
    else if nat_eqb n 3
    then "3"
    else if nat_eqb n 4
    then "4"
    else if nat_eqb n 5
    then "5"
    else if nat_eqb n 6
    then "6"
    else if nat_eqb n 7
    then "7"
    else if nat_eqb n 8
    then "8"
    else "9"

-- the digits of `n`, if it has at most `suc fuel`
unfoldable pub digits : ℕ → ℕ → String
digits zero n = digit n
digits (suc fuel) n =
    let rest = digits fuel (n / 10) in if ltb n 10 then digit n else rest <> digit (n % 10)

-- `str(n)`; a number has at most as many digits as it counts, or one.
unfoldable pub show_count : ℕ → String
unfolding digits
show_count n = digits n n

-- A text that joins two is blank exactly when both are.
pub is_blank-append : (s t : String) → is_blank (s <> t) ≡ (is_blank s && is_blank t)
unfolding is_blank
is_blank-append String.[] t = ap is_blank (nil-append t)
is_blank-append (String.◌∷◌ c s) t = rw (cons-append c s t) (ground (arith, is_blank-append s t))

pub is_blank-append_left : (s t : String) → is_blank s ≡ false → is_blank (s <> t) ≡ false
is_blank-append_left s t h = rw (is_blank-append s t, h) refl

pub is_blank-append_right : (s t : String) → is_blank t ≡ false → is_blank (s <> t) ≡ false
is_blank-append_right s t h = ground (arith, is_blank-append s t, h)

unfoldable pub starts_with : (prefix s : String) → Bool
starts_with String.[] s = true
starts_with (String.◌∷◌ a p) String.[] = false
starts_with (String.◌∷◌ a p) (String.◌∷◌ c s) = nat_eqb (code a) (code c) && starts_with p s

-- `part in s`
unfoldable pub occurs_in : (part s : String) → Bool
unfolding starts_with
occurs_in part String.[] = starts_with part ""
occurs_in part (String.◌∷◌ c s) = starts_with part (String.◌∷◌ c s) || occurs_in part s

-- `s.endswith(suffix)`
unfoldable pub ends_with : (s suffix : String) → Bool
ends_with String.[] suffix = "" == suffix
ends_with (String.◌∷◌ c s) suffix = String.◌∷◌ c s == suffix || ends_with s suffix
