-- ===== src/Common/Uuids.antt =====
-- The functions of Python's `uuid` that the program uses. A `UUID` is a number; a fresh one of
-- `uuid4` is an argument where it is drawn.
use Prim.Native.Nat.{ℕ, zero, suc}
use Prim.Native.String.{String}
use mathlib.Core.Path.{◌≡◌, refl, ap, ◌∙◌, sym}
use mathlib.Core.Bool.{true}
use mathlib.Core.Option.{Option, some}
use deep_research_agent.Common.Classes.{◌==◌, string_eq}

pub record Uuids : Type 0 where
  -- `uuid5(NAMESPACE_URL, name)`
  pub uuid5 : String → ℕ
  -- `str(id)`
  pub show : ℕ → String
  -- `UUID(text)`; `none` is a `ValueError`
  pub parse : String → Option ℕ
  -- an id is read back from its text
  pub parse-show : (a : ℕ) → parse (show a) ≡ some a

some_inj : {A : Type 0} (a b : A) → some a ≡ some b → a ≡ b
some_inj a b h = cc h

-- The texts of ids tell them apart.
pub show_inj : (ids : Uuids) (a b : ℕ) → ids.show a ≡ ids.show b → a ≡ b
show_inj ids a b h = some_inj a b (sym (ids.parse-show a) ∙ ap ids.parse h ∙ ids.parse-show b)

-- `str(a) == str(b)`
pub same_show : (ids : Uuids) (a b : ℕ) → (ids.show a == ids.show b) ≡ true → a ≡ b
same_show ids a b h = show_inj ids a b ((string_eq.same_iff (ids.show a) (ids.show b)).0 h)

-- Ids that a test can compute with: an id is shown by as many strokes.
unfoldable pub strokes : ℕ → String
strokes zero = ""
strokes (suc n) = String.◌∷◌ "|" (strokes n)

-- how many characters a text has
pub count : String → ℕ
count String.[] = 0
count (String.◌∷◌ c s) = suc (count s)

pub count-strokes : (n : ℕ) → count (strokes n) ≡ n
unfolding strokes count
count-strokes zero = refl
count-strokes (suc n) = ap suc (count-strokes n)

-- how many strokes a text has
abbrev pub read_strokes : String → Option ℕ
read_strokes s = some (count s)

pub read_strokes-strokes : (n : ℕ) → read_strokes (strokes n) ≡ some n
read_strokes-strokes n = ap some (count-strokes n)

abbrev pub stroke_ids : Uuids
stroke_ids = record {
  uuid5 = count;
  show = strokes;
  parse = read_strokes;
  parse-show = read_strokes-strokes;
}
