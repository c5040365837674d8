-- ===== src/Common/Values.antt =====
-- Python's `int`, and the values of type `object` that the program reads from its mappings.
use Prim.Native.Nat.{ℕ, suc}
use Prim.Native.String.{String}
use mathlib.Core.Bool.{Bool, true, false, not, ◌&&◌}
use mathlib.Core.Option.{Option, none, some}
use deep_research_agent.Common.Tests.{ltb, if◌then◌else◌}
use deep_research_agent.Common.Classes.{◌==◌, string_eq}
use deep_research_agent.Common.Floats.{Floats}

-- `negsuc n` is -(n + 1).
pub data ℤ : Type 0 where
  pos : ℕ → ℤ
  negsuc : ℕ → ℤ

-- `max(0, n)`
abbrev pub clip : ℤ → ℕ
clip (pos n) = n
clip (negsuc n) = 0

-- A `sequence` is a list or a tuple.
mutual
  pub data Value (F : Type 0) : Type 0 where
    null : Value F
    boolean : Bool → Value F
    integer : ℤ → Value F
    float : F → Value F
    text : String → Value F
    sequence : Items F → Value F
    mapping : Fields F → Value F

  pub data Items (F : Type 0) : Type 0 where
    nil : Items F
    item : Value F → Items F → Items F

  pub data Fields (F : Type 0) : Type 0 where
    end : Fields F
    field : String → Value F → Fields F → Fields F

-- `m.get(key)`
unfoldable pub lookup : {F : Type 0} → String → Fields F → Option (Value F)
lookup key end = none
lookup key (field k v rest) = if k == key then some v else lookup key rest

abbrev pub or_default : {F : Type 0} → Option (Value F) → Value F → Value F
or_default none d = d
or_default (some v) d = v

-- `len(items)`
abbrev pub items_length : {F : Type 0} → Items F → ℕ
items_length nil = 0
items_length (item v rest) = suc (items_length rest)

abbrev pub is_nonempty : {F : Type 0} → Fields F → Bool
is_nonempty end = false
is_nonempty (field k v rest) = true

-- `bool(value)`
abbrev pub truthy : (fl : Floats) → Value fl.F → Bool
truthy fl null = false
truthy fl (boolean b) = b
truthy fl (integer (pos n)) = ltb 0 n
truthy fl (integer (negsuc n)) = true
truthy fl (float x) = not (fl.le x (fl.decimal 0 0) && fl.le (fl.decimal 0 0) x)
truthy fl (text s) = not (s == "")
truthy fl (sequence nil) = false
truthy fl (sequence (item v rest)) = true
truthy fl (mapping m) = is_nonempty m

-- What `int(…)` makes of a finite float and of a text, and `float(…)` of an integer and of a text;
-- `none` is a `ValueError`.
pub record Conversions (fl : Floats) : Type 0 where
  pub int_of_float : fl.F → ℤ
  pub int_of_text : String → Option ℤ
  -- `float(…)` of an integer and of a text
  pub float_of_int : ℤ → fl.F
  pub float_of_text : String → Option fl.F
