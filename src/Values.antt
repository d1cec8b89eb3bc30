-- ===== src/Values.antt =====
-- Python values out of JSON, as the services read them: `dict.get`, `float(x)`, `int(x)`, truth.
-- What the standard library does with text and floats is a parameter.
use Prim.Native.String.{String}
use text.Mathlib.Text.{◌==◌ as str_eq}
use omni_aegis.Prelude.{
  zero, suc, Bool, true, false, not, ◌||◌, List, [], ◌∷◌, Option, none, some, if◌then◌else◌,
}
use omni_aegis.Prelude.Int.{ℤ, pos, negsuc}
use omni_aegis.Doubles.{Doubles, null}

mutual
  pub data Value (Float : Type 0) : Type 0 where
    none_value : Value Float
    boolean : Bool → Value Float
    integer : ℤ → Value Float
    number : Float → Value Float
    string : String → Value Float
    sequence : Values Float → Value Float
    mapping : Entries Float → Value Float

  pub data Values (Float : Type 0) : Type 0 where
    nil : Values Float
    cons : Value Float → Values Float → Values Float

  pub data Entries (Float : Type 0) : Type 0 where
    end : Entries Float
    entry : String → Value Float → Entries Float → Entries Float

-- `float(text)` and `int(text)` are none where they raise ValueError; `of_int` and `truncate` convert
-- between integers and floats that are no NaN and no infinity.
pub record Conversions (fl : Doubles) : Type 0 where
  pub float_of_text : String → Option fl.Float
  pub int_of_text : String → Option ℤ
  pub of_int : ℤ → fl.Float
  pub truncate : fl.Float → ℤ
  pub strip : String → String
  pub lower : String → String

module _ {Float : Type 0} where
  -- `data[key]`, none for a key that is missing, and `data.get(key)`.
  abbrev pub find : String → Entries Float → Option (Value Float)
  find key end = none
  find key (entry k v d) = let rest = find key d in if str_eq k key then some v else rest

  abbrev pub or_none : Option (Value Float) → Value Float
  or_none none = none_value
  or_none (some v) = v

  abbrev pub get : String → Entries Float → Value Float
  get key d = or_none (find key d)

  abbrev pub list_of : Values Float → List (Value Float)
  list_of nil = []
  list_of (cons v vs) = v ∷ list_of vs

module _ {fl : Doubles} (py : Conversions fl) where
  abbrev pub int_of_bool : Bool → ℤ
  int_of_bool true = pos 1
  int_of_bool false = pos 0

  -- `float(value)`, none where it raises TypeError or ValueError.
  abbrev pub to_float : Value fl.Float → Option fl.Float
  to_float none_value = none
  to_float (boolean b) = some (py.of_int (int_of_bool b))
  to_float (integer i) = some (py.of_int i)
  to_float (number x) = some x
  to_float (string t) = py.float_of_text t
  to_float (sequence vs) = none
  to_float (mapping d) = none

  -- `int(value)`, none where it raises TypeError or ValueError, or OverflowError for an infinity.
  abbrev pub to_int : Value fl.Float → Option ℤ
  to_int none_value = none
  to_int (boolean b) = some (int_of_bool b)
  to_int (integer i) = some i
  to_int (number x) = if fl.is_nan x || fl.is_infinite x then none else some (py.truncate x)
  to_int (string t) = py.int_of_text t
  to_int (sequence vs) = none
  to_int (mapping d) = none

  abbrev pub is_zero : ℤ → Bool
  is_zero (pos zero) = true
  is_zero (pos (suc n)) = false
  is_zero (negsuc n) = false

  -- `bool(value)`.
  abbrev pub truthy : Value fl.Float → Bool
  truthy none_value = false
  truthy (boolean b) = b
  truthy (integer i) = not (is_zero i)
  truthy (number x) = not (fl.le x (null fl)) || not (fl.le (null fl) x)
  truthy (string t) = not (str_eq t "")
  truthy (sequence nil) = false
  truthy (sequence (cons v vs)) = true
  truthy (mapping end) = false
  truthy (mapping (entry k v d)) = true
