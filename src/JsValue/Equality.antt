-- ===== src/JsValue/Equality.antt =====
-- src/vm/jsvalue/value.rs: strict equality, truth and `typeof`. The texts of strings and the objects
-- stand at addresses; an address with nothing, and what the source panics on, is `none`.
pub mod Strict
mod Tests
use rapidus.Prelude.{
  ℕ, Bool, true, false, not, ◌&&◌, ◌||◌, String, str_eq, List, Option, none, some, if◌then◌else◌,
  ◌==◌,
}
use rapidus.JsValue.F64.{F64, f64_eq, is_nan, is_zero}
use rapidus.JsValue.Value.{
  Value, number, bool, string, object, other, value_eq, undefined, null, undefined_tag, null_tag,
  uninitialized_tag, empty_tag,
}
use rapidus.JsValue.Object.{ObjectInfo, ObjectKind}
use rapidus.JsValue.Object
use rapidus.JsValue.Lookup.{Objects}

-- The texts, by address.
abbrev pub Texts : Type 0
Texts = ℕ → Option String

same_text : Option String → Option String → Option Bool
same_text (some a) (some b) = some (str_eq a b)
same_text _ _ = none

-- `is_same_type_as`: two values other than tags, or the same tag, which is none but these four.
unfoldable pub is_same_type_as : Value → Value → Bool
is_same_type_as (number x) (number y) = true
is_same_type_as (string p) (string q) = true
is_same_type_as (bool x) (bool y) = true
is_same_type_as (object p) (object q) = true
is_same_type_as (other s) (other t) =
    s == t && (s == uninitialized_tag || s == empty_tag || s == null_tag || s == undefined_tag)
is_same_type_as _ _ = false

-- `into_bool`.
into_bool : ℕ → Bool
into_bool b = b == 1

same_bool : Bool → Bool → Bool
same_bool true b = b
same_bool false b = not b

-- The match at the end of `strict_eq_bool`.
compared : Texts → Value → Value → Option Bool
unfolding same_text into_bool same_bool f64_eq
compared texts (number x) (number y) = some (f64_eq x y)
compared texts (string p) (string q) = same_text (texts p) (texts q)
compared texts (bool x) (bool y) = some (same_bool (into_bool x) (into_bool y))
compared texts (object p) (object q) = some (p == q)
compared texts _ _ = some false

unfoldable pub strict_eq_bool : Texts → Value → Value → Option Bool
unfolding is_same_type_as value_eq compared
strict_eq_bool texts a b =
    if not (is_same_type_as a b)
    then some false
    else if value_eq a undefined || value_eq a null
    then some true
    else compared texts a b

is_empty_text : Option String → Option Bool
is_empty_text none = none
is_empty_text (some s) = some (str_eq s "")

-- `to_boolean`. A tag, `undefined` and `null` among them, counts as true.
unfoldable pub to_boolean : Texts → Value → Option Bool
unfolding is_empty_text f64_eq is_nan
to_boolean texts (bool b) = some (not (b == 0))
to_boolean texts (number x) = some (not (f64_eq x 0 || is_nan x))
to_boolean texts (string p) = elim (is_empty_text (texts p)) [ none ↦ none | some e ↦ some (not e) ]
to_boolean texts _ = some true

kind_name : ObjectKind → String
kind_name (Object.function info) = "function"
kind_name (Object.array info) = "object"
kind_name (Object.symbol info) = "symbol"
kind_name (Object.error info) = "error"
kind_name Object.ordinary = "object"

object_type : Option ObjectInfo → Option String
unfolding kind_name
object_type none = none
object_type (some o) = some (kind_name o.kind)

unfoldable pub type_of : Objects → Value → Option String
unfolding object_type
type_of objs (other t) =
    if t == undefined_tag then some "undefined" else if t == null_tag then some "object" else none
type_of objs (bool b) = some "boolean"
type_of objs (number x) = some "number"
type_of objs (string p) = some "string"
type_of objs (object p) = object_type (objs p)
