-- ===== src/JsValue/Value.antt =====
-- src/vm/jsvalue/value.rs: the value type and its simple constants and tests. A pointer is its
-- address, a number.
use rapidus.Prelude.{ℕ, Bool, false, if◌then◌else◌, ◌==◌}
use rapidus.JsValue.F64.{F64, f64_eq}

-- `Other(i32)` holds one of the five tags below, none of them negative.
pub data Value : Type 0 where
  number : F64 → Value
  bool : ℕ → Value
  string object : ℕ → Value
  other : ℕ → Value

abbrev pub uninitialized_tag : ℕ
uninitialized_tag = 0

abbrev pub empty_tag : ℕ
empty_tag = 1

abbrev pub null_tag : ℕ
null_tag = 2

abbrev pub undefined_tag : ℕ
undefined_tag = 3

abbrev pub seperator_tag : ℕ
seperator_tag = 4

abbrev pub null : Value
null = other null_tag

abbrev pub undefined : Value
undefined = other undefined_tag

abbrev pub uninitialized : Value
uninitialized = other uninitialized_tag

abbrev pub empty : Value
empty = other empty_tag

abbrev pub seperator : Value
seperator = other seperator_tag

-- `derive(PartialEq)`: addresses are compared, and numbers by `==` of `f64`.
unfoldable pub value_eq : Value → Value → Bool
value_eq (number a) (number b) = f64_eq a b
value_eq (bool a) (bool b) = a == b
value_eq (string a) (string b) = a == b
value_eq (object a) (object b) = a == b
value_eq (other a) (other b) = a == b
value_eq _ _ = false

unfoldable pub is_undefined : Value → Bool
is_undefined (other t) = t == undefined_tag
is_undefined _ = false

unfoldable pub is_null : Value → Bool
is_null (other t) = t == null_tag
is_null _ = false

unfoldable pub is_empty : Value → Bool
is_empty (other t) = t == empty_tag
is_empty _ = false

unfoldable pub to_undefined_if_empty : Value → Value
unfolding value_eq
to_undefined_if_empty v = if value_eq v empty then undefined else v
