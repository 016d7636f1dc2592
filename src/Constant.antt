-- ===== src/Constant.antt =====
-- src/vm/constant.rs: the constant table, to which the bytecode refers by index. A panic (an index
-- out of range, a constant of another kind) is `none`.
pub mod Laws
pub mod Interned
mod Tests
use rapidus.Prelude.{
  ℕ, zero, suc, ◌+◌, Bool, true, false, ◌&&◌, String, str_eq, List, [], ◌∷◌, ◌++◌, Option, none,
  some, if◌then◌else◌, ◌==◌, length, get_elem?, at,
}
use rapidus.JsValue.Value.{Value, value_eq}

pub data SpecialPropertyKind : Type 0 where
  getter setter spread : SpecialPropertyKind

-- `FxHashMap<usize, SpecialPropertyKind>`.
abbrev pub SpecialProperties : Type 0
SpecialProperties = List (ℕ × SpecialPropertyKind)

pub data Constant : Type 0 where
  string : String → Constant
  value : Value → Constant
  lexical_environment_info : List String → Constant
  object_literal_info : SpecialProperties → Constant

pub record ConstantTable : Type 0 where
  pub table : List Constant

abbrev pub new : ConstantTable
new = record { table = [] }

kind_eq : SpecialPropertyKind → SpecialPropertyKind → Bool
kind_eq getter getter = true
kind_eq setter setter = true
kind_eq spread spread = true
kind_eq _ _ = false

has_kind : Option SpecialPropertyKind → SpecialPropertyKind → Bool
unfolding kind_eq
has_kind none k = false
has_kind (some j) k = kind_eq j k

all_in : SpecialProperties → SpecialProperties → Bool
unfolding has_kind at
all_in [] m = true
all_in ((i, k) ∷ rest) m = has_kind (at i m) k && all_in rest m

-- `PartialEq` of hash maps: as many keys, and each key of the one has its value in the other.
unfoldable pub special_eq : SpecialProperties → SpecialProperties → Bool
unfolding all_in
special_eq a b = length a == length b && all_in a b

-- The loops of the `add_` methods: the index of the first constant that passes a test.
unfoldable pub position : (Constant → Bool) → List Constant → Option ℕ
position p [] = none
position p (c ∷ rest) =
    if p c then some 0 else elim (position p rest) [ none ↦ none | some i ↦ some (suc i) ]

-- `return i`, or push `c` and return its index.
unfoldable pub found : ConstantTable → Constant → Option ℕ → ℕ × ConstantTable
found t c (some i) = (i, t)
found t c none = (length t.table, record { table = t.table ++ c ∷ [] })

unfoldable pub is_string : String → Constant → Bool
is_string s (string s') = str_eq s s'
is_string s _ = false

unfoldable pub is_value : Value → Constant → Bool
is_value v (value v') = value_eq v v'
is_value v _ = false

unfoldable pub is_object_literal_info : SpecialProperties → Constant → Bool
is_object_literal_info m (object_literal_info m') = special_eq m m'
is_object_literal_info m _ = false

unfoldable pub add_string : String → ConstantTable → ℕ × ConstantTable
unfolding found is_string
add_string s t = found t (string s) (position (is_string s) t.table)

unfoldable pub add_value : Value → ConstantTable → ℕ × ConstantTable
unfolding found is_value
add_value v t = found t (value v) (position (is_value v) t.table)

unfoldable pub add_object_literal_info : SpecialProperties → ConstantTable → ℕ × ConstantTable
unfolding found is_object_literal_info
add_object_literal_info m t =
    found t (object_literal_info m) (position (is_object_literal_info m) t.table)

unfoldable pub add_lex_env_info : List String → ConstantTable → ℕ × ConstantTable
add_lex_env_info names t =
    (length t.table, record { table = t.table ++ lexical_environment_info names ∷ [] })

unfoldable pub get : ConstantTable → ℕ → Option Constant
get t id = get_elem? t.table id

unfoldable pub as_string : Constant → Option String
as_string (string s) = some s
as_string _ = none

unfoldable pub as_value : Constant → Option Value
as_value (value v) = some v
as_value _ = none

unfoldable pub as_lex_env_info : Constant → Option (List String)
as_lex_env_info (lexical_environment_info names) = some names
as_lex_env_info _ = none

unfoldable pub as_object_literal_info : Constant → Option SpecialProperties
as_object_literal_info (object_literal_info m) = some m
as_object_literal_info _ = none
