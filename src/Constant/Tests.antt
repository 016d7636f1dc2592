-- ===== src/Constant/Tests.antt =====
-- Runs of the table, and the instances of the theorems.
use rapidus.Prelude.{◌≡◌, refl, [], ◌∷◌, some, true, ◌++◌, zero, suc, String, List, arith, ◌⊎◌}
use rapidus.JsValue.F64.{F64, is_nan, f64_eq, is_zero}
use rapidus.JsValue.Value.{number, Value, value_eq}
use rapidus.Constant.{
  ConstantTable, position, new, string, value, add_string, add_value, add_object_literal_info,
  add_lex_env_info, get, SpecialProperties,
}
use rapidus.Constant.Laws.{add-get_of_get, get-add_string}
use rapidus.Constant.Interned.{IsInterned, add-IsInterned, add_value_nan, get-add_value}

-- 1.0.
abbrev one : F64
one = 4607182418800017408

abbrev two_constants : ConstantTable
two_constants = record { table = value (number one) ∷ string "y" ∷ [] }

two_constants-IsInterned : IsInterned two_constants
unfolding get
two_constants-IsInterned zero j s p q = absurd (cc)
two_constants-IsInterned i zero s p q = absurd (cc)
two_constants-IsInterned (suc zero) (suc zero) s p q = refl
two_constants-IsInterned (suc (suc i)) j s p q = absurd (ground arith)
two_constants-IsInterned i (suc (suc j)) s p q = absurd (ground arith)

-- The quiet NaN.
abbrev nan : F64
nan = 9221120237041090560

-- The two zeros share an entry.
zeros_shared :
    add_value (number 9223372036854775808) (add_value (number 0) new).1
    ≡ (0, record { table = value (number 0) ∷ [] })
unfolding add_value position value_eq f64_eq is_nan is_zero
zeros_shared = refl

add-get_of_get_example :
    ((s : String) → get (add_string s two_constants).1 1 ≡ some (string "y"))
    × ((v : Value) → get (add_value v two_constants).1 1 ≡ some (string "y"))
    × ((m : SpecialProperties)
        → get (add_object_literal_info m two_constants).1 1 ≡ some (string "y"))
    × ((names : List String) → get (add_lex_env_info names two_constants).1 1 ≡ some (string "y"))
add-get_of_get_example = add-get_of_get two_constants 1 (string "y") (unfold get in refl)

get-add_string_example :
    get (add_string "z" two_constants).1 (add_string "z" two_constants).0 ≡ some (string "z")
get-add_string_example = get-add_string "z" two_constants

add-IsInterned_example :
    ((s : String) → IsInterned (add_string s two_constants).1)
    × ((v : Value) → IsInterned (add_value v two_constants).1)
    × ((m : SpecialProperties) → IsInterned (add_object_literal_info m two_constants).1)
    × ((names : List String) → IsInterned (add_lex_env_info names two_constants).1)
add-IsInterned_example = add-IsInterned two_constants two_constants-IsInterned

add_value_nan_example :
    add_value (number nan) two_constants
    ≡ (2, record { table = two_constants.table ++ value (number nan) ∷ [] })
add_value_nan_example = add_value_nan nan two_constants (unfold is_nan in refl)

get-add_value_example :
    (w : Value) × (get
        (add_value (number one) two_constants).1
        (add_value (number one) two_constants).0
      ≡ some (value w))
    × ((value_eq (number one) w ≡ true) ⊎ (number one ≡ w))
get-add_value_example = get-add_value (number one) two_constants
