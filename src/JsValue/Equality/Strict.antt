-- ===== src/JsValue/Equality/Strict.antt =====
-- The laws of strict equality (src/vm/jsvalue/value.rs).
use rapidus.Prelude.{◌≡◌, refl, true, String, eq_iff, Option, none, some, arith}
use rapidus.JsValue.F64.{f64_eq}
use rapidus.JsValue.Value.{Value, number, bool, string, object, other, value_eq}
use rapidus.JsValue.Equality.{
  Texts, same_text, is_same_type_as, same_bool, into_bool, compared, strict_eq_bool,
}

same_text_comm : (a b : Option String) → same_text a b ≡ same_text b a
unfolding same_text
same_text_comm none none = refl
same_text_comm none (some b) = refl
same_text_comm (some a) none = refl
same_text_comm (some a) (some b) = ground (arith, eq_iff a b, eq_iff b a)

-- Strict equality does not depend on the order of its operands, on any two values.
pub strict_eq_bool_comm :
    (texts : Texts) (a b : Value) → strict_eq_bool texts a b ≡ strict_eq_bool texts b a
unfolding strict_eq_bool is_same_type_as value_eq compared f64_eq same_bool into_bool
strict_eq_bool_comm texts (number x) (number y) = ground arith
strict_eq_bool_comm texts (string p) (string q) = same_text_comm (texts p) (texts q)
strict_eq_bool_comm texts (bool x) (bool y) = ground arith
strict_eq_bool_comm texts (object p) (object q) = ground arith
strict_eq_bool_comm texts (other s) (other t) = ground arith
strict_eq_bool_comm texts a b = ground arith

same_text_trans :
    (a b c : Option String)
    → same_text a b ≡ some true
    → same_text b c ≡ some true
    → same_text a c ≡ some true
unfolding same_text
same_text_trans (some a) (some b) (some c) e f = ground (arith, eq_iff a b, eq_iff b c, eq_iff a c)
same_text_trans a b c e f = ground arith

-- Two values that are strictly equal to a third are strictly equal to each other.
pub strict_eq_bool_trans :
    (texts : Texts) (a b c : Value)
    → strict_eq_bool texts a b ≡ some true
    → strict_eq_bool texts b c ≡ some true
    → strict_eq_bool texts a c ≡ some true
unfolding strict_eq_bool is_same_type_as value_eq compared f64_eq same_bool into_bool
strict_eq_bool_trans texts (string p) (string q) (string r) e f =
    same_text_trans (texts p) (texts q) (texts r) e f
strict_eq_bool_trans texts (number x) (number y) (number z) e f = ground arith
strict_eq_bool_trans texts a b c e f = ground arith
