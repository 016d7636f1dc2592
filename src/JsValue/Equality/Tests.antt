-- ===== src/JsValue/Equality/Tests.antt =====
-- Values and the theorems at them.
use rapidus.Prelude.{◌≡◌, refl, true, some}
use rapidus.JsValue.Value.{string, undefined}
use rapidus.JsValue.Equality.{Texts, strict_eq_bool, to_boolean}
use rapidus.JsValue.Equality.Strict.{strict_eq_bool_comm, strict_eq_bool_trans}

-- Three strings with the same text.
abbrev texts : Texts
texts p = some "a"

undefined_is_true : to_boolean texts undefined ≡ some true
unfolding to_boolean
undefined_is_true = refl

strict_eq_bool_comm_example :
    strict_eq_bool texts (string 1) undefined ≡ strict_eq_bool texts undefined (string 1)
strict_eq_bool_comm_example = strict_eq_bool_comm texts (string 1) undefined

strict_eq_bool_trans_example : strict_eq_bool texts (string 1) (string 3) ≡ some true
unfolding strict_eq_bool
strict_eq_bool_trans_example = strict_eq_bool_trans texts (string 1) (string 2) (string 3) refl refl
