-- ===== src/Env/Scopes/Declaring.antt =====
-- `set_own_value` of src/vm/exec_context.rs: declaring a variable in an environment.
use rapidus.Prelude.{ℕ, suc, ◌≡◌, String, str_eq, false, eq_iff, some, insert, get-insert, arith}
use rapidus.JsValue.Value.{Value, uninitialized, value_eq}
use rapidus.JsValue.Lookup.{ok}
use rapidus.Env.{Bindings, LexicalEnvironment}
use rapidus.Env.Scopes.{Store, get_value, set_own_value, bindings_of, holder, rebound}
use rapidus.Env.Scopes.Variables.{
  Declared, here, assigned, get_value-Declared, get_value-other, holder-rebind,
}

-- Declaring a name in an environment that is a record, with an initialized value, succeeds, whether or
-- not the record or one further out has the name. The name then reads as that value there, and every
-- other name reads as before from everywhere.
pub get_value-set_own_value :
    (s : Store) (x : String) (v : Value) (e : ℕ) (env : LexicalEnvironment) (bs : Bindings)
    → s.envs e ≡ some env
    → holder env.bindings ≡ bindings_of bs
    → value_eq v uninitialized ≡ false
    → (s' : Store) × (set_own_value s e x v ≡ ok s')
      × ((k : ℕ) → get_value (suc k) s' e x ≡ ok v)
      × ((y : String) (k c : ℕ) → str_eq x y ≡ false → get_value k s' c y ≡ get_value k s c y)
unfolding set_own_value
get_value-set_own_value s x v e env bs at_e is_bs init =
    let after = assigned s e env bs x v in
    let declared : Declared after x e v 0 e =
      here {env = rebound env (insert x v bs)} {bs = insert x v bs} (ground arith)
        (holder-rebind env.bindings bs (insert x v bs) is_bs)
        (ground (arith, get-insert x x v bs, eq_iff x x)) in
    (
      after,
      ground (arith, at_e, is_bs),
      λ k. ground (arith, get_value-Declared after x e v 0 e (suc k) declared (omega arith), init),
      λ y k c other. get_value-other s x e env bs v at_e is_bs y k c other,
    )
