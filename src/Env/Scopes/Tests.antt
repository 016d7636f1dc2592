-- ===== src/Env/Scopes/Tests.antt =====
-- Two functions that share a variable, and the theorems at them.
use rapidus.Prelude.{
  ℕ, ◌≡◌, refl, String, str_eq, false, [], ◌∷◌, none, some, if◌then◌else◌, ◌==◌, arith, get,
}
use rapidus.JsValue.Value.{bool, undefined, value_eq}
use rapidus.JsValue.Lookup.{ok}
use rapidus.Env
use rapidus.Env.{LexicalEnvironment}
use rapidus.Env.Scopes.{Store, get_value, set_value, holder}
use rapidus.Env.Scopes.Variables.{Declared, here, outward, get_value-set_value}
use rapidus.Prelude.{suc}
use rapidus.Env.Scopes.{set_own_value}
use rapidus.Env.Scopes.Declaring.{get_value-set_own_value}
use rapidus.Env.Scopes.Undeclared.{Undeclared}

abbrev shared : LexicalEnvironment
shared = record { bindings = Env.declarative (("x", bool 0) ∷ []); outer = none }

abbrev inner : LexicalEnvironment
inner = record { bindings = Env.function undefined (("y", bool 1) ∷ []); outer = some 1 }

abbrev store : Store
store = record {
  envs = λ e.
      if 1 == e
      then some shared
      else if 2 == e
      then some inner
      else if 3 == e
      then some inner
      else none;
  objs = λ p. none;
}

from_inner : (e : ℕ) → store.envs e ≡ some inner → Declared store "x" 1 (bool 0) 1 e
unfolding holder get
from_inner e at_e = outward {env = inner} at_e refl refl refl (here {env = shared} refl refl refl)

get_value-set_value_example :
    (s' : Store) × (set_value 5 store 2 "x" (bool 1) ≡ ok s')
    × (get_value 7 s' 3 "x" ≡ ok (bool 1))
    × ((y : String) (k c : ℕ) → str_eq "x" y ≡ false → get_value k s' c y ≡ get_value k store c y)
get_value-set_value_example =
    get_value-set_value store "x" 1 (bool 0) (bool 1) 1 2 1 3 5 7 (from_inner 2 refl)
      (from_inner 3 refl) (omega arith) (omega arith) (unfold value_eq in refl)

-- The declaration in the inner environment hides the shared variable from it.
get_value-set_own_value_example :
    (s' : Store) × (set_own_value store 2 "x" (bool 1) ≡ ok s')
    × ((k : ℕ) → get_value (suc k) s' 2 "x" ≡ ok (bool 1))
    × ((y : String) (k c : ℕ) → str_eq "x" y ≡ false → get_value k s' c y ≡ get_value k store c y)
get_value-set_own_value_example =
    get_value-set_own_value store "x" (bool 1) 2 inner (("y", bool 1) ∷ []) refl
      (unfold holder in refl) (unfold value_eq in refl)
