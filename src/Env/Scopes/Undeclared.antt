-- ===== src/Env/Scopes/Undeclared.antt =====
-- A name that no record of the chain declares (src/vm/exec_context.rs).
use rapidus.Prelude.{ℕ, suc, ◌≡◌, String, none, some, get}
use rapidus.JsValue.Value.{Value}
use rapidus.Env.{Bindings, LexicalEnvironment}
use rapidus.Env.Scopes.{Store, bindings_of, holder}

-- From the environment `e`, `n` records lie further out, no object, and none of them declares `x`.
pub data Undeclared (s : Store) (x : String) : ℕ → ℕ → Type 0 where
  outermost :
      {e : ℕ} {env : LexicalEnvironment} {bs : Bindings}
      → s.envs e ≡ some env
      → holder env.bindings ≡ bindings_of bs
      → get x bs ≡ none
      → env.outer ≡ none
      → Undeclared s x 0 e
  outward :
      {n e o : ℕ} {env : LexicalEnvironment} {bs : Bindings}
      → s.envs e ≡ some env
      → holder env.bindings ≡ bindings_of bs
      → get x bs ≡ none
      → env.outer ≡ some o
      → Undeclared s x n o
      → Undeclared s x (suc n) e
