-- ===== src/Env.antt =====
-- src/vm/exec_context.rs: environments and execution contexts. A reference to an environment is its
-- address, a number; the null reference is 0.
pub mod Scopes
use rapidus.Prelude.{ℕ, Bool, String, List, Option}
use rapidus.JsValue.Value.{Value}

abbrev pub Bindings : Type 0
Bindings = List (String × Value)

pub data EnvironmentRecord : Type 0 where
  declarative : Bindings → EnvironmentRecord
  object : Value → EnvironmentRecord
  global : Value → EnvironmentRecord
  module_record : Value → Bindings → EnvironmentRecord
  function : Value → Bindings → EnvironmentRecord

pub record LexicalEnvironment : Type 0 where
  pub bindings : EnvironmentRecord
  pub outer : Option ℕ

pub data CallMode : Type 0 where
  ordinary_call module_call from_native : CallMode

pub record ExecContext : Type 0 where
  pub pc : ℕ
  pub current_inst_pc : ℕ
  pub stack : List Value
  pub func_ref : ℕ
  pub this : Value
  pub constructor_call : Bool
  pub call_mode : CallMode
  pub variable_environment : ℕ
  pub lexical_environment : ℕ
  pub saved_lexical_environment : List ℕ
