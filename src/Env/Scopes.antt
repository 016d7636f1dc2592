-- ===== src/Env/Scopes.antt =====
-- src/vm/exec_context.rs: reading and writing variables. Environments and objects stand at addresses;
-- the chains are followed on fuel. `'x' is not defined` is the text of the error.
pub mod Variables
pub mod Undeclared
pub mod Declaring
mod Tests
use Prim.Native.String.{◌++◌}
use rapidus.Prelude.{
  ℕ, zero, suc, Bool, true, false, String, List, [], ◌∷◌, Option, none, some, if◌then◌else◌, get,
  insert, ◌==◌,
}
use rapidus.JsValue.Value.{Value, uninitialized, undefined, value_eq}
use rapidus.JsValue.Lookup.{
  Outcome, ok, reference_error, panic, out_of_fuel, Objects, has_own_property, get_property,
  set_value_property,
}
use rapidus.Env
use rapidus.Env.{Bindings, EnvironmentRecord, LexicalEnvironment}

pub record Store : Type 0 where
  pub envs : ℕ → Option LexicalEnvironment
  pub objs : Objects

abbrev pub not_defined : {A : Type 0} → String → Outcome A
not_defined name = reference_error ("'" ++ name ++ "' is not defined")

-- A binding that was found, but not initialized yet, is an error.
unfoldable pub initialized : String → Option Value → Outcome (Option Value)
unfolding value_eq
initialized name none = ok none
initialized name (some v) = if value_eq v uninitialized then not_defined name else ok (some v)

checked : String → Outcome Value → Outcome (Option Value)
unfolding initialized
checked name (ok v) = initialized name (some v)
checked name (reference_error e) = reference_error e
checked name panic = panic
checked name out_of_fuel = out_of_fuel

object_binding : String → Outcome Bool → Outcome Value → Outcome (Option Value)
unfolding checked
object_binding name (ok true) val = checked name val
object_binding name (ok false) val = ok none
object_binding name (reference_error e) val = reference_error e
object_binding name panic val = panic
object_binding name out_of_fuel val = out_of_fuel

-- The match of `get_value`: what the record itself says of a name.
unfoldable pub own_value : ℕ → Objects → EnvironmentRecord → String → Outcome (Option Value)
unfolding initialized object_binding has_own_property get_property get
own_value fuel objs (Env.declarative bs) name = initialized name (get name bs)
own_value fuel objs (Env.function this bs) name = initialized name (get name bs)
own_value fuel objs (Env.module_record this bs) name = initialized name (get name bs)
own_value fuel objs (Env.global v) name =
    object_binding name (has_own_property objs v name) (get_property fuel objs v name)
own_value fuel objs (Env.object v) name =
    object_binding name (has_own_property objs v name) (get_property fuel objs v name)

unfoldable pub get_value : ℕ → Store → ℕ → String → Outcome Value
unfolding own_value
get_value zero s e name = out_of_fuel
get_value (suc fuel) s e name = elim (s.envs e) [
  | none ↦ panic
  | some env ↦ elim (own_value (suc fuel) s.objs env.bindings name) [
    | ok (some v) ↦ ok v
    | ok none ↦ elim env.outer [ none ↦ not_defined name | some o ↦ get_value fuel s o name ]
    | reference_error text ↦ reference_error text
    | panic ↦ panic
    | out_of_fuel ↦ out_of_fuel
  ]
]

abbrev pub with_env : Store → ℕ → LexicalEnvironment → Store
with_env s e env = record s { envs = λ q. if e == q then some env else s.envs q }

-- A record with other bindings.
abbrev pub rebind : EnvironmentRecord → Bindings → EnvironmentRecord
rebind (Env.declarative _) bs = Env.declarative bs
rebind (Env.function this _) bs = Env.function this bs
rebind (Env.module_record this _) bs = Env.module_record this bs
rebind (Env.object v) bs = Env.object v
rebind (Env.global v) bs = Env.global v

abbrev pub rebound : LexicalEnvironment → Bindings → LexicalEnvironment
rebound env bs = record env { bindings = rebind env.bindings bs }

-- The bindings of a record that has some, or else the object that holds them.
pub data Holder : Type 0 where
  bindings_of : Bindings → Holder
  object_of : Value → Holder

unfoldable pub holder : EnvironmentRecord → Holder
holder (Env.declarative bs) = bindings_of bs
holder (Env.function this bs) = bindings_of bs
holder (Env.module_record this bs) = bindings_of bs
holder (Env.global v) = object_of v
holder (Env.object v) = object_of v

set_on_object : Store → Value → String → Value → Outcome Store
unfolding set_value_property
set_on_object s obj name v = elim (set_value_property s.objs obj name v) [
  | ok objs' ↦ ok (record s { objs = objs' })
  | reference_error text ↦ reference_error text
  | panic ↦ panic
  | out_of_fuel ↦ out_of_fuel
]

unfoldable pub set_value : ℕ → Store → ℕ → String → Value → Outcome Store
unfolding holder set_on_object get insert
set_value zero s e name v = out_of_fuel
set_value (suc fuel) s e name v = elim (s.envs e) [
  | none ↦ panic
  | some env ↦ elim (holder env.bindings) [
    | object_of obj ↦ set_on_object s obj name v
    | bindings_of bs ↦ elim (get name bs) [
      | some _ ↦ ok (with_env s e (rebound env (insert name v bs)))
      | none ↦ elim env.outer [
        | none ↦ reference_error ("Assignment to undeclared identifier '" ++ name ++ "'")
        | some o ↦ set_value fuel s o name v
      ]
    ]
  ]
]

unfoldable pub set_own_value : Store → ℕ → String → Value → Outcome Store
unfolding holder set_on_object insert
set_own_value s e name v = elim (s.envs e) [
  | none ↦ panic
  | some env ↦ elim (holder env.bindings) [
    | object_of obj ↦ set_on_object s obj name v
    | bindings_of bs ↦ ok (with_env s e (rebound env (insert name v bs)))
  ]
]

this_of : EnvironmentRecord → Option Value
this_of (Env.function this bs) = some this
this_of (Env.global obj) = some obj
this_of _ = none

unfoldable pub get_this_binding : ℕ → Store → ℕ → Outcome Value
unfolding this_of
get_this_binding zero s e = out_of_fuel
get_this_binding (suc fuel) s e = elim (s.envs e) [
  | none ↦ panic
  | some env ↦ elim (this_of env.bindings) [
    | some this ↦ ok this
    | none ↦ elim env.outer [ none ↦ ok undefined | some o ↦ get_this_binding fuel s o ]
  ]
]

abbrev pub new_declarative : Option ℕ → LexicalEnvironment
new_declarative outer = record { bindings = Env.declarative []; outer = outer }

abbrev pub new_object : Value → Option ℕ → LexicalEnvironment
new_object obj outer = record { bindings = Env.object obj; outer = outer }
