-- ===== src/Gc/Pointers.antt =====
-- The traversals of src/gc.rs. `initial_trace` and `trace` of a type go over the same pointers in the
-- same order, the one with the macro `mark!`, the other with `mark_if_white!`; the functions here
-- list those pointers.
use rapidus.Prelude.{ℕ, String, List, [], ◌∷◌, ◌++◌, Option, none, some}
use rapidus.JsValue.Value.{Value, string, object}
use rapidus.JsValue.Object.{
  Property, data_property, accessor, FunctionObjectKind, user, builtin, ObjectKind, function, array,
  ObjectInfo,
}
use rapidus.Env
use rapidus.Env.{EnvironmentRecord, LexicalEnvironment, ExecContext, Bindings}
use rapidus.Constant.{Constant, ConstantTable, value}

-- A target of the collector: `Box<dyn GcTarget>`.
pub data GcTarget : Type 0 where
  environment : LexicalEnvironment → GcTarget
  object_info : ObjectInfo → GcTarget
  c_string : String → GcTarget

unfoldable pub value_pointers : Value → List ℕ
value_pointers (object p) = p ∷ []
value_pointers (string p) = p ∷ []
value_pointers _ = []

pub values_pointers : List Value → List ℕ
unfolding value_pointers
values_pointers [] = []
values_pointers (v ∷ vs) = value_pointers v ++ values_pointers vs

optional : Option ℕ → List ℕ
optional none = []
optional (some p) = p ∷ []

unfoldable pub property_pointers : Property → List ℕ
unfolding value_pointers
property_pointers (data_property d) = value_pointers d.val
property_pointers (accessor a) = value_pointers a.getter ++ value_pointers a.setter

elems_pointers : List Property → List ℕ
unfolding property_pointers
elems_pointers [] = []
elems_pointers (e ∷ es) = property_pointers e ++ elems_pointers es

function_pointers : FunctionObjectKind → List ℕ
unfolding optional
function_pointers (user outer_env info) = optional outer_env
function_pointers (builtin f) = []

unfoldable pub kind_pointers : ObjectKind → List ℕ
unfolding function_pointers elems_pointers
kind_pointers (function info) = function_pointers info.kind
kind_pointers (array info) = elems_pointers info.elems
kind_pointers _ = []

properties_pointers : List (String × Property) → List ℕ
unfolding property_pointers
properties_pointers [] = []
properties_pointers ((_, p) ∷ ps) = property_pointers p ++ properties_pointers ps

-- The kind and the properties; neither the prototype nor the symbol properties.
unfoldable pub object_pointers : ObjectInfo → List ℕ
unfolding kind_pointers properties_pointers
object_pointers o = kind_pointers o.kind ++ properties_pointers o.property

bindings_pointers : Bindings → List ℕ
unfolding value_pointers
bindings_pointers [] = []
bindings_pointers ((_, v) ∷ bs) = value_pointers v ++ bindings_pointers bs

unfoldable pub record_pointers : EnvironmentRecord → List ℕ
unfolding bindings_pointers value_pointers
record_pointers (Env.declarative bs) = bindings_pointers bs
record_pointers (Env.function this bs) = bindings_pointers bs
record_pointers (Env.module_record this bs) = bindings_pointers bs
record_pointers (Env.object v) = value_pointers v
record_pointers (Env.global v) = value_pointers v

unfoldable pub environment_pointers : LexicalEnvironment → List ℕ
unfolding record_pointers optional
environment_pointers e = record_pointers e.bindings ++ optional e.outer

unfoldable pub pointers : GcTarget → List ℕ
unfolding object_pointers environment_pointers
pointers (environment e) = environment_pointers e
pointers (object_info o) = object_pointers o
pointers (c_string s) = []

-- `ExecContext::initial_trace`.
unfoldable pub context_pointers : ExecContext → List ℕ
unfolding values_pointers
context_pointers c =
    c.lexical_environment
    ∷ c.variable_environment
    ∷ (c.saved_lexical_environment ++ values_pointers c.stack)

constants_pointers : List Constant → List ℕ
unfolding value_pointers
constants_pointers [] = []
constants_pointers (value v ∷ cs) = value_pointers v ++ constants_pointers cs
constants_pointers (c ∷ cs) = constants_pointers cs

-- `ConstantTable::initial_trace`.
unfoldable pub table_pointers : ConstantTable → List ℕ
unfolding constants_pointers
table_pointers t = constants_pointers t.table
