-- ===== src/JsValue/Object.antt =====
-- src/vm/jsvalue/object.rs, array.rs and function.rs: the shapes of objects and their properties.
-- A `Vec` is a list, a hash map an association list. What the garbage collector and the property
-- lookups read is here; a user function's code is its address.
use rapidus.Prelude.{ℕ, Bool, true, String, List, Option}
use rapidus.JsValue.Value.{Value}

pub record DataProperty : Type 0 where
  pub val : Value
  pub writable : Bool
  pub enumerable : Bool
  pub configurable : Bool

pub record AccessorProperty : Type 0 where
  pub getter : Value
  pub setter : Value
  pub enumerable : Bool
  pub configurable : Bool

pub data Property : Type 0 where
  data_property : DataProperty → Property
  accessor : AccessorProperty → Property

-- `Property::new_data_simple`.
abbrev pub new_data_simple : Value → Property
new_data_simple v =
    data_property (record { val = v; writable = true; enumerable = true; configurable = true })

pub data FunctionObjectKind : Type 0 where
  user : Option ℕ → ℕ → FunctionObjectKind
  builtin : ℕ → FunctionObjectKind

pub record FunctionObjectInfo : Type 0 where
  pub name : Option String
  pub kind : FunctionObjectKind

pub record ArrayObjectInfo : Type 0 where
  pub elems : List Property

pub record SymbolInfo : Type 0 where
  pub id : ℕ
  pub description : Option String

pub record ErrorObjectInfo : Type 0 where
  pub stack_trace : String

pub data ObjectKind : Type 0 where
  function : FunctionObjectInfo → ObjectKind
  array : ArrayObjectInfo → ObjectKind
  symbol : SymbolInfo → ObjectKind
  error : ErrorObjectInfo → ObjectKind
  ordinary : ObjectKind

pub record ObjectInfo : Type 0 where
  pub kind : ObjectKind
  pub prototype : Value
  pub property : List (String × Property)
  pub sym_property : List (ℕ × Property)
