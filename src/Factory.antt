-- ===== src/Factory.antt =====
-- src/vm/factory.rs: the table of functions and the values that the code generator allocates. The
-- address of an allocation is the system allocator's choice; a panic is `none`.
pub mod Registered
mod Tests
use rapidus.Prelude.{
  ℕ, ◌+◌, ◌-◌, ◌==◌, ltb, if◌then◌else◌, Bool, true, false, ◌||◌, String, List, [], ◌∷◌, ◌++◌,
  Option, none, some, length, get_elem?, set, replicate,
}
use rapidus.JsValue.F64.{F64}
use rapidus.JsValue.Value.{Value, number, object}
use rapidus.JsValue.Object.{
  Property, data_property, new_data_simple, FunctionObjectInfo, FunctionObjectKind, user,
  ObjectKind, ordinary, function, ObjectInfo,
}
use rapidus.JsValue.Function.{UserFunctionInfo, default}

-- `ObjectPrototypes` of src/vm/jsvalue/prototype.rs.
pub record ObjectPrototypes : Type 0 where
  pub object : Value
  pub function : Value
  pub string : Value
  pub array : Value
  pub symbol : Value
  pub error : Value

-- What the factory has put on the heap.
pub data Allocation : Type 0 where
  text : String → Allocation
  object_info : ObjectInfo → Allocation
  function_info : UserFunctionInfo → Allocation

-- The parameters: where the n-th allocation is put, a length as an `f64`, and which texts have a NUL
-- inside, which `CString::new` refuses.
pub record Host : Type 0 where
  pub address : ℕ → ℕ
  pub as_f64 : ℕ → F64
  pub has_nul : String → Bool

-- The n-th element of `memory` is at `host.address n`.
pub record Factory : Type 0 where
  pub host : Host
  pub memory : List Allocation
  pub object_prototypes : ObjectPrototypes
  pub func_refs : List (Option ℕ)
  pub next_func_id : ℕ

-- The address of what is allocated, with the factory that has it.
unfoldable pub alloc : Allocation → Factory → ℕ × Factory
alloc a f = (f.host.address (length f.memory), record f { memory = f.memory ++ a ∷ [] })

-- `Factory::new`: thirty slots, the first of them for the function that does nothing.
unfoldable pub new : Host → List Allocation → ObjectPrototypes → Factory
new host memory prototypes = record {
  host = host;
  memory = memory ++ function_info default ∷ [];
  object_prototypes = prototypes;
  func_refs = some (host.address (length memory)) ∷ replicate 29 none;
  next_func_id = 1;
}

unfoldable pub new_func_id : Factory → ℕ × Factory
new_func_id f = (f.next_func_id, record f { next_func_id = f.next_func_id + 1 })

-- `self.func_refs[id] = Some(func_ref)` where the slot is free.
unfoldable pub fill_slot : ℕ → ℕ → Option (Option ℕ) → Factory → Option (ℕ × Factory)
fill_slot id func_ref (some none) f =
    some (func_ref, record f { func_refs = set f.func_refs id (some func_ref) })
fill_slot id func_ref _ f = none

-- The table grows by empty slots up to the id.
unfoldable pub new_slot : ℕ → ℕ → Factory → Factory
new_slot id func_ref f = record f {
  func_refs = f.func_refs ++ (replicate (id - length f.func_refs) none ++ some func_ref ∷ []);
}

unfoldable pub alloc_user_func_info : ℕ → UserFunctionInfo → Factory → Option (ℕ × Factory)
unfolding fill_slot new_slot alloc
alloc_user_func_info id info f =
    let (func_ref, f') = alloc (function_info info) f in
    if ltb id (length f.func_refs)
    then fill_slot id func_ref (get_elem? f.func_refs id) f'
    else some (func_ref, new_slot id func_ref f')

in_slot : Option (Option ℕ) → Option ℕ
in_slot (some (some func_ref)) = some func_ref
in_slot _ = none

unfoldable pub get_func_ref : ℕ → Factory → Option ℕ
unfolding in_slot
get_func_ref id f = in_slot (get_elem? f.func_refs id)

-- `Factory::string`: a panic at a text with a NUL inside.
unfoldable pub string : String → Factory → Option (Value × Factory)
unfolding alloc
string body f =
    if f.host.has_nul body
    then none
    else (let (p, f') = alloc (text body) f in some (Value.string p, f'))

-- `Factory::object`.
unfoldable pub new_object : List (String × Property) → Factory → ℕ × Factory
unfolding alloc
new_object property f =
    alloc
      (object_info (record {
        kind = ordinary;
        prototype = f.object_prototypes.object;
        property = property;
        sym_property = [];
      }))
      f

unfoldable pub or_empty : Option String → String
or_empty none = ""
or_empty (some name) = name

-- A property of `make_property_map!`: writable, enumerable, configurable.
abbrev pub flags : Bool → Bool → Bool → Value → Property
flags writable enumerable configurable val = data_property (record {
  val = val;
  writable = writable;
  enumerable = enumerable;
  configurable = configurable;
})

-- The object of a function whose `name` and `prototype` have these values.
unfoldable pub function_object :
    Value → Value → ℕ → UserFunctionInfo → Option ℕ → Factory → ObjectInfo
function_object name prototype func_ref info outer_env f = record {
  kind = function (record { name = info.func_name; kind = user outer_env func_ref });
  prototype = f.object_prototypes.function;
  property =
      ("length", flags false false true (number (f.host.as_f64 (length info.params))))
      ∷ ("name", flags false false true name)
      ∷ ("prototype", flags true false false prototype)
      ∷ [];
  sym_property = [];
}

-- `property.insert("constructor", f)` on a new ordinary object.
unfoldable pub constructor_of : Value → Factory → Allocation
constructor_of func f = object_info (record {
  kind = ordinary;
  prototype = f.object_prototypes.object;
  property = ("constructor", new_data_simple func) ∷ [];
  sym_property = [];
})

-- The prototype is allocated before the function that it names as its constructor.
unfoldable pub function_named : ℕ → UserFunctionInfo → Option ℕ → Value × Factory → Value × Factory
unfolding new_object function_object constructor_of alloc
function_named func_ref info outer_env (name, f₁) =
    let (prototype, f₂) = new_object [] f₁ in
    let (p, f₃) =
      alloc (object_info (function_object name (object prototype) func_ref info outer_env f₂)) f₂ in
    (
      object p,
      record f₃ { memory = set f₃.memory (length f₁.memory) (constructor_of (object p) f₃) },
    )

-- `Factory::function`.
unfoldable pub function_value : ℕ → UserFunctionInfo → Option ℕ → Factory → Option (Value × Factory)
unfolding string function_named or_empty
function_value func_ref info outer_env f = elim (string (or_empty info.func_name) f) [
  | none ↦ none
  | some named ↦ some (function_named func_ref info outer_env named)
]
