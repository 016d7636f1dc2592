-- ===== src/JsValue/Lookup.antt =====
-- The properties with text keys: `has_own_property`, `get_property` and `set_property` of
-- src/vm/jsvalue/object.rs and value.rs. Objects stand at addresses.
pub mod Assigned
mod Tests
use rapidus.Prelude.{
  ℕ, zero, suc, Bool, true, false, String, List, [], ◌∷◌, Option, none, some, if◌then◌else◌, get,
  insert, ◌==◌,
}
use rapidus.JsValue.Value.{Value, object, undefined}
use rapidus.JsValue.Object.{Property, data_property, accessor, new_data_simple, ObjectInfo}

-- What a method returns, or that it panics; `reference_error` is `RuntimeError::reference`.
pub data Outcome {ℓ} (A : Type ℓ) : Type ℓ where
  ok : A → Outcome A
  reference_error : String → Outcome A
  panic : Outcome A
  out_of_fuel : Outcome A

-- The objects, by address.
abbrev pub Objects : Type 0
Objects = ℕ → Option ObjectInfo

has_key : Option Property → Bool
has_key none = false
has_key (some p) = true

object_has : Option ObjectInfo → String → Outcome Bool
unfolding has_key get
object_has none key = panic
object_has (some o) key = ok (has_key (get key o.property))

-- `Value::has_own_property`.
unfoldable pub has_own_property : Objects → Value → String → Outcome Bool
unfolding object_has
has_own_property objs (object p) key = object_has (objs p) key
has_own_property objs v key = ok false

-- `Value::get_property`, along the prototypes. A property that is no data property panics.
unfoldable pub get_property : ℕ → Objects → Value → String → Outcome Value
unfolding get
get_property zero objs v key = out_of_fuel
get_property (suc fuel) objs (object p) key = elim (objs p) [
  | none ↦ panic
  | some o ↦
      let above = get_property fuel objs o.prototype key in
      elim (get key o.property) [
        | none ↦ above
        | some (data_property d) ↦ ok d.val
        | some (accessor a) ↦ panic
      ]
]
get_property (suc fuel) objs v key = ok undefined

-- The entry of `set_property`: the property, or a new one that is inserted first.
or_insert : Option Property → Property
or_insert none = new_data_simple undefined
or_insert (some p) = p

assigned : Property → Value → Option Property
assigned (data_property d) v = some (data_property (if d.writable then record d { val = v } else d))
assigned (accessor a) v = none

-- `ObjectInfo::set_property`.
unfoldable pub set_property : ObjectInfo → String → Value → Option ObjectInfo
unfolding or_insert assigned get insert
set_property o key v = elim (assigned (or_insert (get key o.property)) v) [
  | none ↦ none
  | some p ↦ some (record o { property = insert key p o.property })
]

object_set : ℕ → Option ObjectInfo → Objects → String → Value → Outcome Objects
unfolding set_property
object_set p none objs key v = panic
object_set p (some o) objs key v = elim (set_property o key v) [
  | none ↦ panic
  | some o' ↦ ok (λ q. if p == q then some o' else objs q)
]

-- `Value::set_property`.
unfoldable pub set_value_property : Objects → Value → String → Value → Outcome Objects
unfolding object_set
set_value_property objs (object p) key v = object_set p (objs p) objs key v
set_value_property objs _ key v = ok objs
