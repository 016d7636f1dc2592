-- ===== src/JsValue/Lookup/Assigned.antt =====
-- Assigning a property and reading it back, along the prototypes.
use rapidus.Prelude.{
  ℕ, zero, suc, ◌<◌, ◌≡◌, ◌≢◌, refl, ap, ◌∙◌, true, false, String, str_eq, eq_iff, none, some,
  if◌then◌else◌, get, insert, get-insert, ◌==◌, arith, Bool-cases, Option-cases, inl, inr, ◌⊎◌,
}
use rapidus.JsValue.Value.{Value, object, undefined}
use rapidus.JsValue.Object.{Property, DataProperty, data_property, accessor, ObjectInfo}
use rapidus.JsValue.Lookup.{
  Outcome, ok, panic, out_of_fuel, Objects, get_property, set_property, set_value_property,
}

-- The key has no property of the object's own, or a data property that can be written.
abbrev pub IsWritable : ObjectInfo → String → Type 0
IsWritable o key =
    (get key o.property ≡ none)
    ⊎ ((d : DataProperty) × (get key o.property ≡ some (data_property d)) × (d.writable ≡ true))

-- The object, with a property replaced or added.
abbrev pub with_property : ObjectInfo → String → Property → ObjectInfo
with_property o key p = record o { property = insert key p o.property }

set_property-IsWritable :
    (o : ObjectInfo) (key : String) (v : Value)
    → IsWritable o key
    → (d : DataProperty) × (d.val ≡ v)
      × (set_property o key v ≡ some (with_property o key (data_property d)))
unfolding set_property
set_property-IsWritable o key v (inl absent) = (
  record { val = v; writable = true; enumerable = true; configurable = true },
  refl,
  ground (arith, absent),
)
set_property-IsWritable o key v (inr (d, there, writable)) =
    (record d { val = v }, refl, ground (arith, there, writable))

module _ (objs : Objects) (p : ℕ) (o : ObjectInfo) (key : String) (d : DataProperty)
    (at_p : objs p ≡ some o) where
  abbrev after : Objects
  after q = if p == q then some (with_property o key (data_property d)) else objs q

  get_property-after : (k : ℕ) → get_property (suc k) after (object p) key ≡ ok d.val
  unfolding get_property
  get_property-after k =
      ground (arith, get-insert key key (data_property d) o.property, eq_iff key key)

  get_property-other :
      (k : ℕ) (c : Value) (y : String)
      → str_eq key y ≡ false
      → get_property k after c y ≡ get_property k objs c y
  unfolding get_property
  get_property-other zero c y other = refl
  get_property-other (suc k) (object q) y other = elim (Bool-cases (p == q)) [
    | inl same ↦
        let at_q : objs q ≡ some o = ap objs (ground arith) ∙ at_p in
        ground (
          arith,
          at_q,
          get-insert key y (data_property d) o.property,
          get_property-other k o.prototype y other,
        )
    | inr apart ↦ elim (Option-cases (objs q)) [
      | inl gone ↦ ground (arith, gone)
      | inr (o', at_q) ↦ ground (arith, at_q, get_property-other k o'.prototype y other)
    ]
  ]
  get_property-other (suc k) c y other = refl

-- Assigning a property of an object that is there, under a key where it has no property of its own or
-- one that can be written, does not panic; the object then has that value under the key, whatever its
-- prototypes have, and every other key reads as before on every value.
pub get_property-set_property :
    (objs : Objects) (p : ℕ) (o : ObjectInfo) (key : String) (v : Value)
    → objs p ≡ some o
    → IsWritable o key
    → (objs' : Objects) × (set_value_property objs (object p) key v ≡ ok objs')
      × ((k : ℕ) → get_property (suc k) objs' (object p) key ≡ ok v)
      × ((k : ℕ) (c : Value) (y : String)
          → str_eq key y ≡ false
          → get_property k objs' c y ≡ get_property k objs c y)
unfolding set_value_property
get_property-set_property objs p o key v at_p writable =
    let (d, is_v, sets) = set_property-IsWritable o key v writable in
    (
      after objs p o key d at_p,
      ground (arith, at_p, sets),
      λ k. get_property-after objs p o key d at_p k ∙ ap ok is_v,
      λ k c y other. get_property-other objs p o key d at_p k c y other,
    )

-- From the value `c`, at most `n` objects lie along the prototypes, and all of them are there.
pub data Chain (objs : Objects) : ℕ → Value → Type 0 where
  end_of_chain : {c : Value} → ((p : ℕ) → c ≡ object p → ⊥) → Chain objs 0 c
  link :
      {n q : ℕ} {o : ObjectInfo}
      → objs q ≡ some o
      → Chain objs n o.prototype
      → Chain objs (suc n) (object q)

module _ (objs : Objects) (key : String) where
  no_object_lookup :
      (c : Value)
      → ((p : ℕ) → c ≡ object p → ⊥)
      → (fuel : ℕ) → 0 < fuel
      → get_property fuel objs c key ≡ ok undefined
  unfolding get_property
  no_object_lookup c no_object zero lt = absurd (omega arith)
  no_object_lookup (object p) no_object (suc fuel) lt = absurd (no_object p refl)
  no_object_lookup c no_object (suc fuel) lt = refl

  inherited_lookup :
      (q : ℕ) (o : ObjectInfo) (r : Outcome Value) (m : ℕ)
      → objs q ≡ some o
      → get key o.property ≡ none
      → ((fuel : ℕ) → m < fuel → get_property fuel objs o.prototype key ≡ r)
      → (fuel : ℕ) → suc m < fuel
      → get_property fuel objs (object q) key ≡ r
  unfolding get_property
  inherited_lookup q o r m at_q missing above zero lt = absurd (omega arith)
  inherited_lookup q o r m at_q missing above (suc fuel) lt =
      ground (arith, at_q, missing, above fuel (omega arith))

  -- What a property of the object's own is read as.
  abbrev own : Property → Outcome Value
  own (data_property d) = ok d.val
  own (accessor a) = panic

  own-fuel : (p : Property) → own p ≢ out_of_fuel
  own-fuel (data_property d) e = cc
  own-fuel (accessor a) e = cc

  own_lookup :
      (q : ℕ) (o : ObjectInfo) (p : Property) (m : ℕ)
      → objs q ≡ some o
      → get key o.property ≡ some p
      → (fuel : ℕ) → m < fuel
      → get_property fuel objs (object q) key ≡ own p
  unfolding get_property
  own_lookup q o p m at_q found zero lt = absurd (omega arith)
  own_lookup q o (data_property d) m at_q found (suc fuel) lt = ground (arith, at_q, found)
  own_lookup q o (accessor a) m at_q found (suc fuel) lt = ground (arith, at_q, found)

-- A lookup along a chain of prototypes that ends has a result, a value or a panic at an accessor, and
-- it is the same for every fuel above the length of the chain.
pub get_property-Chain :
    (objs : Objects) (key : String) (n : ℕ) (c : Value)
    → Chain objs n c
    → (r : Outcome Value) × (r ≢ out_of_fuel)
      × ((fuel : ℕ) → n < fuel → get_property fuel objs c key ≡ r)
get_property-Chain objs key n c (end_of_chain no_object) =
    (ok undefined, (λ e. cc), no_object_lookup objs key c no_object)
get_property-Chain objs key n c (link {n = m} {q = q} {o = o} at_q rest) =
    let (r, result, above) = get_property-Chain objs key m o.prototype rest in
    elim (Option-cases (get key o.property)) [
      | inl missing ↦ (r, result, inherited_lookup objs key q o r m at_q missing above)
      | inr (p, found) ↦
          (own objs key p, own-fuel objs key p, own_lookup objs key q o p (suc m) at_q found)
    ]

-- An object that is its own prototype is searched for ever: a key that it has no property for runs out
-- of any fuel.
pub get_property_cycle :
    (objs : Objects) (p : ℕ) (o : ObjectInfo) (key : String) (fuel : ℕ)
    → objs p ≡ some o
    → o.prototype ≡ object p
    → get key o.property ≡ none
    → get_property fuel objs (object p) key ≡ out_of_fuel
unfolding get_property
get_property_cycle objs p o key zero at_p self missing = refl
get_property_cycle objs p o key (suc fuel) at_p self missing =
    ground (arith, at_p, self, missing, get_property_cycle objs p o key fuel at_p self missing)
