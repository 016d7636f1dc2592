-- ===== src/JsValue/Lookup/Tests.antt =====
-- Two objects, one the prototype of the other, and the theorems at them.
use rapidus.Prelude.{
  ℕ, suc, ◌<◌, ◌≡◌, ◌≢◌, refl, String, str_eq, false, [], ◌∷◌, none, some, if◌then◌else◌, ◌==◌, inl,
  get,
}
use rapidus.JsValue.Value.{Value, object, null, bool}
use rapidus.JsValue.Object.{ObjectInfo, ordinary, new_data_simple}
use rapidus.JsValue.Lookup.{Outcome, ok, out_of_fuel, Objects, get_property, set_value_property}
use rapidus.JsValue.Lookup.Assigned.{
  end_of_chain, link, get_property-set_property, get_property-Chain, get_property_cycle,
}

abbrev parent : ObjectInfo
parent = record {
  kind = ordinary;
  prototype = null;
  property = ("x", new_data_simple (bool 1)) ∷ [];
  sym_property = [];
}

abbrev child : ObjectInfo
child = record { kind = ordinary; prototype = object 1; property = []; sym_property = [] }

abbrev selfish : ObjectInfo
selfish = record { kind = ordinary; prototype = object 3; property = []; sym_property = [] }

abbrev family : Objects
family p =
    if 1 == p
    then some parent
    else if 2 == p
    then some child
    else if 3 == p
    then some selfish
    else none

inherited : get_property 2 family (object 2) "x" ≡ ok (bool 1)
unfolding get_property get
inherited = refl

get_property-set_property_example :
    (objs' : Objects) × (set_value_property family (object 2) "x" (bool 0) ≡ ok objs')
    × ((k : ℕ) → get_property (suc k) objs' (object 2) "x" ≡ ok (bool 0))
    × ((k : ℕ) (c : Value) (y : String)
        → str_eq "x" y ≡ false
        → get_property k objs' c y ≡ get_property k family c y)
get_property-set_property_example =
    get_property-set_property family 2 child "x" (bool 0) refl (inl (unfold get in refl))

get_property-Chain_example :
    (r : Outcome Value) × (r ≢ out_of_fuel)
    × ((fuel : ℕ) → 2 < fuel → get_property fuel family (object 2) "y" ≡ r)
get_property-Chain_example =
    get_property-Chain family "y" 2 (object 2)
      (link {o = child} refl (link {o = parent} refl (end_of_chain (λ p e. cc))))

get_property_cycle_example : get_property 50 family (object 3) "y" ≡ out_of_fuel
get_property_cycle_example =
    get_property_cycle family 3 selfish "y" 50 refl refl (unfold get in refl)
