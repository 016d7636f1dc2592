-- ===== src/JsValue/Array/Tests.antt =====
-- Instances of the theorems on arrays.
use rapidus.Prelude.{
  ℕ, ◌+◌, ◌≡◌, ◌≢◌, [], ◌∷◌, some, none, if◌then◌else◌, ltb, leb, ◌==◌, get_elem?,
}
use rapidus.JsValue.Value.{bool, undefined, to_undefined_if_empty}
use rapidus.JsValue.Object.{ArrayObjectInfo, AccessorProperty, accessor, new_data_simple}
use rapidus.JsValue.Array.{get_element, set_element, set_length, get_length}
use rapidus.JsValue.Array.Elements.{with_value, get_element-set_element, get_element-set_length}

abbrev pair : ArrayObjectInfo
pair = record { elems = new_data_simple (bool 1) ∷ new_data_simple (bool 0) ∷ [] }

get_element-set_length_example :
    (get_length (set_length pair 5) ≡ 5)
    × ((j : ℕ)
        → get_element (set_length pair 5) j
          ≡ (if ltb j 5 then get_element pair j else new_data_simple undefined))
get_element-set_length_example = get_element-set_length pair 5

pair-data : (a : AccessorProperty) → get_elem? pair.elems 3 ≢ some (accessor a)
pair-data a e = cc

get_element-set_element_example :
    (info' : ArrayObjectInfo) × (set_element pair 3 (bool 1) ≡ some (none, info'))
    × (get_length info' ≡ (if leb (get_length pair) 3 then 3 + 1 else get_length pair))
    × ((j : ℕ)
        → get_element info' j ≡ (
            if 3 == j
            then with_value (to_undefined_if_empty (bool 1)) (get_element pair 3)
            else get_element pair j))
get_element-set_element_example = get_element-set_element pair 3 (bool 1) pair-data
