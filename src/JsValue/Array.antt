-- ===== src/JsValue/Array.antt =====
-- src/vm/jsvalue/array.rs: the elements of an array object.
pub mod Elements
mod Tests
use rapidus.Prelude.{
  ℕ, zero, suc, ◌+◌, ◌-◌, List, [], ◌∷◌, ◌++◌, Option, none, some, if◌then◌else◌, ltb, leb, length,
  get_elem?, set, take,
}
use rapidus.JsValue.Value.{Value, undefined, empty, is_undefined, to_undefined_if_empty}
use rapidus.JsValue.Object.{Property, data_property, accessor, new_data_simple, ArrayObjectInfo}

-- What an element reads as: a hole reads as `undefined`.
unfoldable pub read_element : Property → Property
unfolding to_undefined_if_empty
read_element (data_property d) = data_property (record d { val = to_undefined_if_empty d.val })
read_element (accessor a) = accessor a

unfoldable pub get_element : ArrayObjectInfo → ℕ → Property
unfolding read_element
get_element info idx = elim (get_elem? info.elems idx) [
  | none ↦ new_data_simple undefined
  | some p ↦ read_element p
]

-- The loop that extends: `n` rounds of `push`.
unfoldable pub push_holes : ℕ → List Property → List Property
push_holes zero elems = elems
push_holes (suc n) elems = push_holes n (elems ++ new_data_simple empty ∷ [])

unfoldable pub set_length : ArrayObjectInfo → ℕ → ArrayObjectInfo
unfolding push_holes
set_length info len =
    if ltb (length info.elems) len
    then record { elems = push_holes (len - length info.elems) info.elems }
    else if ltb len (length info.elems)
    then record { elems = take len info.elems }
    else info

unfoldable pub get_length : ArrayObjectInfo → ℕ
get_length info = length info.elems

-- The setter to call, and the elements: what an assignment to an element does.
unfoldable pub assign : Property → ArrayObjectInfo → ℕ → Value → Option Value × ArrayObjectInfo
unfolding is_undefined
assign (data_property d) info idx v =
    (none, record { elems = set info.elems idx (data_property (record d { val = v })) })
assign (accessor a) info idx v = (if is_undefined a.setter then none else some a.setter, info)

-- Out of bounds is a panic: `none`.
unfoldable pub set_element : ArrayObjectInfo → ℕ → Value → Option (Option Value × ArrayObjectInfo)
unfolding set_length assign
set_element info idx v =
    let info = if leb (length info.elems) idx then set_length info (idx + 1) else info in
    elim (get_elem? info.elems idx) [ none ↦ none | some p ↦ some (assign p info idx v) ]
