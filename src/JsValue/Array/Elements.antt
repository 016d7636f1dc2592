-- ===== src/JsValue/Array/Elements.antt =====
-- Reading the elements after the length or an element was set.
use rapidus.Prelude.{
  get_elem?-take, get_elem?-beyond, get_elem?-within, get_elem?-append_old, get_elem?-append_last,
  ℕ, zero, suc, ◌+◌, ◌-◌, ◌≤◌, ◌<◌, ◌≡◌, ◌≢◌, refl, ap, ◌∙◌, true, List, [], ◌∷◌, ◌++◌, none, some,
  if◌then◌else◌, ◌==◌, ltb, leb, length, get_elem?, take, arith, Bool-cases, inl, inr, ◌⊎◌,
  length-append, length-set, get_elem?-set_self, get_elem?-set_ne, length-take,
}
use rapidus.JsValue.Value.{Value, undefined, empty, to_undefined_if_empty, value_eq}
use rapidus.JsValue.Object.{
  Property, DataProperty, AccessorProperty, data_property, accessor, new_data_simple,
  ArrayObjectInfo,
}
use rapidus.JsValue.Array.{get_element, push_holes, set_length, get_length, assign, set_element}

-- A hole behind the last element reads as what is not there reads.
get_element-push_hole :
    (l : List Property) (j : ℕ)
    → get_element (record { elems = l ++ new_data_simple empty ∷ [] }) j
      ≡ get_element (record { elems = l }) j
unfolding get_element to_undefined_if_empty value_eq
get_element-push_hole [] zero = refl
get_element-push_hole [] (suc j) = refl
get_element-push_hole (p ∷ l) zero = refl
get_element-push_hole (p ∷ l) (suc j) = get_element-push_hole l j

get_element-push_holes :
    (n : ℕ) (l : List Property) (j : ℕ)
    → get_element (record { elems = push_holes n l }) j ≡ get_element (record { elems = l }) j
unfolding push_holes
get_element-push_holes zero l j = refl
get_element-push_holes (suc n) l j = get_element-push_holes n _ j ∙ get_element-push_hole l j

length-push_holes : (n : ℕ) (l : List Property) → length (push_holes n l) ≡ n + length l
unfolding push_holes
length-push_holes zero l = omega arith
length-push_holes (suc n) l = omega (
  arith,
  length-push_holes n (l ++ new_data_simple empty ∷ []),
  length-append l (new_data_simple empty ∷ []),
)

get_element-beyond :
    (l : List Property) (j : ℕ)
    → length l ≤ j
    → get_element (record { elems = l }) j ≡ new_data_simple undefined
unfolding get_element
get_element-beyond l j h = ground (arith, get_elem?-beyond l j h)

get_element-take :
    (n : ℕ) (l : List Property) (j : ℕ)
    → get_element (record { elems = take n l }) j
      ≡ (if ltb j n then get_element (record { elems = l }) j else new_data_simple undefined)
unfolding get_element
get_element-take n l j = ground (arith, get_elem?-take n l j)

-- After the length was set, the array has that length, every element below it reads as before and
-- every other index reads as `undefined`.
pub get_element-set_length :
    (info : ArrayObjectInfo) (len : ℕ)
    → (get_length (set_length info len) ≡ len)
      × ((j : ℕ)
          → get_element (set_length info len) j
            ≡ (if ltb j len then get_element info j else new_data_simple undefined))
unfolding get_length set_length
get_element-set_length info len =
    let more = len - length info.elems in
    (
      ground (arith, length-push_holes more info.elems, length-take len info.elems),
      λ j. ground (
        arith,
        get_element-push_holes more info.elems j,
        get_element-beyond info.elems j,
        get_element-take len info.elems j,
      ),
    )

-- A property with another value.
unfoldable pub with_value : Value → Property → Property
with_value v (data_property d) = data_property (record d { val = v })
with_value v (accessor a) = accessor a

Property-cases :
    (p : Property)
    → ((d : DataProperty) × (p ≡ data_property d)) ⊎ ((a : AccessorProperty) × (p ≡ accessor a))
Property-cases (data_property d) = inl (d, refl)
Property-cases (accessor a) = inr (a, refl)

-- An assignment to a data property that is there.
get_element-assign :
    (info : ArrayObjectInfo) (idx : ℕ) (v : Value) (d : DataProperty)
    → get_elem? info.elems idx ≡ some (data_property d)
    → idx < length info.elems
    → (j : ℕ)
    → get_element (assign (data_property d) info idx v).1 j ≡ (
        if idx == j
        then with_value (to_undefined_if_empty v) (get_element info idx)
        else get_element info j)
unfolding get_element assign with_value
get_element-assign info idx v d here h j = elim (Bool-cases (idx == j)) [
  | inl same ↦
      ground
        (arith, here, get_elem?-set_self info.elems idx (data_property (record d { val = v })) h)
  | inr other ↦ ground (
    arith,
    get_elem?-set_ne info.elems {i = idx} {j = j} (data_property (record d { val = v }))
        (ground arith),
  )
]

get_elem?-push_holes_old :
    (n : ℕ) (l : List Property) (i : ℕ)
    → i < length l
    → get_elem? (push_holes n l) i ≡ get_elem? l i
unfolding push_holes
get_elem?-push_holes_old zero l i h = refl
get_elem?-push_holes_old (suc n) l i h =
    get_elem?-push_holes_old n _ i (omega (arith, length-append l (new_data_simple empty ∷ [])))
    ∙ get_elem?-append_old l (new_data_simple empty) i h

get_elem?-push_holes :
    (n : ℕ) (l : List Property) (i : ℕ)
    → length l ≤ i
    → i < n + length l
    → get_elem? (push_holes n l) i ≡ some (new_data_simple empty)
unfolding push_holes
get_elem?-push_holes zero l i h k = absurd (omega arith)
get_elem?-push_holes (suc n) l i h k = elim (Bool-cases (i == length l)) [
  | inl here ↦ ground (
    arith,
    get_elem?-push_holes_old n (l ++ new_data_simple empty ∷ []) i
        (ground (arith, length-append l (new_data_simple empty ∷ []))),
    get_elem?-append_last l (new_data_simple empty),
  )
  | inr later ↦
      get_elem?-push_holes n (l ++ new_data_simple empty ∷ []) i
        (ground (arith, length-append l (new_data_simple empty ∷ [])))
        (ground (arith, length-append l (new_data_simple empty ∷ [])))
]

module _ (info : ArrayObjectInfo) (idx : ℕ) where
  abbrev more : ℕ
  more = idx + 1 - length info.elems

  -- The array after `set_element` has extended it.
  abbrev grown : ArrayObjectInfo
  grown = if leb (length info.elems) idx then set_length info (idx + 1) else info

  get_element-grown : (j : ℕ) → get_element grown j ≡ get_element info j
  unfolding set_length
  get_element-grown j = ground (arith, get_element-push_holes more info.elems j)

  length-grown :
      get_length grown ≡ (if leb (length info.elems) idx then idx + 1 else get_length info)
  unfolding set_length get_length
  length-grown = ground (arith, length-push_holes more info.elems)

  here-grown :
      ((a : AccessorProperty) → get_elem? info.elems idx ≢ some (accessor a))
      → (d : DataProperty) × (get_elem? grown.elems idx ≡ some (data_property d))
  unfolding set_length
  here-grown no_accessor = elim (Bool-cases (leb (length info.elems) idx)) [
    | inl outside ↦ (
      record { val = empty; writable = true; enumerable = true; configurable = true },
      ground (arith, get_elem?-push_holes more info.elems idx),
    )
    | inr inside ↦
        let (p, e) = get_elem?-within info.elems idx (ground arith) in
        elim (Property-cases p) [
          | inl (d, is_data) ↦ (d, ground (arith, e, is_data))
          | inr (a, is_accessor) ↦ absurd (no_accessor a (e ∙ ap some is_accessor))
        ]
  ]

-- Where no accessor stands at the index, an assignment calls no setter and does not panic. After it
-- the element reads as the value, a hole as `undefined`, with the attributes that it had; every
-- other index reads as before; and the array has grown just enough to hold the index.
pub get_element-set_element :
    (info : ArrayObjectInfo) (idx : ℕ) (v : Value)
    → ((a : AccessorProperty) → get_elem? info.elems idx ≢ some (accessor a))
    → (info' : ArrayObjectInfo) × (set_element info idx v ≡ some (none, info'))
      × (get_length info' ≡ (if leb (get_length info) idx then idx + 1 else get_length info))
      × ((j : ℕ)
          → get_element info' j ≡ (
              if idx == j
              then with_value (to_undefined_if_empty v) (get_element info idx)
              else get_element info j))
unfolding set_element
get_element-set_element info idx v no_accessor =
    let (d, here) = here-grown info idx no_accessor in
    let room : idx < length (grown info idx).elems =
      unfold get_length in ground (arith, length-grown info idx) in
    (
      (assign (data_property d) (grown info idx) idx v).1,
      unfold assign in ground (arith, here),
      unfold assign get_length in
          ground (
            arith,
            length-grown info idx,
            length-set (grown info idx).elems idx (data_property (record d { val = v })),
          ),
      λ j. ground (
        arith,
        get_element-assign (grown info idx) idx v d here room j,
        get_element-grown info idx idx,
        get_element-grown info idx j,
      ),
    )
