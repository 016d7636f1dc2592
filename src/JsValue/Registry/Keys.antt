-- ===== src/JsValue/Registry/Keys.antt =====
-- From keys to symbols and back, in the registry of src/vm/jsvalue/symbol.rs.
use rapidus.Prelude.{
  ℕ, ◌≡◌, refl, ap, sym as sym_path, ◌∙◌, true, String, str_eq, eq_iff, List, [], ◌∷◌, ◌++◌, none,
  some, if◌then◌else◌, ◌==◌, arith, Option-cases, Bool-cases, inl, inr,
}
use rapidus.JsValue.Value.{Value, object, value_eq}
use rapidus.JsValue.Registry.{GlobalSymbolRegistry, find_key, find_symbol, for_key, key_for}

-- Every symbol is an object, and no object stands under two keys.
abbrev pub AreSymbols : List (String × Value) → Type 0
AreSymbols [] = Unit
AreSymbols ((key, sym) ∷ rest) =
    ((p : ℕ) × (sym ≡ object p)) × (find_symbol sym rest ≡ none) × AreSymbols rest

abbrev pub IsRegistry : GlobalSymbolRegistry → Type 0
IsRegistry r = AreSymbols r.list

value_eq-object : (p q : ℕ) → value_eq (object p) (object q) ≡ (p == q)
unfolding value_eq
value_eq-object p q = refl

value_eq-address : (v : Value) (p : ℕ) → value_eq v (object p) ≡ true → v ≡ object p
unfolding value_eq
value_eq-address (object q) p e = ground arith
value_eq-address v p e = absurd (ground arith)

find_symbol-append :
    (sym fresh : Value) (key : String) (l : List (String × Value))
    → find_symbol sym (l ++ (key, fresh) ∷ []) ≡ elim (find_symbol sym l) [
      | some k ↦ some k
      | none ↦ if value_eq sym fresh then some key else none
    ]
unfolding find_symbol
find_symbol-append sym fresh key [] = ground arith
find_symbol-append sym fresh key ((k, s) ∷ l) = ground (arith, find_symbol-append sym fresh key l)

find_key-append :
    (key : String) (v : Value) (l : List (String × Value))
    → find_key key l ≡ none
    → find_key key (l ++ (key, v) ∷ []) ≡ some v
unfolding find_key
find_key-append key v [] e = ground (arith, eq_iff key key)
find_key-append key v ((k, s) ∷ l) e = ground (arith, find_key-append key v l (ground arith))

-- A symbol of the registry is found under its key.
find_symbol-find_key :
    (l : List (String × Value)) (key : String) (sym : Value)
    → AreSymbols l
    → find_key key l ≡ some sym
    → find_symbol sym l ≡ some key
unfolding find_key find_symbol value_eq
find_symbol-find_key [] key sym h e = absurd (ground arith)
find_symbol-find_key ((k, s) ∷ l) key sym ((p, is_object), apart, rest) e =
    elim (Bool-cases (str_eq key k)) [
      | inl same ↦
          let is_sym : sym ≡ object p = ground (arith, same, is_object) in
          ground (arith, eq_iff key k, is_sym, is_object, value_eq-object p p)
      | inr other ↦
          let later = find_symbol-find_key l key sym rest (ground (arith, other)) in
          elim (Bool-cases (value_eq sym s)) [
            | inr differs ↦ ground (arith, differs, later)
            | inl equal ↦
                let is_sym : sym ≡ s =
                  value_eq-address sym p (ap (value_eq sym) (sym_path is_object) ∙ equal)
                  ∙ sym_path is_object in
                absurd (ground (arith, is_sym, later, apart))
          ]
    ]

AreSymbols-append :
    (l : List (String × Value)) (key : String) (p : ℕ)
    → AreSymbols l
    → find_symbol (object p) l ≡ none
    → AreSymbols (l ++ (key, object p) ∷ [])
unfolding find_symbol
AreSymbols-append [] key p h fresh = ((p, refl), refl, tt)
AreSymbols-append ((k, s) ∷ l) key p ((q, is_object), apart, rest) fresh = (
  (q, is_object),
  ground (
    arith,
    apart,
    find_symbol-append s (object p) key l,
    ap (λ v. value_eq v (object p)) is_object,
    ap (value_eq (object p)) is_object,
    value_eq-object q p,
    value_eq-object p q,
  ),
  AreSymbols-append l key p rest (ground arith),
)

-- In a registry with every symbol under one key, asked for a key with a symbol in hand that it does not
-- have: the symbol that it gives is found under that key, the registry is still one, and asking for
-- the key again, whatever the symbol in hand, gives the same symbol and the same registry.
pub key_for-for_key :
    (r : GlobalSymbolRegistry) (key : String) (p : ℕ) (again : Value)
    → IsRegistry r
    → key_for (object p) r ≡ none
    → (key_for (for_key key (object p) r).0 (for_key key (object p) r).1 ≡ some key)
      × IsRegistry (for_key key (object p) r).1
      × (for_key key again (for_key key (object p) r).1 ≡ for_key key (object p) r)
unfolding for_key key_for
key_for-for_key r key p again h fresh = elim (Option-cases (find_key key r.list)) [
  | inr (sym, e) ↦
      let given : for_key key (object p) r ≡ (sym, r) = ground (arith, e) in
      rw given (find_symbol-find_key r.list key sym h e, h, ground (arith, e))
  | inl e ↦
      let grown : GlobalSymbolRegistry = record { list = r.list ++ (key, object p) ∷ [] } in
      let given : for_key key (object p) r ≡ (object p, grown) = ground (arith, e) in
      let at_end = find_symbol-append (object p) (object p) key r.list in
      rw given (
        ground (arith, at_end, fresh, value_eq-object p p),
        AreSymbols-append r.list key p h fresh,
        ground (arith, find_key-append key (object p) r.list e),
      )
]
