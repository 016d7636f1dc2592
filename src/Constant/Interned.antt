-- ===== src/Constant/Interned.antt =====
-- The sharing of strings and values in the table of src/vm/constant.rs.
use rapidus.Prelude.{
  get_elem?-append_last, ℕ, zero, suc, ◌≤◌, ◌<◌, ◌≡◌, refl, Bool, true, false, String, eq_iff, List,
  Option, none, some, ◌⊎◌, inl, inr, length, arith, Option-cases, ◌∷◌, [], ◌++◌,
}
use rapidus.JsValue.F64.{F64, f64_eq, is_nan}
use rapidus.JsValue.Value.{Value, number, value_eq}
use rapidus.Constant.{
  Constant, ConstantTable, position, found, add_string, add_value, add_object_literal_info,
  add_lex_env_info, get, string, value, is_string, is_value, SpecialProperties, object_literal_info,
  lexical_environment_info,
}
use rapidus.Constant.Laws.{found-grows, position-none, position-passes}

-- No string stands at two indices.
abbrev pub IsInterned : ConstantTable → Type 0
IsInterned t =
    (i j : ℕ) (s : String) → get t i ≡ some (string s) → get t j ≡ some (string s) → i ≡ j

is_string_self : (s : String) → is_string s (string s) ≡ true
unfolding is_string
is_string_self s = ground (arith, eq_iff s s)

-- A table that grows by `c`, which is no string of the table.
found-IsInterned :
    (t : ConstantTable) (c : Constant) (o : Option ℕ)
    → ((s : String) (i : ℕ) → o ≡ none → c ≡ string s → get t i ≡ some (string s) → ⊥)
    → IsInterned t
    → IsInterned (found t c o).1
found-IsInterned t c o fresh h i j s p q = elim (found-grows t c o i (string s) p) [
  | inl old ↦ elim (found-grows t c o j (string s) q) [
    | inl old' ↦ h i j s old old'
    | inr (miss, at_j, is_c) ↦ absurd (fresh s i miss (cc) old)
  ]
  | inr (miss, at_i, is_c) ↦ elim (found-grows t c o j (string s) q) [
    | inl old ↦ absurd (fresh s j miss (cc) old)
    | inr (_, at_j, _) ↦ cc
  ]
]

string-fresh :
    (t : ConstantTable) (s s' : String) (i : ℕ)
    → position (is_string s) t.table ≡ none
    → string s ≡ string s'
    → get t i ≡ some (string s')
    → ⊥
unfolding get
string-fresh t s s' i miss e h =
    ground (arith, position-none (is_string s) t.table i (string s') miss h, is_string_self s)

-- From a table with every string once, each of the four methods leaves one.
pub add-IsInterned :
    (t : ConstantTable)
    → IsInterned t
    → ((s : String) → IsInterned (add_string s t).1)
      × ((v : Value) → IsInterned (add_value v t).1)
      × ((m : SpecialProperties) → IsInterned (add_object_literal_info m t).1)
      × ((names : List String) → IsInterned (add_lex_env_info names t).1)
unfolding add_string add_value add_object_literal_info add_lex_env_info
add-IsInterned t h = (
  λ s. found-IsInterned t (string s) _ (λ s' i. string-fresh t s s' i) h,
  λ v. found-IsInterned t (value v) _ (λ s' i _ e _. cc) h,
  λ m. found-IsInterned t (object_literal_info m) _ (λ s' i _ e _. cc) h,
  λ names.
      unfold found in found-IsInterned t (lexical_environment_info names) none (λ s' i _ e _. cc) h,
)

nan_never_equal : (n : F64) (v : Value) → is_nan n ≡ true → value_eq (number n) v ≡ false
unfolding value_eq f64_eq
nan_never_equal n (number m) h = ground arith
nan_never_equal n _ h = refl

nan_misses :
    (n : F64) (l : List Constant) → is_nan n ≡ true → position (is_value (number n)) l ≡ none
unfolding position is_value
nan_misses n [] h = refl
nan_misses n (value v ∷ l) h = ground (arith, nan_never_equal n v h, nan_misses n l h)
nan_misses n (c ∷ l) h = ground (arith, nan_misses n l h)

-- Every push of a NaN takes a new entry of the table, however often it was pushed before.
pub add_value_nan :
    (n : F64) (t : ConstantTable)
    → is_nan n ≡ true
    → add_value (number n) t ≡ (length t.table, record { table = t.table ++ value (number n) ∷ [] })
unfolding add_value found
add_value_nan n t h = rw (nan_misses n t.table h)

is_value_lem :
    (v : Value) (c : Constant)
    → is_value v c ≡ true
    → (w : Value) × (c ≡ value w) × (value_eq v w ≡ true)
unfolding is_value
is_value_lem v (value w) h = (w, refl, h)
is_value_lem v (string s) h = absurd (cc)
is_value_lem v _ h = absurd (cc)

-- The id that `add_value` returns holds a value equal to the one given, or that value itself.
pub get-add_value :
    (v : Value) (t : ConstantTable)
    → (w : Value) × (get (add_value v t).1 (add_value v t).0 ≡ some (value w))
      × ((value_eq v w ≡ true) ⊎ (v ≡ w))
unfolding add_value found get
get-add_value v t = elim (Option-cases (position (is_value v) t.table)) [
  | inl miss ↦ rw miss (v, get_elem?-append_last t.table (value v), inr refl)
  | inr (j, e) ↦
      let (c, at_j, passes) = position-passes (is_value v) t.table j e in
      let (w, is_w, equal) = is_value_lem v c passes in rw e (w, rw is_w at at_j, inl equal)
]

position-lt :
    (p : Constant → Bool) (l : List Constant) (i : ℕ) → position p l ≡ some i → i < length l
unfolding position
position-lt p [] i h = absurd (cc)
position-lt p (c ∷ l) zero h = omega arith
position-lt p (c ∷ l) (suc i) h = omega (arith, position-lt p l i (ground arith))

pub add_value-le : (v : Value) (t : ConstantTable) → (add_value v t).0 ≤ length t.table
unfolding add_value found
add_value-le v t = elim (Option-cases (position (is_value v) t.table)) [
  | inl miss ↦ rw miss (omega arith)
  | inr (i, e) ↦ rw e (omega (arith, position-lt (is_value v) t.table i e))
]
