-- ===== src/Constant/Laws.antt =====
-- What an id of the table of src/vm/constant.rs stands for.
use rapidus.Prelude.{
  get_elem?-append_last, get_elem?-append_of_some, ℕ, zero, suc, ◌≡◌, refl, Bool, true, false,
  String, eq_iff, List, [], ◌∷◌, ◌++◌, Option, none, some, ◌⊎◌, length, get_elem?, arith,
  Option-cases, inl, inr,
}
use rapidus.JsValue.Value.{Value}
use rapidus.Constant.{
  Constant, ConstantTable, position, found, add_string, add_value, add_object_literal_info,
  add_lex_env_info, get, string, value, is_string, is_value, SpecialProperties,
}

-- The first hit of a search passes the test.
pub position-passes :
    (p : Constant → Bool) (l : List Constant) (i : ℕ)
    → position p l ≡ some i
    → (c : Constant) × (get_elem? l i ≡ some c) × (p c ≡ true)
unfolding position
position-passes p [] i h = absurd (cc)
position-passes p (c ∷ l) zero h = (c, refl, ground arith)
position-passes p (c ∷ l) (suc i) h = position-passes p l i (ground arith)

found-keeps :
    (t : ConstantTable) (c : Constant) (o : Option ℕ) (i : ℕ) (d : Constant)
    → get t i ≡ some d
    → get (found t c o).1 i ≡ some d
unfolding found get
found-keeps t c none i d h = get_elem?-append_of_some t.table i c d h
found-keeps t c (some j) i d h = h

-- An id that is in use keeps its constant, whichever of the four methods adds to the table.
pub add-get_of_get :
    (t : ConstantTable) (i : ℕ) (c : Constant)
    → get t i ≡ some c
    → ((s : String) → get (add_string s t).1 i ≡ some c)
      × ((v : Value) → get (add_value v t).1 i ≡ some c)
      × ((m : SpecialProperties) → get (add_object_literal_info m t).1 i ≡ some c)
      × ((names : List String) → get (add_lex_env_info names t).1 i ≡ some c)
unfolding add_string add_value add_object_literal_info add_lex_env_info get
add-get_of_get t i c h = (
  λ s. found-keeps t _ (position (is_string s) t.table) i c h,
  λ v. found-keeps t _ (position (is_value v) t.table) i c h,
  λ m. found-keeps t _ _ i c h,
  λ names. get_elem?-append_of_some t.table i _ c h,
)

pub is_string_lem : (s : String) (c : Constant) → is_string s c ≡ true → c ≡ string s
unfolding is_string
is_string_lem s (string s') h = ground (arith, eq_iff s s')
is_string_lem s (value v) h = absurd (cc)
is_string_lem s _ h = absurd (cc)

-- The id that `add_string` returns stands for the string.
pub get-add_string :
    (s : String) (t : ConstantTable) → get (add_string s t).1 (add_string s t).0 ≡ some (string s)
unfolding add_string get
get-add_string s t = elim (Option-cases (position (is_string s) t.table)) [
  | inl e ↦ rw e (get_elem?-append_last t.table (string s))
  | inr (i, e) ↦ rw e (
      let (c, at_i, passes) = position-passes (is_string s) t.table i e in
      rw (is_string_lem s c passes) at at_i)
]

-- A search that misses has seen no constant that passes.
pub position-none :
    (p : Constant → Bool) (l : List Constant) (i : ℕ) (c : Constant)
    → position p l ≡ none
    → get_elem? l i ≡ some c
    → p c ≡ false
unfolding position
position-none p [] i c e h = absurd (cc)
position-none p (d ∷ l) zero c e h = ground arith
position-none p (d ∷ l) (suc i) c e h = position-none p l i c (ground arith) h

-- What stands in a list with one more entry.
pub get_elem?-append_last_cases :
    (l : List Constant) (x : Constant) (i : ℕ) (c : Constant)
    → get_elem? (l ++ x ∷ []) i ≡ some c
    → (get_elem? l i ≡ some c) ⊎ ((i ≡ length l) × (c ≡ x))
get_elem?-append_last_cases [] x zero c h = inr (refl, cc)
get_elem?-append_last_cases [] x (suc i) c h = absurd (cc)
get_elem?-append_last_cases (y ∷ l) x zero c h = inl h
get_elem?-append_last_cases (y ∷ l) x (suc i) c h =
    ground (arith, get_elem?-append_last_cases l x i c h)

-- The table after a method, whatever the search found.
pub found-grows :
    (t : ConstantTable) (c : Constant) (o : Option ℕ) (i : ℕ) (d : Constant)
    → get (found t c o).1 i ≡ some d
    → (get t i ≡ some d) ⊎ ((o ≡ none) × (i ≡ length t.table) × (d ≡ c))
unfolding found get
found-grows t c none i d h = ground (arith, get_elem?-append_last_cases t.table c i d h)
found-grows t c (some j) i d h = inl h
