-- ===== src/Gc/Sets.antt =====
-- `MarkSet` of src/gc.rs, a hash set of addresses, as a list.
use rapidus.Prelude.{
  ℕ, ◌≡◌, refl, Bool, false, not, ◌&&◌, ◌||◌, List, [], ◌∷◌, if◌then◌else◌, ◌==◌, arith,
}

unfoldable pub has : ℕ → List ℕ → Bool
has y [] = false
has y (x ∷ xs) = x == y || has y xs

-- `insert`.
unfoldable pub add : ℕ → List ℕ → List ℕ
unfolding has
add x s = if has x s then s else x ∷ s

-- `&a | &b`.
unfoldable pub union : List ℕ → List ℕ → List ℕ
unfolding add
union a [] = a
union a (x ∷ b) = union (add x a) b

-- `&a - &b`.
unfoldable pub minus : List ℕ → List ℕ → List ℕ
unfolding has
minus [] b = []
minus (x ∷ a) b = let rest = minus a b in if has x b then rest else x ∷ rest

pub has-add : (y x : ℕ) (s : List ℕ) → has y (add x s) ≡ (x == y || has y s)
unfolding add has
has-add y x s = ground arith

pub has-union : (y : ℕ) (a b : List ℕ) → has y (union a b) ≡ (has y a || has y b)
unfolding union has
has-union y a [] = ground arith
has-union y a (x ∷ b) = ground (arith, has-union y (add x a) b, has-add y x a)

pub has-minus : (y : ℕ) (a b : List ℕ) → has y (minus a b) ≡ (has y a && not (has y b))
unfolding minus has
has-minus y [] b = refl
has-minus y (x ∷ a) b = ground (arith, has-minus y a b)
