-- ===== src/Gc/Counting.antt =====
-- The objects with the white of the cycle before, which the `Marking` phases of src/gc.rs turn black.
use rapidus.Prelude.{
  ℕ, ◌+◌, ◌≤◌, ◌<◌, ◌≡◌, true, [], ◌∷◌, some, inl, inr, if◌then◌else◌, ◌==◌, at, put, arith,
  Bool-cases, length,
}
use rapidus.Gc.Sets.{has}
use rapidus.Gc.Allocator.{
  MarkState, black, flip_white, mark_eq, MarkMap, MarkSet, Memory, mark_roots,
}
use rapidus.Gc.Marking.{is_old, IsWhite, is_old-put, mark_roots-Round}

-- The entries with the white of the cycle before.
unfoldable pub count_old : MarkState → MarkMap → ℕ
count_old w [] = 0
count_old w ((p, c) ∷ m) = (if mark_eq c (flip_white w) then 1 else 0) + count_old w m

count_old-put-le :
    (w : MarkState) (m : MarkMap) (r : ℕ) → IsWhite w → count_old w (put r black m) ≤ count_old w m
unfolding count_old put
count_old-put-le w [] r iw = ground arith
count_old-put-le w ((p, c) ∷ m) r iw = ground (arith, count_old-put-le w m r iw)

count_old-put-lt :
    (w : MarkState) (m : MarkMap) (r : ℕ)
    → IsWhite w
    → is_old w m r ≡ true
    → count_old w (put r black m) < count_old w m
unfolding count_old put at
count_old-put-lt w [] r iw old = absurd (ground arith)
count_old-put-lt w ((p, c) ∷ m) r iw old = ground (arith, count_old-put-lt w m r iw)

module _ (w : MarkState) (h : Memory) (iw : IsWhite w) where
  pub count_old-le :
      (rs : MarkSet) (m : MarkMap) (s : MarkSet) (m' : MarkMap) (s' : MarkSet)
      → mark_roots w h rs m s ≡ some (m', s')
      → count_old w m' ≤ count_old w m
  unfolding mark_roots
  count_old-le [] m s m' s' e = ground arith
  count_old-le (r ∷ rs) m s m' s' e =
      let (o, s₁, at_r, traced, rest) = mark_roots-Round w h r rs m s m' s' e in
      omega (arith, count_old-put-le w m r iw, count_old-le rs (put r black m) s₁ m' s' rest)

  pub count_old-lt :
      (rs : MarkSet) (m : MarkMap) (s : MarkSet) (m' : MarkMap) (s' : MarkSet)
      → mark_roots w h rs m s ≡ some (m', s')
      → (y : ℕ) → has y rs ≡ true
      → is_old w m y ≡ true
      → count_old w m' < count_old w m
  unfolding has
  count_old-lt [] m s m' s' e y i old = absurd (cc)
  count_old-lt (r ∷ rs) m s m' s' e y i old =
      let (o, s₁, at_r, traced, rest) = mark_roots-Round w h r rs m s m' s' e in
      let le = count_old-le rs (put r black m) s₁ m' s' rest in
      elim (Bool-cases (r == y)) [
        | inl same ↦ omega (arith, le, count_old-put-lt w m r iw (ground (arith, same)))
        | inr other ↦ omega (
          arith,
          count_old-put-le w m r iw,
          count_old-lt rs (put r black m) s₁ m' s' rest y (ground (arith, other))
              (ground (arith, other, is_old-put w m r y iw)),
        )
      ]

pub count_old-le-length : (w : MarkState) (m : MarkMap) → count_old w m ≤ length m
unfolding count_old
count_old-le-length w [] = omega arith
count_old-le-length w ((p, c) ∷ m) = ground (arith, count_old-le-length w m)
