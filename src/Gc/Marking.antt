-- ===== src/Gc/Marking.antt =====
-- One `Marking` phase: which objects become black, and which are the next roots.
use rapidus.Prelude.{
  ℕ, ◌≡◌, ◌≢◌, refl, Bool, true, false, not, ◌&&◌, ◌||◌, List, [], ◌∷◌, none, some, ◌⊎◌, inl, inr,
  if◌then◌else◌, ◌==◌, at, put, at-put, arith, Bool-cases, Option-cases,
}
use rapidus.Gc.Sets.{has, add, has-add}
use rapidus.Gc.Pointers.{GcTarget, pointers}
use rapidus.Gc.Allocator.{
  MarkState, black, white, white2, flip_white, mark_eq, MarkMap, MarkSet, Memory, mark_if_white,
  mark_roots,
}

-- The object has the white of the cycle before.
abbrev pub is_old : MarkState → MarkMap → ℕ → Bool
is_old w m y = elim (at y m) [ none ↦ false | some mark ↦ mark_eq mark (flip_white w) ]

-- `mark_if_white!` adds exactly the old white objects among the pointers.
pub has-mark_if_white :
    (m : MarkMap) (w : MarkState) (ps s s' : List ℕ)
    → mark_if_white m w ps s ≡ some s'
    → (y : ℕ) → has y s' ≡ (has y s || (has y ps && (not (y == 0) && is_old w m y)))
unfolding mark_if_white has
has-mark_if_white m w [] s s' e y = ground arith
has-mark_if_white m w (p ∷ ps) s s' e y = ground (
  arith,
  λ (q : mark_if_white m w ps s ≡ some s'). has-mark_if_white m w ps s s' q y,
  λ (q : mark_if_white m w ps (add p s) ≡ some s'). has-mark_if_white m w ps (add p s) s' q y,
  has-add y p s,
)

pub mark_if_white_total :
    (m : MarkMap) (w : MarkState) (ps s : List ℕ)
    → ((y : ℕ) → has y ps ≡ true → (y ≡ 0) ⊎ ((c : MarkState) × (at y m ≡ some c)))
    → (s' : MarkSet) × (mark_if_white m w ps s ≡ some s')
unfolding mark_if_white has
mark_if_white_total m w [] s h = (s, refl)
mark_if_white_total m w (p ∷ ps) s h = elim (Bool-cases (p == 0)) [
  | inl null ↦
      let (s', e) = mark_if_white_total m w ps s (λ y i. h y (ground arith)) in
      (s', ground (arith, null, e))
  | inr some_p ↦ elim (h p (ground arith)) [
    | inl zero_p ↦ absurd (ground arith)
    | inr (c, at_p) ↦
        let (s', e) =
          mark_if_white_total m w ps (if mark_eq c (flip_white w) then add p s else s)
            (λ y i. h y (ground arith)) in
        (s', ground (arith, some_p, at_p, e))
  ]
]

-- A colour that objects have while they are allocated: one of the two whites.
abbrev pub IsWhite : MarkState → Type 0
IsWhite w = mark_eq black (flip_white w) ≡ false

pub is_old-put :
    (w : MarkState) (m : MarkMap) (r y : ℕ)
    → IsWhite w
    → is_old w (put r black m) y ≡ (not (r == y) && is_old w m y)
is_old-put w m r y iw = ground (arith, at-put r y black m)

allocated-put :
    (r : ℕ) (m : MarkMap) (y : ℕ)
    → (y ≡ 0) ⊎ ((c : MarkState) × (at y m ≡ some c))
    → (y ≡ 0) ⊎ ((c : MarkState) × (at y (put r black m) ≡ some c))
allocated-put r m y (inl z) = inl z
allocated-put r m y (inr (c, e)) = elim (Bool-cases (r == y)) [
  | inl same ↦ inr (black, ground (arith, at-put r y black m, same))
  | inr other ↦ inr (c, ground (arith, at-put r y black m, other, e))
]

module _ (w : MarkState) (h : Memory) where
  -- The outcome of the loop over the roots.
  abbrev pub Marks : MarkSet → MarkMap → MarkSet → MarkMap → MarkSet → Type 0
  Marks rs m s m' s' = mark_roots w h rs m s ≡ some (m', s')

  -- One round of the loop.
  abbrev pub Round : ℕ → MarkSet → MarkMap → MarkSet → MarkMap → MarkSet → Type 0
  Round r rs m s m' s' =
      (o : GcTarget) × (s₁ : MarkSet) × (h r ≡ some o)
      × (mark_if_white (put r black m) w (pointers o) s ≡ some s₁)
      × (mark_roots w h rs (put r black m) s₁ ≡ some (m', s'))

  pub mark_roots-Round :
      (r : ℕ) (rs : MarkSet) (m : MarkMap) (s : MarkSet) (m' : MarkMap) (s' : MarkSet)
      → mark_roots w h (r ∷ rs) m s ≡ some (m', s')
      → Round r rs m s m' s'
  unfolding mark_roots
  mark_roots-Round r rs m s m' s' e = elim (Option-cases (h r)) [
    | inl gone ↦ absurd (ground (arith, gone))
    | inr (o, at_r) ↦ elim (Option-cases (mark_if_white (put r black m) w (pointers o) s)) [
      | inl gone ↦ absurd (ground (arith, at_r, gone))
      | inr (s₁, traced) ↦ (o, s₁, at_r, traced, ground (arith, at_r, traced))
    ]
  ]

  -- The roots become black, and no other object changes its mark.
  pub at-mark_roots :
      (rs : MarkSet) (m : MarkMap) (s : MarkSet) (m' : MarkMap) (s' : MarkSet)
      → mark_roots w h rs m s ≡ some (m', s')
      → (y : ℕ) → at y m' ≡ (if has y rs then some black else at y m)
  unfolding mark_roots has
  at-mark_roots [] m s m' s' e y = ground arith
  at-mark_roots (r ∷ rs) m s m' s' e y =
      let (o, s₁, at_r, traced, rest) = mark_roots-Round r rs m s m' s' e in
      ground (arith, at-mark_roots rs (put r black m) s₁ m' s' rest y, at-put r y black m)

  pub mark_roots-grows :
      (rs : MarkSet) (m : MarkMap) (s : MarkSet) (m' : MarkMap) (s' : MarkSet)
      → mark_roots w h rs m s ≡ some (m', s')
      → (y : ℕ) → has y s ≡ true
      → has y s' ≡ true
  unfolding mark_roots has
  mark_roots-grows [] m s m' s' e y i = ground arith
  mark_roots-grows (r ∷ rs) m s m' s' e y i =
      let (o, s₁, at_r, traced, rest) = mark_roots-Round r rs m s m' s' e in
      mark_roots-grows rs (put r black m) s₁ m' s' rest y
        (ground (arith, has-mark_if_white (put r black m) w (pointers o) s s₁ traced y))

  -- The old white objects that a root points to are among the next roots, or were roots themselves.
  pub mark_roots_complete :
      IsWhite w
      → (rs : MarkSet) (m : MarkMap) (s : MarkSet) (m' : MarkMap) (s' : MarkSet)
      → mark_roots w h rs m s ≡ some (m', s')
      → (x y : ℕ) (o : GcTarget) → has x rs ≡ true
      → h x ≡ some o
      → has y (pointers o) ≡ true
      → y ≢ 0
      → is_old w m y ≡ true
      → (has y s' ≡ true) ⊎ (has y rs ≡ true)
  unfolding mark_roots has
  mark_roots_complete iw [] m s m' s' e x y o in_rs at_x in_o nz old = absurd (cc)
  mark_roots_complete iw (r ∷ rs) m s m' s' e x y o in_rs at_x in_o nz old =
      let (o', s₁, at_r, traced, rest) = mark_roots-Round r rs m s m' s' e in
      let now = has-mark_if_white (put r black m) w (pointers o') s s₁ traced y in
      let later = mark_roots_complete iw rs (put r black m) s₁ m' s' rest x y o in
      let keeps = mark_roots-grows rs (put r black m) s₁ m' s' rest y in
      ground (arith, now, later, keeps, is_old-put w m r y iw, at_r, at_x)

  -- Where a next root comes from.
  pub mark_roots_sound :
      IsWhite w
      → (rs : MarkSet) (m : MarkMap) (s : MarkSet) (m' : MarkMap) (s' : MarkSet)
      → mark_roots w h rs m s ≡ some (m', s')
      → (y : ℕ) → has y s' ≡ true
      → (has y s ≡ true)
        ⊎ ((x : ℕ) × (o : GcTarget) × (has x rs ≡ true)
            × (h x ≡ some o)
            × (has y (pointers o) ≡ true)
            × (y ≢ 0)
            × (is_old w m y ≡ true))
  unfolding mark_roots has
  mark_roots_sound iw [] m s m' s' e y i = inl (ground arith)
  mark_roots_sound iw (r ∷ rs) m s m' s' e y i =
      let (o', s₁, at_r, traced, rest) = mark_roots-Round r rs m s m' s' e in
      let now = has-mark_if_white (put r black m) w (pointers o') s s₁ traced y in
      elim (mark_roots_sound iw rs (put r black m) s₁ m' s' rest y i) [
        | inl before ↦ elim (Bool-cases (has y s)) [
          | inl already ↦ inl already
          | inr new ↦ inr (
            r,
            o',
            ground arith,
            at_r,
            ground (arith, now),
            ground (arith, now),
            ground (arith, now, is_old-put w m r y iw),
          )
        ]
        | inr (x, o, in_rs, at_x, in_o, nz, old) ↦
            inr (x, o, ground arith, at_x, in_o, nz, ground (arith, is_old-put w m r y iw))
      ]

  -- With every root an object whose pointers are allocated or null, the phase does not panic.
  pub mark_roots_total :
      (rs : MarkSet) (m : MarkMap) (s : MarkSet)
      → ((x : ℕ)
          → has x rs ≡ true
          → (o : GcTarget) × (h x ≡ some o)
            × ((y : ℕ)
                → has y (pointers o) ≡ true
                → (y ≡ 0) ⊎ ((c : MarkState) × (at y m ≡ some c))))
      → (m' : MarkMap) × (s' : MarkSet) × (mark_roots w h rs m s ≡ some (m', s'))
  unfolding mark_roots has
  mark_roots_total [] m s live = (m, s, refl)
  mark_roots_total (r ∷ rs) m s live =
      let (o, at_r, near) = live r (ground arith) in
      let (s₁, traced) =
        mark_if_white_total (put r black m) w (pointers o) s
          (λ y i. allocated-put r m y (near y i)) in
      let (m', s', rest) = mark_roots_total rs (put r black m) s₁ (λ x i.
        let (o', at_x, near') = live x (ground arith) in
        (o', at_x, λ y j. allocated-put r m y (near' y j))) in
      (m', s', ground (arith, at_r, traced, rest))

pub flip_white-IsWhite :
    (w : MarkState)
    → (w ≡ white) ⊎ (w ≡ white2)
    → IsWhite (flip_white w)
      × (flip_white (flip_white w) ≡ w)
      × ((flip_white w ≡ white) ⊎ (flip_white w ≡ white2))
unfolding flip_white
flip_white-IsWhite w o = ground arith
