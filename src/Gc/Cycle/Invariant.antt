-- ===== src/Gc/Cycle/Invariant.antt =====
-- The invariant of the `Marking` phases.
use rapidus.Prelude.{
  ℕ, ◌≡◌, ◌≢◌, refl, subst, true, false, [], ◌∷◌, some, ◌⊎◌, inl, inr, if◌then◌else◌, at, put, ◌==◌,
  arith, Bool-cases,
}
use rapidus.Gc.Sets.{has}
use rapidus.Gc.Pointers.{GcTarget, pointers}
use rapidus.Gc.Allocator.{
  MarkState, black, flip_white, mark_eq, MarkMap, MarkSet, Memory, mark_roots,
}
use rapidus.Gc.Marking.{
  is_old, IsWhite, at-mark_roots, mark_roots_complete, mark_roots_sound, mark_roots_total,
  mark_roots-Round,
}
use rapidus.Gc.Sweeping.{Distinct, put-Distinct}
use rapidus.Gc.Cycle.{Reach, root, child}

pub has-nil : (y : ℕ) → has y [] ≢ true
unfolding has
has-nil y e = cc

mark_eq_self : (c : MarkState) → mark_eq c c ≡ true
mark_eq_self black = refl
mark_eq_self _ = refl

is_old_of :
    (w : MarkState) (m : MarkMap) (y : ℕ) (c : MarkState)
    → at y m ≡ some c
    → c ≡ flip_white w
    → is_old w m y ≡ true
is_old_of w m y c e old = ground (arith, e, old, mark_eq_self (flip_white w))

mark_roots-Distinct :
    (w : MarkState) (h : Memory) (rs : MarkSet) (m : MarkMap) (s : MarkSet) (m' : MarkMap)
    (s' : MarkSet)
    → Distinct m
    → mark_roots w h rs m s ≡ some (m', s')
    → Distinct m'
unfolding mark_roots
mark_roots-Distinct w h [] m s m' s' d e = let same : m ≡ m' = ground arith in subst Distinct same d
mark_roots-Distinct w h (r ∷ rs) m s m' s' d e =
    let (o, s₁, at_r, traced, rest) = mark_roots-Round w h r rs m s m' s' e in
    mark_roots-Distinct w h rs (put r black m) s₁ m' s' (put-Distinct r black m d) rest

module _ (w : MarkState) (h : Memory) (start : MarkSet) where
  -- The roots `grey` are still to be traced. An object is black or has the white of the cycle before;
  -- a black object points to black objects and roots; black objects and roots are reachable.
  pub record IsMarking (m : MarkMap) (grey : MarkSet) : Type 0 where
    pub colored : (y : ℕ) (c : MarkState) → at y m ≡ some c → (c ≡ flip_white w) ⊎ (c ≡ black)
    pub distinct : Distinct m
    pub marked : (y : ℕ) (o : GcTarget) → h y ≡ some o → (c : MarkState) × (at y m ≡ some c)
    pub backed : (y : ℕ) (c : MarkState) → at y m ≡ some c → (o : GcTarget) × (h y ≡ some o)
    pub rooted : (y : ℕ) → has y start ≡ true → (at y m ≡ some black) ⊎ (has y grey ≡ true)
    pub shaded :
        (x y : ℕ) (o : GcTarget)
        → at x m ≡ some black
        → h x ≡ some o
        → has y (pointers o) ≡ true
        → y ≢ 0
        → (at y m ≡ some black) ⊎ (has y grey ≡ true)
    pub live : (y : ℕ) → has y grey ≡ true → (o : GcTarget) × (h y ≡ some o)
    pub black_reached : (y : ℕ) → at y m ≡ some black → Reach h start y
    pub grey_reached : (y : ℕ) → has y grey ≡ true → Reach h start y

module _ (w : MarkState) (h : Memory) (start : MarkSet) (iw : IsWhite w)
    (near : (x y : ℕ) (o : GcTarget)
      → h x ≡ some o
      → has y (pointers o) ≡ true
      → y ≢ 0
      → (o' : GcTarget) × (h y ≡ some o')) where
  module _ (m : MarkMap) (grey : MarkSet) (m' : MarkMap) (grey' : MarkSet)
      (inv : IsMarking w h start m grey) (e : mark_roots w h grey m [] ≡ some (m', grey')) where
    marks : (y : ℕ) → at y m' ≡ (if has y grey then some black else at y m)
    marks = at-mark_roots w h grey m [] m' grey' e

    -- A grey or black object is black after the phase.
    blackened : (y : ℕ) → (at y m ≡ some black) ⊎ (has y grey ≡ true) → at y m' ≡ some black
    blackened y o = ground (arith, marks y)

    was : (y : ℕ) → at y m' ≡ some black → (at y m ≡ some black) ⊎ (has y grey ≡ true)
    was y e' = ground (arith, marks y)

    colored-step : (y : ℕ) (c : MarkState) → at y m' ≡ some c → (c ≡ flip_white w) ⊎ (c ≡ black)
    colored-step y c at_y = ground (arith, marks y, inv.colored y c)

    shaded-step :
        (x y : ℕ) (o : GcTarget)
        → at x m' ≡ some black
        → h x ≡ some o
        → has y (pointers o) ≡ true
        → y ≢ 0
        → (at y m' ≡ some black) ⊎ (has y grey' ≡ true)
    shaded-step x y o black_x at_x in_o nz = elim (Bool-cases (has x grey)) [
      | inr older ↦
          inl (blackened y (inv.shaded x y o (ground (arith, marks x, older)) at_x in_o nz))
      | inl now ↦
          let (o', at_y) = near x y o at_x in_o nz in
          let (c, mark_y) = inv.marked y o' at_y in
          elim (inv.colored y c mark_y) [
            | inr is_black ↦ inl (blackened y (inl (ground (arith, mark_y, is_black))))
            | inl old ↦
                elim (mark_roots_complete w h iw grey m [] m' grey' e x y o now at_x in_o nz
                  (is_old_of w m y c mark_y old)) [
                    | inl next ↦ inr next
                    | inr root_y ↦ inl (blackened y (inr root_y))
                  ]
          ]
    ]

    source :
        (y : ℕ)
        → has y grey' ≡ true
        → (x : ℕ) × (o : GcTarget) × (has x grey ≡ true)
          × (h x ≡ some o)
          × (has y (pointers o) ≡ true)
          × (y ≢ 0)
          × (is_old w m y ≡ true)
    source y i = elim (mark_roots_sound w h iw grey m [] m' grey' e y i) [
      | inl none_yet ↦ absurd (has-nil y none_yet)
      | inr from ↦ from
    ]

    -- The next roots have the white of the cycle before, at the start of the phase.
    pub next-is_old : (y : ℕ) → has y grey' ≡ true → is_old w m y ≡ true
    next-is_old y i = (source y i).6

    marked-step : (y : ℕ) (o : GcTarget) → h y ≡ some o → (c : MarkState) × (at y m' ≡ some c)
    marked-step y o at_y =
        let (c, mark_y) = inv.marked y o at_y in
        elim (Bool-cases (has y grey)) [
          | inl now ↦ (black, blackened y (inr now))
          | inr other ↦ (c, ground (arith, marks y, other, mark_y))
        ]

    backed-step : (y : ℕ) (c : MarkState) → at y m' ≡ some c → (o : GcTarget) × (h y ≡ some o)
    backed-step y c mark_y = elim (Bool-cases (has y grey)) [
      | inl now ↦ inv.live y now
      | inr other ↦ inv.backed y c (ground (arith, marks y, other))
    ]

    black_reached-step : (y : ℕ) → at y m' ≡ some black → Reach h start y
    black_reached-step y mark_y = elim (was y mark_y) [
      | inl before ↦ inv.black_reached y before
      | inr now ↦ inv.grey_reached y now
    ]

    -- A `Marking` phase keeps the invariant.
    pub IsMarking-step : IsMarking w h start m' grey'
    IsMarking-step = record {
      colored = colored-step;
      distinct = mark_roots-Distinct w h grey m [] m' grey' inv.distinct e;
      marked = marked-step;
      backed = backed-step;
      rooted = λ y i. inl (blackened y (inv.rooted y i));
      shaded = shaded-step;
      live =
          λ y i. let (x, o, in_grey, at_x, in_o, nz, old) = source y i in near x y o at_x in_o nz;
      black_reached = black_reached-step;
      grey_reached = λ y i.
          let (x, o, in_grey, at_x, in_o, nz, old) = source y i in
          child (inv.grey_reached x in_grey) at_x in_o nz;
    }

    -- An object that is a next root, if the phase left as many old objects as there were.
    pub next_still_old : (y : ℕ) → has y grey' ≡ true → has y grey ≡ false → is_old w m' y ≡ true
    next_still_old y i other = ground (arith, marks y, other, next-is_old y i)

  -- A `Marking` phase does not panic.
  pub mark_roots_runs :
      (m : MarkMap) (grey : MarkSet)
      → IsMarking w h start m grey
      → (m' : MarkMap) × (grey' : MarkSet) × (mark_roots w h grey m [] ≡ some (m', grey'))
  mark_roots_runs m grey inv = mark_roots_total w h grey m [] λ x i.
      let (o, at_x) = inv.live x i in
      (
        o,
        at_x,
        λ y in_o. elim (Bool-cases (y == 0)) [
          | inl zero_y ↦ inl (ground arith)
          | inr nz ↦
              let (o', at_y) = near x y o at_x in_o (ground arith) in inr (inv.marked y o' at_y)
        ],
      )

-- When no root is left, every reachable object is black.
pub reached-black :
    (w : MarkState) (h : Memory) (start : MarkSet) (m : MarkMap)
    → IsMarking w h start m []
    → {y : ℕ} → Reach h start y
    → at y m ≡ some black
reached-black w h start m inv (root {y} i) = elim (inv.rooted y i) [
  | inl is_black ↦ is_black
  | inr waiting ↦ absurd (has-nil y waiting)
]
reached-black w h start m inv (child {x} {y} {o} r at_x in_o nz) =
    elim (inv.shaded x y o (reached-black w h start m inv r) at_x in_o nz) [
      | inl is_black ↦ is_black
      | inr waiting ↦ absurd (has-nil y waiting)
    ]
