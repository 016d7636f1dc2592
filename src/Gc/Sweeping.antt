-- ===== src/Gc/Sweeping.antt =====
-- The `ReadyToSweep` phase: which objects are kept and which are freed.
use rapidus.Prelude.{
  ℕ, ◌+◌, ◌≡◌, refl, sym, subst, Bool, true, false, [], ◌∷◌, Option, none, some, ◌⊎◌, inl, inr,
  if◌then◌else◌, ◌==◌, at, put, at-put, arith, Bool-cases, Option-cases,
}
use rapidus.Gc.Pointers.{GcTarget}
use rapidus.Gc.Allocator.{
  MarkState, black, white, white2, flip_white, MarkMap, Memory, update, verdict, sweep,
}

-- No address has two marks, as in a hash map.
abbrev pub Distinct : MarkMap → Type 0
Distinct [] = Unit
Distinct ((p, c) ∷ m) = (at p m ≡ none) × Distinct m

pub put-Distinct : (r : ℕ) (c : MarkState) (m : MarkMap) → Distinct m → Distinct (put r c m)
unfolding put at
put-Distinct r c [] d = (refl, tt)
put-Distinct r c ((p, b) ∷ m) d = elim (Bool-cases (p == r)) [
  | inl same ↦ rw same (ground (arith, same), d.1)
  | inr other ↦ rw other (ground (arith, at-put r p c m, other), put-Distinct r c m d.1)
]

-- What the phase makes of a mark, and whether it frees the object.
abbrev pub after : MarkState → Option MarkState → Option MarkState
after w none = none
after w (some c) = verdict w c

abbrev pub is_freed : MarkState → Option MarkState → Bool
is_freed w none = false
is_freed w (some c) = elim (verdict w c) [ none ↦ true | some _ ↦ false ]

module _ (size_of : GcTarget → ℕ) (w : MarkState) where
  abbrev Keep : ℕ → MarkState → MarkMap → Memory → MarkMap → ℕ → Memory → Type 0
  Keep p c m h kept size h' =
      (c' : MarkState) × (kept' : MarkMap) × (verdict w c ≡ some c')
      × (sweep size_of w m h ≡ some (kept', size, h'))
      × (kept ≡ (p, c') ∷ kept')

  abbrev Free : ℕ → MarkState → MarkMap → Memory → MarkMap → ℕ → Memory → Type 0
  Free p c m h kept size h' =
      (o : GcTarget) × (size' : ℕ) × (verdict w c ≡ none)
      × (h p ≡ some o)
      × (sweep size_of w m (update h p none) ≡ some (kept, size', h'))
      × (size ≡ size_of o + size')

  sweep-cases :
      (p : ℕ) (c : MarkState) (m : MarkMap) (h : Memory) (kept : MarkMap) (size : ℕ) (h' : Memory)
      → sweep size_of w ((p, c) ∷ m) h ≡ some (kept, size, h')
      → Keep p c m h kept size h' ⊎ Free p c m h kept size h'
  unfolding sweep
  sweep-cases p c m h kept size h' e = elim (Option-cases (verdict w c)) [
    | inr (c', v) ↦ elim (Option-cases (sweep size_of w m h)) [
      | inl gone ↦ absurd (ground (arith, v, gone))
      | inr ((kept₁, size₁, h₁), rest) ↦
          inl (c', kept₁, v, ground (arith, v, rest), ground (arith, v, rest))
    ]
    | inl v ↦ elim (Option-cases (h p)) [
      | inl gone ↦ absurd (ground (arith, v, gone))
      | inr (o, at_p) ↦ elim (Option-cases (sweep size_of w m (update h p none))) [
        | inl gone ↦ absurd (ground (arith, v, at_p, gone))
        | inr ((kept₁, size₁, h₁), rest) ↦
            inr (o, size₁, v, at_p, ground (arith, v, at_p, rest), ground (arith, v, at_p, rest))
      ]
    ]
  ]

  -- The marks after the phase.
  pub at-sweep :
      (m : MarkMap) (h : Memory) (kept : MarkMap) (size : ℕ) (h' : Memory)
      → Distinct m
      → sweep size_of w m h ≡ some (kept, size, h')
      → (y : ℕ) → at y kept ≡ after w (at y m)
  unfolding at sweep
  at-sweep [] h kept size h' d e y = ground arith
  at-sweep ((p, c) ∷ m) h kept size h' d e y = elim (sweep-cases p c m h kept size h' e) [
    | inl (c', kept', v, rest, k) ↦ ground (arith, at-sweep m h kept' size h' d.1 rest y)
    | inr (o, size', v, at_p, rest, k) ↦
        ground (arith, at-sweep m (update h p none) kept size' h' d.1 rest y)
  ]

  -- The memory after the phase.
  pub memory-sweep :
      (m : MarkMap) (h : Memory) (kept : MarkMap) (size : ℕ) (h' : Memory)
      → Distinct m
      → sweep size_of w m h ≡ some (kept, size, h')
      → (y : ℕ) → h' y ≡ (if is_freed w (at y m) then none else h y)
  unfolding at sweep
  memory-sweep [] h kept size h' d e y = ground arith
  memory-sweep ((p, c) ∷ m) h kept size h' d e y = elim (sweep-cases p c m h kept size h' e) [
    | inl (c', kept', v, rest, k) ↦ ground (arith, memory-sweep m h kept' size h' d.1 rest y)
    | inr (o, size', v, at_p, rest, k) ↦
        ground (arith, memory-sweep m (update h p none) kept size' h' d.1 rest y)
  ]

  -- If every object to be freed is there, the phase does not panic.
  pub sweep_total :
      (m : MarkMap) (h : Memory)
      → Distinct m
      → ((y : ℕ) → is_freed w (at y m) ≡ true → (o : GcTarget) × (h y ≡ some o))
      → (kept : MarkMap) × (size : ℕ) × (h' : Memory) × (sweep size_of w m h
          ≡ some (kept, size, h'))
  unfolding at sweep
  sweep_total [] h d live = ([], 0, h, refl)
  sweep_total ((p, c) ∷ m) h d live = elim (Option-cases (verdict w c)) [
    | inr (c', v) ↦
        let (kept, size, h', rest) = sweep_total m h d.1 (λ y f. live y (ground (arith, d.0))) in
        ((p, c') ∷ kept, size, h', ground (arith, v, rest))
    | inl v ↦
        let (o, at_p) = live p (ground (arith, v)) in
        let (kept, size, h', rest) = sweep_total m (update h p none) d.1 (λ y f.
          let (o', at_y) = live y (ground (arith, d.0)) in (o', ground (arith, d.0, at_y))) in
        (kept, size_of o + size, h', ground (arith, v, at_p, rest))
  ]

  pub sweep-Distinct :
      (m : MarkMap) (h : Memory) (kept : MarkMap) (size : ℕ) (h' : Memory)
      → Distinct m
      → sweep size_of w m h ≡ some (kept, size, h')
      → Distinct kept
  unfolding at sweep
  sweep-Distinct [] h kept size h' d e = let nil : [] ≡ kept = ground arith in subst Distinct nil tt
  sweep-Distinct ((p, c) ∷ m) h kept size h' d e = elim (sweep-cases p c m h kept size h' e) [
    | inl (c', kept', v, rest, k) ↦
        let absent : at p kept' ≡ none =
          ground (arith, at-sweep m h kept' size h' d.1 rest p, d.0) in
        subst Distinct (sym k) (absent, sweep-Distinct m h kept' size h' d.1 rest)
    | inr (o, size', v, at_p, rest, k) ↦ sweep-Distinct m (update h p none) kept size' h' d.1 rest
  ]

-- The bytes behind the entries of a map.
unfoldable pub sizes : (GcTarget → ℕ) → MarkMap → Memory → ℕ
sizes size_of [] h = 0
sizes size_of ((p, c) ∷ m) h = (elim (h p) [ none ↦ 0 | some o ↦ size_of o ]) + sizes size_of m h

pub sizes-update :
    (size_of : GcTarget → ℕ) (m : MarkMap) (h : Memory) (p : ℕ) (o : Option GcTarget)
    → at p m ≡ none
    → sizes size_of m (update h p o) ≡ sizes size_of m h
unfolding sizes at
sizes-update size_of [] h p o gone = refl
sizes-update size_of ((q, c) ∷ m) h p o gone = ground (arith, sizes-update size_of m h p o)

-- The size that the phase reports is that of the objects that it frees.
pub sizes-sweep :
    (size_of : GcTarget → ℕ) (w : MarkState) (m : MarkMap) (h : Memory) (kept : MarkMap) (size : ℕ)
    (h' : Memory)
    → Distinct m
    → sweep size_of w m h ≡ some (kept, size, h')
    → sizes size_of m h ≡ size + sizes size_of kept h'
unfolding sizes sweep at
sizes-sweep size_of w [] h kept size h' d e = ground arith
sizes-sweep size_of w ((p, c) ∷ m) h kept size h' d e =
    elim (sweep-cases size_of w p c m h kept size h' e) [
      | inl (c', kept', v, rest, k) ↦
          let stays : h' p ≡ h p =
            ground (arith, memory-sweep size_of w m h kept' size h' d.1 rest p, d.0) in
          ground (arith, sizes-sweep size_of w m h kept' size h' d.1 rest, stays)
      | inr (o, size', v, at_p, rest, k) ↦ ground (
        arith,
        sizes-sweep size_of w m (update h p none) kept size' h' d.1 rest,
        sizes-update size_of m h p none d.0,
      )
    ]

pub verdict-cases :
    (w : MarkState)
    → (w ≡ white) ⊎ (w ≡ white2)
    → (verdict (flip_white w) black ≡ some (flip_white w)) × (verdict (flip_white w) w ≡ none)
unfolding flip_white verdict
verdict-cases w o = ground arith
