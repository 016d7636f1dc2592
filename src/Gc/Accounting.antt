-- ===== src/Gc/Accounting.antt =====
-- The sizes that the allocator counts.
use rapidus.Prelude.{
  ℕ, ◌+◌, ◌≡◌, ap, ◌∙◌, true, [], ◌∷◌, none, some, inl, inr, ◌==◌, at, put, at-put, arith,
  Bool-cases, Option-cases,
}
use rapidus.Gc.Sets.{has}
use rapidus.Gc.Pointers.{GcTarget}
use rapidus.Gc.Allocator.{
  MarkState, black, MarkMap, MarkSet, Memory, MemoryAllocator, Program, GcState, initial, marking,
  ready_to_sweep, step, phase, start_set, mark_roots, sweep, alloc, update,
}
use rapidus.Gc.Marking.{mark_roots-Round}
use rapidus.Gc.Sweeping.{Distinct, sizes, sizes-sweep, sizes-update}

-- The roots have marks.
abbrev pub AreMarked : MarkMap → MarkSet → Type 0
AreMarked m s = (y : ℕ) → has y s ≡ true → (c : MarkState) × (at y m ≡ some c)

equal : (p r : ℕ) → (p == r) ≡ true → p ≡ r
equal p r e = ground arith

module _ (size_of : GcTarget → ℕ) where
  -- Another mark for an object that has one.
  sizes-put :
      (r : ℕ) (b c : MarkState) (m : MarkMap) (h : Memory)
      → at r m ≡ some c
      → sizes size_of (put r b m) h ≡ sizes size_of m h
  unfolding at put sizes
  sizes-put r b c [] h e = absurd (ground arith)
  sizes-put r b c ((p, d) ∷ m) h e = elim (Bool-cases (p == r)) [
    | inl same ↦ ground (arith, ap h (equal p r same))
    | inr other ↦ ground (arith, sizes-put r b c m h (ground arith))
  ]

  sizes-new :
      (r : ℕ) (b : MarkState) (m : MarkMap) (h : Memory)
      → at r m ≡ none
      → sizes size_of (put r b m) h
        ≡ (elim (h r) [ none ↦ 0 | some o ↦ size_of o ]) + sizes size_of m h
  unfolding at put sizes
  sizes-new r b [] h e = ground arith
  sizes-new r b ((p, d) ∷ m) h e = ground (arith, sizes-new r b m h (ground arith))

  sizes-mark_roots :
      (w : MarkState) (h : Memory) (rs : MarkSet) (m : MarkMap) (s : MarkSet) (m' : MarkMap)
      (s' : MarkSet)
      → AreMarked m rs
      → mark_roots w h rs m s ≡ some (m', s')
      → sizes size_of m' h ≡ sizes size_of m h
  unfolding mark_roots has
  sizes-mark_roots w h [] m s m' s' marked e = ap (λ x. sizes size_of x h) (ground arith)
  sizes-mark_roots w h (r ∷ rs) m s m' s' marked e =
      let (o, s₁, at_r, traced, rest) = mark_roots-Round w h r rs m s m' s' e in
      let (c, has_mark) = marked r (ground arith) in
      sizes-mark_roots w h rs (put r black m) s₁ m' s' (λ y i. later y i (marked y (ground arith)))
        rest
      ∙ sizes-put r black c m h has_mark
    where
      later :
          (y : ℕ)
          → has y rs ≡ true
          → (c : MarkState) × (at y m ≡ some c)
          → (c : MarkState) × (at y (put r black m) ≡ some c)
      later y i (c, e') = elim (Bool-cases (r == y)) [
        | inl same ↦ (black, ground (arith, at-put r y black m))
        | inr other ↦ (c, ground (arith, at-put r y black m))
      ]

-- The counted sizes are right: what is allocated is the size of the objects that the allocator has.
abbrev pub IsAccounted : (GcTarget → ℕ) → MemoryAllocator → Memory → Type 0
IsAccounted size_of a h = a.allocated_size ≡ sizes size_of a.allocated_memory h

module _ (size_of : GcTarget → ℕ) (g : Program) where
  -- The three phases.
  phase-accounting :
      (s : GcState) (a a' : MemoryAllocator) (h h' : Memory)
      → phase size_of s g a h ≡ some (a', h')
      → Distinct a.allocated_memory
      → AreMarked a.allocated_memory a.roots
      → IsAccounted size_of a h
      → IsAccounted size_of a' h'
        × (a'.allocated_size + a'.collected_size ≡ a.allocated_size + a.collected_size)
  unfolding phase
  phase-accounting initial a a' h h' e d marked acc = elim (Option-cases (start_set g h)) [
    | inl stuck ↦ absurd (ground (arith, stuck))
    | inr (s, found) ↦ (ground (arith, found), ground (arith, found))
  ]
  phase-accounting marking a a' h h' e d marked acc =
      elim (Option-cases (mark_roots a.current_white h a.roots a.allocated_memory [])) [
        | inl stuck ↦ absurd (ground (arith, stuck))
        | inr ((m, s), found) ↦
            let same =
              sizes-mark_roots size_of a.current_white h a.roots a.allocated_memory [] m s marked
                found in
            (ground (arith, found, same), ground (arith, found))
      ]
  phase-accounting ready_to_sweep a a' h h' e d marked acc =
      elim (Option-cases (sweep size_of a.current_white a.allocated_memory h)) [
        | inl stuck ↦ absurd (ground (arith, stuck))
        | inr ((kept, size, h₁), found) ↦
            let freed =
              sizes-sweep size_of a.current_white a.allocated_memory h kept size h₁ d found in
            (ground (arith, found, freed), ground (arith, found, freed))
      ]

-- A phase of a collection, whichever is due, keeps the counted size right: if it was the size of the
-- objects in the map, it still is, and what the phase frees moves from the allocated size to the
-- collected size. The map has each address once and the roots have marks.
pub step-IsAccounted :
    (size_of : GcTarget → ℕ) (g : Program) (a a' : MemoryAllocator) (h h' : Memory)
    → step size_of g a h ≡ some (a', h')
    → Distinct a.allocated_memory
    → AreMarked a.allocated_memory a.roots
    → IsAccounted size_of a h
    → IsAccounted size_of a' h'
      × (a'.allocated_size + a'.collected_size ≡ a.allocated_size + a.collected_size)
unfolding step
step-IsAccounted size_of g a a' h h' e d marked acc =
    phase-accounting size_of g a.state a a' h h' e d marked acc

-- An allocation at an address that is not in use keeps the counted size right.
pub alloc-IsAccounted :
    (size_of : GcTarget → ℕ) (p : ℕ) (o : GcTarget) (a : MemoryAllocator) (h : Memory)
    → at p a.allocated_memory ≡ none
    → IsAccounted size_of a h
    → IsAccounted size_of (alloc size_of p o a h).0 (alloc size_of p o a h).1
unfolding alloc
alloc-IsAccounted size_of p o a h fresh acc =
    let new = sizes-new size_of p a.current_white a.allocated_memory (update h p (some o)) fresh in
    let old = sizes-update size_of a.allocated_memory h p (some o) fresh in ground (arith, new, old)
