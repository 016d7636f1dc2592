-- ===== src/Gc/Cycle/Rounds.antt =====
-- The `Marking` phases of src/gc.rs, one after another, and their number.
use rapidus.Prelude.{
  ℕ, zero, suc, ◌+◌, ◌*◌, ◌≤◌, ◌<◌, ◌≡◌, ◌≢◌, true, [], ◌∷◌, some, inl, inr, ◌&&◌, arith,
  Bool-cases,
}
use rapidus.Gc.Sets.{has}
use rapidus.Gc.Pointers.{GcTarget, pointers}
use rapidus.Gc.Allocator.{
  MarkMap, MarkSet, Memory, MemoryAllocator, Program, marking, ready_to_sweep, mark_roots, step,
  GcState,
}
use rapidus.Gc.Marking.{is_old, IsWhite}
use rapidus.Gc.Counting.{count_old, count_old-le, count_old-lt}
use rapidus.Gc.Cycle.{iterate}
use rapidus.Gc.Cycle.Invariant.{
  IsMarking, IsMarking-step, next-is_old, next_still_old, mark_roots_runs,
}

has-head : (y : ℕ) (s : MarkSet) → has y (y ∷ s) ≡ true
unfolding has
has-head y s = ground arith

-- The allocator in a `Marking` phase.
abbrev pub with_marks : MemoryAllocator → MarkMap → MarkSet → GcState → MemoryAllocator
with_marks a m grey s = record a { allocated_memory = m; roots = grey; state = s }

module _ (size_of : GcTarget → ℕ) (g : Program) (a : MemoryAllocator) (h : Memory) (start : MarkSet)
    (iw : IsWhite a.current_white)
    (near : (x y : ℕ) (o : GcTarget)
      → h x ≡ some o
      → has y (pointers o) ≡ true
      → y ≢ 0
      → (o' : GcTarget) × (h y ≡ some o')) where
  -- The phases from here on end with no root left, within `bound` calls.
  abbrev pub Ends : ℕ → MarkMap → MarkSet → Type 0
  Ends bound m grey =
      (n : ℕ) × (m' : MarkMap) × (iterate size_of n g (with_marks a m grey marking) h
        ≡ some (with_marks a m' [] ready_to_sweep, h))
      × IsMarking a.current_white h start m' []
      × (n ≤ bound)

  module _ (m : MarkMap) (grey : MarkSet) (m' : MarkMap) where
    last_round :
        mark_roots a.current_white h grey m [] ≡ some (m', [])
        → step size_of g (with_marks a m grey marking) h
          ≡ some (with_marks a m' [] ready_to_sweep, h)
    unfolding step
    last_round e = rw e

    next_round :
        (y : ℕ) (rest : MarkSet)
        → mark_roots a.current_white h grey m [] ≡ some (m', y ∷ rest)
        → step size_of g (with_marks a m grey marking) h
          ≡ some (with_marks a m' (y ∷ rest) marking, h)
    unfolding step
    next_round y rest e = rw e

  Ends-last :
      (bound : ℕ) (m : MarkMap) (grey : MarkSet) (m' : MarkMap)
      → IsMarking a.current_white h start m grey
      → mark_roots a.current_white h grey m [] ≡ some (m', [])
      → 1 ≤ bound
      → Ends bound m grey
  unfolding iterate step
  Ends-last bound m grey m' inv e le = (
    1,
    m',
    rw (last_round m grey m' e),
    IsMarking-step a.current_white h start iw near m grey m' [] inv e,
    le,
  )

  Ends-next :
      (bound : ℕ) (m : MarkMap) (grey : MarkSet) (m' : MarkMap) (y : ℕ) (rest : MarkSet)
      → mark_roots a.current_white h grey m [] ≡ some (m', y ∷ rest)
      → Ends bound m' (y ∷ rest)
      → Ends (suc bound) m grey
  unfolding iterate step
  Ends-next bound m grey m' y rest e (n, m'', runs, inv, le) =
      (suc n, m'', rw (next_round m grey m' y rest e) runs, inv, omega arith)

  weaken : (b b' : ℕ) (m : MarkMap) (grey : MarkSet) → b ≤ b' → Ends b m grey → Ends b' m grey
  weaken b b' m grey le (n, m', runs, inv, le') = (n, m', runs, inv, omega arith)

  module _ (k : ℕ)
      (smaller : (m : MarkMap) (grey : MarkSet)
        → IsMarking a.current_white h start m grey
        → count_old a.current_white m < k
        → Ends (2 * k) m grey) where
    -- The phase after one whose roots were all black already: it has an old object among its roots.
    second :
        (m : MarkMap) (y : ℕ) (rest : MarkSet) (m' : MarkMap) (grey' : MarkSet)
        → IsMarking a.current_white h start m (y ∷ rest)
        → is_old a.current_white m y ≡ true
        → count_old a.current_white m ≤ k
        → mark_roots a.current_white h (y ∷ rest) m [] ≡ some (m', grey')
        → Ends (2 * k + 1) m (y ∷ rest)
    second m y rest m' [] inv old le e = Ends-last (2 * k + 1) m (y ∷ rest) m' inv e (omega arith)
    second m y rest m' (z ∷ more) inv old le e =
        let fewer =
          count_old-lt a.current_white h iw (y ∷ rest) m [] m' (z ∷ more) e y (has-head y rest)
            old in
        let inv' =
          IsMarking-step a.current_white h start iw near m (y ∷ rest) m' (z ∷ more) inv e in
        weaken _ _ m (y ∷ rest) (omega arith)
          (Ends-next (2 * k) m (y ∷ rest) m' z more e (smaller m' (z ∷ more) inv' (omega arith)))

    first :
        (m : MarkMap) (grey : MarkSet) (m' : MarkMap) (grey' : MarkSet)
        → IsMarking a.current_white h start m grey
        → count_old a.current_white m ≤ k
        → mark_roots a.current_white h grey m [] ≡ some (m', grey')
        → Ends (2 * k + 2) m grey
    first m grey m' [] inv le e = Ends-last (2 * k + 2) m grey m' inv e (omega arith)
    first m grey m' (y ∷ rest) inv le e =
        let inv' = IsMarking-step a.current_white h start iw near m grey m' (y ∷ rest) inv e in
        let no_more = count_old-le a.current_white h iw grey m [] m' (y ∷ rest) e in
        elim (Bool-cases (has y grey && is_old a.current_white m y)) [
          | inl fresh ↦
              let fewer =
                count_old-lt a.current_white h iw grey m [] m' (y ∷ rest) e y (ground arith)
                  (ground arith) in
              weaken _ _ m grey (omega arith)
                (Ends-next (2 * k) m grey m' y rest e (smaller m' (y ∷ rest) inv' (omega arith)))
          | inr stale ↦
              let was_old =
                next-is_old a.current_white h start iw near m grey m' (y ∷ rest) inv e y
                  (has-head y rest) in
              let still_old =
                next_still_old a.current_white h start iw near m grey m' (y ∷ rest) inv e y
                  (has-head y rest) (ground arith) in
              let (m'', grey'', e') =
                mark_roots_runs a.current_white h start iw near m' (y ∷ rest) inv' in
              weaken _ _ m grey (omega arith) (
                Ends-next (2 * k + 1) m grey m' y rest e
                  (second m' y rest m'' grey'' inv' still_old (omega arith) e'))
        ]

  -- From any state of the `Marking` phases with at most `k` old white objects, the phases end within
  -- `2 * k + 2` calls.
  pub marking-Ends :
      (k : ℕ) (m : MarkMap) (grey : MarkSet)
      → IsMarking a.current_white h start m grey
      → count_old a.current_white m ≤ k
      → Ends (2 * k + 2) m grey
  marking-Ends zero m grey inv le =
      let (m', grey', e) = mark_roots_runs a.current_white h start iw near m grey inv in
      first zero (λ m₁ grey₁ inv₁ lt. absurd (omega arith)) m grey m' grey' inv le e
  marking-Ends (suc k) m grey inv le =
      let (m', grey', e) = mark_roots_runs a.current_white h start iw near m grey inv in
      let ih = marking-Ends k in
      first (suc k)
        (λ m₁ grey₁ inv₁ lt. weaken _ _ m₁ grey₁ (omega arith) (ih m₁ grey₁ inv₁ (omega arith))) m
        grey m' grey' inv le e
