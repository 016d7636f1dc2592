-- ===== src/Gc/Cycle/Calls.antt =====
-- The counter in front of the phases: which calls of `mark` do something.
use rapidus.Prelude.{
  ℕ, zero, suc, ◌+◌, ◌*◌, ◌<◌, ◌≡◌, refl, sym, ap, ◌∙◌, Option, none, some, [], arith, Option-cases,
  inl, inr,
}
use rapidus.Gc.Pointers.{GcTarget}
use rapidus.Gc.Allocator.{
  MemoryAllocator, Memory, Program, GcState, initial, marking, ready_to_sweep, step, mark, phase,
  start_set, mark_roots, sweep,
}
use rapidus.Gc.Cycle.{iterate}

module _ (size_of : GcTarget → ℕ) (g : Program) where
  -- `n` calls of `mark`.
  unfoldable pub calls : ℕ → MemoryAllocator → Memory → Option (MemoryAllocator × Memory)
  calls zero a h = some (a, h)
  calls (suc n) a h = elim (mark size_of g a h) [ none ↦ none | some (a', h') ↦ calls n a' h' ]

  abbrev counted : MemoryAllocator → ℕ → MemoryAllocator
  counted a n = record a { counter = n }

  mark-idle :
      (a : MemoryAllocator) (h : Memory)
      → a.counter + 1 < 100
      → mark size_of g a h ≡ some (counted a (a.counter + 1), h)
  unfolding mark
  mark-idle a h lt = ground arith

  mark-works :
      (a : MemoryAllocator) (h : Memory)
      → a.counter ≡ 99
      → mark size_of g a h ≡ step size_of g (counted a 0) h
  unfolding mark
  mark-works a h e = ground arith

  phase-counter :
      (s : GcState) (a a' : MemoryAllocator) (h h' : Memory)
      → phase size_of s g a h ≡ some (a', h')
      → a'.counter ≡ a.counter
  unfolding phase
  phase-counter initial a a' h h' e = elim (Option-cases (start_set g h)) [
    | inl stuck ↦ absurd (ground (arith, stuck))
    | inr (s, found) ↦ ground (arith, found)
  ]
  phase-counter marking a a' h h' e =
      elim (Option-cases (mark_roots a.current_white h a.roots a.allocated_memory [])) [
        | inl stuck ↦ absurd (ground (arith, stuck))
        | inr ((m, s), found) ↦ ground (arith, found)
      ]
  phase-counter ready_to_sweep a a' h h' e =
      elim (Option-cases (sweep size_of a.current_white a.allocated_memory h)) [
        | inl stuck ↦ absurd (ground (arith, stuck))
        | inr ((m, s, h₁), found) ↦ ground (arith, found)
      ]

  -- `k` idle calls.
  calls-idle :
      (k n m c : ℕ) (a : MemoryAllocator) (h : Memory)
      → m ≡ k + n
      → c ≡ a.counter + k
      → c < 100
      → calls m a h ≡ calls n (counted a c) h
  unfolding calls
  calls-idle zero n m c a h e f lt =
      let same : m ≡ n = omega arith in
      let count : a.counter ≡ c = omega arith in
      ap (λ x. calls x a h) same ∙ ap (λ x. calls n (counted a x) h) count
  calls-idle (suc k) n m c a h e f lt =
      let more : m ≡ suc (k + n) = omega arith in
      let later = calls-idle k n (k + n) c (counted a (a.counter + 1)) h refl (omega arith) lt in
      ap (λ x. calls x a h) more ∙ rw (calls, mark-idle a h (omega arith)) later

  calls-hundred :
      (n : ℕ) (a : MemoryAllocator) (h : Memory)
      → a.counter ≡ 0
      → calls (100 + n) a h
        ≡ elim (step size_of g a h) [ none ↦ none | some (a', h') ↦ calls n a' h' ]
  unfolding calls step
  calls-hundred n a h e =
      let reset : counted a 0 ≡ a = ap (counted a) (sym e) in
      calls-idle 99 (suc n) (100 + n) 99 a h (omega arith) (omega arith) (omega arith)
      ∙ rw (calls, mark-works (counted a 99) h refl, reset) refl

  calls-iterate_lem :
      (n m : ℕ) (a : MemoryAllocator) (h : Memory)
      → m ≡ 100 * n
      → a.counter ≡ 0
      → calls m a h ≡ iterate size_of n g a h
  unfolding calls iterate
  calls-iterate_lem zero m a h e f = ap (λ x. calls x a h) e
  calls-iterate_lem (suc n) m a h e f =
      let rounds : m ≡ 100 + 100 * n = omega arith in
      ap (λ x. calls x a h) rounds
      ∙ (calls-hundred (100 * n) a h f ∙ (elim (Option-cases (step size_of g a h)) [
        | inl stuck ↦ rw (stuck, iterate) refl
        | inr ((a', h'), e') ↦
            rw (e', iterate)
              (calls-iterate_lem n (100 * n) a' h' refl
                (unfold step in phase-counter a.state a a' h h' e' ∙ f))
      ]))

-- From a counter that is 0, `100 * n` calls of `mark` leave the allocator and the memory as `n` phases
-- do, and panic if one of the phases does.
pub calls-iterate :
    (size_of : GcTarget → ℕ) (g : Program) (n : ℕ) (a : MemoryAllocator) (h : Memory)
    → a.counter ≡ 0
    → calls size_of g (100 * n) a h ≡ iterate size_of n g a h
calls-iterate size_of g n a h f = calls-iterate_lem size_of g n (100 * n) a h refl f
