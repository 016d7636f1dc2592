-- ===== src/Gc/Cycle.antt =====
-- A collection while the program does not touch the memory: from `Initial` through the `Marking`
-- phases and the sweep back to `Initial`.
pub mod Invariant
pub mod Rounds
pub mod Collect
pub mod Calls
use rapidus.Prelude.{
  ℕ, zero, suc, ◌+◌, ◌≡◌, ◌≢◌, Bool, true, List, Option, none, some, ◌⊎◌, at, Option-cases, ap,
  arith, inl, inr,
}
use Prim.Native.Nat.add
use rapidus.Gc.Sets.{has}
use rapidus.Gc.Pointers.{GcTarget, pointers}
use rapidus.Gc.Allocator.{
  MarkState, white, white2, MarkMap, MarkSet, Memory, MemoryAllocator, Program, step,
}
use rapidus.Gc.Sweeping.{Distinct}

-- The objects that the traversals reach from a set of roots.
pub data Reach (h : Memory) (roots : MarkSet) : ℕ → Type 0 where
  root : {y : ℕ} → has y roots ≡ true → Reach h roots y
  child :
      {x y : ℕ} {o : GcTarget}
      → Reach h roots x
      → h x ≡ some o
      → has y (pointers o) ≡ true
      → y ≢ 0
      → Reach h roots y

-- Marks and memory between two collections: every object has the current white, and what an object
-- points to is there.
pub record IsSettled (a : MemoryAllocator) (h : Memory) : Type 0 where
  pub is_white : (a.current_white ≡ white) ⊎ (a.current_white ≡ white2)
  pub uniform : (y : ℕ) (c : MarkState) → at y a.allocated_memory ≡ some c → c ≡ a.current_white
  pub distinct : Distinct a.allocated_memory
  pub marked :
      (y : ℕ) (o : GcTarget) → h y ≡ some o → (c : MarkState) × (at y a.allocated_memory ≡ some c)
  pub backed :
      (y : ℕ) (c : MarkState) → at y a.allocated_memory ≡ some c → (o : GcTarget) × (h y ≡ some o)
  pub closed :
      (x y : ℕ) (o : GcTarget)
      → h x ≡ some o
      → has y (pointers o) ≡ true
      → y ≢ 0
      → (o' : GcTarget) × (h y ≡ some o')

-- `n` calls of `mark` that do something.
unfoldable pub iterate :
    (GcTarget → ℕ) → ℕ → Program → MemoryAllocator → Memory → Option (MemoryAllocator × Memory)
iterate size_of zero g a h = some (a, h)
iterate size_of (suc n) g a h = elim (step size_of g a h) [
  | none ↦ none
  | some (a', h') ↦ iterate size_of n g a' h'
]

no_steps : {r : MemoryAllocator × Memory} → none ≡ some r → ⊥
no_steps e = cc

pub iterate-append :
    (size_of : GcTarget → ℕ) (n k : ℕ) (g : Program) (a a' : MemoryAllocator) (h h' : Memory)
    → iterate size_of n g a h ≡ some (a', h')
    → iterate size_of (n + k) g a h ≡ iterate size_of k g a' h'
unfolding iterate
iterate-append size_of zero k g a a' h h' e =
    let same : (a, h) ≡ (a', h') = ground arith in
    rw add.zero (ap (λ (r : MemoryAllocator × Memory). iterate size_of k g r.0 r.1) same)
iterate-append size_of (suc n) k g a a' h h' e = elim (Option-cases (step size_of g a h)) [
  | inl stuck ↦ absurd (no_steps (rw (stuck, iterate) at e))
  | inr ((a₁, h₁), first) ↦
      rw (add.suc, first, iterate)
        (iterate-append size_of n k g a₁ a' h₁ h' (rw (first, iterate) at e))
]
