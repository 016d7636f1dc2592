-- ===== src/Gc/Roots.antt =====
-- The methods by which the program keeps objects alive during a collection.
use rapidus.Prelude.{ℕ, [], Option, none, some}
use rapidus.JsValue.Value.{Value}
use rapidus.Gc.Sets.{union, minus}
use rapidus.Gc.Pointers.{GcTarget, pointers, value_pointers}
use rapidus.Gc.Allocator.{MemoryAllocator, Memory, mark_all}

-- `gray`: what the object at an address points to becomes a root.
unfoldable pub gray : ℕ → MemoryAllocator → Memory → Option MemoryAllocator
unfolding mark_all pointers
gray p a h = elim (h p) [
  | none ↦ none
  | some o ↦ some (record a { roots = mark_all (pointers o) a.roots })
]

-- `gray2`: what a value points to becomes a root.
unfoldable pub gray2 : Value → MemoryAllocator → MemoryAllocator
unfolding mark_all value_pointers
gray2 v a = record a { roots = mark_all (value_pointers v) a.roots }

unfoldable pub lock : GcTarget → MemoryAllocator → MemoryAllocator
unfolding mark_all pointers union
lock val a =
    let locked' = mark_all (pointers val) a.locked in
    record a { locked = locked'; roots = union a.roots locked' }

unfoldable pub unlock : GcTarget → MemoryAllocator → MemoryAllocator
unfolding mark_all pointers minus
unlock val a = record a { locked = minus a.locked (mark_all (pointers val) []) }
