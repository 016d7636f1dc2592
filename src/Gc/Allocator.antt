-- ===== src/Gc/Allocator.antt =====
-- The state of the collector and its methods.
use rapidus.Prelude.{
  ℕ, ◌+◌, ◌-◌, Bool, true, false, ◌||◌, List, [], ◌∷◌, ◌++◌, Option, none, some, if◌then◌else◌,
  ◌==◌, ltb, at, put,
}
use rapidus.JsValue.Value.{Value}
use rapidus.Env.{ExecContext}
use rapidus.Constant.{ConstantTable}
use rapidus.Gc.Sets.{add, union}
use rapidus.Gc.Pointers.{GcTarget, pointers, value_pointers, context_pointers, table_pointers}

pub data MarkState : Type 0 where
  white white2 gray black never_released : MarkState

pub data GcState : Type 0 where
  initial marking ready_to_sweep : GcState

unfoldable pub flip_white : MarkState → MarkState
flip_white white = white2
flip_white white2 = white
flip_white otherwise = otherwise

abbrev pub mark_eq : MarkState → MarkState → Bool
mark_eq white white = true
mark_eq white2 white2 = true
mark_eq gray gray = true
mark_eq black black = true
mark_eq never_released never_released = true
mark_eq _ _ = false

-- `MarkMap`, keyed by address.
abbrev pub MarkMap : Type 0
MarkMap = List (ℕ × MarkState)

abbrev pub MarkSet : Type 0
MarkSet = List ℕ

-- The memory: which address holds which object.
abbrev pub Memory : Type 0
Memory = ℕ → Option GcTarget

abbrev pub update : Memory → ℕ → Option GcTarget → Memory
update h p o q = if p == q then o else h q

pub record MemoryAllocator : Type 0 where
  pub allocated_memory : MarkMap
  pub allocated_size : ℕ
  pub collected_size : ℕ
  pub roots : MarkSet
  pub locked : MarkSet
  pub state : GcState
  pub current_white : MarkState
  pub counter : ℕ

abbrev pub new : MemoryAllocator
new = record {
  allocated_memory = [];
  allocated_size = 0;
  collected_size = 0;
  roots = [];
  locked = [];
  state = initial;
  current_white = white;
  counter = 0;
}

-- The arguments of `mark`: where the program's own pointers are.
pub record Program : Type 0 where
  pub global : ℕ
  pub object_prototype : Value
  pub function_prototype : Value
  pub string_prototype : Value
  pub array_prototype : Value
  pub constant_table : ConstantTable
  pub cur_context : ExecContext
  pub saved_context : List ExecContext

-- `mark!` on each pointer of a list.
unfoldable pub mark_all : List ℕ → MarkSet → MarkSet
unfolding add
mark_all [] s = s
mark_all (p ∷ ps) s = mark_all ps (if p == 0 then s else add p s)

-- `mark_if_white!` on each pointer of a list: the objects that have the white of the cycle before.
unfoldable pub mark_if_white : MarkMap → MarkState → List ℕ → MarkSet → Option MarkSet
unfolding add at flip_white
mark_if_white m w [] s = some s
mark_if_white m w (p ∷ ps) s = elim (p == 0) [
  | true ↦ mark_if_white m w ps s
  | false ↦ elim (at p m) [
    | none ↦ none
    | some mark ↦ mark_if_white m w ps (if mark_eq mark (flip_white w) then add p s else s)
  ]
]

contexts_pointers : List ExecContext → List ℕ
unfolding context_pointers value_pointers
contexts_pointers [] = []
contexts_pointers (c ∷ cs) = context_pointers c ++ (value_pointers c.this ++ contexts_pointers cs)

-- What the `Initial` phase traces, besides what the global environment holds.
unfoldable pub program_pointers : Program → List ℕ
unfolding context_pointers value_pointers table_pointers contexts_pointers
program_pointers g =
    context_pointers g.cur_context
    ++ (value_pointers g.cur_context.this
        ++ (value_pointers g.object_prototype
            ++ (value_pointers g.function_prototype
                ++ (value_pointers g.string_prototype
                    ++ (value_pointers g.array_prototype
                        ++ (table_pointers g.constant_table
                            ++ contexts_pointers g.saved_context))))))

-- The set of the `Initial` phase. The global environment is inserted without the test for null.
unfoldable pub start_set : Program → Memory → Option MarkSet
unfolding add mark_all pointers program_pointers
start_set g h = elim (h g.global) [
  | none ↦ none
  | some env ↦ some (mark_all (program_pointers g) (mark_all (pointers env) (add g.global [])))
]

-- The loop over the roots in the `Marking` phase.
unfoldable pub mark_roots :
    MarkState → Memory → MarkSet → MarkMap → MarkSet → Option (MarkMap × MarkSet)
unfolding mark_if_white put pointers
mark_roots w h [] m s = some (m, s)
mark_roots w h (r ∷ rs) m s = elim (h r) [
  | none ↦ none
  | some o ↦ elim (mark_if_white (put r black m) w (pointers o) s) [
    | none ↦ none
    | some s' ↦ mark_roots w h rs (put r black m) s'
  ]
]

-- What `retain` does with an object: keep it under a mark, or free it.
unfoldable pub verdict : MarkState → MarkState → Option MarkState
verdict w mark =
    if mark_eq mark black || mark_eq mark never_released
    then some w
    else if mark_eq mark w
    then some mark
    else none

-- The size of an object, which the compiler fixes for each of the three types, is a parameter.
module _ (size_of : GcTarget → ℕ) where
  -- The `retain` of the `ReadyToSweep` phase: the map that is left, the size freed and the memory.
  unfoldable pub sweep : MarkState → MarkMap → Memory → Option (MarkMap × ℕ × Memory)
  unfolding verdict
  sweep w [] h = some ([], 0, h)
  sweep w ((p, mark) ∷ rest) h = elim (verdict w mark) [
    | some mark' ↦ elim (sweep w rest h) [
      | none ↦ none
      | some (kept, size, h') ↦ some ((p, mark') ∷ kept, size, h')
    ]
    | none ↦ elim (h p) [
      | none ↦ none
      | some o ↦ elim (sweep w rest (update h p none)) [
        | none ↦ none
        | some (kept, size, h') ↦ some (kept, size_of o + size, h')
      ]
    ]
  ]

  -- A phase of `mark`, behind its counter.
  unfoldable pub phase :
      GcState → Program → MemoryAllocator → Memory → Option (MemoryAllocator × Memory)
  unfolding start_set mark_roots sweep union flip_white
  phase initial g a h = elim (start_set g h) [
    | none ↦ none
    | some markset ↦ some (
      record a {
        current_white = flip_white a.current_white;
        roots = union markset a.locked;
        state = marking;
      },
      h,
    )
  ]
  phase marking g a h = elim (mark_roots a.current_white h a.roots a.allocated_memory []) [
    | none ↦ none
    | some (m, markset) ↦ some (
      record a {
        allocated_memory = m;
        roots = markset;
        state = elim markset [ [] ↦ ready_to_sweep | _ ∷ _ ↦ marking ];
      },
      h,
    )
  ]
  phase ready_to_sweep g a h = elim (sweep a.current_white a.allocated_memory h) [
    | none ↦ none
    | some (kept, size, h') ↦ some (
      record a {
        allocated_memory = kept;
        collected_size = a.collected_size + size;
        allocated_size = a.allocated_size - size;
        state = initial;
      },
      h',
    )
  ]

  unfoldable pub step : Program → MemoryAllocator → Memory → Option (MemoryAllocator × Memory)
  unfolding phase
  step g a h = phase a.state g a h

  -- Only every hundredth call does something.
  unfoldable pub mark : Program → MemoryAllocator → Memory → Option (MemoryAllocator × Memory)
  unfolding step
  mark g a h =
      if ltb (a.counter + 1) 100
      then some (record a { counter = a.counter + 1 }, h)
      else step g (record a { counter = 0 }) h

  -- `alloc`, at the address `p` that the system allocator chose.
  unfoldable pub alloc : ℕ → GcTarget → MemoryAllocator → Memory → MemoryAllocator × Memory
  unfolding put
  alloc p o a h = (
    record a {
      allocated_size = a.allocated_size + size_of o;
      allocated_memory = put p a.current_white a.allocated_memory;
    },
    update h p (some o),
  )
