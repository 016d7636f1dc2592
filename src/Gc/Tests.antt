-- ===== src/Gc/Tests.antt =====
-- A memory of four objects, and the theorems at it.
use rapidus.Prelude.{
  ℕ, ◌+◌, ◌*◌, ◌≤◌, ◌≡◌, refl, true, false, [], ◌∷◌, none, some, inl, inr, at, arith, length,
  Option-cases, if◌then◌else◌, ◌==◌,
}
use rapidus.JsValue.Value.{Value, null, undefined}
use rapidus.JsValue.Object.{ordinary}
use rapidus.Env
use rapidus.Env.{ExecContext}
use rapidus.Constant
use rapidus.Gc.Sets.{has, union}
use rapidus.Gc.Pointers.{GcTarget, environment, object_info, pointers}
use rapidus.Gc.Allocator.{white, MarkMap, Memory, MemoryAllocator, Program, initial, start_set}
use rapidus.Gc.Cycle.{IsSettled, iterate}
use rapidus.Gc.Sweeping.{sizes}
use rapidus.Gc.Allocator.{step, alloc, update, white2, ready_to_sweep}
use rapidus.Gc.Accounting.{IsAccounted, step-IsAccounted, alloc-IsAccounted}
use rapidus.Gc.Cycle.Calls.{calls, calls-iterate}
use rapidus.Gc.Cycle.Collect.{Collected, collect}

abbrev plain_object : Value → GcTarget
plain_object proto =
    object_info (record { kind = ordinary; prototype = proto; property = []; sym_property = [] })

-- The global environment at 1 binds `x` to the object at 2, whose prototype is the object at 3; the
-- object at 4 is garbage.
abbrev global_environment : GcTarget
global_environment =
    environment (record { bindings = Env.declarative (("x", Value.object 2) ∷ []); outer = none })

abbrev sample_memory : Memory
sample_memory y =
    if 1 == y
    then some global_environment
    else if 2 == y
    then some (plain_object (Value.object 3))
    else if 3 == y
    then some (plain_object null)
    else if 4 == y
    then some (plain_object null)
    else none

abbrev sample_marks : MarkMap
sample_marks = (1, white) ∷ (2, white) ∷ (3, white) ∷ (4, white) ∷ []

abbrev sample_allocator : MemoryAllocator
sample_allocator = record {
  allocated_memory = sample_marks;
  allocated_size = 160;
  collected_size = 0;
  roots = [];
  locked = [];
  state = initial;
  current_white = white;
  counter = 0;
}

abbrev sample_context : ExecContext
sample_context = record {
  pc = 0;
  current_inst_pc = 0;
  stack = [];
  func_ref = 7;
  this = undefined;
  constructor_call = false;
  call_mode = Env.ordinary_call;
  variable_environment = 1;
  lexical_environment = 1;
  saved_lexical_environment = [];
}

abbrev sample_program : Program
sample_program = record {
  global = 1;
  object_prototype = undefined;
  function_prototype = undefined;
  string_prototype = undefined;
  array_prototype = undefined;
  constant_table = Constant.new;
  cur_context = sample_context;
  saved_context = [];
}

abbrev forty : GcTarget → ℕ
forty o = 40

sample-IsSettled : IsSettled sample_allocator sample_memory
unfolding at pointers has
sample-IsSettled = record {
  is_white = inl refl;
  uniform = λ y c e. ground arith;
  distinct = (refl, (refl, (refl, (refl, tt))));
  marked = λ y o e. (white, ground arith);
  backed = λ y c e. elim (Option-cases (sample_memory y)) [
    | inl gone ↦ absurd (ground arith)
    | inr found ↦ found
  ];
  closed = λ x y o e i nz. (plain_object (Value.object 3), ground arith);
}

sample-start : start_set sample_program sample_memory ≡ some (2 ∷ 1 ∷ [])
unfolding start_set
sample-start = refl

sample-live :
    (y : ℕ) → has y (union (2 ∷ 1 ∷ []) []) ≡ true → (o : GcTarget) × (sample_memory y ≡ some o)
unfolding has union
sample-live y e = elim (Option-cases (sample_memory y)) [
  | inl gone ↦ absurd (ground arith)
  | inr found ↦ found
]

-- The object at 3 is freed with the object at 4: the prototype link from 2 does not count.
collect_example :
    (n : ℕ) × (a' : MemoryAllocator) × (h' : Memory) × (iterate forty n sample_program
        sample_allocator sample_memory
      ≡ some (a', h'))
    × (n ≤ 2 * length sample_allocator.allocated_memory + 4)
    × (a'.state ≡ initial)
    × Collected sample_memory (union (2 ∷ 1 ∷ []) []) h'
    × IsSettled a' h'
collect_example =
    collect forty sample_program sample_allocator sample_memory (2 ∷ 1 ∷ []) sample-IsSettled refl
      sample-start sample-live

calls-iterate_example :
    calls forty sample_program (100 * 3) sample_allocator sample_memory
    ≡ iterate forty 3 sample_program sample_allocator sample_memory
calls-iterate_example = calls-iterate forty sample_program 3 sample_allocator sample_memory refl

-- Every object of the sample is left over from the cycle before.
abbrev stale_allocator : MemoryAllocator
stale_allocator = record sample_allocator { state = ready_to_sweep; current_white = white2 }

abbrev swept_allocator : MemoryAllocator
swept_allocator = record stale_allocator {
  allocated_memory = [];
  allocated_size = 0;
  collected_size = 160;
  state = initial;
}

abbrev swept_memory : Memory
swept_memory = update (update (update (update sample_memory 1 none) 2 none) 3 none) 4 none

all_swept :
    step forty sample_program stale_allocator sample_memory ≡ some (swept_allocator, swept_memory)
unfolding step
all_swept = refl

step-IsAccounted_example : IsAccounted forty swept_allocator swept_memory × (0 + 160 ≡ 160 + 0)
unfolding at
step-IsAccounted_example =
    step-IsAccounted forty sample_program stale_allocator swept_allocator sample_memory swept_memory
      all_swept (refl, (refl, (refl, (refl, tt)))) (λ y e. absurd (unfold has in ground arith))
      (unfold sizes in refl)

alloc-IsAccounted_example :
    IsAccounted forty
      (alloc forty 5 global_environment sample_allocator sample_memory).0
      (alloc forty 5 global_environment sample_allocator sample_memory).1
alloc-IsAccounted_example =
    alloc-IsAccounted forty 5 global_environment sample_allocator sample_memory (unfold at in refl)
      (unfold sizes in refl)
