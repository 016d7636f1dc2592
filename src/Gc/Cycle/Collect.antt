-- ===== src/Gc/Cycle/Collect.antt =====
-- The whole collection of src/gc.rs: the objects and the marks before and after it.
use rapidus.Prelude.{
  ℕ, suc, ◌+◌, ◌-◌, ◌*◌, ◌≤◌, ◌≡◌, ◌≢◌, refl, sym, ap, ◌∙◌, true, false, [], none, some, ◌⊎◌, inl,
  inr, if◌then◌else◌, at, arith, Bool-cases, Option-cases, length,
}
use rapidus.Gc.Sets.{has, union}
use rapidus.Gc.Pointers.{GcTarget}
use rapidus.Gc.Allocator.{
  MarkState, black, flip_white, mark_eq, MarkMap, MarkSet, Memory, MemoryAllocator, Program,
  initial, marking, ready_to_sweep, step, phase, start_set, sweep,
}
use rapidus.Gc.Marking.{flip_white-IsWhite}
use rapidus.Gc.Counting.{count_old-le-length}
use rapidus.Gc.Sweeping.{
  after, is_freed, at-sweep, memory-sweep, sweep_total, sweep-Distinct, verdict-cases,
}
use rapidus.Gc.Cycle.{Reach, IsSettled, iterate, iterate-append, root}
use rapidus.Gc.Cycle.Invariant.{IsMarking, reached-black, has-nil}
use rapidus.Gc.Cycle.Rounds.{marking-Ends, with_marks}

-- The collection frees exactly what is not reached: the objects before and after it.
pub record Collected (h : Memory) (start : MarkSet) (h' : Memory) : Type 0 where
  pub kept : (y : ℕ) → Reach h start y → h' y ≡ h y
  pub freed : (y : ℕ) → ¬ Reach h start y → h' y ≡ none

module _ (size_of : GcTarget → ℕ) (g : Program) (a : MemoryAllocator) (h : Memory) (start : MarkSet)
    (settled : IsSettled a h)
    (live : (y : ℕ) → has y start ≡ true → (o : GcTarget) × (h y ≡ some o)) where
  abbrev flipped : MemoryAllocator
  flipped = record a { current_white = flip_white a.current_white }

  -- When the collection starts no object is black, and all have the white of before.
  IsMarking-start : IsMarking (flip_white a.current_white) h start a.allocated_memory start
  IsMarking-start =
      let (iw, twice, _) = flip_white-IsWhite a.current_white settled.is_white in
      record {
        colored = λ y c e. inl (settled.uniform y c e ∙ sym twice);
        distinct = settled.distinct;
        marked = settled.marked;
        backed = settled.backed;
        rooted = λ y i. inr i;
        shaded = λ x y o is_black. absurd (not_black x is_black);
        live = live;
        black_reached = λ y is_black. absurd (not_black y is_black);
        grey_reached = λ y i. root i;
      }
    where
      not_black : (x : ℕ) → at x a.allocated_memory ≡ some black → ⊥
      not_black x is_black = ground (arith, settled.uniform x black is_black, settled.is_white)

  module _ (m : MarkMap) (inv : IsMarking (flip_white a.current_white) h start m []) where
    abbrev new_white : MarkState
    new_white = flip_white a.current_white

    -- What the sweep makes of an object: black ones are kept, old white ones freed.
    fate_black :
        (y : ℕ)
        → at y m ≡ some black
        → (after new_white (at y m) ≡ some new_white) × (is_freed new_white (at y m) ≡ false)
    fate_black y e =
        let (keeps, _) = verdict-cases a.current_white settled.is_white in
        (ground (arith, e, keeps), ground (arith, e, keeps))

    fate_other :
        (y : ℕ)
        → at y m ≢ some black
        → (after new_white (at y m) ≡ none) × ((h y ≡ none) ⊎ (is_freed new_white (at y m) ≡ true))
    fate_other y other = elim (Option-cases (at y m)) [
      | inl unmarked ↦ (
        ground (arith, unmarked),
        inl (elim (Option-cases (h y)) [
          | inl gone ↦ gone
          | inr (o, there) ↦
              let (c, e) = inv.marked y o there in absurd (ground (arith, e, unmarked))
        ]),
      )
      | inr (c, e) ↦
          let (_, frees) = verdict-cases a.current_white settled.is_white in
          elim (inv.colored y c e) [
            | inr is_black ↦ absurd (other (ground (arith, e, is_black)))
            | inl old ↦
                let (_, twice, _) = flip_white-IsWhite a.current_white settled.is_white in
                (ground (arith, e, old, twice, frees), inr (ground (arith, e, old, twice, frees)))
          ]
    ]

    -- What the sweep frees is there.
    to_free : (y : ℕ) → is_freed new_white (at y m) ≡ true → (o : GcTarget) × (h y ≡ some o)
    to_free y f = elim (Option-cases (at y m)) [
      | inl unmarked ↦ absurd (ground (arith, unmarked, f))
      | inr (c, e) ↦ inv.backed y c e
    ]

    decide : (y : ℕ) → (at y m ≡ some black) ⊎ (at y m ≢ some black)
    decide y = elim (Option-cases (at y m)) [
      | inl unmarked ↦ inr (ground (arith, unmarked))
      | inr (c, e) ↦ elim (Bool-cases (mark_eq c black)) [
        | inl is_black ↦ inl (ground (arith, e, is_black))
        | inr other ↦ inr (ground (arith, e, other))
      ]
    ]

    module _ (kept : MarkMap) (size : ℕ) (h' : Memory)
        (swept : sweep size_of new_white m h ≡ some (kept, size, h')) where
      marks : (y : ℕ) → at y kept ≡ after new_white (at y m)
      marks = at-sweep size_of new_white m h kept size h' inv.distinct swept

      memory : (y : ℕ) → h' y ≡ (if is_freed new_white (at y m) then none else h y)
      memory = memory-sweep size_of new_white m h kept size h' inv.distinct swept

      black_kept : (y : ℕ) → at y m ≡ some black → (at y kept ≡ some new_white) × (h' y ≡ h y)
      black_kept y e =
          let (mark, stays) = fate_black y e in
          (marks y ∙ mark, memory y ∙ ap (λ b. if b then none else h y) stays)

      other_freed : (y : ℕ) → at y m ≢ some black → (at y kept ≡ none) × (h' y ≡ none)
      other_freed y other =
          let (mark, o) = fate_other y other in
          (
            marks y ∙ mark,
            elim o [
              | inl gone ↦ ground (arith, memory y, gone)
              | inr frees ↦ ground (arith, memory y, frees)
            ],
          )

      collected : Collected h start h'
      collected = record {
        kept = λ y r. (black_kept y (reached-black new_white h start m inv r)).1;
        freed = λ y no_path. (other_freed y (λ e. no_path (inv.black_reached y e))).1;
      }

      swept_allocator : MemoryAllocator
      swept_allocator = record (with_marks flipped kept [] initial) {
        collected_size = a.collected_size + size;
        allocated_size = a.allocated_size - size;
      }

      -- What the next collection finds.
      IsSettled-after : IsSettled swept_allocator h'
      unfolding swept_allocator
      IsSettled-after = record {
        is_white = (flip_white-IsWhite a.current_white settled.is_white).2;
        uniform = λ y c e. elim (decide y) [
          | inl is_black ↦ ground (arith, e, (black_kept y is_black).0)
          | inr other ↦ absurd (ground (arith, e, (other_freed y other).0))
        ];
        distinct = sweep-Distinct size_of new_white m h kept size h' inv.distinct swept;
        marked = λ y o e. elim (decide y) [
          | inl is_black ↦ (new_white, (black_kept y is_black).0)
          | inr other ↦ absurd (ground (arith, e, (other_freed y other).1))
        ];
        backed = λ y c e. elim (decide y) [
          | inl is_black ↦
              let (o, there) = inv.backed y black is_black in (o, (black_kept y is_black).1 ∙ there)
          | inr other ↦ absurd (ground (arith, e, (other_freed y other).0))
        ];
        closed = λ x y o e in_o nz. elim (decide x) [
          | inl is_black ↦
              let there : h x ≡ some o = sym (black_kept x is_black).1 ∙ e in
              elim (inv.shaded x y o is_black there in_o nz) [
                | inl black_y ↦
                    let (o', at_y) = settled.closed x y o there in_o nz in
                    (o', (black_kept y black_y).1 ∙ at_y)
                | inr waiting ↦ absurd (has-nil y waiting)
              ]
          | inr other ↦ absurd (ground (arith, e, (other_freed x other).1))
        ];
      }

      last_step :
          step size_of g (with_marks flipped m [] ready_to_sweep) h ≡ some (swept_allocator, h')
      unfolding step swept_allocator
      last_step = rw swept

  initial_phase :
      (markset : MarkSet)
      → start_set g h ≡ some markset
      → start ≡ union markset a.locked
      → phase size_of initial g a h ≡ some (with_marks flipped a.allocated_memory start marking, h)
  unfolding phase
  initial_phase markset found same = rw (found, phase) (rw same)

  first_step :
      (markset : MarkSet)
      → a.state ≡ initial
      → start_set g h ≡ some markset
      → start ≡ union markset a.locked
      → step size_of g a h ≡ some (with_marks flipped a.allocated_memory start marking, h)
  unfolding step
  first_step markset e found same =
      ap (λ s. phase size_of s g a h) e ∙ initial_phase markset found same

  -- The collection from the `Initial` phase.
  pub collect_lem :
      (markset : MarkSet)
      → a.state ≡ initial
      → start_set g h ≡ some markset
      → start ≡ union markset a.locked
      → (n : ℕ) × (a' : MemoryAllocator) × (h' : Memory) × (iterate size_of n g a h ≡ some (a', h'))
        × (n ≤ 2 * length a.allocated_memory + 4)
        × (a'.state ≡ initial)
        × Collected h start h'
        × IsSettled a' h'
  unfolding iterate swept_allocator
  collect_lem markset e found same =
      let w = flip_white a.current_white in
      let (iw, _, _) = flip_white-IsWhite a.current_white settled.is_white in
      let k = length a.allocated_memory in
      let (n, m, runs, inv, le) =
        marking-Ends size_of g flipped h start iw settled.closed k a.allocated_memory start
          IsMarking-start (count_old-le-length w a.allocated_memory) in
      let (kept, size, h', swept) =
        sweep_total size_of w m h inv.distinct (λ y f. to_free m inv y f) in
      let a' = swept_allocator m inv kept size h' swept in
      let sweeps = last_step m inv kept size h' swept in
      let after_marking : iterate size_of (n + 1) g
            (with_marks flipped a.allocated_memory start marking) h
          ≡ some (a', h') =
        iterate-append size_of n 1 g _ _ h h runs ∙ rw (sweeps, iterate) in
      (
        suc (n + 1),
        a',
        h',
        rw (first_step markset e found same, iterate) after_marking,
        omega arith,
        refl,
        collected m inv kept size h' swept,
        IsSettled-after m inv kept size h' swept,
      )

-- From the `Initial` phase, with all objects in one white and every pointer to an object, a
-- collection during which the program does nothing ends without a panic, after at most twice as many
-- working calls of `mark` as there are objects and four more. It leaves the memory with exactly the
-- objects that the traversals reach from the program's pointers and the locked objects, each of them
-- unchanged, and the marks in one white for the next collection.
pub collect :
    (size_of : GcTarget → ℕ) (g : Program) (a : MemoryAllocator) (h : Memory) (markset : MarkSet)
    → IsSettled a h
    → a.state ≡ initial
    → start_set g h ≡ some markset
    → ((y : ℕ) → has y (union markset a.locked) ≡ true → (o : GcTarget) × (h y ≡ some o))
    → (n : ℕ) × (a' : MemoryAllocator) × (h' : Memory) × (iterate size_of n g a h ≡ some (a', h'))
      × (n ≤ 2 * length a.allocated_memory + 4)
      × (a'.state ≡ initial)
      × Collected h (union markset a.locked) h'
      × IsSettled a' h'
collect size_of g a h markset settled e found live =
    collect_lem size_of g a h (union markset a.locked) settled live markset e found refl
