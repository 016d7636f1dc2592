-- ===== src/Vm/Jumps.antt =====
-- The jumps of src/vm/vm.rs, by the operands that src/vm/codegen.rs patches into them.
use rapidus.Prelude.{
  ℕ, ◌+◌, ◌^◌, ◌≤◌, ◌<◌, ◌≡◌, refl, ap, ◌∙◌, Bool-cases, inl, inr, List, ◌∷◌, some, arith,
  get_elem?, at, if◌then◌else◌,
}
use rapidus.Prelude.Int.{pos, sub_ℕ, ◌+ℤ◌}
use rapidus.JsValue.Value.{Value}
use rapidus.Bytecode.Inst
use rapidus.Bytecode.Words.{IsI32, read_i32}
use rapidus.Vm
use rapidus.Vm.{
  Runtime, Program, Machine, SubroutineKind, running, step, run_arm, run_jmp_if_false, jump_by,
  jump_to,
}
use rapidus.Vm.Runs.{Reaches, here, next, step-run_arm}
use rapidus.Vm.Compiled.{at_pc}

-- A forward distance leads to its target.
distance_lands : (a d : ℕ) → a ≤ d → pos a +ℤ sub_ℕ d a ≡ pos d
unfolding ◌+ℤ◌
distance_lands a d h = ground arith

pub distance-IsI32 : (a d : ℕ) → a ≤ d → d < 2 ^ 31 → IsI32 (sub_ℕ d a)
distance-IsI32 a d h b = ground arith

jump_by-distance :
    (R : Runtime) (pc d : ℕ) (s : List Value) (m : R.Memory) (subs : List SubroutineKind)
    → pc + 4 ≤ d
    → jump_by R (some (sub_ℕ d (pc + 4))) (λ _ n. n) (at_pc R pc s m subs)
      ≡ running (at_pc R d s m subs)
unfolding jump_by
jump_by-distance R pc d s m subs h = rw (distance_lands (pc + 4) d h, jump_to) refl

plus_five : (pc : ℕ) → pc + 5 ≡ pc + 1 + 4
plus_five pc = omega arith

module _ (R : Runtime) (P : Program) (pc d : ℕ) (s : List Value) (m : R.Memory)
    (subs : List SubroutineKind) where
  pub jmp-Reaches :
      get_elem? P.code pc ≡ some Inst.jmp
      → read_i32 P.code (pc + 1) ≡ some (sub_ℕ d (pc + 5))
      → pc + 5 ≤ d
      → Reaches R P (at_pc R pc s m subs) (at_pc R d s m subs)
  unfolding run_arm at
  jmp-Reaches op operand h =
      let operand' : read_i32 P.code (pc + 1) ≡ some (sub_ℕ d (pc + 1 + 4)) =
        operand ∙ ap (λ n. some (sub_ℕ d n)) (plus_five pc) in
      next
        (step-run_arm R P Inst.jmp Vm.jmp (at_pc R pc s m subs) op refl
          ∙ rw (operand', run_arm) (jump_by-distance R (pc + 1) d s m subs (omega arith)))
        here

  pub jmp_if_false-Reaches :
      (v : Value)
      → get_elem? P.code pc ≡ some Inst.jmp_if_false
      → read_i32 P.code (pc + 1) ≡ some (sub_ℕ d (pc + 5))
      → pc + 5 ≤ d
      → Reaches R P
          (at_pc R pc (v ∷ s) m subs)
          (at_pc R (if R.to_boolean v m then pc + 5 else d) s m subs)
  unfolding run_arm at run_jmp_if_false
  jmp_if_false-Reaches v op operand h =
      let operand' : read_i32 P.code (pc + 1) ≡ some (sub_ℕ d (pc + 1 + 4)) =
        operand ∙ ap (λ n. some (sub_ℕ d n)) (plus_five pc) in
      let fetch =
        step-run_arm R P Inst.jmp_if_false Vm.jmp_if_false (at_pc R pc (v ∷ s) m subs) op refl in
      elim (Bool-cases (R.to_boolean v m)) [
        | inl truthy ↦ next (fetch ∙ rw (truthy, plus_five pc) refl) here
        | inr falsy ↦
            next
              (fetch
                ∙ rw (falsy, operand', run_arm)
                    (jump_by-distance R (pc + 1) d s m subs (omega arith)))
              here
      ]
