-- ===== src/Bytecode/Sweep/Tests.antt =====
-- A run of the listing, and the instances of the theorems.
use rapidus.Prelude.{◌≡◌, refl, List, [], ◌∷◌, ◌++◌, arith}
use rapidus.Prelude.Int.{pos}
use rapidus.Constant.{new}
use rapidus.Bytecode.Inst.{get_inst_size}
use rapidus.Bytecode.Sweep.{
  Step, emit, run, shown, panic, show_inst_seq, push_int8, add, jmp, push_seperator, end_op,
}
use rapidus.Bytecode.Sweep.Boundaries.{show_inst_seq-separator}

abbrev sum : List Step
sum = push_int8 (pos 1) ∷ jmp (pos 5) ∷ push_int8 (pos 2) ∷ add ∷ end_op ∷ []

sum_listed : show_inst_seq 6 (run sum (new, [])).1 0 ≡ shown (0 ∷ 2 ∷ 7 ∷ 9 ∷ 10 ∷ [])
unfolding run show_inst_seq emit get_inst_size
sum_listed = refl

show_inst_seq-separator_example :
    show_inst_seq 6 (run (sum ++ push_seperator ∷ sum) (new, [])).1 0 ≡ panic
show_inst_seq-separator_example =
    show_inst_seq-separator sum sum new 6 (tt, (tt, (tt, (tt, (tt, tt))))) (omega arith)
