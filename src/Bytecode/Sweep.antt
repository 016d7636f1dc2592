-- ===== src/Bytecode/Sweep.antt =====
-- `show_inst_seq` of src/bytecode_gen.rs, and the code that the generator emits, one `append_` call
-- after another.
pub mod Boundaries
mod Tests
use rapidus.Prelude.{
  ℕ, zero, suc, ◌+◌, Bool, true, false, String, List, [], ◌∷◌, ◌++◌, Option, none, some,
  if◌then◌else◌, ltb, length, get_elem?,
}
use rapidus.Prelude.Int.{ℤ}
use rapidus.JsValue.F64.{F64}
use rapidus.JsValue.Value.{Value}
use rapidus.Constant.{ConstantTable}
use rapidus.Bytecode.Words.{ByteCode}
use rapidus.Bytecode.Inst.{get_inst_size}
use rapidus.Bytecode.Gen.{
  append_end, append_create_array, append_push_null, append_push_seperator, append_push_this,
  append_push_arguments, append_push_undefined, append_spread_array, append_lnot, append_posi,
  append_neg, append_add, append_sub, append_mul, append_div, append_rem, append_exp, append_lt,
  append_gt, append_le, append_ge, append_eq, append_ne, append_seq, append_sne, append_not,
  append_and, append_or, append_xor, append_shl, append_shr, append_zfshr, append_land, append_lor,
  append_double, append_pop, append_get_member, append_set_member, append_return_sub, append_return,
  append_cond_op, append_throw, append_pop_env, append_set_outer_env, append_typeof,
  append_construct, append_create_object, append_call, append_call_method, append_push_env,
  append_push_int32, append_jmp, append_jmp_if_false, append_jmp_sub, append_push_int8,
  append_push_bool, append_return_try, append_loop_start, append_push_const, append_get_value,
  append_set_value, append_push_number,
}

-- A call of the generator: the name of the method, and its argument.
pub data Step : Type 0 where
  end_op create_array push_null push_seperator push_this push_arguments push_undefined spread_array
        lnot posi neg add sub mul div rem exp lt gt le ge eq ne seq sne not_op and_op or_op xor shl
        shr zfshr land lor double pop get_member set_member return_sub return_op cond_op throw
        pop_env set_outer_env typeof_op return_try loop_start :
      Step
  construct : ℕ → Step
  create_object : ℕ → Step
  call : ℕ → Step
  call_method : ℕ → Step
  push_env : ℕ → Step
  push_int32 : ℤ → Step
  jmp : ℤ → Step
  jmp_if_false : ℤ → Step
  jmp_sub : ℤ → Step
  push_int8 : ℤ → Step
  push_bool : Bool → Step
  push_const : Value → Step
  get_value : String → Step
  set_value : String → Step
  push_number : F64 → Step

-- The constant table and the code so far.
abbrev pub Code : Type 0
Code = ConstantTable × ByteCode

pub emit : Step → Code → Code
unfolding append_end append_create_array append_push_null append_push_seperator append_push_this
    append_push_arguments append_push_undefined append_spread_array append_lnot append_posi
    append_neg append_add append_sub append_mul append_div append_rem append_exp append_lt append_gt
    append_le append_ge append_eq append_ne append_seq append_sne append_not append_and append_or
    append_xor append_shl append_shr append_zfshr append_land append_lor append_double append_pop
    append_get_member append_set_member append_return_sub append_return append_cond_op append_throw
    append_pop_env append_set_outer_env append_typeof append_construct append_create_object
    append_call append_call_method append_push_env append_push_int32 append_jmp append_jmp_if_false
    append_jmp_sub append_push_int8 append_push_bool append_return_try append_loop_start
    append_push_const append_get_value append_set_value append_push_number
emit end_op (t, iseq) = (t, append_end iseq)
emit create_array (t, iseq) = (t, append_create_array iseq)
emit push_null (t, iseq) = (t, append_push_null iseq)
emit push_seperator (t, iseq) = (t, append_push_seperator iseq)
emit push_this (t, iseq) = (t, append_push_this iseq)
emit push_arguments (t, iseq) = (t, append_push_arguments iseq)
emit push_undefined (t, iseq) = (t, append_push_undefined iseq)
emit spread_array (t, iseq) = (t, append_spread_array iseq)
emit lnot (t, iseq) = (t, append_lnot iseq)
emit posi (t, iseq) = (t, append_posi iseq)
emit neg (t, iseq) = (t, append_neg iseq)
emit add (t, iseq) = (t, append_add iseq)
emit sub (t, iseq) = (t, append_sub iseq)
emit mul (t, iseq) = (t, append_mul iseq)
emit div (t, iseq) = (t, append_div iseq)
emit rem (t, iseq) = (t, append_rem iseq)
emit exp (t, iseq) = (t, append_exp iseq)
emit lt (t, iseq) = (t, append_lt iseq)
emit gt (t, iseq) = (t, append_gt iseq)
emit le (t, iseq) = (t, append_le iseq)
emit ge (t, iseq) = (t, append_ge iseq)
emit eq (t, iseq) = (t, append_eq iseq)
emit ne (t, iseq) = (t, append_ne iseq)
emit seq (t, iseq) = (t, append_seq iseq)
emit sne (t, iseq) = (t, append_sne iseq)
emit not_op (t, iseq) = (t, append_not iseq)
emit and_op (t, iseq) = (t, append_and iseq)
emit or_op (t, iseq) = (t, append_or iseq)
emit xor (t, iseq) = (t, append_xor iseq)
emit shl (t, iseq) = (t, append_shl iseq)
emit shr (t, iseq) = (t, append_shr iseq)
emit zfshr (t, iseq) = (t, append_zfshr iseq)
emit land (t, iseq) = (t, append_land iseq)
emit lor (t, iseq) = (t, append_lor iseq)
emit double (t, iseq) = (t, append_double iseq)
emit pop (t, iseq) = (t, append_pop iseq)
emit get_member (t, iseq) = (t, append_get_member iseq)
emit set_member (t, iseq) = (t, append_set_member iseq)
emit return_sub (t, iseq) = (t, append_return_sub iseq)
emit return_op (t, iseq) = (t, append_return iseq)
emit cond_op (t, iseq) = (t, append_cond_op iseq)
emit throw (t, iseq) = (t, append_throw iseq)
emit pop_env (t, iseq) = (t, append_pop_env iseq)
emit set_outer_env (t, iseq) = (t, append_set_outer_env iseq)
emit typeof_op (t, iseq) = (t, append_typeof iseq)
emit return_try (t, iseq) = (t, append_return_try iseq)
emit loop_start (t, iseq) = (t, append_loop_start iseq)
emit (construct n) (t, iseq) = (t, append_construct n iseq)
emit (create_object n) (t, iseq) = (t, append_create_object n iseq)
emit (call n) (t, iseq) = (t, append_call n iseq)
emit (call_method n) (t, iseq) = (t, append_call_method n iseq)
emit (push_env n) (t, iseq) = (t, append_push_env n iseq)
emit (push_int32 n) (t, iseq) = (t, append_push_int32 n iseq)
emit (jmp n) (t, iseq) = (t, append_jmp n iseq)
emit (jmp_if_false n) (t, iseq) = (t, append_jmp_if_false n iseq)
emit (jmp_sub n) (t, iseq) = (t, append_jmp_sub n iseq)
emit (push_int8 n) (t, iseq) = (t, append_push_int8 n iseq)
emit (push_bool n) (t, iseq) = (t, append_push_bool n iseq)
emit (push_const n) (t, iseq) = append_push_const n t iseq
emit (get_value n) (t, iseq) = append_get_value n t iseq
emit (set_value n) (t, iseq) = append_set_value n t iseq
emit (push_number n) (t, iseq) = append_push_number n t iseq

unfoldable pub run : List Step → Code → Code
run [] c = c
run (s ∷ ss) c = run ss (emit s c)

-- The offsets at which the instructions begin.
unfoldable pub starts : List Step → Code → List ℕ
starts [] c = []
starts (s ∷ ss) c = length c.1 ∷ starts ss (emit s c)

-- The outcome of the loop: the offsets of the instructions that it prints, or the panic
-- `unreachable!("inst_size not defined.")`.
pub data Listing : Type 0 where
  shown : List ℕ → Listing
  panic out_of_fuel : Listing

pub prepend : ℕ → Listing → Listing
prepend i (shown offsets) = shown (i ∷ offsets)
prepend i other = other

pub size_at : Option ℕ → Option ℕ
size_at none = none
size_at (some inst) = get_inst_size inst

-- The `while` loop of `show_inst_seq`, from offset `i`.
unfoldable pub show_inst_seq : ℕ → ByteCode → ℕ → Listing
unfolding prepend size_at
show_inst_seq zero code i = out_of_fuel
show_inst_seq (suc fuel) code i =
    let round : Listing = elim (size_at (get_elem? code i)) [
      | none ↦ panic
      | some size ↦ prepend i (show_inst_seq fuel code (i + size))
    ] in
    if ltb i (length code) then round else shown []
