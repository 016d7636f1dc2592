-- ===== src/Bytecode/Gen.antt =====
-- The methods of `ByteCodeGenerator` that emit an instruction.
use rapidus.Prelude.{
  ℕ, ◌-◌, ◌%◌, ◌^◌, Bool, ◌&&◌, String, [], ◌∷◌, ◌++◌, Option, none, some, if◌then◌else◌, ltb, leb,
}
use rapidus.Prelude.Int.{ℤ, pos, pos_part, neg_part}
use rapidus.JsValue.F64.{F64, int_value}
use rapidus.JsValue.Value.{Value, number}
use rapidus.Constant.{ConstantTable, add_value, add_string}
use rapidus.Bytecode.Words.{ByteCode, append_int8, append_int32, append_uint32, as_i32}
use rapidus.Bytecode.Inst

unfoldable pub append_end : ByteCode → ByteCode
append_end iseq = iseq ++ Inst.end ∷ []

unfoldable pub append_create_array : ByteCode → ByteCode
append_create_array iseq = iseq ++ Inst.create_array ∷ []

unfoldable pub append_push_null : ByteCode → ByteCode
append_push_null iseq = iseq ++ Inst.push_null ∷ []

unfoldable pub append_push_seperator : ByteCode → ByteCode
append_push_seperator iseq = iseq ++ Inst.push_seperator ∷ []

unfoldable pub append_push_this : ByteCode → ByteCode
append_push_this iseq = iseq ++ Inst.push_this ∷ []

unfoldable pub append_push_arguments : ByteCode → ByteCode
append_push_arguments iseq = iseq ++ Inst.push_arguments ∷ []

unfoldable pub append_push_undefined : ByteCode → ByteCode
append_push_undefined iseq = iseq ++ Inst.push_undefined ∷ []

unfoldable pub append_spread_array : ByteCode → ByteCode
append_spread_array iseq = iseq ++ Inst.spread_array ∷ []

unfoldable pub append_lnot : ByteCode → ByteCode
append_lnot iseq = iseq ++ Inst.lnot ∷ []

unfoldable pub append_posi : ByteCode → ByteCode
append_posi iseq = iseq ++ Inst.posi ∷ []

unfoldable pub append_neg : ByteCode → ByteCode
append_neg iseq = iseq ++ Inst.neg ∷ []

unfoldable pub append_add : ByteCode → ByteCode
append_add iseq = iseq ++ Inst.add ∷ []

unfoldable pub append_sub : ByteCode → ByteCode
append_sub iseq = iseq ++ Inst.sub ∷ []

unfoldable pub append_mul : ByteCode → ByteCode
append_mul iseq = iseq ++ Inst.mul ∷ []

unfoldable pub append_div : ByteCode → ByteCode
append_div iseq = iseq ++ Inst.div ∷ []

unfoldable pub append_rem : ByteCode → ByteCode
append_rem iseq = iseq ++ Inst.rem ∷ []

unfoldable pub append_exp : ByteCode → ByteCode
append_exp iseq = iseq ++ Inst.exp ∷ []

unfoldable pub append_lt : ByteCode → ByteCode
append_lt iseq = iseq ++ Inst.lt ∷ []

unfoldable pub append_gt : ByteCode → ByteCode
append_gt iseq = iseq ++ Inst.gt ∷ []

unfoldable pub append_le : ByteCode → ByteCode
append_le iseq = iseq ++ Inst.le ∷ []

unfoldable pub append_ge : ByteCode → ByteCode
append_ge iseq = iseq ++ Inst.ge ∷ []

unfoldable pub append_eq : ByteCode → ByteCode
append_eq iseq = iseq ++ Inst.eq ∷ []

unfoldable pub append_ne : ByteCode → ByteCode
append_ne iseq = iseq ++ Inst.ne ∷ []

unfoldable pub append_seq : ByteCode → ByteCode
append_seq iseq = iseq ++ Inst.seq ∷ []

unfoldable pub append_sne : ByteCode → ByteCode
append_sne iseq = iseq ++ Inst.sne ∷ []

unfoldable pub append_not : ByteCode → ByteCode
append_not iseq = iseq ++ Inst.not ∷ []

unfoldable pub append_and : ByteCode → ByteCode
append_and iseq = iseq ++ Inst.and ∷ []

unfoldable pub append_or : ByteCode → ByteCode
append_or iseq = iseq ++ Inst.or ∷ []

unfoldable pub append_xor : ByteCode → ByteCode
append_xor iseq = iseq ++ Inst.xor ∷ []

unfoldable pub append_shl : ByteCode → ByteCode
append_shl iseq = iseq ++ Inst.shl ∷ []

unfoldable pub append_shr : ByteCode → ByteCode
append_shr iseq = iseq ++ Inst.shr ∷ []

unfoldable pub append_zfshr : ByteCode → ByteCode
append_zfshr iseq = iseq ++ Inst.zfshr ∷ []

unfoldable pub append_land : ByteCode → ByteCode
append_land iseq = iseq ++ Inst.land ∷ []

unfoldable pub append_lor : ByteCode → ByteCode
append_lor iseq = iseq ++ Inst.lor ∷ []

unfoldable pub append_double : ByteCode → ByteCode
append_double iseq = iseq ++ Inst.double ∷ []

unfoldable pub append_pop : ByteCode → ByteCode
append_pop iseq = iseq ++ Inst.pop ∷ []

unfoldable pub append_get_member : ByteCode → ByteCode
append_get_member iseq = iseq ++ Inst.get_member ∷ []

unfoldable pub append_set_member : ByteCode → ByteCode
append_set_member iseq = iseq ++ Inst.set_member ∷ []

unfoldable pub append_return_sub : ByteCode → ByteCode
append_return_sub iseq = iseq ++ Inst.return_sub ∷ []

unfoldable pub append_return : ByteCode → ByteCode
append_return iseq = iseq ++ Inst.return_op ∷ []

unfoldable pub append_cond_op : ByteCode → ByteCode
append_cond_op iseq = iseq ++ Inst.cond_op ∷ []

unfoldable pub append_throw : ByteCode → ByteCode
append_throw iseq = iseq ++ Inst.throw ∷ []

unfoldable pub append_pop_env : ByteCode → ByteCode
append_pop_env iseq = iseq ++ Inst.pop_env ∷ []

unfoldable pub append_set_outer_env : ByteCode → ByteCode
append_set_outer_env iseq = iseq ++ Inst.set_outer_env ∷ []

unfoldable pub append_typeof : ByteCode → ByteCode
append_typeof iseq = iseq ++ Inst.typeof_op ∷ []

-- An argument `argc as i32`, of a `usize` or a `u32`: its low 32 bits.
unfoldable pub low_i32 : ℕ → ℤ
unfolding as_i32
low_i32 n = as_i32 (n % 2 ^ 32)

-- An opcode and an `i32`.
unfoldable pub with_int32 : ℕ → ℤ → ByteCode → ByteCode
unfolding append_int32
with_int32 op n iseq = append_int32 n (iseq ++ op ∷ [])

unfoldable pub append_construct : ℕ → ByteCode → ByteCode
unfolding with_int32 low_i32
append_construct argc = with_int32 Inst.construct (low_i32 argc)

unfoldable pub append_create_object : ℕ → ByteCode → ByteCode
unfolding with_int32 low_i32
append_create_object argc = with_int32 Inst.create_object (low_i32 argc)

unfoldable pub append_call : ℕ → ByteCode → ByteCode
unfolding with_int32 low_i32
append_call argc = with_int32 Inst.call (low_i32 argc)

unfoldable pub append_call_method : ℕ → ByteCode → ByteCode
unfolding with_int32 low_i32
append_call_method argc = with_int32 Inst.call_method (low_i32 argc)

unfoldable pub append_push_int32 : ℤ → ByteCode → ByteCode
unfolding with_int32
append_push_int32 dst = with_int32 Inst.push_int32 dst

unfoldable pub append_jmp : ℤ → ByteCode → ByteCode
unfolding with_int32
append_jmp dst = with_int32 Inst.jmp dst

unfoldable pub append_jmp_if_false : ℤ → ByteCode → ByteCode
unfolding with_int32
append_jmp_if_false dst = with_int32 Inst.jmp_if_false dst

unfoldable pub append_jmp_sub : ℤ → ByteCode → ByteCode
unfolding with_int32
append_jmp_sub dst = with_int32 Inst.jmp_sub dst

unfoldable pub append_return_try : ByteCode → ByteCode
unfolding with_int32
append_return_try = with_int32 Inst.return_try (pos 0)

unfoldable pub append_loop_start : ByteCode → ByteCode
unfolding with_int32
append_loop_start = with_int32 Inst.loop_start (pos 0)

unfoldable pub append_push_env : ℕ → ByteCode → ByteCode
unfolding append_uint32
append_push_env id iseq = append_uint32 id (iseq ++ Inst.push_env ∷ [])

unfoldable pub append_push_int8 : ℤ → ByteCode → ByteCode
unfolding append_int8
append_push_int8 n iseq = append_int8 n (iseq ++ Inst.push_int8 ∷ [])

unfoldable pub append_push_bool : Bool → ByteCode → ByteCode
append_push_bool b iseq = iseq ++ (if b then Inst.push_true else Inst.push_false) ∷ []

-- The methods below also add to the constant table. They return it with the code.
unfoldable pub with_constant : ℕ → ℕ × ConstantTable → ByteCode → ConstantTable × ByteCode
unfolding with_int32 low_i32
with_constant op (id, table) iseq = (table, with_int32 op (low_i32 id) iseq)

unfoldable pub append_push_const : Value → ConstantTable → ByteCode → ConstantTable × ByteCode
unfolding with_constant
append_push_const val table = with_constant Inst.push_const (add_value val table)

unfoldable pub append_get_value : String → ConstantTable → ByteCode → ConstantTable × ByteCode
unfolding with_constant
append_get_value name table = with_constant Inst.get_value (add_string name table)

unfoldable pub append_set_value : String → ConstantTable → ByteCode → ConstantTable × ByteCode
unfolding with_constant
append_set_value name table = with_constant Inst.set_value (add_string name table)

-- -128 < n < 127: the source tests strictly on both sides.
unfoldable pub fits_int8 : ℤ → Bool
fits_int8 n = ltb (neg_part n) 128 && ltb (pos_part n) 127

unfoldable pub fits_int32 : ℤ → Bool
fits_int32 n = leb (neg_part n) (2 ^ 31) && leb (pos_part n) (2 ^ 31 - 1)

-- What is emitted for an integer; any other number is a constant.
unfoldable pub push_integer : F64 → ℤ → ConstantTable → ByteCode → ConstantTable × ByteCode
unfolding fits_int8 fits_int32 append_push_int8 append_push_int32 append_push_const
push_integer n i table iseq =
    if fits_int8 i
    then (table, append_push_int8 i iseq)
    else if fits_int32 i
    then (table, append_push_int32 i iseq)
    else append_push_const (number n) table iseq

unfoldable pub push_as : F64 → Option ℤ → ConstantTable → ByteCode → ConstantTable × ByteCode
unfolding push_integer
push_as n (some i) = push_integer n i
push_as n none = append_push_const (number n)

unfoldable pub append_push_number : F64 → ConstantTable → ByteCode → ConstantTable × ByteCode
unfolding push_as
append_push_number n = push_as n (int_value n)
