-- ===== src/Bytecode/Inst/Names.antt =====
-- `inst_to_inst_name` of src/bytecode_gen.rs: the names of the opcodes.
use rapidus.Prelude.{ℕ, List, [], ◌∷◌, Option, none, some, String, at}
use rapidus.Bytecode.Inst.{
  add, and, call, call_method, cond_op, construct, create_array, create_object, decl_const,
  decl_let, decl_var, div, double, end, eq, exp, ge, get_member, get_value, gt, jmp, jmp_if_false,
  jmp_sub, land, le, lnot, loop_start, lor, lt, mul, ne, neg, not, or, pop, pop_env, posi,
  push_arguments, push_const, push_env, push_false, push_int32, push_int8, push_null,
  push_seperator, push_this, push_true, push_undefined, rem, return_op, return_sub, return_try, seq,
  set_member, set_outer_env, set_value, shl, shr, sne, spread_array, sub, throw, typeof_op, xor,
  zfshr,
}

-- The arms of `inst_to_inst_name`, in their order.
pub inst_names : List (ℕ × String)
inst_names =
    (end, "End")
    ∷ (construct, "Construct")
    ∷ (create_object, "CreateObject")
    ∷ (create_array, "CreateArray")
    ∷ (push_int8, "PushInt8")
    ∷ (push_int32, "PushInt32")
    ∷ (push_false, "PushFalse")
    ∷ (push_true, "PushTrue")
    ∷ (push_const, "PushConst")
    ∷ (push_null, "PushNull")
    ∷ (push_this, "PushThis")
    ∷ (push_arguments, "PushArguments")
    ∷ (push_undefined, "PushUndefined")
    ∷ (lnot, "LogNot")
    ∷ (posi, "Posi")
    ∷ (neg, "Neg")
    ∷ (add, "Add")
    ∷ (sub, "Sub")
    ∷ (mul, "Mul")
    ∷ (div, "Div")
    ∷ (rem, "Rem")
    ∷ (lt, "Lt")
    ∷ (gt, "Gt")
    ∷ (le, "Le")
    ∷ (ge, "Ge")
    ∷ (eq, "Eq")
    ∷ (ne, "Ne")
    ∷ (seq, "StrictEq")
    ∷ (sne, "StrictNotEq")
    ∷ (and, "BitwiseAnd")
    ∷ (or, "BitwiseOr")
    ∷ (xor, "BitwiseXor")
    ∷ (shl, "Shift-L")
    ∷ (shr, "Shift-R")
    ∷ (zfshr, "ZeroFill-Shift-R")
    ∷ (get_member, "GetMember")
    ∷ (set_member, "SetMember")
    ∷ (jmp_if_false, "JmpIfFalse")
    ∷ (jmp, "Jmp")
    ∷ (call, "Call")
    ∷ (call_method, "CallMethod")
    ∷ (return_op, "Return")
    ∷ (double, "Double")
    ∷ (pop, "Pop")
    ∷ (land, "LogAnd")
    ∷ (lor, "LogOr")
    ∷ (get_value, "GetValue")
    ∷ (set_value, "SetValue")
    ∷ (decl_var, "DeclVar")
    ∷ (decl_const, "DeclConst")
    ∷ (decl_let, "DeclLet")
    ∷ (push_env, "PushEnv")
    ∷ (pop_env, "PopEnv")
    ∷ (cond_op, "CondOp")
    ∷ (loop_start, "LoopStart")
    ∷ (throw, "Throw")
    ∷ (return_try, "ReturnTry")
    ∷ (not, "BitwiseNot")
    ∷ (set_outer_env, "SetOuterEnv")
    ∷ (jmp_sub, "JmpSub")
    ∷ (return_sub, "ReturnSub")
    ∷ (typeof_op, "Typeof")
    ∷ (exp, "Exp")
    ∷ (push_seperator, "PushSeperator")
    ∷ (spread_array, "SpreadArray")
    ∷ []

name_or : Option String → String
name_or none = "???"
name_or (some name) = name

unfoldable pub inst_to_inst_name : ℕ → String
unfolding inst_names name_or at
inst_to_inst_name inst = name_or (at inst inst_names)
