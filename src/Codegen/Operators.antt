-- ===== src/Codegen/Operators.antt =====
-- The visits of src/vm/codegen.rs to expressions: operators, members, assignments and calls.
use rapidus.Prelude.{ℕ, Bool, true, false, String, Option, none, some, if◌then◌else◌, length}
use rapidus.Prelude.Int.{pos}
use rapidus.Token.Symbol.{BinOp}
use rapidus.Node.{UnaryOp}
use rapidus.Bytecode.Words.{ByteCode}
use rapidus.Bytecode.Gen
use rapidus.Codegen.State.{
  Result, ok, panic, ◌>>=◌, CodeGenerator, Visitor, new_general_error, emit, emit_const, pop_unless,
  patch_jump, save_source_pos, push_string,
}

-- The shapes of a left-hand side that `assign_stack_top_to` tells apart.
pub data Target : Type 0 where
  identifier : String → Target
  member : Visitor → String → Target
  index : Visitor → Visitor → Target
  invalid : ℕ → Target

-- The object of a member, its property, and the source position.
unfoldable pub member_parts : Visitor → String → CodeGenerator → Result CodeGenerator
unfolding push_string save_source_pos
member_parts parent property g = do
  g₁ ← parent true g
  g₂ ← push_string property g₁
  ok (save_source_pos g₂)

unfoldable pub index_parts : Visitor → Visitor → CodeGenerator → Result CodeGenerator
unfolding save_source_pos
index_parts parent idx g = do g₁ ← parent true g; g₂ ← idx true g₁; ok (save_source_pos g₂)

unfoldable pub assign_stack_top_to : Target → CodeGenerator → Result CodeGenerator
unfolding save_source_pos emit_const Gen.append_set_value member_parts index_parts emit
    Gen.append_set_member
assign_stack_top_to (identifier name) g =
    ok (emit_const (Gen.append_set_value name) (save_source_pos g))
assign_stack_top_to (member parent property) g = do
  g₁ ← member_parts parent property g
  ok (emit Gen.append_set_member g₁)
assign_stack_top_to (index parent idx) g = do
  g₁ ← index_parts parent idx g
  ok (emit Gen.append_set_member g₁)
assign_stack_top_to (invalid p) g =
    new_general_error "Reference error: Invalid left-hand side in assignment." p

unfoldable pub visit_member : Visitor → String → Visitor
unfolding member_parts emit Gen.append_get_member pop_unless
visit_member parent property use_value g = do
  g₁ ← member_parts parent property g
  ok (pop_unless use_value (emit Gen.append_get_member g₁))

unfoldable pub visit_index : Visitor → Visitor → Visitor
unfolding index_parts emit Gen.append_get_member pop_unless
visit_index parent idx use_value g = do
  g₁ ← index_parts parent idx g
  ok (pop_unless use_value (emit Gen.append_get_member g₁))

unfoldable pub double_if : Bool → CodeGenerator → CodeGenerator
unfolding emit Gen.append_double
double_if b g = if b then emit Gen.append_double g else g

-- `++x` and `--x`: the new value stays on the stack if it is used.
unfoldable pub pre_step : (ByteCode → ByteCode) → Target → Visitor
unfolding emit Gen.append_push_int8 double_if assign_stack_top_to
pre_step op target use_value g =
    assign_stack_top_to target
      (double_if use_value (emit op (emit (Gen.append_push_int8 (pos 1)) g)))

-- `x++` and `x--`: the old value stays.
unfoldable pub post_step : (ByteCode → ByteCode) → Target → CodeGenerator → Result CodeGenerator
unfolding emit Gen.append_double Gen.append_push_int8 assign_stack_top_to
post_step op target g =
    assign_stack_top_to target
      (emit op (emit (Gen.append_push_int8 (pos 1)) (emit Gen.append_double g)))

-- The `match` on the operator, once the operand is on the stack.
unfoldable pub unary_inst : UnaryOp → Target → Visitor
unfolding emit Gen.append_typeof Gen.append_posi Gen.append_neg Gen.append_lnot Gen.append_not
    pre_step post_step Gen.append_add Gen.append_sub
unary_inst UnaryOp.typeof target use_value g = ok (emit Gen.append_typeof g)
unary_inst UnaryOp.plus target use_value g = ok (emit Gen.append_posi g)
unary_inst UnaryOp.minus target use_value g = ok (emit Gen.append_neg g)
unary_inst UnaryOp.not target use_value g = ok (emit Gen.append_lnot g)
unary_inst UnaryOp.bitwise_not target use_value g = ok (emit Gen.append_not g)
unary_inst UnaryOp.pr_inc target use_value g = pre_step Gen.append_add target use_value g
unary_inst UnaryOp.pr_dec target use_value g = pre_step Gen.append_sub target use_value g
unary_inst UnaryOp.po_inc target use_value g = post_step Gen.append_add target g
unary_inst UnaryOp.po_dec target use_value g = post_step Gen.append_sub target g
unary_inst UnaryOp.delete target use_value g = panic
unary_inst UnaryOp.void target use_value g = panic

unfoldable pub visit_unary_op : Visitor → Target → UnaryOp → Visitor
unfolding unary_inst pop_unless
visit_unary_op expr target op use_value g = do
  g₁ ← expr true g
  g₂ ← unary_inst op target use_value g₁
  ok (pop_unless use_value g₂)

-- `a && b`: the jump keeps the first value if it is false.
unfoldable pub visit_and : Visitor → Visitor → Visitor
unfolding emit Gen.append_double Gen.append_jmp_if_false Gen.append_pop patch_jump pop_unless
visit_and lhs rhs use_value g = do
  g₁ ← lhs true g
  let g₂ = emit Gen.append_double g₁
  let lhs_cond_pos = length g₂.iseq
  g₃ ← rhs true (emit Gen.append_pop (emit (Gen.append_jmp_if_false (pos 0)) g₂))
  g₄ ← patch_jump (length g₃.iseq) lhs_cond_pos g₃
  ok (pop_unless use_value g₄)

unfoldable pub visit_comma : Visitor → Visitor → Visitor
unfolding pop_unless
visit_comma lhs rhs use_value g = do
  g₁ ← lhs false g
  g₂ ← rhs true g₁
  ok (pop_unless use_value g₂)

-- The instruction of an operator; `unimplemented!` for `||`, and for `=`, which the parser does not
-- make an operator.
unfoldable pub binary_inst : BinOp → Option (ByteCode → ByteCode)
binary_inst BinOp.add = some Gen.append_add
binary_inst BinOp.sub = some Gen.append_sub
binary_inst BinOp.mul = some Gen.append_mul
binary_inst BinOp.div = some Gen.append_div
binary_inst BinOp.rem = some Gen.append_rem
binary_inst BinOp.exp = some Gen.append_exp
binary_inst BinOp.eq = some Gen.append_eq
binary_inst BinOp.ne = some Gen.append_ne
binary_inst BinOp.strict_eq = some Gen.append_seq
binary_inst BinOp.strict_ne = some Gen.append_sne
binary_inst BinOp.and = some Gen.append_and
binary_inst BinOp.or = some Gen.append_or
binary_inst BinOp.xor = some Gen.append_xor
binary_inst BinOp.lt = some Gen.append_lt
binary_inst BinOp.gt = some Gen.append_gt
binary_inst BinOp.le = some Gen.append_le
binary_inst BinOp.ge = some Gen.append_ge
binary_inst BinOp.shl = some Gen.append_shl
binary_inst BinOp.shr = some Gen.append_shr
binary_inst BinOp.zf_shr = some Gen.append_zfshr
binary_inst _ = none

-- Both operands, the instruction, and `POP` if the value is not used.
unfoldable pub visit_operator : Visitor → Visitor → Option (ByteCode → ByteCode) → Visitor
unfolding emit pop_unless
visit_operator lhs rhs inst use_value g = do
  g₁ ← lhs true g
  g₂ ← rhs true g₁
  elim inst [ none ↦ panic | some op ↦ ok (pop_unless use_value (emit op g₂)) ]

unfoldable pub visit_binary_op : Visitor → Visitor → BinOp → Visitor
unfolding visit_and visit_comma visit_operator binary_inst
visit_binary_op lhs rhs BinOp.l_and use_value g = visit_and lhs rhs use_value g
visit_binary_op lhs rhs BinOp.comma use_value g = visit_comma lhs rhs use_value g
visit_binary_op lhs rhs op use_value g = visit_operator lhs rhs (binary_inst op) use_value g

unfoldable pub visit_assign : Visitor → Target → Visitor
unfolding double_if assign_stack_top_to
visit_assign src dst use_value g = do
  g₁ ← src true g
  assign_stack_top_to dst (double_if use_value g₁)

-- What is called: a member of an object, or any other expression.
pub data Callee : Type 0 where
  method : Visitor → String → Callee
  plain : Visitor → Callee

unfoldable pub call_inst : Callee → ℕ → CodeGenerator → Result CodeGenerator
unfolding push_string save_source_pos emit Gen.append_call_method Gen.append_call
call_inst (method parent property) argc g = do
  g₁ ← push_string property g
  g₂ ← parent true g₁
  ok (emit (Gen.append_call_method argc) (save_source_pos g₂))
call_inst (plain callee) argc g = do
  g₁ ← callee true g
  ok (emit (Gen.append_call argc) (save_source_pos g₁))

unfoldable pub visit_call : Callee → (CodeGenerator → Result CodeGenerator) → ℕ → Visitor
unfolding call_inst pop_unless
visit_call callee args argc use_value g = do
  g₁ ← args g
  g₂ ← call_inst callee argc g₁
  ok (pop_unless use_value g₂)

unfoldable pub constructor_value : Callee → CodeGenerator → Result CodeGenerator
unfolding member_parts emit Gen.append_get_member
constructor_value (method parent property) g = do
  g₁ ← member_parts parent property g
  ok (emit Gen.append_get_member g₁)
constructor_value (plain callee) g = callee true g

unfoldable pub visit_new : Callee → (CodeGenerator → Result CodeGenerator) → ℕ → Visitor
unfolding constructor_value emit Gen.append_construct pop_unless
visit_new callee args argc use_value g = do
  g₁ ← args g
  g₂ ← constructor_value callee g₁
  ok (pop_unless use_value (emit (Gen.append_construct argc) g₂))
