-- ===== src/Codegen/Safety/Expressions.antt =====
-- The visits of src/vm/codegen.rs to members, operators, assignments and calls, over parts that are
-- safe.
use rapidus.Prelude.{ℕ, ◌≡◌, ◌≢◌, refl, Bool, true, String, List, [], ◌∷◌, some, arith, length}
use rapidus.Prelude.Int.{pos}
use rapidus.Token.Symbol.{BinOp}
use rapidus.Node.{UnaryOp}
use rapidus.Factory.{Host}
use rapidus.Bytecode.Words.{ByteCode}
use rapidus.Bytecode.Inst
use rapidus.Bytecode.Gen
use rapidus.Codegen.State.{Result, CodeGenerator, Visitor, emit, pop_unless}
use rapidus.Codegen.Operators.{
  Target, Callee, method, plain, visit_member, visit_index, visit_unary_op, visit_and, visit_comma,
  binary_inst, visit_operator, visit_binary_op, visit_assign, call_inst, visit_call,
  constructor_value, visit_new,
}
use rapidus.Codegen.Safety.{Frame, has_loop, Ends, IsSafe, Keeps-refl, Ends-from}
use rapidus.Codegen.Safety.Steps.{
  Moves, Appends, byte_step, with_int32-Appends, emit-Moves, save_source_pos-Moves, visit-bind,
  patch-bind, append_jmp_if_false-Appends, length-append_jmp_if_false,
}
use rapidus.Codegen.Safety.Operators.{
  IsText, IsSafeTarget, IsSafeCallee, returned, pop_unless-Moves, push_string-bind,
  member_parts-Ends, index_parts-Ends, emit-after, assign_stack_top_to-Ends, double_if-Moves,
  unary_inst-Ends,
}

module _ {host : Host} {in_loop : Bool} where
  pub visit_member-IsSafe :
      {parent : Visitor} (property : String)
      → IsSafe host in_loop parent
      → IsText host property
      → IsSafe host in_loop (visit_member parent property)
  unfolding visit_member Gen.append_get_member
  visit_member-IsSafe property safe text frames inside u g r =
      emit-after _ (λ g' m'. pop_unless-Moves u (emit-Moves (byte_step _) m'))
        (member_parts-Ends inside property g safe text (r, Keeps-refl g))

  pub visit_index-IsSafe :
      {parent idx : Visitor}
      → IsSafe host in_loop parent
      → IsSafe host in_loop idx
      → IsSafe host in_loop (visit_index parent idx)
  unfolding visit_index Gen.append_get_member
  visit_index-IsSafe safe safe_idx frames inside u g r =
      emit-after _ (λ g' m'. pop_unless-Moves u (emit-Moves (byte_step _) m'))
        (index_parts-Ends inside g safe safe_idx (r, Keeps-refl g))

  pub visit_unary_op-IsSafe :
      {expr : Visitor} (dst : Target) (op : UnaryOp)
      → op ≢ UnaryOp.delete
      → op ≢ UnaryOp.void
      → IsSafe host in_loop expr
      → IsSafeTarget host in_loop dst
      → IsSafe host in_loop (visit_unary_op expr dst op)
  unfolding visit_unary_op
  visit_unary_op-IsSafe dst op not_delete not_void safe safe_dst frames inside u g r =
      visit-bind _ safe inside (r, Keeps-refl g)
        (λ g₁ m₁ longer₁.
          emit-after (pop_unless u) (λ g' m'. pop_unless-Moves u m')
            (unary_inst-Ends inside op dst u g₁ not_delete not_void safe_dst m₁))

  visit_and-IsSafe :
      {lhs rhs : Visitor}
      → IsSafe host in_loop lhs
      → IsSafe host in_loop rhs
      → IsSafe host in_loop (visit_and lhs rhs)
  unfolding visit_and Gen.append_double Gen.append_pop
  visit_and-IsSafe safe_l safe_r frames inside u g r =
      visit-bind _ safe_l inside (r, Keeps-refl g)
        (λ g₁ m₁ longer₁.
          let m₂ = emit-Moves (byte_step _) m₁ in
          let m₃ = emit-Moves (append_jmp_if_false-Appends (pos 0)) m₂ in
          let m₄ = emit-Moves (byte_step _) m₃ in
          visit-bind _ safe_r inside m₄ (λ g₃ m₅ longer₃.
            let g₂ = emit Gen.append_double g₁ in
            let len = length-append_jmp_if_false (pos 0) g₂ in
            let more =
              (byte_step (Inst.pop ∷ []) (emit (Gen.append_jmp_if_false (pos 0)) g₂).iseq).longer in
            patch-bind _ (length g₂.iseq) m₂.1.code.longer (omega arith) m₅
              (λ g₄ m₆ len₄ cur₄. returned (pop_unless-Moves u m₆))))

  visit_comma-IsSafe :
      {lhs rhs : Visitor}
      → IsSafe host in_loop lhs
      → IsSafe host in_loop rhs
      → IsSafe host in_loop (visit_comma lhs rhs)
  unfolding visit_comma
  visit_comma-IsSafe safe_l safe_r frames inside u g r =
      visit-bind _ safe_l inside (r, Keeps-refl g)
        (λ g₁ m₁ longer₁.
          visit-bind _ safe_r inside m₁ (λ g₂ m₂ longer₂. returned (pop_unless-Moves u m₂)))

  visit_operator-IsSafe :
      {lhs rhs : Visitor} {f : ByteCode → ByteCode}
      → IsSafe host in_loop lhs
      → IsSafe host in_loop rhs
      → Appends f
      → IsSafe host in_loop (visit_operator lhs rhs (some f))
  unfolding visit_operator
  visit_operator-IsSafe safe_l safe_r a frames inside u g r =
      visit-bind _ safe_l inside (r, Keeps-refl g)
        (λ g₁ m₁ longer₁.
          visit-bind _ safe_r inside m₁
            (λ g₂ m₂ longer₂. returned (pop_unless-Moves u (emit-Moves a m₂))))

  pub visit_assign-IsSafe :
      {src : Visitor} (dst : Target)
      → IsSafe host in_loop src
      → IsSafeTarget host in_loop dst
      → IsSafe host in_loop (visit_assign src dst)
  unfolding visit_assign
  visit_assign-IsSafe dst safe safe_dst frames inside u g r =
      visit-bind _ safe inside (r, Keeps-refl g)
        (λ g₁ m₁ longer₁.
          assign_stack_top_to-Ends inside dst _ safe_dst (double_if-Moves inside u m₁))

  pub visit_binary_op-IsSafe :
      {lhs rhs : Visitor} (op : BinOp)
      → op ≢ BinOp.l_or
      → op ≢ BinOp.assign
      → IsSafe host in_loop lhs
      → IsSafe host in_loop rhs
      → IsSafe host in_loop (visit_binary_op lhs rhs op)
  unfolding visit_binary_op binary_inst Gen.append_add Gen.append_sub Gen.append_mul Gen.append_div
      Gen.append_rem Gen.append_exp Gen.append_eq Gen.append_ne Gen.append_seq Gen.append_sne
      Gen.append_and Gen.append_or Gen.append_xor Gen.append_lt Gen.append_gt Gen.append_le
      Gen.append_ge Gen.append_shl Gen.append_shr Gen.append_zfshr
  visit_binary_op-IsSafe BinOp.l_and a b safe_l safe_r = visit_and-IsSafe safe_l safe_r
  visit_binary_op-IsSafe BinOp.comma a b safe_l safe_r = visit_comma-IsSafe safe_l safe_r
  visit_binary_op-IsSafe BinOp.l_or a b safe_l safe_r = absurd (a refl)
  visit_binary_op-IsSafe BinOp.assign a b safe_l safe_r = absurd (b refl)
  visit_binary_op-IsSafe _ a b safe_l safe_r = visit_operator-IsSafe safe_l safe_r (byte_step _)

-- The arguments of a call are visited one by one.
module _ {host : Host} {in_loop : Bool} {frames : List Frame} {base : CodeGenerator}
    (inside : in_loop ≡ true → has_loop frames ≡ true) where
  call_inst-Ends :
      (callee : Callee) (argc : ℕ) (g : CodeGenerator)
      → IsSafeCallee host in_loop callee
      → Moves host frames base g
      → Ends host frames base (call_inst callee argc g)
  unfolding call_inst Gen.append_call_method Gen.append_call
  call_inst-Ends (method parent property) argc g safe m =
      push_string-bind property g safe.1 m (λ g₁ m₁.
        visit-bind _ safe.0 inside m₁ (λ g₂ m₂ longer.
          returned (emit-Moves (with_int32-Appends _ _) (save_source_pos-Moves m₂))))
  call_inst-Ends (plain callee) argc g safe m =
      visit-bind _ safe inside m
        (λ g₁ m₁ longer. returned (emit-Moves (with_int32-Appends _ _) (save_source_pos-Moves m₁)))

  constructor_value-Ends :
      (callee : Callee) (g : CodeGenerator)
      → IsSafeCallee host in_loop callee
      → Moves host frames base g
      → Ends host frames base (constructor_value callee g)
  unfolding constructor_value Gen.append_get_member
  constructor_value-Ends (method parent property) g safe m =
      emit-after (emit Gen.append_get_member) (λ g' m'. emit-Moves (byte_step _) m')
        (member_parts-Ends inside property g safe.0 safe.1 m)
  constructor_value-Ends (plain callee) g safe m = Ends-from m.1 (safe frames inside true g m.0)

module _ {host : Host} {in_loop : Bool} where
  pub visit_call-IsSafe :
      {args : CodeGenerator → Result CodeGenerator} (callee : Callee) (argc : ℕ)
      → IsSafeCallee host in_loop callee
      → IsSafe host in_loop (λ u. args)
      → IsSafe host in_loop (visit_call callee args argc)
  unfolding visit_call
  visit_call-IsSafe callee argc safe safe_args frames inside u g r =
      visit-bind true safe_args inside (r, Keeps-refl g)
        (λ g₁ m₁ longer.
          emit-after (pop_unless u) (λ g' m'. pop_unless-Moves u m')
            (call_inst-Ends inside callee argc g₁ safe m₁))

  pub visit_new-IsSafe :
      {args : CodeGenerator → Result CodeGenerator} (callee : Callee) (argc : ℕ)
      → IsSafeCallee host in_loop callee
      → IsSafe host in_loop (λ u. args)
      → IsSafe host in_loop (visit_new callee args argc)
  unfolding visit_new Gen.append_construct
  visit_new-IsSafe callee argc safe safe_args frames inside u g r =
      visit-bind true safe_args inside (r, Keeps-refl g)
        (λ g₁ m₁ longer.
          emit-after _ (λ g' m'. pop_unless-Moves u (emit-Moves (with_int32-Appends _ _) m'))
            (constructor_value-Ends inside callee g₁ safe m₁))
