-- ===== src/Vm/Applied.antt =====
-- Each unary and each binary operator, compiled by src/vm/codegen.rs, on the machine of src/vm/vm.rs.
use rapidus.Prelude.{ℕ, ◌≡◌, ◌≢◌, refl, ap, true, false, [], ◌∷◌, some, at, if◌then◌else◌}
use rapidus.JsValue.Value.{Value, bool}
use rapidus.Token.Symbol.{BinOp}
use rapidus.Node.{UnaryOp}
use rapidus.Bytecode.Inst
use rapidus.Bytecode.Words.{ByteCode}
use rapidus.Bytecode.Gen
use rapidus.Codegen.State.{ok, ◌>>=◌, CodeGenerator, Visitor, emit, pop_unless}
use rapidus.Codegen.Operators.{Target, unary_inst, visit_unary_op, binary_inst, visit_binary_op}
use rapidus.Vm
use rapidus.Vm.{
  Runtime, Program, Machine, SubroutineKind, Arm, arms, running, run_arm, run_unary, run_lnot,
  run_binary, ValueMethod,
}
use rapidus.Vm.Expression
use rapidus.Vm.Expression.{eval_unary, eval_binary, method_of}
use rapidus.Vm.Compiled.{Emits, at_pc, Does}
use rapidus.Vm.Branches.{Eval}
use rapidus.Vm.Operators.{some_inj, unary-Does, binary-Does}
use rapidus.Vm.Conjunction.{visit_and-Does}

-- The operators that `eval_unary` has a value for.
unfoldable pub IsPure : UnaryOp → Type 0
IsPure UnaryOp.typeof = Unit
IsPure UnaryOp.plus = Unit
IsPure UnaryOp.minus = Unit
IsPure UnaryOp.bitwise_not = Unit
IsPure UnaryOp.not = Unit
IsPure _ = ⊥

module _ (R : Runtime) (ev : Eval R) (g : CodeGenerator) (expr : Visitor) (target : Target)
    (h : Does R ev g (expr true g)) where
  method-Does :
      (op : ℕ) (method : Vm.UnaryMethod) (f : ByteCode → ByteCode)
      → ((g₁ : CodeGenerator) → Emits op [] g₁ (emit f g₁))
      → at op arms ≡ some (Vm.unary_method method)
      → Does R
          (λ this m. Expression.◌>>=◌ (ev this m) (λ q. some (R.unary method q.0 q.1)))
          g
          (expr true g >>= λ g₁. ok (emit f g₁))
  unfolding run_arm run_unary
  method-Does op method f e is_arm =
      unary-Does R op (Vm.unary_method method) ev (λ v m. some (R.unary method v m)) g (emit f) h e
        is_arm (λ P pc s m subs v w m' result. rw (some_inj result) refl)

  pub visit_unary_op-Does :
      (op : UnaryOp)
      → IsPure op
      → Does R
          (λ this m. Expression.◌>>=◌ (ev this m) (λ q. eval_unary R this op q.0 q.1))
          g
          (visit_unary_op expr target op true g)
  unfolding IsPure visit_unary_op unary_inst pop_unless eval_unary emit Gen.append_typeof
      Gen.append_posi Gen.append_neg Gen.append_lnot Gen.append_not run_arm run_lnot at
  visit_unary_op-Does UnaryOp.typeof pure =
      method-Does Inst.typeof_op Vm.type_of Gen.append_typeof
        (λ g₁. record { code = refl; table = refl }) refl
  visit_unary_op-Does UnaryOp.plus pure =
      method-Does Inst.posi Vm.positive Gen.append_posi (λ g₁. record { code = refl; table = refl })
        refl
  visit_unary_op-Does UnaryOp.minus pure =
      method-Does Inst.neg Vm.minus Gen.append_neg (λ g₁. record { code = refl; table = refl }) refl
  visit_unary_op-Does UnaryOp.bitwise_not pure =
      method-Does Inst.not Vm.bitwise_not Gen.append_not
        (λ g₁. record { code = refl; table = refl }) refl
  visit_unary_op-Does UnaryOp.not pure =
      unary-Does R Inst.lnot Vm.lnot ev (λ v m. some (bool (if R.to_boolean v m then 0 else 1), m))
        g (emit Gen.append_lnot) h (λ g₁. record { code = refl; table = refl }) refl
        (λ P pc s m subs v w m' result.
          ap (λ (q : Value × R.Memory). running (at_pc R pc (q.0 ∷ s) q.1 subs)) (some_inj result))
  visit_unary_op-Does UnaryOp.delete pure = absurd pure
  visit_unary_op-Does UnaryOp.void pure = absurd pure
  visit_unary_op-Does UnaryOp.pr_inc pure = absurd pure
  visit_unary_op-Does UnaryOp.pr_dec pure = absurd pure
  visit_unary_op-Does UnaryOp.po_inc pure = absurd pure
  visit_unary_op-Does UnaryOp.po_dec pure = absurd pure

module _ (R : Runtime) (l r : Eval R) (lhs rhs : Visitor)
    (hl : (g : CodeGenerator) → Does R l g (lhs true g))
    (hr : (g : CodeGenerator) → Does R r g (rhs true g)) where
  pub visit_binary_op-Does :
      (op : BinOp)
      → (op ≢ BinOp.comma) × (op ≢ BinOp.l_or) × (op ≢ BinOp.assign)
      → (g : CodeGenerator)
      → Does R
          (λ this. eval_binary R this op (l this) (r this))
          g
          (visit_binary_op lhs rhs op true g)
  unfolding visit_binary_op binary_inst eval_binary method_of emit Gen.append_add Gen.append_sub
      Gen.append_mul Gen.append_div Gen.append_rem Gen.append_exp Gen.append_eq Gen.append_ne
      Gen.append_seq Gen.append_sne Gen.append_and Gen.append_or Gen.append_xor Gen.append_lt
      Gen.append_gt Gen.append_le Gen.append_ge Gen.append_shl Gen.append_shr Gen.append_zfshr
      run_arm at
  visit_binary_op-Does BinOp.add kept = λ g.
      binary-Does R Inst.add ValueMethod.add false l r lhs rhs Gen.append_add hl hr
        (λ g₁. record { code = refl; table = refl }) (Vm.binary_method ValueMethod.add) refl
        (λ P n. refl) g
  visit_binary_op-Does BinOp.sub kept = λ g.
      binary-Does R Inst.sub ValueMethod.sub false l r lhs rhs Gen.append_sub hl hr
        (λ g₁. record { code = refl; table = refl }) (Vm.binary_method ValueMethod.sub) refl
        (λ P n. refl) g
  visit_binary_op-Does BinOp.mul kept = λ g.
      binary-Does R Inst.mul ValueMethod.mul false l r lhs rhs Gen.append_mul hl hr
        (λ g₁. record { code = refl; table = refl }) (Vm.binary_method ValueMethod.mul) refl
        (λ P n. refl) g
  visit_binary_op-Does BinOp.div kept = λ g.
      binary-Does R Inst.div ValueMethod.div false l r lhs rhs Gen.append_div hl hr
        (λ g₁. record { code = refl; table = refl }) (Vm.binary_method ValueMethod.div) refl
        (λ P n. refl) g
  visit_binary_op-Does BinOp.rem kept = λ g.
      binary-Does R Inst.rem ValueMethod.rem false l r lhs rhs Gen.append_rem hl hr
        (λ g₁. record { code = refl; table = refl }) (Vm.binary_method ValueMethod.rem) refl
        (λ P n. refl) g
  visit_binary_op-Does BinOp.exp kept = λ g.
      binary-Does R Inst.exp ValueMethod.exp false l r lhs rhs Gen.append_exp hl hr
        (λ g₁. record { code = refl; table = refl }) (Vm.binary_method ValueMethod.exp) refl
        (λ P n. refl) g
  visit_binary_op-Does BinOp.eq kept = λ g.
      binary-Does R Inst.eq ValueMethod.eq false l r lhs rhs Gen.append_eq hl hr
        (λ g₁. record { code = refl; table = refl }) (Vm.binary_method ValueMethod.eq) refl
        (λ P n. refl) g
  visit_binary_op-Does BinOp.ne kept = λ g.
      binary-Does R Inst.ne ValueMethod.ne false l r lhs rhs Gen.append_ne hl hr
        (λ g₁. record { code = refl; table = refl }) (Vm.binary_method ValueMethod.ne) refl
        (λ P n. refl) g
  visit_binary_op-Does BinOp.strict_eq kept = λ g.
      binary-Does R Inst.seq ValueMethod.strict_eq false l r lhs rhs Gen.append_seq hl hr
        (λ g₁. record { code = refl; table = refl }) (Vm.binary_method ValueMethod.strict_eq) refl
        (λ P n. refl) g
  visit_binary_op-Does BinOp.strict_ne kept = λ g.
      binary-Does R Inst.sne ValueMethod.strict_ne false l r lhs rhs Gen.append_sne hl hr
        (λ g₁. record { code = refl; table = refl }) (Vm.binary_method ValueMethod.strict_ne) refl
        (λ P n. refl) g
  visit_binary_op-Does BinOp.lt kept = λ g.
      binary-Does R Inst.lt ValueMethod.lt false l r lhs rhs Gen.append_lt hl hr
        (λ g₁. record { code = refl; table = refl }) (Vm.binary_method ValueMethod.lt) refl
        (λ P n. refl) g
  visit_binary_op-Does BinOp.le kept = λ g.
      binary-Does R Inst.le ValueMethod.le false l r lhs rhs Gen.append_le hl hr
        (λ g₁. record { code = refl; table = refl }) (Vm.binary_method ValueMethod.le) refl
        (λ P n. refl) g
  visit_binary_op-Does BinOp.gt kept = λ g.
      binary-Does R Inst.gt ValueMethod.lt true l r lhs rhs Gen.append_gt hl hr
        (λ g₁. record { code = refl; table = refl }) (Vm.swapped_method ValueMethod.lt) refl
        (λ P n. refl) g
  visit_binary_op-Does BinOp.ge kept = λ g.
      binary-Does R Inst.ge ValueMethod.le true l r lhs rhs Gen.append_ge hl hr
        (λ g₁. record { code = refl; table = refl }) (Vm.swapped_method ValueMethod.le) refl
        (λ P n. refl) g
  visit_binary_op-Does BinOp.and kept = λ g.
      binary-Does R Inst.and ValueMethod.and true l r lhs rhs Gen.append_and hl hr
        (λ g₁. record { code = refl; table = refl }) (Vm.swapped_method ValueMethod.and) refl
        (λ P n. refl) g
  visit_binary_op-Does BinOp.or kept = λ g.
      binary-Does R Inst.or ValueMethod.or true l r lhs rhs Gen.append_or hl hr
        (λ g₁. record { code = refl; table = refl }) (Vm.swapped_method ValueMethod.or) refl
        (λ P n. refl) g
  visit_binary_op-Does BinOp.xor kept = λ g.
      binary-Does R Inst.xor ValueMethod.xor true l r lhs rhs Gen.append_xor hl hr
        (λ g₁. record { code = refl; table = refl }) (Vm.swapped_method ValueMethod.xor) refl
        (λ P n. refl) g
  visit_binary_op-Does BinOp.shl kept = λ g.
      binary-Does R Inst.shl ValueMethod.shift_l false l r lhs rhs Gen.append_shl hl hr
        (λ g₁. record { code = refl; table = refl }) (Vm.binary_method ValueMethod.shift_l) refl
        (λ P n. refl) g
  visit_binary_op-Does BinOp.shr kept = λ g.
      binary-Does R Inst.shr ValueMethod.shift_r false l r lhs rhs Gen.append_shr hl hr
        (λ g₁. record { code = refl; table = refl }) (Vm.binary_method ValueMethod.shift_r) refl
        (λ P n. refl) g
  visit_binary_op-Does BinOp.zf_shr kept = λ g.
      binary-Does R Inst.zfshr ValueMethod.z_shift_r false l r lhs rhs Gen.append_zfshr hl hr
        (λ g₁. record { code = refl; table = refl }) (Vm.binary_method ValueMethod.z_shift_r) refl
        (λ P n. refl) g
  visit_binary_op-Does BinOp.l_and kept = λ g. visit_and-Does R l r lhs rhs hl hr g
  visit_binary_op-Does BinOp.l_or kept = absurd (kept.1 refl)
  visit_binary_op-Does BinOp.assign kept = absurd (kept.2 refl)
  visit_binary_op-Does BinOp.comma kept = absurd (kept.0 refl)
