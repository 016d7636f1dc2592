-- ===== src/Vm/Correct.antt =====
-- Expressions compiled by `visit` of src/vm/codegen.rs, on the machine of src/vm/vm.rs.
use rapidus.Prelude.{ℕ, ◌<◌, ◌^◌, ◌≡◌, ◌≢◌, refl, true, false, List, ◌∷◌, some, length, at}
use rapidus.Prelude.Int.{pos}
use rapidus.JsValue.F64.{int_value}
use rapidus.Vm.Numbers.{append_push_number-Does}
use rapidus.JsValue.Value.{Value, bool, null}
use rapidus.Token.Symbol.{BinOp}
use rapidus.Node.{Node, node, NodeBase}
use rapidus.Bytecode.Inst
use rapidus.Bytecode.Gen
use rapidus.Codegen.State.{Result, ok, CodeGenerator, emit}
use rapidus.Codegen.Visit.{visit, visit_base, target}
use rapidus.Vm
use rapidus.Vm.{Runtime, Program, Machine, SubroutineKind, run_arm, pushed}
use rapidus.Vm.Expression.{eval, eval_base}
use rapidus.Vm.Runs.{Reaches}
use rapidus.Vm.Compiled.{at_pc, Holds, Does, adds}
use rapidus.Vm.Branches.{Eval, visit_ternary_op-Does}
use rapidus.Vm.Operators.{push-Does}
use rapidus.Vm.Variables.{visit_identifier-Does, visit_assign-Does}
use rapidus.Vm.Applied.{IsPure, visit_unary_op-Does, visit_binary_op-Does}

-- Constants, integers from 0 to 2 ^ 31 - 1, `this`, variables and their assignment, operators and
-- `?:`.
unfoldable mutual
  unfolding IsPure int_value

  pub IsExpression : Node → Type 0
  IsExpression (node base p) = IsExpressionBase base

  pub IsExpressionBase : NodeBase → Type 0
  IsExpressionBase NodeBase.null = Unit
  IsExpressionBase NodeBase.this = Unit
  IsExpressionBase (NodeBase.boolean b) = Unit
  IsExpressionBase (NodeBase.number n) = (k : ℕ) × (int_value n ≡ some (pos k)) × (k < 2 ^ 31)
  IsExpressionBase (NodeBase.identifier name) = Unit
  IsExpressionBase (NodeBase.unary_op expr op) = IsPure op × IsExpression expr
  IsExpressionBase (NodeBase.binary_op lhs rhs op) =
      ((op ≢ BinOp.comma) × (op ≢ BinOp.l_or) × (op ≢ BinOp.assign))
      × IsExpression lhs
      × IsExpression rhs
  IsExpressionBase (NodeBase.ternary_op c t e) = IsExpression c × IsExpression t × IsExpression e
  IsExpressionBase (NodeBase.assign (node (NodeBase.identifier name) p) src) = IsExpression src
  IsExpressionBase _ = ⊥

-- The position of the node is not part of the code.
at_node :
    (R : Runtime) (ev : Eval R) (p : ℕ) (g : CodeGenerator) {r : Result CodeGenerator}
    → Does R ev (record g { node_pos = p }) r
    → Does R ev g r
at_node R ev p g (adds k sim) =
    adds (record { longer = k.longer; same = k.same; constants = λ i e. k.constants i e })
      (λ P H s m subs v m' result.
        sim P
          (record {
            code = H.code;
            constants = λ i e. H.constants i e;
            bounded = H.bounded;
            few = λ i e. H.few i e;
          })
          s m subs v m' result)

module _ (R : Runtime) where
  mutual
    unfolding visit visit_base target eval eval_base IsExpression IsExpressionBase emit
        Gen.append_push_null Gen.append_push_this Gen.append_push_bool at run_arm pushed

    visit-Does :
        (n : Node)
        → IsExpression n
        → (g : CodeGenerator) → Does R (λ this. eval R this n) g (visit n true g)
    visit-Does (node base p) is g =
        at_node R (λ this. eval_base R this base) p g
          (visit_base-Does base p is (record g { node_pos = p }))

    visit_base-Does :
        (base : NodeBase) (p : ℕ)
        → IsExpressionBase base
        → (g : CodeGenerator) → Does R (λ this. eval_base R this base) g (visit_base base p true g)
    visit_base-Does NodeBase.null p is g =
        push-Does R Inst.push_null (Vm.push null) (λ this. null) g _
          (record { code = refl; table = refl }) refl (λ P n. refl)
    visit_base-Does NodeBase.this p is g =
        push-Does R Inst.push_this Vm.push_this (λ this. this) g _
          (record { code = refl; table = refl }) refl (λ P n. refl)
    visit_base-Does (NodeBase.boolean true) p is g =
        push-Does R Inst.push_true (Vm.push (bool 1)) (λ this. bool 1) g _
          (record { code = refl; table = refl }) refl (λ P n. refl)
    visit_base-Does (NodeBase.boolean false) p is g =
        push-Does R Inst.push_false (Vm.push (bool 0)) (λ this. bool 0) g _
          (record { code = refl; table = refl }) refl (λ P n. refl)
    visit_base-Does (NodeBase.number n) p is g = append_push_number-Does R n is.0 is.1 is.2 g
    visit_base-Does (NodeBase.identifier name) p is g = visit_identifier-Does R name g
    visit_base-Does (NodeBase.unary_op expr op) p is g =
        visit_unary_op-Does R (λ this. eval R this expr) g (visit expr) (target expr)
          (visit-Does expr is.1 g) op is.0
    visit_base-Does (NodeBase.binary_op lhs rhs op) p is g =
        visit_binary_op-Does R (λ this. eval R this lhs) (λ this. eval R this rhs) (visit lhs)
          (visit rhs) (visit-Does lhs is.1) (visit-Does rhs is.2) op is.0 g
    visit_base-Does (NodeBase.ternary_op c t e) p is g =
        visit_ternary_op-Does R (λ this. eval R this c) (λ this. eval R this t)
          (λ this. eval R this e) (visit c) (visit t) (visit e) (visit-Does c is.0)
          (visit-Does t is.1) (visit-Does e is.2) g
    visit_base-Does (NodeBase.assign (node (NodeBase.identifier name) q) src) p is g =
        visit_assign-Does R name (λ this. eval R this src) (visit src) (visit-Does src is) g
    visit_base-Does _ p is g = absurd is

-- The code generator after a visit that succeeds.
unfoldable pub generator_after : CodeGenerator → Result CodeGenerator → CodeGenerator
generator_after g (ok g') = g'
generator_after g _ = g

unfoldable pub compiled : Node → CodeGenerator → CodeGenerator
unfolding visit generator_after
compiled n g = generator_after g (visit n true g)

module _ (R : Runtime) where
  Does-Reaches :
      (ev : Eval R) (g : CodeGenerator) (r : Result CodeGenerator) (P : Program) (s : List Value)
      (m : R.Memory) (subs : List SubroutineKind) (v : Value) (m' : R.Memory)
      → Does R ev g r
      → Holds R P g (generator_after g r)
      → ev P.this m ≡ some (v, m')
      → (r ≡ ok (generator_after g r))
        × Reaches R P
            (at_pc R (length g.iseq) s m subs)
            (at_pc R (length (generator_after g r).iseq) (v ∷ s) m' subs)
  unfolding generator_after
  Does-Reaches ev g r P s m subs v m' (adds k sim) H result = (refl, sim P H s m subs v m' result)

  -- The visit succeeds.
  pub visit-compiled :
      (n : Node) (g : CodeGenerator) → IsExpression n → visit n true g ≡ ok (compiled n g)
  unfolding compiled generator_after
  visit-compiled n g is = adds_ok (λ this. eval R this n) g (visit n true g) (visit-Does R n is g)
    where
      adds_ok :
          (ev : Eval R) (g : CodeGenerator) (r : Result CodeGenerator)
          → Does R ev g r
          → r ≡ ok (generator_after g r)
      adds_ok ev g r (adds k sim) = refl

  -- An expression of constants, integers from 0 to 2 ^ 31 - 1, `this`, variables and their assignment,
  -- `?:`, and the operators but `,`, `||`, `=`, `delete`, `void`, `++` and `--` is compiled without an
  -- error, whatever the state of the code generator. In a program that holds the code and the constants
  -- that this adds, with fewer than 2 ^ 31 bytes and ids, the machine that starts at the first of these
  -- bytes arrives behind the last: the value that the expression has by the reference evaluation lies
  -- on top of the stack, the memory is that after the evaluation, and all else is as it was. The
  -- methods of values and the access to variables may be any functions. The condition is that the
  -- evaluation raises no error.
  pub compiled-Reaches :
      (n : Node) (g : CodeGenerator) (P : Program) (s : List Value) (m : R.Memory)
      (subs : List SubroutineKind) (v : Value) (m' : R.Memory)
      → IsExpression n
      → Holds R P g (compiled n g)
      → eval R P.this n m ≡ some (v, m')
      → (visit n true g ≡ ok (compiled n g))
        × Reaches R P
            (at_pc R (length g.iseq) s m subs)
            (at_pc R (length (compiled n g).iseq) (v ∷ s) m' subs)
  unfolding compiled
  compiled-Reaches n g P s m subs v m' is H result =
      Does-Reaches (λ this. eval R this n) g (visit n true g) P s m subs v m' (visit-Does R n is g)
        H result
