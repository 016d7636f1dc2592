-- ===== src/Vm/Script.antt =====
-- A script that is one expression: compiled by `compile` of src/vm/codegen.rs and run by `run` of
-- src/vm/vm.rs.
use rapidus.Prelude.{ℕ, ◌≡◌, ◌≢◌, false, [], ◌∷◌, ◌++◌, some}
use rapidus.JsValue.Value.{Value}
use rapidus.Node.{UnaryOp, Node, node, NodeBase}
use rapidus.Constant
use rapidus.Factory.{Host, Factory, get_func_ref}
use rapidus.Bytecode.Inst
use rapidus.Bytecode.Gen
use rapidus.Codegen.State.{Result, ok, CodeGenerator}
use rapidus.Codegen.Safety.Supported.{Supports, SupportsBase}
use rapidus.Vm
use rapidus.Vm.{Program, running}
use rapidus.Vm.Applied.{IsPure}
use rapidus.Vm.Correct.{IsExpression, IsExpressionBase}

IsPure-supported : (op : UnaryOp) → IsPure op → (op ≢ UnaryOp.delete) × (op ≢ UnaryOp.void)
unfolding IsPure
IsPure-supported UnaryOp.delete pure = absurd pure
IsPure-supported UnaryOp.void pure = absurd pure
IsPure-supported UnaryOp.typeof pure = ((λ h. absurd (cc h)), (λ h. absurd (cc h)))
IsPure-supported UnaryOp.plus pure = ((λ h. absurd (cc h)), (λ h. absurd (cc h)))
IsPure-supported UnaryOp.minus pure = ((λ h. absurd (cc h)), (λ h. absurd (cc h)))
IsPure-supported UnaryOp.bitwise_not pure = ((λ h. absurd (cc h)), (λ h. absurd (cc h)))
IsPure-supported UnaryOp.not pure = ((λ h. absurd (cc h)), (λ h. absurd (cc h)))
IsPure-supported _ pure = absurd pure

module _ (host : Host) where
  mutual
    unfolding IsExpression IsExpressionBase Supports SupportsBase

    IsExpression-Supports : (n : Node) → IsExpression n → Supports host false n
    IsExpression-Supports (node base p) is = IsExpressionBase-SupportsBase base is

    IsExpressionBase-SupportsBase :
        (base : NodeBase) → IsExpressionBase base → SupportsBase host false base
    IsExpressionBase-SupportsBase NodeBase.null is = tt
    IsExpressionBase-SupportsBase NodeBase.this is = tt
    IsExpressionBase-SupportsBase (NodeBase.boolean b) is = tt
    IsExpressionBase-SupportsBase (NodeBase.identifier name) is = tt
    IsExpressionBase-SupportsBase (NodeBase.number n) is = tt
    IsExpressionBase-SupportsBase (NodeBase.unary_op expr op) is =
        let kept = IsPure-supported op is.0 in (kept.0, kept.1, IsExpression-Supports expr is.1)
    IsExpressionBase-SupportsBase (NodeBase.binary_op lhs rhs op) is =
        (is.0.1, is.0.2, IsExpression-Supports lhs is.1, IsExpression-Supports rhs is.2)
    IsExpressionBase-SupportsBase (NodeBase.ternary_op c t e) is =
        (IsExpression-Supports c is.0, IsExpression-Supports t is.1, IsExpression-Supports e is.2)
    IsExpressionBase-SupportsBase (NodeBase.assign (node (NodeBase.identifier name) p) src) is =
        (tt, IsExpression-Supports src is)
    IsExpressionBase-SupportsBase _ is = absurd is

-- The function that `compile` registers, as the machine runs it.
unfoldable pub program_of : CodeGenerator → Value → Program
program_of g this = record {
  code = g.iseq;
  exception_table = g.current_function.exception_table;
  constant_table = g.constant_table;
  this = this;
}

-- The script's function stands under its id, behind the code of the expression and `RETURN`.
record IsScript (g : CodeGenerator) (result : Result (ℕ × CodeGenerator)) : Type 0 where
  ref : ℕ
  gen : CodeGenerator
  compiles : result ≡ ok (ref, gen)
  registered : get_func_ref gen.module_func_id gen.factory ≡ some ref
  code : gen.iseq ≡ g.iseq ++ Inst.return_op ∷ []
  table : gen.constant_table ≡ g.constant_table
