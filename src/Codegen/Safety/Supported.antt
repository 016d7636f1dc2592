-- ===== src/Codegen/Safety/Supported.antt =====
-- The trees that src/vm/codegen.rs has code for: what it leaves `unimplemented!` does not occur,
-- `break` and `continue` stand in a loop, and no text has a NUL inside. The statement `try` is left
-- out.
use rapidus.Prelude.{Bool, true, false, ◌≡◌, ◌≢◌, none}
use rapidus.Token.Symbol.{BinOp}
use rapidus.Node.{
  UnaryOp, Node, node, NodeBase, Nodes, nil, cons, Init, absent, present, PropertyDefinition,
  identifier_reference, property, method_definition, spread_object, Properties, no_property,
  add_property,
}
use rapidus.Factory.{Host, or_empty}
use rapidus.Codegen.Safety.Operators.{IsText}

unfoldable mutual
  unfolding or_empty

  pub Supports : Host → Bool → Node → Type 0
  Supports host in_loop (node base p) = SupportsBase host in_loop base

  pub SupportsBase : Host → Bool → NodeBase → Type 0
  SupportsBase host in_loop (NodeBase.statement_list nodes) = SupportsAll host in_loop nodes
  SupportsBase host in_loop (NodeBase.block nodes) = SupportsAll host in_loop nodes
  SupportsBase host in_loop (NodeBase.if_else cond then_ else_) =
      Supports host in_loop cond × Supports host in_loop then_ × Supports host in_loop else_
  SupportsBase host in_loop (NodeBase.while_loop cond body) =
      Supports host true cond × Supports host true body
  SupportsBase host in_loop (NodeBase.for_loop init cond step body) =
      Supports host true init
      × Supports host true cond
      × Supports host true step
      × Supports host true body
  SupportsBase host in_loop (NodeBase.break_loop name) = in_loop ≡ true
  SupportsBase host in_loop (NodeBase.continue_loop name) = in_loop ≡ true
  SupportsBase host in_loop (NodeBase.function_decl name params body) = Supports host false body
  SupportsBase host in_loop (NodeBase.function_expr name params body) =
      IsText host (or_empty name) × Supports host false body
  SupportsBase host in_loop (NodeBase.arrow_function params body) =
      IsText host (or_empty none) × Supports host false body
  SupportsBase host in_loop (NodeBase.var_decl name init kind) = SupportsInit host in_loop init
  SupportsBase host in_loop (NodeBase.member parent name) =
      Supports host in_loop parent × IsText host name
  SupportsBase host in_loop (NodeBase.index parent idx) =
      Supports host in_loop parent × Supports host in_loop idx
  SupportsBase host in_loop (NodeBase.new (node (NodeBase.call callee args) q)) =
      Supports host in_loop callee × SupportsAll host in_loop args
  SupportsBase host in_loop (NodeBase.call callee args) =
      Supports host in_loop callee × SupportsAll host in_loop args
  SupportsBase host in_loop (NodeBase.assign dst src) =
      Supports host in_loop dst × Supports host in_loop src
  SupportsBase host in_loop (NodeBase.unary_op expr op) =
      (op ≢ UnaryOp.delete) × (op ≢ UnaryOp.void) × Supports host in_loop expr
  SupportsBase host in_loop (NodeBase.binary_op lhs rhs op) =
      (op ≢ BinOp.l_or)
      × (op ≢ BinOp.assign)
      × Supports host in_loop lhs
      × Supports host in_loop rhs
  SupportsBase host in_loop (NodeBase.ternary_op cond then_exp else_exp) =
      Supports host in_loop cond × Supports host in_loop then_exp × Supports host in_loop else_exp
  SupportsBase host in_loop (NodeBase.return_value val) = SupportsInit host in_loop val
  SupportsBase host in_loop (NodeBase.throw val) = Supports host in_loop val
  SupportsBase host in_loop (NodeBase.array elems) = SupportsAll host in_loop elems
  SupportsBase host in_loop (NodeBase.object properties) =
      SupportsProperties host in_loop properties
  SupportsBase host in_loop (NodeBase.identifier name) = Unit
  SupportsBase host in_loop (NodeBase.spread expr) = Supports host in_loop expr
  SupportsBase host in_loop NodeBase.this = Unit
  SupportsBase host in_loop NodeBase.null = Unit
  SupportsBase host in_loop (NodeBase.string s) = IsText host s
  SupportsBase host in_loop (NodeBase.boolean b) = Unit
  SupportsBase host in_loop (NodeBase.number n) = Unit
  SupportsBase host in_loop NodeBase.nope = Unit
  SupportsBase host in_loop (NodeBase.label name body) = ⊥
  SupportsBase host in_loop (NodeBase.try_catch try_clause catch_clause param finally_clause) = ⊥
  SupportsBase host in_loop (NodeBase.new _) = ⊥

  pub SupportsAll : Host → Bool → Nodes → Type 0
  SupportsAll host in_loop nil = Unit
  SupportsAll host in_loop (cons n rest) = Supports host in_loop n × SupportsAll host in_loop rest

  pub SupportsInit : Host → Bool → Init → Type 0
  SupportsInit host in_loop absent = Unit
  SupportsInit host in_loop (present n) = Supports host in_loop n

  pub SupportsProperty : Host → Bool → PropertyDefinition → Type 0
  SupportsProperty host in_loop (identifier_reference name) = IsText host name
  SupportsProperty host in_loop (property name val) = Supports host in_loop val × IsText host name
  SupportsProperty host in_loop (method_definition kind name val) =
      Supports host in_loop val × IsText host name
  SupportsProperty host in_loop (spread_object val) = Supports host in_loop val

  pub SupportsProperties : Host → Bool → Properties → Type 0
  SupportsProperties host in_loop no_property = Unit
  SupportsProperties host in_loop (add_property p rest) =
      SupportsProperty host in_loop p × SupportsProperties host in_loop rest
