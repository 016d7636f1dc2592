-- ===== src/Node.antt =====
-- src/node.rs: the syntax tree. A `Vec` of nodes and an `Option` of a node are types of the block, as
-- the tree stands inside them; a `Box` is what it holds.
use rapidus.Prelude.{ℕ, Bool, true, false, String, Option}
use rapidus.JsValue.F64.{F64}
use rapidus.Token.Symbol.{BinOp}

pub data MethodDefinitionKind : Type 0 where
  get set ordinary : MethodDefinitionKind

pub data VarKind : Type 0 where
  var const let_kind : VarKind

pub data UnaryOp : Type 0 where
  delete void typeof plus minus bitwise_not not pr_inc pr_dec po_inc po_dec : UnaryOp

mutual
  pub data Node : Type 0 where
    node : NodeBase → ℕ → Node

  pub data NodeBase : Type 0 where
    statement_list block : Nodes → NodeBase
    function_decl : String → FormalParameters → Node → NodeBase
    function_expr : Option String → FormalParameters → Node → NodeBase
    arrow_function : FormalParameters → Node → NodeBase
    var_decl : String → Init → VarKind → NodeBase
    member : Node → String → NodeBase
    index : Node → Node → NodeBase
    new : Node → NodeBase
    call : Node → Nodes → NodeBase
    if_else : Node → Node → Node → NodeBase
    while_loop : Node → Node → NodeBase
    for_loop : Node → Node → Node → Node → NodeBase
    assign : Node → Node → NodeBase
    unary_op : Node → UnaryOp → NodeBase
    binary_op : Node → Node → BinOp → NodeBase
    ternary_op : Node → Node → Node → NodeBase
    return_value : Init → NodeBase
    label : String → Node → NodeBase
    break_loop continue_loop : Option String → NodeBase
    try_catch : Node → Node → Node → Node → NodeBase
    throw : Node → NodeBase
    array : Nodes → NodeBase
    object : Properties → NodeBase
    identifier : String → NodeBase
    spread : Node → NodeBase
    this null : NodeBase
    string : String → NodeBase
    boolean : Bool → NodeBase
    number : F64 → NodeBase
    nope : NodeBase

  pub data Nodes : Type 0 where
    nil : Nodes
    cons : Node → Nodes → Nodes

  -- `Option<Box<Node>>`.
  pub data Init : Type 0 where
    absent : Init
    present : Node → Init

  pub data PropertyDefinition : Type 0 where
    identifier_reference : String → PropertyDefinition
    property : String → Node → PropertyDefinition
    method_definition : MethodDefinitionKind → String → Node → PropertyDefinition
    spread_object : Node → PropertyDefinition

  pub data Properties : Type 0 where
    no_property : Properties
    add_property : PropertyDefinition → Properties → Properties

  -- A parameter's name, its initial value and whether it is the rest parameter.
  pub data FormalParameter : Type 0 where
    parameter : String → Init → Bool → FormalParameter

  pub data FormalParameters : Type 0 where
    no_parameter : FormalParameters
    add_parameter : FormalParameter → FormalParameters → FormalParameters

-- `node.base == NodeBase::Nope`.
unfoldable pub is_nope : Node → Bool
is_nope (node nope pos) = true
is_nope _ = false
