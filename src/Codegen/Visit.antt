-- ===== src/Codegen/Visit.antt =====
-- `visit` and `compile` of src/vm/codegen.rs: the recursion on the tree.
mod Tests
use rapidus.Prelude.{
  ℕ, suc, ◌+◌, ◌==◌, not, Bool, true, false, String, List, [], ◌∷◌, Option, none, some,
  if◌then◌else◌, put,
}
use rapidus.JsValue.Value.{empty, number}
use rapidus.JsValue.Function.{UserFunctionInfo, global}
use rapidus.Node.{
  Node, node, NodeBase, Nodes, nil, cons, Init, absent, present, PropertyDefinition,
  identifier_reference, property, method_definition, spread_object, Properties, no_property,
  add_property, FormalParameters, is_nope,
}
use rapidus.Constant.{ConstantTable, SpecialProperties, spread}
use rapidus.Factory.{Factory, alloc_user_func_info}
use rapidus.Bytecode.Gen
use rapidus.Codegen.Levels
use rapidus.Codegen.State.{
  Result, ok, panic, ◌>>=◌, unwrap, CodeGenerator, Visitor, emit, emit_const, pop_unless,
  save_source_pos, push_string,
}
use rapidus.Codegen.Control.{
  visit_block_statement, visit_if, visit_while, visit_for, visit_break, visit_continue,
  visit_ternary_op,
}
use rapidus.Codegen.Exceptions.{visit_try, visit_throw, visit_return}
use rapidus.Codegen.Operators.{
  Target, invalid, Callee, method, plain, visit_member, visit_index, visit_unary_op,
  visit_binary_op, visit_assign, visit_call, visit_new,
}
use rapidus.Codegen.Functions.{
  visit_function_decl, visit_function_expr, visit_var_decl, special_method, close_object,
}

-- `args.len()`.
unfoldable pub count_nodes : Nodes → ℕ
count_nodes nil = 0
count_nodes (cons n rest) = count_nodes rest + 1

-- The name in `param.base`, if it is an identifier.
unfoldable pub identifier_name : Node → Option String
identifier_name (node (NodeBase.identifier name) p) = some name
identifier_name _ = none

-- The two cases of `Spread`.
unfoldable pub visit_spread : Visitor → Visitor
unfolding emit Gen.append_pop Gen.append_spread_array
visit_spread visit_node use_value g = do
  g₁ ← visit_node true g
  ok (if use_value then emit Gen.append_spread_array g₁ else emit Gen.append_pop g₁)

-- A leaf of the tree emits nothing if its value is not used.
abbrev pub leaf : (CodeGenerator → CodeGenerator) → Visitor
leaf f use_value g = ok (if use_value then f g else g)

-- A string allocates one, if it is used.
unfoldable pub visit_string : String → Visitor
unfolding push_string
visit_string s use_value g = if use_value then push_string s g else ok g

-- A value on the stack, and the name under it.
unfoldable pub named : Visitor → String → CodeGenerator → Result CodeGenerator
unfolding push_string
named val name g = do g₁ ← val true g; push_string name g₁

unfoldable pub visit_identifier : String → Visitor
unfolding save_source_pos emit_const Gen.append_get_value pop_unless
visit_identifier name use_value g =
    ok (pop_unless use_value (emit_const (Gen.append_get_value name) (save_source_pos g)))

unfoldable mutual
  unfolding visit_block_statement visit_if visit_while visit_for visit_break visit_continue
      visit_ternary_op visit_try visit_throw visit_return visit_member visit_index visit_unary_op
      visit_binary_op visit_assign visit_call visit_new visit_function_decl visit_function_expr
      visit_var_decl special_method close_object emit emit_const pop_unless save_source_pos
      push_string count_nodes identifier_name visit_spread visit_string visit_identifier named
      is_nope Gen.append_push_null Gen.append_push_this Gen.append_push_number Gen.append_push_bool
      Gen.append_push_const Gen.append_push_seperator Gen.append_create_array

  pub visit : Node → Visitor
  visit (node base p) use_value g = visit_base base p use_value (record g { node_pos = p })

  pub visit_base : NodeBase → ℕ → Visitor
  visit_base (NodeBase.statement_list nodes) p use_value g = visit_nodes nodes use_value g
  visit_base (NodeBase.block nodes) p use_value g =
      visit_block_statement (visit_nodes nodes use_value) use_value g
  visit_base (NodeBase.if_else cond then_ else_) p use_value g =
      visit_if (visit cond) (visit then_) (is_nope else_) (visit else_) g
  visit_base (NodeBase.while_loop cond body) p use_value g = visit_while (visit cond) (visit body) g
  visit_base (NodeBase.for_loop init cond step body) p use_value g =
      visit_for (visit init) (visit cond) (visit step) (visit body) g
  visit_base (NodeBase.break_loop name) p use_value g = visit_break g
  visit_base (NodeBase.continue_loop name) p use_value g = visit_continue g
  visit_base (NodeBase.try_catch try_clause catch_clause param finally_clause) p use_value g =
      visit_try (visit try_clause) (not (is_nope catch_clause)) (visit catch_clause)
        (identifier_name param) (visit finally_clause) g
  visit_base (NodeBase.function_decl name params body) p use_value g =
      visit_function_decl name params (visit body) g
  visit_base (NodeBase.function_expr name params body) p use_value g =
      visit_function_expr name params (visit body) true use_value g
  visit_base (NodeBase.arrow_function params body) p use_value g =
      visit_function_expr none params (visit body) false use_value g
  visit_base (NodeBase.var_decl name init kind) p use_value g =
      visit_var_decl p name (visit_init init) kind g
  visit_base (NodeBase.member parent name) p use_value g =
      visit_member (visit parent) name use_value g
  visit_base (NodeBase.index parent idx) p use_value g =
      visit_index (visit parent) (visit idx) use_value g
  visit_base (NodeBase.unary_op expr op) p use_value g =
      visit_unary_op (visit expr) (target expr) op use_value g
  visit_base (NodeBase.binary_op lhs rhs op) p use_value g =
      visit_binary_op (visit lhs) (visit rhs) op use_value g
  visit_base (NodeBase.assign dst src) p use_value g =
      visit_assign (visit src) (target dst) use_value g
  visit_base (NodeBase.call called args) p use_value g =
      visit_call (callee called) (visit_reversed args) (count_nodes args) use_value g
  visit_base (NodeBase.throw val) p use_value g = visit_throw (visit val) g
  visit_base (NodeBase.return_value val) p use_value g = visit_return (visit_init val) g
  visit_base (NodeBase.new (node (NodeBase.call called args) q)) p use_value g =
      visit_new (callee called) (visit_reversed args) (count_nodes args) use_value g
  visit_base (NodeBase.object properties) p use_value g = do
    literal ← visit_properties properties 0 (emit Gen.append_push_seperator g)
    ok (close_object literal)
  visit_base (NodeBase.array elems) p use_value g = do
    g₁ ← visit_reversed elems (emit Gen.append_push_seperator g)
    ok (emit Gen.append_create_array g₁)
  visit_base (NodeBase.identifier name) p use_value g = visit_identifier name use_value g
  visit_base (NodeBase.spread expr) p use_value g = visit_spread (visit expr) use_value g
  visit_base NodeBase.null p use_value g = leaf (emit Gen.append_push_null) use_value g
  visit_base NodeBase.this p use_value g = leaf (emit Gen.append_push_this) use_value g
  visit_base (NodeBase.string s) p use_value g = visit_string s use_value g
  visit_base (NodeBase.number n) p use_value g =
      leaf (emit_const (Gen.append_push_number n)) use_value g
  visit_base (NodeBase.boolean b) p use_value g = leaf (emit (Gen.append_push_bool b)) use_value g
  visit_base NodeBase.nope p use_value g =
      leaf (emit_const (Gen.append_push_const empty)) use_value g
  visit_base (NodeBase.ternary_op cond then_exp else_exp) p use_value g =
      visit_ternary_op (visit cond) (visit then_exp) (visit else_exp) use_value g
  visit_base (NodeBase.label name body) p use_value g = panic
  visit_base (NodeBase.new _) p use_value g = panic

  pub visit_nodes : Nodes → Visitor
  visit_nodes nil use_value g = ok g
  visit_nodes (cons n rest) use_value g = do g₁ ← visit n use_value g; visit_nodes rest use_value g₁

  -- `for arg in args.iter().rev()`.
  pub visit_reversed : Nodes → CodeGenerator → Result CodeGenerator
  visit_reversed nil g = ok g
  visit_reversed (cons n rest) g = do g₁ ← visit_reversed rest g; visit n true g₁

  pub visit_init : Init → Option Visitor
  visit_init absent = none
  visit_init (present n) = some (visit n)

  -- The left-hand side of an assignment.
  pub target : Node → Target
  target (node (NodeBase.identifier name) p) = Target.identifier name
  target (node (NodeBase.member parent name) p) = Target.member (visit parent) name
  target (node (NodeBase.index parent idx) p) = Target.index (visit parent) (visit idx)
  target (node _ p) = invalid p

  pub callee : Node → Callee
  callee (node (NodeBase.member parent name) p) = method (visit parent) name
  callee (node base p) =
      plain (λ use_value g. visit_base base p use_value (record g { node_pos = p }))

  -- From the last property to the first; `i` is the position of the first of those given.
  pub visit_properties : Properties → ℕ → CodeGenerator → Result (SpecialProperties × CodeGenerator)
  visit_properties no_property i g = ok ([], g)
  visit_properties (add_property p rest) i g = do
    (special, g₁) ← visit_properties rest (suc i) g
    visit_property p i special g₁

  pub visit_property :
      PropertyDefinition
      → ℕ
      → SpecialProperties
      → CodeGenerator
      → Result (SpecialProperties × CodeGenerator)
  visit_property (identifier_reference name) i special g = do
    g₁ ← push_string name (emit_const (Gen.append_get_value name) (save_source_pos g))
    ok (special, g₁)
  visit_property (property name val) i special g = do
    g₁ ← named (visit val) name g
    ok (special, g₁)
  visit_property (method_definition kind name val) i special g = do
    g₁ ← named (visit val) name g
    ok (special_method kind i special, g₁)
  visit_property (spread_object val) i special g = do
    g₁ ← visit val true g
    ok (put i spread special, emit Gen.append_push_null g₁)

-- `CodeGenerator::new`: one function, the script's.
unfoldable pub new_generator : ConstantTable → Factory → ℕ → CodeGenerator
new_generator constant_table factory module_func_id = record {
  iseq = [];
  constant_table = constant_table;
  factory = factory;
  current_function = Levels.new none module_func_id;
  outer_functions = [];
  to_source_map = [];
  node_pos = 0;
  module_func_id = module_func_id;
}

-- The information of the script's own function.
unfoldable pub module_info : CodeGenerator → UserFunctionInfo
module_info g =
    let info = g.current_function in
    record {
      func_name = none;
      func_id = g.module_func_id;
      module_func_id = g.module_func_id;
      params = [];
      var_names = info.var_names;
      lex_names = info.lex_names;
      func_decls = info.func_decls;
      code = g.iseq;
      exception_table = info.exception_table;
      constructible = false;
      this_mode = global;
    }

-- The end of `compile`: the script's function is stored under its id.
unfoldable pub finish_compile : CodeGenerator → Result (ℕ × CodeGenerator)
unfolding emit Gen.append_return
finish_compile g =
    let g₁ = emit Gen.append_return g in
    do
      (func_ref, factory) ←
          unwrap (alloc_user_func_info g.module_func_id (module_info g₁) g.factory)
      ok (
        func_ref,
        record g₁ {
          factory = factory;
          to_source_map = put g.module_func_id g₁.current_function.to_source_pos g₁.to_source_map;
        },
      )

-- The reference to the script's function, and the generator that has it.
unfoldable pub compile : Node → Bool → CodeGenerator → Result (ℕ × CodeGenerator)
unfolding visit finish_compile
compile n use_value g = do g₁ ← visit n use_value (record g { iseq = [] }); finish_compile g₁
