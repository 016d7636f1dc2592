-- ===== src/Codegen/Safety/Visit.antt =====
-- `visit` and `compile` of src/vm/codegen.rs on the trees that they have code for.
use rapidus.Prelude.{ℕ, suc, Bool, true, false, none}
use rapidus.JsValue.Value.{empty}
use rapidus.Node.{
  Node, node, NodeBase, Nodes, nil, cons, absent, present, PropertyDefinition, identifier_reference,
  property, method_definition, spread_object, Properties, no_property, add_property, is_nope,
}
use rapidus.Constant.{SpecialProperties}
use rapidus.Factory.{Host}
use rapidus.Bytecode.Gen
use rapidus.Codegen.State.{emit}
use rapidus.Codegen.Visit
use rapidus.Codegen.Safety.{IsSafe, Keeps-refl, Ends-from}
use rapidus.Codegen.Safety.Steps.{
  byte_step, emit-Moves, emit_const-Moves, append_push_const-AddsConst, append_get_value-AddsConst,
  save_source_pos-Moves, visit-bind,
}
use rapidus.Codegen.Safety.Operators.{IsSafeTarget, IsSafeCallee, returned}
use rapidus.Codegen.Safety.Control.{
  visit_if-IsSafe, visit_ternary_op-IsSafe, visit_while-IsSafe, visit_for-IsSafe,
  visit_break-IsSafe, visit_continue-IsSafe,
}
use rapidus.Codegen.Safety.Blocks.{visit_block_statement-IsSafe}
use rapidus.Codegen.Safety.Expressions.{
  visit_member-IsSafe, visit_index-IsSafe, visit_unary_op-IsSafe, visit_binary_op-IsSafe,
  visit_assign-IsSafe, visit_call-IsSafe, visit_new-IsSafe,
}
use rapidus.Codegen.Safety.Functions.{
  visit_return-IsSafe, visit_return_nothing-IsSafe, visit_throw-IsSafe,
}
use rapidus.Codegen.Safety.Names.{
  visit_var_decl-IsSafe, visit_var_decl_nothing-IsSafe, visit_function_decl-IsSafe,
  visit_function_expr-IsSafe,
}
use rapidus.Codegen.Safety.Supported.{
  Supports, SupportsBase, SupportsAll, SupportsInit, SupportsProperty, SupportsProperties,
}
use rapidus.Codegen.Safety.Leaves.{
  visit_identifier-IsSafe, visit_string-IsSafe, visit_spread-IsSafe, leaf-IsSafe, const-IsSafe,
  append_push_number-AddsConst, named-Ends, push_string-Ends, literal-chain, literal-after,
  literal-bind, at_node, close_object-Moves, IsSafeLiteral,
}

module _ (host : Host) where
  mutual
    unfolding Visit.visit Visit.visit_base Visit.visit_nodes Visit.visit_reversed Visit.visit_init
        Visit.target Visit.callee Visit.visit_properties Visit.visit_property Supports SupportsBase
        SupportsAll SupportsInit SupportsProperty SupportsProperties Gen.append_push_null
        Gen.append_push_this Gen.append_push_bool Gen.append_push_seperator Gen.append_create_array

    pub visit-IsSafe : (b : Bool) (n : Node) → Supports host b n → IsSafe host b (Visit.visit n)
    visit-IsSafe b (node base p) s = at_node p (visit_base-IsSafe b base p s)

    visit_base-IsSafe :
        (b : Bool) (base : NodeBase) (p : ℕ)
        → SupportsBase host b base
        → IsSafe host b (Visit.visit_base base p)
    visit_base-IsSafe b (NodeBase.statement_list nodes) p s =
        λ frames inside u g r. visit_nodes-IsSafe b nodes u s frames inside u g r
    visit_base-IsSafe b (NodeBase.block nodes) p s = λ frames inside u g r.
        visit_block_statement-IsSafe (visit_nodes-IsSafe b nodes u s) frames inside u g r
    visit_base-IsSafe b (NodeBase.if_else cond then_ else_) p s =
        visit_if-IsSafe (is_nope else_) (visit-IsSafe b cond s.0) (visit-IsSafe b then_ s.1)
          (visit-IsSafe b else_ s.2)
    visit_base-IsSafe b (NodeBase.while_loop cond body) p s =
        visit_while-IsSafe (visit-IsSafe true cond s.0) (visit-IsSafe true body s.1)
    visit_base-IsSafe b (NodeBase.for_loop init cond step body) p s =
        visit_for-IsSafe (visit-IsSafe true init s.0) (visit-IsSafe true cond s.1)
          (visit-IsSafe true step s.2) (visit-IsSafe true body s.3)
    visit_base-IsSafe b (NodeBase.break_loop name) p s =
        λ frames inside. visit_break-IsSafe frames (λ h. inside s)
    visit_base-IsSafe b (NodeBase.continue_loop name) p s =
        λ frames inside. visit_continue-IsSafe frames (λ h. inside s)
    visit_base-IsSafe b (NodeBase.function_decl name params body) p s =
        visit_function_decl-IsSafe name params (visit-IsSafe false body s)
    visit_base-IsSafe b (NodeBase.function_expr name params body) p s =
        visit_function_expr-IsSafe name params true s.0 (visit-IsSafe false body s.1)
    visit_base-IsSafe b (NodeBase.arrow_function params body) p s =
        visit_function_expr-IsSafe none params false s.0 (visit-IsSafe false body s.1)
    visit_base-IsSafe b (NodeBase.var_decl name absent kind) p s =
        visit_var_decl_nothing-IsSafe p name kind
    visit_base-IsSafe b (NodeBase.var_decl name (present init) kind) p s =
        visit_var_decl-IsSafe p name kind (visit-IsSafe b init s)
    visit_base-IsSafe b (NodeBase.member parent name) p s =
        visit_member-IsSafe name (visit-IsSafe b parent s.0) s.1
    visit_base-IsSafe b (NodeBase.index parent idx) p s =
        visit_index-IsSafe (visit-IsSafe b parent s.0) (visit-IsSafe b idx s.1)
    visit_base-IsSafe b (NodeBase.unary_op expr op) p s =
        visit_unary_op-IsSafe (Visit.target expr) op s.0 s.1 (visit-IsSafe b expr s.2)
          (target-safe b expr s.2)
    visit_base-IsSafe b (NodeBase.binary_op lhs rhs op) p s =
        visit_binary_op-IsSafe op s.0 s.1 (visit-IsSafe b lhs s.2) (visit-IsSafe b rhs s.3)
    visit_base-IsSafe b (NodeBase.assign dst src) p s =
        visit_assign-IsSafe (Visit.target dst) (visit-IsSafe b src s.1) (target-safe b dst s.0)
    visit_base-IsSafe b (NodeBase.call called args) p s =
        visit_call-IsSafe (Visit.callee called) _ (callee-safe b called s.0)
          (visit_reversed-IsSafe b args s.1)
    visit_base-IsSafe b (NodeBase.throw val) p s = visit_throw-IsSafe (visit-IsSafe b val s)
    visit_base-IsSafe b (NodeBase.return_value absent) p s = visit_return_nothing-IsSafe
    visit_base-IsSafe b (NodeBase.return_value (present val)) p s =
        visit_return-IsSafe (visit-IsSafe b val s)
    visit_base-IsSafe b (NodeBase.new (node (NodeBase.call called args) q)) p s =
        visit_new-IsSafe (Visit.callee called) _ (callee-safe b called s.0)
          (visit_reversed-IsSafe b args s.1)
    visit_base-IsSafe b (NodeBase.object properties) p s = λ frames inside u g r.
        literal-bind _ _
          (visit_properties-safe b properties 0 s frames inside g _
            (emit-Moves (byte_step _) (r, Keeps-refl g)))
          (λ special g' m'. returned (close_object-Moves special g' m'))
    visit_base-IsSafe b (NodeBase.array elems) p s = λ frames inside u g r.
        visit-bind true (visit_reversed-IsSafe b elems s) inside
          (emit-Moves (byte_step _) (r, Keeps-refl g))
          (λ g₁ m₁ longer. returned (emit-Moves (byte_step _) m₁))
    visit_base-IsSafe b (NodeBase.identifier name) p s = visit_identifier-IsSafe name
    visit_base-IsSafe b (NodeBase.spread expr) p s = visit_spread-IsSafe (visit-IsSafe b expr s)
    visit_base-IsSafe b NodeBase.null p s = leaf-IsSafe (byte_step _)
    visit_base-IsSafe b NodeBase.this p s = leaf-IsSafe (byte_step _)
    visit_base-IsSafe b (NodeBase.string str) p s = visit_string-IsSafe str s
    visit_base-IsSafe b (NodeBase.number n) p s = const-IsSafe _ (append_push_number-AddsConst n)
    visit_base-IsSafe b (NodeBase.boolean bool) p s = leaf-IsSafe (byte_step _)
    visit_base-IsSafe b NodeBase.nope p s = const-IsSafe _ (append_push_const-AddsConst empty)
    visit_base-IsSafe b (NodeBase.ternary_op cond then_exp else_exp) p s =
        visit_ternary_op-IsSafe (visit-IsSafe b cond s.0) (visit-IsSafe b then_exp s.1)
          (visit-IsSafe b else_exp s.2)
    visit_base-IsSafe b (NodeBase.label name body) p s = absurd s
    visit_base-IsSafe b (NodeBase.try_catch try_clause catch_clause param finally_clause) p s =
        absurd s
    visit_base-IsSafe b (NodeBase.new _) p s = absurd s

    visit_nodes-IsSafe :
        (b : Bool) (nodes : Nodes) (u : Bool)
        → SupportsAll host b nodes
        → IsSafe host b (λ v. Visit.visit_nodes nodes u)
    visit_nodes-IsSafe b nil u s frames inside v g r = returned (r, Keeps-refl g)
    visit_nodes-IsSafe b (cons n rest) u s frames inside v g r =
        visit-bind u (visit-IsSafe b n s.0) inside (r, Keeps-refl g)
          (λ g₁ m₁ longer. Ends-from m₁.1 (visit_nodes-IsSafe b rest u s.1 frames inside v g₁ m₁.0))

    visit_reversed-IsSafe :
        (b : Bool) (nodes : Nodes)
        → SupportsAll host b nodes
        → IsSafe host b (λ v. Visit.visit_reversed nodes)
    visit_reversed-IsSafe b nil s frames inside v g r = returned (r, Keeps-refl g)
    visit_reversed-IsSafe b (cons n rest) s frames inside v g r =
        visit-bind true (visit_reversed-IsSafe b rest s.1) inside (r, Keeps-refl g)
          (λ g₁ m₁ longer. Ends-from m₁.1 (visit-IsSafe b n s.0 frames inside true g₁ m₁.0))

    target-safe : (b : Bool) (n : Node) → Supports host b n → IsSafeTarget host b (Visit.target n)
    target-safe b (node (NodeBase.identifier name) p) s = tt
    target-safe b (node (NodeBase.member parent name) p) s = (visit-IsSafe b parent s.0, s.1)
    target-safe b (node (NodeBase.index parent idx) p) s =
        (visit-IsSafe b parent s.0, visit-IsSafe b idx s.1)
    target-safe b (node _ p) s = tt

    callee-safe : (b : Bool) (n : Node) → Supports host b n → IsSafeCallee host b (Visit.callee n)
    callee-safe b (node (NodeBase.member parent name) p) s = (visit-IsSafe b parent s.0, s.1)
    callee-safe b (node base p) s = at_node p (visit_base-IsSafe b base p s)

    visit_properties-safe :
        (b : Bool) (ps : Properties) (i : ℕ)
        → SupportsProperties host b ps
        → IsSafeLiteral host b (Visit.visit_properties ps i)
    visit_properties-safe b no_property i s frames inside base g m = returned m
    visit_properties-safe b (add_property p rest) i s frames inside base g m =
        literal-chain _ _ (visit_properties-safe b rest (suc i) s.1 frames inside base g m)
          (λ special g₁ m₁. visit_property-safe b p i special s.0 frames inside base g₁ m₁)

    visit_property-safe :
        (b : Bool) (p : PropertyDefinition) (i : ℕ) (special : SpecialProperties)
        → SupportsProperty host b p
        → IsSafeLiteral host b (Visit.visit_property p i special)
    visit_property-safe b (identifier_reference name) i special s frames inside base g m =
        literal-after special (λ g'. g') (λ g' m'. m') _
          (push_string-Ends name _ s
            (emit_const-Moves _ (append_get_value-AddsConst name) (save_source_pos-Moves m)))
    visit_property-safe b (property name val) i special s frames inside base g m =
        literal-after special (λ g'. g') (λ g' m'. m') _
          (named-Ends name g (visit-IsSafe b val s.0) s.1 inside m)
    visit_property-safe b (method_definition kind name val) i special s frames inside base g m =
        literal-after _ (λ g'. g') (λ g' m'. m') _
          (named-Ends name g (visit-IsSafe b val s.0) s.1 inside m)
    visit_property-safe b (spread_object val) i special s frames inside base g m =
        literal-after _ (emit Gen.append_push_null) (λ g' m'. emit-Moves (byte_step _) m') _
          (Ends-from m.1 (visit-IsSafe b val s frames inside true g m.0))
