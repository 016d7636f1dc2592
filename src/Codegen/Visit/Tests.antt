-- ===== src/Codegen/Visit/Tests.antt =====
-- Runs of the code generator on small trees, and the theorems about it at them.
use rapidus.Prelude.{ℕ, ◌+◌, ◌≡◌, refl, true, false, List, [], ◌∷◌, none, arith, take, drop}
use rapidus.JsValue.Value.{null}
use rapidus.Node.{Node, node, NodeBase, nil, cons, Init, UnaryOp}
use rapidus.Constant
use rapidus.Constant.{ConstantTable}
use rapidus.Factory
use rapidus.Factory.{Host, Factory}
use rapidus.Factory.Registered.{get_func_ref-new}
use rapidus.Bytecode.Inst
use rapidus.Codegen.State.{Result, ok, CodeGenerator}
use rapidus.Codegen.Visit.{visit, compile, new_generator}
use rapidus.Codegen.Safety.{HasRoom, IsReady, Ends, function_frame}
use rapidus.Codegen.Safety.Supported.{Supports}
use rapidus.Codegen.Safety.Compile.{visit-Ends, Compiles, compile-Compiles}

abbrev host : Host
host = record { address = λ n. n + 1; as_f64 = λ n. n; has_nul = λ s. false }

abbrev prototypes : Factory.ObjectPrototypes
prototypes = record {
  object = null;
  function = null;
  string = null;
  array = null;
  symbol = null;
  error = null;
}

-- The factory once the script has its id, 1.
factory : Factory
unfolding Factory.new Factory.new_func_id
factory = (Factory.new_func_id (Factory.new host [] prototypes)).1

factory-HasRoom : HasRoom factory 1
unfolding factory Factory.new Factory.new_func_id Factory.get_func_ref
factory-HasRoom = record {
  fresh = λ k h. get_func_ref-new host [] prototypes k (omega arith);
  module_free = refl;
  module_old = omega arith;
}

abbrev at : NodeBase → Node
at base = node base 0

abbrev script : Node
script = at (
    NodeBase.statement_list (
      cons
        (at (
          NodeBase.while_loop (at (NodeBase.boolean true)) (
            at (
              NodeBase.block (
                cons
                  (at (
                    NodeBase.if_else (at NodeBase.this) (at (NodeBase.break_loop none))
                      (at NodeBase.nope)))
                  (cons (at (NodeBase.continue_loop none)) nil))))))
        nil))

script-Supports : Supports host false script
unfolding Supports
script-Supports = ((tt, ((tt, refl, tt), (refl, tt))), tt)

compile-Compiles_example :
    Compiles 1 Constant.new (compile script false (new_generator Constant.new factory 1))
unfolding factory Factory.new Factory.new_func_id
compile-Compiles_example =
    compile-Compiles script false Constant.new factory 1 factory-HasRoom script-Supports

start : CodeGenerator
unfolding new_generator
start = new_generator Constant.new factory 1

start-IsReady : IsReady host (function_frame ∷ []) start
unfolding start factory Factory.new Factory.new_func_id
start-IsReady = record { levels = (tt, tt); host_kept = refl; room = factory-HasRoom }

visit-Ends_example : Ends host (function_frame ∷ []) start (visit script false start)
visit-Ends_example =
    visit-Ends host false script (function_frame ∷ []) false start script-Supports
      (λ h. absurd (cc h)) start-IsReady

code_of : Result (ℕ × CodeGenerator) → List ℕ
code_of (ok (r, g)) = g.iseq
code_of _ = []

code_compiled : Node → List ℕ
unfolding code_of compile new_generator factory Factory.alloc_user_func_info
code_compiled n = code_of (compile n false (new_generator Constant.new factory 1))

-- `while (true) { if (this) break; continue; }`: the jump of `break` stands behind a `POP_ENV`, that of
-- `continue` does not.
script_code :
    code_compiled script
    ≡ Inst.push_true ∷ Inst.jmp_if_false ∷ 28 ∷ 0 ∷ 0 ∷ 0 ∷ Inst.push_env ∷ 0 ∷ 0 ∷ 0 ∷ 0
      ∷ Inst.push_this ∷ Inst.jmp_if_false ∷ 6 ∷ 0 ∷ 0 ∷ 0 ∷ Inst.pop_env ∷ Inst.jmp ∷ 11 ∷ 0 ∷ 0
      ∷ 0 ∷ Inst.jmp ∷ 228 ∷ 255 ∷ 255 ∷ 255 ∷ Inst.pop_env ∷ Inst.jmp ∷ 222 ∷ 255 ∷ 255 ∷ 255
      ∷ Inst.return_op ∷ []
unfolding code_compiled
script_code = refl

-- `true ? 1 : 2` as a statement: the condition is not pushed, and the jump takes a value all the same.
ternary_code :
    code_compiled
      (at (NodeBase.ternary_op (at (NodeBase.boolean true)) (at NodeBase.this) (at NodeBase.null)))
    ≡ Inst.jmp_if_false ∷ 5 ∷ 0 ∷ 0 ∷ 0 ∷ Inst.jmp ∷ 0 ∷ 0 ∷ 0 ∷ 0 ∷ Inst.return_op ∷ []
unfolding code_compiled
ternary_code = refl

-- `++x` as a statement: the value is stored, and one more is popped.
increment_code :
    code_compiled (at (NodeBase.unary_op (at (NodeBase.identifier "x")) UnaryOp.pr_inc))
    ≡ Inst.get_value ∷ 0 ∷ 0 ∷ 0 ∷ 0 ∷ Inst.push_int8 ∷ 1 ∷ Inst.add ∷ Inst.set_value ∷ 0 ∷ 0 ∷ 0
      ∷ 0 ∷ Inst.pop ∷ Inst.return_op ∷ []
unfolding code_compiled Constant.add_string Constant.position
increment_code = refl

-- `[]` as a statement: the array stays on the stack.
array_code :
    code_compiled (at (NodeBase.array nil))
    ≡ Inst.push_seperator ∷ Inst.create_array ∷ Inst.return_op ∷ []
unfolding code_compiled
array_code = refl

-- `try { return 1 } catch (e) { return 2 } finally {}`: the second `RETURN_TRY` keeps the distance 0.
try_code :
    take 5 (
      drop 27 (
        code_compiled (
          at (
            NodeBase.try_catch
              (at (NodeBase.return_value (Init.present (at NodeBase.this))))
              (at (NodeBase.return_value (Init.present (at NodeBase.null))))
              (at (NodeBase.identifier "e"))
              (at NodeBase.nope)))))
    ≡ Inst.return_try ∷ 0 ∷ 0 ∷ 0 ∷ 0 ∷ []
unfolding code_compiled Constant.add_string Constant.position
try_code = refl
