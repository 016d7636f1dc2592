-- ===== src/Codegen/Functions.antt =====
-- Functions, declarations and literals of src/vm/codegen.rs, and `compile`.
use rapidus.Prelude.{
  ℕ, Bool, true, false, String, List, [], ◌∷◌, ◌++◌, Option, none, some, if◌then◌else◌, put,
}
use Prim.Native.String
use rapidus.JsValue.Function.{UserFunctionInfo, FunctionParameter, lexical, global}
use rapidus.Node.{
  MethodDefinitionKind, VarKind, FormalParameters, no_parameter, add_parameter, parameter,
}
use rapidus.Constant.{SpecialProperties, getter, setter, add_object_literal_info}
use rapidus.Factory.{new_func_id, alloc_user_func_info, function_value}
use rapidus.Bytecode.Gen
use rapidus.Codegen.Levels.{FunctionInfo, Level, get_last_block, push_block, declares}
use rapidus.Codegen.Levels
use rapidus.Codegen.State.{
  Result, ok, panic, ◌>>=◌, unwrap, CodeGenerator, Visitor, new_general_error, emit, emit_const,
  with_level, save_source_pos,
}

-- The parameters as the machine keeps them: the initial values are dropped.
unfoldable pub function_parameters : FormalParameters → List FunctionParameter
function_parameters no_parameter = []
function_parameters (add_parameter (parameter name init is_rest_param) rest) =
    record { name = name; rest_param = is_rest_param } ∷ function_parameters rest

-- The generator inside of a new function, whose code is empty.
unfoldable pub enter_function : Option String → CodeGenerator → CodeGenerator
enter_function name g = record g {
  iseq = [];
  current_function = Levels.new name g.module_func_id;
  outer_functions = g.current_function ∷ g.outer_functions;
}

-- The information of the function that has been compiled.
unfoldable pub user_func_info : ℕ → FormalParameters → Bool → CodeGenerator → UserFunctionInfo
unfolding function_parameters
user_func_info func_id params arrow_function g =
    let info = g.current_function in
    record {
      func_name = info.name;
      func_id = func_id;
      module_func_id = g.module_func_id;
      params = function_parameters params;
      var_names = info.var_names;
      lex_names = info.lex_names;
      func_decls = info.func_decls;
      code = g.iseq;
      exception_table = info.exception_table;
      constructible = arrow_function;
      this_mode = if arrow_function then global else lexical;
    }

-- `function_stack.pop()`, the function's id and its information; the code of the function outside,
-- which the visit did not touch, is `iseq`.
unfoldable pub leave_to :
    List FunctionInfo
    → ℕ
    → UserFunctionInfo
    → CodeGenerator
    → CodeGenerator
    → Result (ℕ × CodeGenerator)
leave_to [] func_id info outside g = panic
leave_to (outer ∷ rest) func_id info outside g = do
  (func_ref, factory) ← unwrap (alloc_user_func_info func_id info g.factory)
  ok (
    func_ref,
    record g {
      iseq = outside.iseq;
      factory = factory;
      current_function = outer;
      outer_functions = rest;
      to_source_map = put func_id g.current_function.to_source_pos g.to_source_map;
    },
  )

unfoldable pub finish_function :
    FormalParameters → Bool → CodeGenerator → CodeGenerator → Result (ℕ × CodeGenerator)
unfolding leave_to user_func_info new_func_id
finish_function params arrow_function outside g =
    let (func_id, factory) = new_func_id g.factory in
    leave_to g.outer_functions func_id (user_func_info func_id params arrow_function g) outside
      (record g { factory = factory })

unfoldable pub visit_function :
    Option String → FormalParameters → Visitor → Bool → CodeGenerator → Result (ℕ × CodeGenerator)
unfolding enter_function emit Gen.append_push_undefined Gen.append_return finish_function
visit_function name params body arrow_function g = do
  g₁ ← body false (enter_function name g)
  finish_function params arrow_function g
      (emit Gen.append_return (emit Gen.append_push_undefined g₁))

unfoldable pub add_var_name : String → CodeGenerator → CodeGenerator
add_var_name name g = record g {
  current_function = record g.current_function {
    var_names = g.current_function.var_names ++ name ∷ [];
  };
}

unfoldable pub visit_function_decl :
    String → FormalParameters → Visitor → CodeGenerator → Result CodeGenerator
unfolding visit_function add_var_name
visit_function_decl name params body g = do
  (func_info, g₁) ← visit_function (some name) params body true g
  let g₂ = add_var_name name g₁
  ok (record g₂ {
    current_function = record g₂.current_function {
      func_decls = g₂.current_function.func_decls ++ func_info ∷ [];
    };
  })

-- `self.factory.function(func_info, None)` reads the function that has just been stored: its name and
-- its parameters.
unfoldable pub push_function : ℕ → UserFunctionInfo → CodeGenerator → Result CodeGenerator
unfolding function_value emit_const Gen.append_push_const emit Gen.append_set_outer_env
push_function func_ref info g = do
  (v, factory) ← unwrap (function_value func_ref info none g.factory)
  ok (
      emit Gen.append_set_outer_env
        (emit_const (Gen.append_push_const v) (record g { factory = factory })))

-- What `factory.function` reads of the information: its name and its parameters.
unfoldable pub named_info : Option String → FormalParameters → UserFunctionInfo
unfolding function_parameters
named_info name params =
    let default = rapidus.JsValue.Function.default in
    record default { func_name = name; params = function_parameters params }

unfoldable pub visit_function_expr : Option String → FormalParameters → Visitor → Bool → Visitor
unfolding visit_function push_function named_info
visit_function_expr name params body arrow_function use_value g =
    if use_value
    then (do
      (func_ref, g₁) ← visit_function name params body arrow_function g
      push_function func_ref (named_info name params) g₁)
    else ok g

-- `check_duplicate` on the names of the innermost block, or else of the function.
already_declared : String → String
already_declared name = String.◌++◌ "Identifier '" (String.◌++◌ name "' has already been declared")

unfoldable pub declare_in : Option (List String) → String → ℕ → CodeGenerator → Result CodeGenerator
unfolding declares with_level push_block already_declared
declare_in (some names) name p g =
    if declares name names
    then new_general_error (already_declared name) p
    else ok (with_level (push_block name g.current_function.level) g)
declare_in none name p g =
    if declares name g.current_function.lex_names
    then new_general_error (already_declared name) p
    else ok (record g {
      current_function = record g.current_function {
        lex_names = g.current_function.lex_names ++ name ∷ [];
      };
    })

unfoldable pub let_decl : String → ℕ → CodeGenerator → Result CodeGenerator
unfolding declare_in get_last_block
let_decl name p g = declare_in (get_last_block g.current_function.level) name p g

unfoldable pub declare : VarKind → String → ℕ → CodeGenerator → Result CodeGenerator
unfolding add_var_name let_decl
declare VarKind.var name p g = ok (add_var_name name g)
declare VarKind.let_kind name p g = let_decl name p g
declare VarKind.const name p g = let_decl name p g

unfoldable pub initialize : Option Visitor → String → CodeGenerator → Result CodeGenerator
unfolding emit_const Gen.append_set_value save_source_pos
initialize none name g = ok g
initialize (some init) name g = do
  g₁ ← init true g
  ok (emit_const (Gen.append_set_value name) (save_source_pos g₁))

-- The position is that of the declaration's node, whatever node the initial value ends with.
unfoldable pub visit_var_decl :
    ℕ → String → Option Visitor → VarKind → CodeGenerator → Result CodeGenerator
unfolding initialize declare
visit_var_decl p name init kind g = do g₁ ← initialize init name g; declare kind name p g₁

-- The kind of a method is recorded for the property's position in the literal.
unfoldable pub special_method : MethodDefinitionKind → ℕ → SpecialProperties → SpecialProperties
special_method MethodDefinitionKind.ordinary i special = special
special_method MethodDefinitionKind.set i special = put i setter special
special_method MethodDefinitionKind.get i special = put i getter special

unfoldable pub close_object : SpecialProperties × CodeGenerator → CodeGenerator
unfolding add_object_literal_info emit Gen.append_create_object
close_object (special, g) =
    let (id, table) = add_object_literal_info special g.constant_table in
    emit (Gen.append_create_object id) (record g { constant_table = table })
