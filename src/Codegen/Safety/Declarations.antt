-- ===== src/Codegen/Safety/Declarations.antt =====
-- Functions within functions, and the declarations of names, in src/vm/codegen.rs.
use rapidus.Prelude.{ℕ, ◌+◌, ◌≡◌, ◌∙◌, Bool, false, String, List, [], ◌∷◌, Option, arith}
use rapidus.Node.{FormalParameters}
use rapidus.Factory.{Host, get_func_ref, new_func_id}
use rapidus.Factory.Registered.{get_func_ref-alloc_user_func_info}
use rapidus.Bytecode.Gen
use rapidus.Codegen.State.{Result, ◌>>=◌, CodeGenerator, Visitor, emit}
use rapidus.Codegen.Functions.{
  enter_function, finish_function, leave_to, user_func_info, visit_function,
}
use rapidus.Codegen.Safety.{
  Frame, function_frame, KeepsEnvs, IsReady, Ends, returns, raises, IsSafe,
}
use rapidus.Codegen.Safety.Steps.{Moves, byte_step, emit-Moves}
use rapidus.Codegen.Safety.Functions.{enter_function-IsReady, HasRoom-stored}

module _ {host : Host} {frames outer : List Frame} {base : CodeGenerator} where
  -- The function goes to its slot, and the one around it goes on where it was left.
  finish_function-bind :
      (next : ℕ × CodeGenerator → Result CodeGenerator) (params : FormalParameters)
      (arrow_function : Bool) (outside g : CodeGenerator)
      → Moves host frames base outside
      → IsReady host (function_frame ∷ []) g
      → g.outer_functions ≡ outside.current_function ∷ outside.outer_functions
      → g.module_func_id ≡ outside.module_func_id
      → KeepsEnvs outside.constant_table g.constant_table
      → ((func_ref : ℕ) (g' : CodeGenerator)
          → Moves host frames base g'
          → Ends host outer base (next (func_ref, g')))
      → Ends host outer base (finish_function params arrow_function outside g >>= next)
  unfolding finish_function new_func_id get_func_ref
  finish_function-bind next params arrow_function outside g (r, k) inner stack module_id envs
        then_next =
      let id = g.factory.next_func_id in
      let f = record g.factory { next_func_id = id + 1 } in
      let info = user_func_info id params arrow_function g in
      let (func_ref, f', e, all, same_next, same_host) =
        get_func_ref-alloc_user_func_info id info f (inner.room.fresh id (omega arith)) in
      rw (stack, leave_to, e)
        (then_next func_ref _ (
          record {
            levels = r.levels;
            host_kept = same_host ∙ inner.host_kept;
            room = HasRoom-stored g.factory f' g.module_func_id func_ref inner.room same_next all;
          },
          record {
            code = k.code;
            envs = λ i h. envs i (k.envs i h);
            outer = k.outer;
            module_id = module_id ∙ k.module_id;
          },
        ))

  pub visit_function-bind :
      {body : Visitor} (next : ℕ × CodeGenerator → Result CodeGenerator) (name : Option String)
      (params : FormalParameters) (arrow_function : Bool) (g : CodeGenerator)
      → IsSafe host false body
      → Moves host frames base g
      → ((func_ref : ℕ) (g' : CodeGenerator)
          → Moves host frames base g'
          → Ends host outer base (next (func_ref, g')))
      → Ends host outer base (visit_function name params body arrow_function g >>= next)
  unfolding visit_function Gen.append_push_undefined Gen.append_return enter_function
  visit_function-bind {body} next name params arrow_function g safe m then_next =
      compiled (body false (enter_function name g)) (
        safe (function_frame ∷ []) (λ h. absurd (cc)) false (enter_function name g)
          (enter_function-IsReady name g m.0))
    where
      compiled :
          (r : Result CodeGenerator)
          → Ends host (function_frame ∷ []) (enter_function name g) r
          → Ends host outer base (
              (r >>= λ g₁.
              finish_function params arrow_function g
                (emit Gen.append_return (emit Gen.append_push_undefined g₁)))
              >>= next)
      compiled _ (returns {g'} ready k) =
          let (r', k') = emit-Moves (byte_step _) (emit-Moves (byte_step _) (ready, k)) in
          finish_function-bind next params arrow_function g
            (emit Gen.append_return (emit Gen.append_push_undefined g')) m r' k'.outer k'.module_id
            k'.envs then_next
      compiled _ raises = raises
