-- ===== src/Codegen/Safety/Functions.antt =====
-- Functions, declarations, `return` and `throw` of src/vm/codegen.rs over parts that are safe.
use rapidus.Prelude.{
  ℕ, ◌+◌, ◌==◌, ◌≡◌, refl, Bool, false, String, List, [], ◌∷◌, Option, none, some, arith, length,
  if◌then◌else◌,
}
use rapidus.Factory.{Host, Factory, get_func_ref}
use rapidus.Bytecode.Gen
use rapidus.Codegen.Levels.{
  Level, function, block, loop, any_try_or_catch, any_finally, in_try_or_catch, in_finally,
}
use rapidus.Codegen.State.{CodeGenerator, Visitor}
use rapidus.Codegen.Exceptions.{visit_throw, visit_return, leave_function}
use rapidus.Codegen.Functions.{enter_function}
use rapidus.Codegen.Safety.{
  Frame, function_frame, block_frame, loop_frame, LevelsFit, HasRoom, IsReady, Ends, IsSafe,
  Keeps-refl,
}
use rapidus.Codegen.Safety.Steps.{Moves, byte_step, emit-Moves, save_source_pos-Moves, visit-bind}
use rapidus.Codegen.Safety.Operators.{returned}

-- No statement `try` stands around a node in such frames.
any_try_or_catch-LevelsFit :
    (frames : List Frame) (hi : ℕ) (ls : List Level)
    → LevelsFit frames hi ls
    → any_try_or_catch ls ≡ false
unfolding any_try_or_catch
any_try_or_catch-LevelsFit frames hi [] fits = refl
any_try_or_catch-LevelsFit (function_frame ∷ frames) hi (function ∷ ls) fits =
    any_try_or_catch-LevelsFit frames hi ls fits.1
any_try_or_catch-LevelsFit (block_frame ∷ frames) hi (block _ ∷ ls) fits =
    any_try_or_catch-LevelsFit frames hi ls fits.1
any_try_or_catch-LevelsFit (loop_frame s ∷ frames) hi (loop _ _ ∷ ls) fits =
    any_try_or_catch-LevelsFit frames hi ls fits.1
any_try_or_catch-LevelsFit [] hi (_ ∷ ls) fits = absurd fits
any_try_or_catch-LevelsFit (_ ∷ frames) hi (_ ∷ ls) fits = absurd fits.0

any_finally-LevelsFit :
    (frames : List Frame) (hi : ℕ) (ls : List Level)
    → LevelsFit frames hi ls
    → any_finally ls ≡ false
unfolding any_finally
any_finally-LevelsFit frames hi [] fits = refl
any_finally-LevelsFit (function_frame ∷ frames) hi (function ∷ ls) fits =
    any_finally-LevelsFit frames hi ls fits.1
any_finally-LevelsFit (block_frame ∷ frames) hi (block _ ∷ ls) fits =
    any_finally-LevelsFit frames hi ls fits.1
any_finally-LevelsFit (loop_frame s ∷ frames) hi (loop _ _ ∷ ls) fits =
    any_finally-LevelsFit frames hi ls fits.1
any_finally-LevelsFit [] hi (_ ∷ ls) fits = absurd fits
any_finally-LevelsFit (_ ∷ frames) hi (_ ∷ ls) fits = absurd fits.0

module _ {host : Host} {frames : List Frame} {base : CodeGenerator} where
  leave_function-Ends :
      (g : CodeGenerator) → Moves host frames base g → Ends host frames base (leave_function g)
  unfolding leave_function in_try_or_catch Gen.append_return
  leave_function-Ends g m =
      rw (any_try_or_catch-LevelsFit frames (length g.iseq) g.current_function.level m.0.levels)
        (returned (emit-Moves (byte_step _) m))

module _ {host : Host} {in_loop : Bool} where
  pub visit_return-IsSafe :
      {val : Visitor} → IsSafe host in_loop val → IsSafe host in_loop (λ u. visit_return (some val))
  unfolding visit_return
  visit_return-IsSafe safe frames inside u g r =
      visit-bind _ safe inside (r, Keeps-refl g) (λ g₁ m₁ longer. leave_function-Ends g₁ m₁)

  pub visit_return_nothing-IsSafe : IsSafe host in_loop (λ u. visit_return none)
  unfolding visit_return Gen.append_push_undefined
  visit_return_nothing-IsSafe frames inside u g r =
      leave_function-Ends _ (emit-Moves (byte_step _) (r, Keeps-refl g))

  pub visit_throw-IsSafe :
      {val : Visitor} → IsSafe host in_loop val → IsSafe host in_loop (λ u. visit_throw val)
  unfolding visit_throw in_try_or_catch in_finally Gen.append_throw
  visit_throw-IsSafe safe frames inside u g r =
      visit-bind _ safe inside (r, Keeps-refl g)
        (λ g₁ m₁ longer.
          let ls = g₁.current_function.level in
          rw
            (
              any_try_or_catch-LevelsFit frames (length g₁.iseq) ls m₁.0.levels,
              any_finally-LevelsFit frames (length g₁.iseq) ls m₁.0.levels,
            )
            (returned (emit-Moves (byte_step _) (save_source_pos-Moves m₁))))

-- The body of a function starts on empty code with the level of the function alone.
pub enter_function-IsReady :
    {host : Host} {frames : List Frame} (name : Option String) (g : CodeGenerator)
    → IsReady host frames g
    → IsReady host (function_frame ∷ []) (enter_function name g)
unfolding enter_function
enter_function-IsReady name g r = record {
  levels = (tt, tt);
  host_kept = r.host_kept;
  room = r.room;
}

-- A new id is taken, and its function stored: the ids after it are free still.
pub HasRoom-stored :
    (f f' : Factory) (m r : ℕ)
    → HasRoom f m
    → f'.next_func_id ≡ f.next_func_id + 1
    → ((k : ℕ) → get_func_ref k f' ≡ (if f.next_func_id == k then some r else get_func_ref k f))
    → HasRoom f' m
HasRoom-stored f f' m r room next all = record {
  fresh = λ k h. ground (arith, all k, room.fresh k, next);
  module_free = ground (arith, all m, room.module_free, room.module_old);
  module_old = omega (arith, room.module_old, next);
}
