-- ===== src/Codegen/Exceptions.antt =====
-- `visit_try`, `visit_throw` and `visit_return` of src/vm/codegen.rs.
use rapidus.Prelude.{
  ℕ, ◌==◌, ◌||◌, Bool, true, false, String, List, [], ◌∷◌, Option, none, some, if◌then◌else◌,
  length, get_elem?,
}
use rapidus.Prelude.Int.{pos}
use rapidus.JsValue.Function.{DestinationKind, catch, finally}
use rapidus.Bytecode.Inst
use rapidus.Bytecode.Gen.{
  append_jmp, append_jmp_sub, append_return_sub, append_set_value, append_pop_env, append_throw,
  append_return, append_return_try, append_push_undefined,
}
use rapidus.Codegen.Levels.{
  Level, block, new_try_or_catch_level, as_block, as_try_or_catch, push_try_or_catch,
  in_try_or_catch, in_finally, blocks_to_try_or_catch, blocks_to_finally,
}
use rapidus.Codegen.State.{
  Result, ok, panic, ◌>>=◌, unwrap, CodeGenerator, Visitor, emit, emit_const, push_level, pop_level,
  with_level, patch_jump, pop_envs, save_source_pos, add_exception,
}
use rapidus.Codegen.Control.{open_env, set_lex_env_info}

-- The loop of `set_jmp_to_finally`: each recorded instruction is a `RETURN_TRY` or a `JMP`, and is
-- patched; the result tells whether one was a `RETURN_TRY`.
unfoldable pub set_jumps : ℕ → List ℕ → Bool → CodeGenerator → Result (Bool × CodeGenerator)
unfolding patch_jump
set_jumps dst [] has_return g = ok (has_return, g)
set_jumps dst (p ∷ rest) has_return g = do
  op ← unwrap (get_elem? g.iseq p)
  g₁ ← if op == Inst.return_try || op == Inst.jmp then patch_jump dst p g else panic
  set_jumps dst rest (has_return || op == Inst.return_try) g₁

unfoldable pub set_jmp_to_finally : Level → ℕ → CodeGenerator → Result (Bool × CodeGenerator)
unfolding as_try_or_catch set_jumps
set_jmp_to_finally level dst g = do
  positions ← unwrap (as_try_or_catch level)
  set_jumps dst positions false g

-- `||` does not call `set_jmp_to_finally` on the second level if the first has a return.
unfoldable pub set_both : Level → Level → ℕ → CodeGenerator → Result (Bool × CodeGenerator)
unfolding set_jmp_to_finally
set_both try_ catch_ dst g = do
  (has_return, g₁) ← set_jmp_to_finally try_ dst g
  if has_return then ok (true, g₁) else set_jmp_to_finally catch_ dst g₁

-- The two subroutine jumps that end a block: to `finally`, and out of the statement. Their positions,
-- and the exception entry from `start` to behind them.
unfoldable pub end_block : ℕ → DestinationKind → CodeGenerator → (ℕ × ℕ) × CodeGenerator
unfolding emit append_jmp_sub add_exception
end_block start kind g =
    let to_finally = length g.iseq in
    let g₁ = emit (append_jmp_sub (pos 0)) g in
    let leave = length g₁.iseq in
    let g₂ = emit (append_jmp_sub (pos 0)) g₁ in
    (
      (to_finally, leave),
      add_exception (record { start = start; end = length g₂.iseq; dst_kind = kind }) g₂,
    )

-- A level, the positions of the two jumps, and the generator.
abbrev pub Block : Type 0
Block = Level × (ℕ × ℕ) × CodeGenerator

unfoldable pub try_block : Visitor → Bool → CodeGenerator → Result Block
unfolding push_level pop_level end_block
try_block try_clause has_catch g =
    let try_start = length g.iseq in
    do
      g₁ ← try_clause false (push_level new_try_or_catch_level g)
      (try_, g₂) ← pop_level g₁
      let (jumps, g₃) = end_block try_start (if has_catch then catch else finally) g₂
      ok (try_, jumps, g₃)

-- The parameter must be an identifier: `none` stands for any other node.
unfoldable pub catch_block : Visitor → Option String → CodeGenerator → Result Block
unfolding push_level pop_level end_block open_env emit append_pop_env save_source_pos emit_const
    append_set_value as_block set_lex_env_info
catch_block catch_clause param g =
    let catch_start = length g.iseq in
    do
      param_name ← unwrap param
      let (env_id, g₁) = open_env (push_level new_try_or_catch_level g)
      let g₂ = push_level (block (param_name ∷ [])) g₁
      g₃ ← catch_clause false (emit_const (append_set_value param_name) (save_source_pos g₂))
      (inner, g₄) ← pop_level (emit append_pop_env g₃)
      names ← unwrap (as_block inner)
      (catch_, g₅) ← pop_level g₄
      g₆ ← set_lex_env_info env_id names g₅
      let (jumps, g₇) = end_block catch_start finally g₆
      ok (catch_, jumps, g₇)

-- A return passes from this `finally` to that of the enclosing statement, if there is one.
unfoldable pub jump_outer : Bool → CodeGenerator → CodeGenerator
unfolding push_try_or_catch with_level emit append_jmp
jump_outer has_return g = elim (push_try_or_catch (length g.iseq) g.current_function.level) [
  | none ↦ g
  | some ls ↦ if has_return then with_level ls (emit (append_jmp (pos 0)) g) else g
]

is_finally : Level → Bool
is_finally Level.finally = true
is_finally _ = false

unfoldable pub finally_block : Visitor → Bool → CodeGenerator → Result CodeGenerator
unfolding push_level jump_outer pop_level is_finally emit append_return_sub
finally_block finally_clause has_return g = do
  g₁ ← finally_clause false (push_level Level.finally g)
  (level, g₂) ← pop_level (jump_outer has_return g₁)
  if is_finally level then ok (emit append_return_sub g₂) else panic

-- The two jumps of a block get their targets.
unfoldable pub close_block : ℕ × ℕ → ℕ → ℕ → CodeGenerator → Result CodeGenerator
unfolding patch_jump
close_block (to_finally, leave) finally_start finally_end g = do
  g₁ ← patch_jump finally_start to_finally g
  patch_jump finally_end leave g₁

-- The statement behind its blocks: a statement without `catch` has the empty level and no jumps there.
unfoldable pub close_try : Block → Option Block → Visitor → CodeGenerator → Result CodeGenerator
unfolding set_both finally_block close_block
close_try (try_, try_jumps, _) none finally_clause g =
    let finally_start = length g.iseq in
    do
      (has_return, g₁) ← set_both try_ new_try_or_catch_level finally_start g
      g₂ ← finally_block finally_clause has_return g₁
      close_block try_jumps finally_start (length g₂.iseq) g₂
close_try (try_, try_jumps, _) (some (catch_, catch_jumps, _)) finally_clause g =
    let finally_start = length g.iseq in
    do
      (has_return, g₁) ← set_both try_ catch_ finally_start g
      g₂ ← finally_block finally_clause has_return g₁
      g₃ ← close_block try_jumps finally_start (length g₂.iseq) g₂
      close_block catch_jumps finally_start (length g₂.iseq) g₃

unfoldable pub with_catch : Block → Visitor → Option String → Visitor → Result CodeGenerator
unfolding catch_block close_try
with_catch tried catch_clause param finally_clause = do
  caught ← catch_block catch_clause param tried.2
  close_try tried (some caught) finally_clause caught.2

unfoldable pub visit_try :
    Visitor → Bool → Visitor → Option String → Visitor → CodeGenerator → Result CodeGenerator
unfolding try_block with_catch close_try
visit_try try_clause has_catch catch_clause param finally_clause g = do
  tried ← try_block try_clause has_catch g
  if has_catch
      then with_catch tried catch_clause param finally_clause
      else close_try tried none finally_clause tried.2

unfoldable pub visit_throw : Visitor → CodeGenerator → Result CodeGenerator
unfolding in_try_or_catch in_finally pop_envs blocks_to_try_or_catch blocks_to_finally
    save_source_pos emit append_throw
visit_throw val g = do
  g₁ ← val true g
  let levels = g₁.current_function.level
  let g₂ =
      if in_try_or_catch g₁.current_function
      then pop_envs (blocks_to_try_or_catch levels) g₁
      else if in_finally g₁.current_function
      then pop_envs (blocks_to_finally levels) g₁
      else g₁
  ok (emit append_throw (save_source_pos g₂))

-- The instruction that leaves the function, once the value is on the stack.
unfoldable pub leave_function : CodeGenerator → Result CodeGenerator
unfolding in_try_or_catch push_try_or_catch with_level emit append_return_try append_return
leave_function g =
    if in_try_or_catch g.current_function
    then (do
      ls ← unwrap (push_try_or_catch (length g.iseq) g.current_function.level)
      ok (emit append_return_try (with_level ls g)))
    else ok (emit append_return g)

unfoldable pub visit_return : Option Visitor → CodeGenerator → Result CodeGenerator
unfolding leave_function emit append_push_undefined
visit_return (some val) g = do g₁ ← val true g; leave_function g₁
visit_return none g = leave_function (emit append_push_undefined g)
