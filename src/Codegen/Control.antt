-- ===== src/Codegen/Control.antt =====
-- The control structures of src/vm/codegen.rs: blocks, conditionals, loops and the jumps out of them.
-- A part of the tree is given by its visitor.
use rapidus.Prelude.{
  ℕ, ◌+◌, Bool, true, false, String, List, [], Option, some, if◌then◌else◌, length, set,
}
use rapidus.Prelude.Int.{pos, sub_ℕ}
use rapidus.Constant
use rapidus.Constant.{Constant, ConstantTable, lexical_environment_info, add_lex_env_info}
use rapidus.Bytecode.Gen.{append_jmp, append_jmp_if_false, append_push_env, append_pop_env}
use rapidus.Codegen.Levels.{
  Level, loop, new_block_level, as_block, as_loop, push_break, push_continue, blocks_to_loop,
}
use rapidus.Codegen.State.{
  Result, ok, panic, ◌>>=◌, unwrap, CodeGenerator, Visitor, emit, push_level, pop_level, with_level,
  patch_jump, patch_jumps, pop_envs,
}

-- `add_lex_env_info(vec![])` and `append_push_env`: the id, and the generator.
unfoldable pub open_env : CodeGenerator → ℕ × CodeGenerator
unfolding add_lex_env_info emit append_push_env
open_env g =
    let (id, table) = add_lex_env_info [] g.constant_table in
    (id, emit (append_push_env id) (record g { constant_table = table }))

-- `*constant_table.get_mut(id).as_lex_env_info_mut() = names`.
unfoldable pub set_names : ℕ → List String → Option Constant → CodeGenerator → Result CodeGenerator
set_names id names (some (lexical_environment_info old)) g =
    let table : ConstantTable = record {
      table = set g.constant_table.table id (lexical_environment_info names);
    } in
    ok (record g { constant_table = table })
set_names id names _ g = panic

unfoldable pub set_lex_env_info : ℕ → List String → CodeGenerator → Result CodeGenerator
unfolding set_names Constant.get
set_lex_env_info id names g = set_names id names (Constant.get g.constant_table id) g

unfoldable pub visit_block_statement : (CodeGenerator → Result CodeGenerator) → Visitor
unfolding open_env push_level pop_level as_block set_lex_env_info emit append_pop_env
visit_block_statement visit_nodes use_value g =
    let (id, g₁) = open_env g in
    do
      g₂ ← visit_nodes (push_level new_block_level g₁)
      (level, g₃) ← pop_level g₂
      names ← unwrap (as_block level)
      g₄ ← set_lex_env_info id names g₃
      ok (emit append_pop_env g₄)

-- The end of `visit_if` behind the clause `else`, if there is one: the jump over the condition at
-- `cond_pos` goes to the clause, and the one at the end of `then` behind it.
unfoldable pub visit_else : Visitor → ℕ → CodeGenerator → Result CodeGenerator
unfolding emit append_jmp patch_jump
visit_else else_ cond_pos g =
    let then_end_pos = length g.iseq in
    let g₁ = emit (append_jmp (pos 0)) g in
    do
      g₂ ← patch_jump (length g₁.iseq) cond_pos g₁
      g₃ ← else_ false g₂
      patch_jump (length g₃.iseq) then_end_pos g₃

unfoldable pub visit_if : Visitor → Visitor → Bool → Visitor → CodeGenerator → Result CodeGenerator
unfolding visit_else emit append_jmp_if_false patch_jump
visit_if cond then_ no_else else_ g = do
  g₁ ← cond true g
  let cond_pos = length g₁.iseq
  g₂ ← then_ false (emit (append_jmp_if_false (pos 0)) g₁)
  if no_else then patch_jump (length g₂.iseq) cond_pos g₂ else visit_else else_ cond_pos g₂

unfoldable pub replace_break_and_continue : Level → ℕ → ℕ → CodeGenerator → Result CodeGenerator
unfolding as_loop patch_jumps
replace_break_and_continue level break_dst continue_dst g = do
  (breaks, continues) ← unwrap (as_loop level)
  g₁ ← patch_jumps break_dst breaks g
  patch_jumps continue_dst continues g₁

-- The end of both loops: the jump back to `start`, and the jumps to the end and to `continue_pos`.
unfoldable pub close_loop : ℕ → ℕ → ℕ → CodeGenerator → Result CodeGenerator
unfolding emit append_jmp patch_jump pop_level replace_break_and_continue
close_loop start cond_pos continue_pos g =
    let loop_pos = length g.iseq in
    let g₁ = emit (append_jmp (sub_ℕ start (loop_pos + 5))) g in
    do
      g₂ ← patch_jump (length g₁.iseq) cond_pos g₁
      (level, g₃) ← pop_level g₂
      replace_break_and_continue level (length g₁.iseq) continue_pos g₃

unfoldable pub visit_while : Visitor → Visitor → CodeGenerator → Result CodeGenerator
unfolding push_level emit append_jmp_if_false close_loop
visit_while cond body g =
    let g₀ = push_level (loop [] []) g in
    let start = length g₀.iseq in
    do
      g₁ ← cond true g₀
      let cond_pos = length g₁.iseq
      g₂ ← body false (emit (append_jmp_if_false (pos 0)) g₁)
      close_loop start cond_pos start g₂

unfoldable pub visit_for :
    Visitor → Visitor → Visitor → Visitor → CodeGenerator → Result CodeGenerator
unfolding push_level emit append_jmp_if_false close_loop
visit_for init cond step body g = do
  g₀ ← init false (push_level (loop [] []) g)
  let start = length g₀.iseq
  g₁ ← cond true g₀
  let cond_pos = length g₁.iseq
  g₂ ← body false (emit (append_jmp_if_false (pos 0)) g₁)
  let continue_pos = length g₂.iseq
  g₃ ← step false g₂
  close_loop start cond_pos continue_pos g₃

-- `unwind_loop`, the jump, and the record of it in the innermost loop.
unfoldable pub visit_break : CodeGenerator → Result CodeGenerator
unfolding pop_envs blocks_to_loop emit append_jmp push_break with_level
visit_break g =
    let g₁ = pop_envs (blocks_to_loop g.current_function.level) g in
    do
      ls ← unwrap (push_break (length g₁.iseq) g₁.current_function.level)
      ok (with_level ls (emit (append_jmp (pos 0)) g₁))

unfoldable pub visit_continue : CodeGenerator → Result CodeGenerator
unfolding emit append_jmp push_continue with_level
visit_continue g = do
  ls ← unwrap (push_continue (length g.iseq) g.current_function.level)
  ok (with_level ls (emit (append_jmp (pos 0)) g))

unfoldable pub visit_ternary_op : Visitor → Visitor → Visitor → Visitor
unfolding emit append_jmp append_jmp_if_false patch_jump
visit_ternary_op cond then_exp else_exp use_value g = do
  g₁ ← cond use_value g
  let cond_pos = length g₁.iseq
  g₂ ← then_exp use_value (emit (append_jmp_if_false (pos 0)) g₁)
  let then_end_pos = length g₂.iseq
  let g₃ = emit (append_jmp (pos 0)) g₂
  g₄ ← patch_jump (length g₃.iseq) cond_pos g₃
  g₅ ← else_exp use_value g₄
  patch_jump (length g₅.iseq) then_end_pos g₅
