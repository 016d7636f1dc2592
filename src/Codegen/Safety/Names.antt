-- ===== src/Codegen/Safety/Names.antt =====
-- The declarations of functions and variables in src/vm/codegen.rs.
use rapidus.Prelude.{
  ℕ, ◌≡◌, refl, ap, sym, subst, ◌∙◌, Bool, true, false, Bool-cases, inl, inr, String, List, [], ◌∷◌,
  ◌++◌, Option, none, some, length,
}
use rapidus.JsValue.Value.{Value}
use rapidus.JsValue.Function.{UserFunctionInfo}
use rapidus.Node.{VarKind, FormalParameters}
use rapidus.Factory
use rapidus.Factory.{Host, Factory, or_empty, function_value, get_func_ref, new_func_id}
use rapidus.Bytecode.Gen
use rapidus.Codegen.Levels.{
  Level, FunctionInfo, function, block, loop, push_block, get_last_block, declares,
}
use rapidus.Codegen.State.{
  Result, ok, ◌>>=◌, CodeGenerator, Visitor, emit_const, with_level, save_source_pos,
}
use rapidus.Codegen.Functions.{
  add_var_name, visit_function_decl, push_function, named_info, visit_function_expr, declare_in,
  let_decl, declare, initialize, visit_var_decl,
}
use rapidus.Codegen.Safety.{
  Frame, function_frame, block_frame, loop_frame, LevelsFit, Ends, returns, raises, IsSafe,
  Keeps-refl,
}
use rapidus.Codegen.Safety.Steps.{
  Moves, byte_step, emit-Moves, emit_const-Moves, append_push_const-AddsConst,
  append_set_value-AddsConst, save_source_pos-Moves,
}
use rapidus.Codegen.Safety.Operators.{IsText, returned, allocated}
use rapidus.Codegen.Safety.Declarations.{visit_function-bind}

module _ {host : Host} {frames : List Frame} {base : CodeGenerator} where
  -- Only the levels of the current function matter; its other lists are free.
  renamed :
      {g : CodeGenerator} (info : FunctionInfo)
      → info.level ≡ g.current_function.level
      → Moves host frames base g
      → Moves host frames base (record g { current_function = info })
  renamed {g} info e (r, k) = (
    record {
      levels = subst (LevelsFit frames (length g.iseq)) (sym e) r.levels;
      host_kept = r.host_kept;
      room = r.room;
    },
    record { code = k.code; envs = k.envs; outer = k.outer; module_id = k.module_id },
  )

  -- The code of a function's value: its name and prototype are allocated before it.
  function_value_lem :
      (func_ref : ℕ) (info : UserFunctionInfo) (g : CodeGenerator)
      → IsText host (or_empty info.func_name)
      → Moves host frames base g
      → (v : Value) × (memory : List Factory.Allocation) × (function_value func_ref info none
            g.factory
          ≡ some (v, record g.factory { memory = memory }))
  unfolding function_value Factory.string Factory.new_object Factory.alloc
  function_value_lem func_ref info g text m =
      let clean : g.factory.host.has_nul (or_empty info.func_name) ≡ false =
        ap (λ h. h.has_nul (or_empty info.func_name)) m.0.host_kept ∙ text in
      let name = Value.string (g.factory.host.address (length g.factory.memory)) in
      let f₁ = record g.factory {
        memory = g.factory.memory ++ Factory.text (or_empty info.func_name) ∷ [];
      } in
      let (v, f) = Factory.function_named func_ref info none (name, f₁) in
      (v, f.memory, rw (clean, function_value) refl)

push_block-LevelsFit :
    (name : String) (frames : List Frame) (hi : ℕ) (ls : List Level)
    → LevelsFit frames hi ls
    → LevelsFit frames hi (push_block name ls)
unfolding push_block
push_block-LevelsFit name frames hi [] fits = fits
push_block-LevelsFit name (function_frame ∷ frames) hi (function ∷ ls) fits =
    (tt, push_block-LevelsFit name frames hi ls fits.1)
push_block-LevelsFit name (block_frame ∷ frames) hi (block _ ∷ ls) fits = (tt, fits.1)
push_block-LevelsFit name (loop_frame s ∷ frames) hi (loop _ _ ∷ ls) fits =
    (fits.0, push_block-LevelsFit name frames hi ls fits.1)
push_block-LevelsFit name [] hi (_ ∷ ls) fits = absurd fits
push_block-LevelsFit name (_ ∷ frames) hi (_ ∷ ls) fits = absurd fits.0

module _ {host : Host} {frames : List Frame} {base : CodeGenerator} where
  declare_in-Ends :
      (names : Option (List String)) (name : String) (p : ℕ) (g : CodeGenerator)
      → Moves host frames base g
      → Ends host frames base (declare_in names name p g)
  unfolding declare_in with_level
  declare_in-Ends (some names) name p g m = elim (Bool-cases (declares name names)) [
    | inl twice ↦ rw twice raises
    | inr once ↦
        let ls = g.current_function.level in
        rw once (
          returned (
            record {
              levels = push_block-LevelsFit name frames (length g.iseq) ls m.0.levels;
              host_kept = m.0.host_kept;
              room = m.0.room;
            },
            record {
              code = m.1.code;
              envs = m.1.envs;
              outer = m.1.outer;
              module_id = m.1.module_id;
            },
          ))
  ]
  declare_in-Ends none name p g m = elim (Bool-cases (declares name g.current_function.lex_names)) [
    | inl twice ↦ rw twice raises
    | inr once ↦ rw once (returned (renamed _ refl m))
  ]

  declare-Ends :
      (kind : VarKind) (name : String) (p : ℕ) (g : CodeGenerator)
      → Moves host frames base g
      → Ends host frames base (declare kind name p g)
  unfolding declare add_var_name let_decl
  declare-Ends VarKind.var name p g m = returned (renamed _ refl m)
  declare-Ends VarKind.let_kind name p g m =
      declare_in-Ends (get_last_block g.current_function.level) name p g m
  declare-Ends VarKind.const name p g m =
      declare_in-Ends (get_last_block g.current_function.level) name p g m

module _ {host : Host} {in_loop : Bool} where
  pub visit_var_decl-IsSafe :
      {init : Visitor} (p : ℕ) (name : String) (kind : VarKind)
      → IsSafe host in_loop init
      → IsSafe host in_loop (λ u. visit_var_decl p name (some init) kind)
  unfolding visit_var_decl initialize
  visit_var_decl-IsSafe {init} p name kind safe frames inside u g r =
      initialized (init true g) (safe frames inside true g r)
    where
      initialized :
          (result : Result CodeGenerator)
          → Ends host frames g result
          → Ends host frames g (
              (result >>= λ g₁. ok (emit_const (Gen.append_set_value name) (save_source_pos g₁)))
              >>= declare kind name p)
      initialized _ (returns r₁ k₁) =
          declare-Ends kind name p _
            (emit_const-Moves _ (append_set_value-AddsConst name) (save_source_pos-Moves (r₁, k₁)))
      initialized _ raises = raises

  pub visit_var_decl_nothing-IsSafe :
      (p : ℕ) (name : String) (kind : VarKind)
      → IsSafe host in_loop (λ u. visit_var_decl p name none kind)
  unfolding visit_var_decl initialize
  visit_var_decl_nothing-IsSafe p name kind frames inside u g r =
      declare-Ends kind name p g (r, Keeps-refl g)

  pub visit_function_decl-IsSafe :
      {body : Visitor} (name : String) (params : FormalParameters)
      → IsSafe host false body
      → IsSafe host in_loop (λ u. visit_function_decl name params body)
  unfolding visit_function_decl add_var_name
  visit_function_decl-IsSafe name params safe frames inside u g r =
      visit_function-bind _ (some name) params true g safe (r, Keeps-refl g)
        (λ func_ref g' m'. returned (renamed _ refl m'))

  pub visit_function_expr-IsSafe :
      {body : Visitor} (name : Option String) (params : FormalParameters) (arrow_function : Bool)
      → IsText host (or_empty name)
      → IsSafe host false body
      → IsSafe host in_loop (visit_function_expr name params body arrow_function)
  unfolding visit_function_expr push_function named_info Gen.append_set_outer_env
  visit_function_expr-IsSafe name params arrow_function text safe frames inside false g r =
      returned (r, Keeps-refl g)
  visit_function_expr-IsSafe name params arrow_function text safe frames inside true g r =
      visit_function-bind _ name params arrow_function g safe (r, Keeps-refl g)
        (λ func_ref g' m'.
          let (v, memory, e) = function_value_lem func_ref (named_info name params) g' text m' in
          rw e (
            returned (
              emit-Moves (byte_step _)
                (emit_const-Moves _ (append_push_const-AddsConst v) (allocated memory m')))))
