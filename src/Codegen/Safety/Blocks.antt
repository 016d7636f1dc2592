-- ===== src/Codegen/Safety/Blocks.antt =====
-- Blocks of src/vm/codegen.rs: the environment's entry in the constant table is there when the block
-- ends.
use rapidus.Prelude.{
  ℕ, ◌==◌, ◌≡◌, sym, ap, ◌∙◌, Bool, Bool-cases, ==_iff, ◌≢◌, inl, inr, String, List, [], ◌∷◌, arith,
  length, get_elem?, set, get_elem?-lt, get_elem?-set_self, get_elem?-set_ne, get_elem?-append_last,
}
use rapidus.Constant
use rapidus.Constant.{ConstantTable, lexical_environment_info, add_lex_env_info}
use rapidus.Constant.Laws.{add-get_of_get}
use rapidus.Factory.{Host}
use rapidus.Bytecode.Words.{append_uint32}
use rapidus.Bytecode.Gen
use rapidus.Codegen.Levels.{
  Level, function, finally, block, try_or_catch, loop, new_block_level, as_block,
}
use rapidus.Codegen.State.{Result, ok, ◌>>=◌, unwrap, CodeGenerator, emit, with_level}
use rapidus.Codegen.Control.{visit_block_statement, open_env, set_lex_env_info}
use rapidus.Codegen.Safety.{
  Frame, block_frame, LevelFits, has_loop, HasEnv, KeepsEnvs, Ends, returns, IsSafe, Keeps-refl,
  Keeps-trans, Extends-trans, bind-Ends,
}
use rapidus.Codegen.Safety.Steps.{
  Moves, Appends, append-Extends, emit-Moves, byte_step, push_level-Moves, pop-bind,
}

append_push_env-Appends : (id : ℕ) → Appends (Gen.append_push_env id)
unfolding Gen.append_push_env append_uint32
append_push_env-Appends id c = Extends-trans (append-Extends c _) (append-Extends _ _)

open_env-HasEnv : (t : ConstantTable) → HasEnv (add_lex_env_info [] t).1 (add_lex_env_info [] t).0
unfolding add_lex_env_info Constant.get
open_env-HasEnv t = ([], get_elem?-append_last t.table (lexical_environment_info []))

module _ {host : Host} {frames : List Frame} {base : CodeGenerator} where
  pub open_env-Moves :
      (g : CodeGenerator)
      → Moves host frames base g
      → Moves host frames base (open_env g).1 × HasEnv (open_env g).1.constant_table (open_env g).0
  unfolding open_env emit
  open_env-Moves g m =
      let (r, k) =
        emit-Moves (append_push_env-Appends (add_lex_env_info [] g.constant_table).0) m in
      (
        (
          record { levels = r.levels; host_kept = r.host_kept; room = r.room },
          record {
            code = k.code;
            envs = λ id h.
                let (names, e) = k.envs id h in
                (names, (add-get_of_get g.constant_table id _ e).3 []);
            outer = k.outer;
            module_id = k.module_id;
          },
        ),
        open_env-HasEnv g.constant_table,
      )

set-KeepsEnvs :
    (t : ConstantTable) (id : ℕ) (names : List String)
    → HasEnv t id
    → KeepsEnvs t (record { table = set t.table id (lexical_environment_info names) })
unfolding Constant.get
set-KeepsEnvs t id names (old, e) k (other, e') = elim (Bool-cases (id == k)) [
  | inl same ↦
      let id_is_k : id ≡ k = (==_iff id k).0 same in
      (
        names,
        ap (λ n. get_elem? (set t.table id (lexical_environment_info names)) n) (sym id_is_k)
            ∙ get_elem?-set_self t.table id _ (get_elem?-lt t.table id _ e),
      )
  | inr differ ↦
      let apart : id ≢ k = λ p. ground (arith, p) in (other, get_elem?-set_ne t.table _ apart ∙ e')
]

module _ {host : Host} {frames outer : List Frame} {base : CodeGenerator} where
  pub set_lex_env_info-bind :
      {next : CodeGenerator → Result CodeGenerator} (id : ℕ) (names : List String)
      (g : CodeGenerator)
      → HasEnv g.constant_table id
      → Moves host outer base g
      → ((g' : CodeGenerator) → Moves host outer base g' → Ends host frames base (next g'))
      → Ends host frames base (set_lex_env_info id names g >>= next)
  unfolding set_lex_env_info
  set_lex_env_info-bind id names g h (r, k) next =
      rw (h.1, set_lex_env_info)
        (next _ (
          record { levels = r.levels; host_kept = r.host_kept; room = r.room },
          record {
            code = k.code;
            envs = λ i e. set-KeepsEnvs g.constant_table id names h i (k.envs i e);
            outer = k.outer;
            module_id = k.module_id;
          },
        ))

-- The end of a block: its names go to the table, and the environment is left.
close_block-Ends :
    {host : Host} {frames : List Frame} {base : CodeGenerator} (id : ℕ) (g : CodeGenerator)
    (l : Level)
    → LevelFits block_frame (length g.iseq) l
    → HasEnv g.constant_table id
    → Moves host frames base g
    → Ends host frames base (
        unwrap (as_block l) >>= λ names.
        set_lex_env_info id names g >>= λ g'. ok (emit Gen.append_pop_env g'))
unfolding as_block Gen.append_pop_env
close_block-Ends id g (block names) fits h m =
    set_lex_env_info-bind id names g h m
      (λ g' m'. let (r, k) = emit-Moves (byte_step _) m' in returns r k)
close_block-Ends id g function fits h m = absurd fits
close_block-Ends id g finally fits h m = absurd fits
close_block-Ends id g (loop _ _) fits h m = absurd fits
close_block-Ends id g (try_or_catch _) fits h m = absurd fits

pub visit_block_statement-IsSafe :
    {host : Host} {in_loop : Bool} {nodes : CodeGenerator → Result CodeGenerator}
    → IsSafe host in_loop (λ u. nodes)
    → IsSafe host in_loop (visit_block_statement nodes)
unfolding visit_block_statement has_loop with_level
visit_block_statement-IsSafe {nodes} safe frames inside u g r =
    let (m₁, env) = open_env-Moves g (r, Keeps-refl g) in
    let m₂ = push_level-Moves block_frame new_block_level tt m₁ in
    bind-Ends (safe (block_frame ∷ frames) inside u _ m₂.0) (λ g₃ r₃ k₃.
      pop-bind _ g₃ (r₃, Keeps-trans m₂.1 k₃)
        (λ l rest fits m₄.
          close_block-Ends (open_env g).0 (with_level rest g₃) l fits (k₃.envs (open_env g).0 env)
            m₄))
