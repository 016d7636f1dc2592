-- ===== src/Codegen/Safety/Compile.antt =====
-- `compile` of src/vm/codegen.rs, from `CodeGenerator::new`.
use rapidus.Prelude.{ℕ, ◌≡◌, refl, Bool, true, false, List, [], ◌∷◌, some, arith, subst, length}
use rapidus.Node.{Node}
use rapidus.Constant.{ConstantTable}
use rapidus.Factory.{Host, Factory, get_func_ref}
use rapidus.Factory.Registered.{get_func_ref-alloc_user_func_info}
use rapidus.Bytecode.Gen
use rapidus.Codegen.Levels.{Level, function}
use rapidus.Codegen.State.{Result, ok, err, Error, ◌>>=◌, CodeGenerator, emit}
use rapidus.Codegen.Visit.{visit, module_info, new_generator, finish_compile, compile}
use rapidus.Codegen.Safety.{
  Frame, function_frame, has_loop, LevelsFit, KeepsEnvs, HasRoom, IsReady, Ends, returns, raises,
}
use rapidus.Codegen.Safety.Supported.{Supports}
use rapidus.Codegen.Safety.Visit.{visit-IsSafe}

-- Let a tree be without `try`, without what the generator leaves unimplemented and without a NUL in a
-- text, with `break` and `continue` in its own loops or within one around it. Visiting it, in a function
-- whose recorded jumps lie within its code and while the ids of functions to come are free, ends
-- without a panic. If it is not refused with an error, the code before it is unchanged, the levels are
-- as before, with every recorded jump within the new code, environments keep their entries in the
-- constant table, and the table of functions has room for the ids to come.
pub visit-Ends :
    (host : Host) (in_loop : Bool) (n : Node) (frames : List Frame) (use_value : Bool)
    (g : CodeGenerator)
    → Supports host in_loop n
    → (in_loop ≡ true → has_loop frames ≡ true)
    → IsReady host frames g
    → Ends host frames g (visit n use_value g)
visit-Ends host in_loop n frames use_value g s inside ready =
    visit-IsSafe host in_loop n s frames inside use_value g ready

-- A script was compiled to the function of its id, or refused with an error.
pub data Compiles (id : ℕ) (table : ConstantTable) : Result (ℕ × CodeGenerator) → Type 0 where
  compiled :
      {r : ℕ} {g : CodeGenerator}
      → get_func_ref id g.factory ≡ some r
      → LevelsFit (function_frame ∷ []) 0 g.current_function.level
      → g.outer_functions ≡ []
      → KeepsEnvs table g.constant_table
      → Compiles id table (ok (r, g))
  refused : {e : Error} → Compiles id table (err e)

one_level :
    (hi : ℕ) (ls : List Level)
    → LevelsFit (function_frame ∷ []) hi ls
    → LevelsFit (function_frame ∷ []) 0 ls
one_level hi (function ∷ []) fits = (tt, tt)
one_level hi [] fits = absurd fits
one_level hi (function ∷ _ ∷ _) fits = absurd fits.1
one_level hi (_ ∷ ls) fits = absurd fits.0

finish_compile-Compiles :
    {host : Host} (table : ConstantTable) (g : CodeGenerator)
    → IsReady host (function_frame ∷ []) g
    → g.outer_functions ≡ []
    → KeepsEnvs table g.constant_table
    → Compiles g.module_func_id table (finish_compile g)
unfolding finish_compile
finish_compile-Compiles table g r outer envs =
    let id = g.module_func_id in
    let (func_ref, f', e, all, same_next, same_host) =
      get_func_ref-alloc_user_func_info id (module_info (emit Gen.append_return g)) g.factory
        r.room.module_free in
    rw (e, finish_compile)
      (compiled (ground (arith, all id))
        (one_level (length g.iseq) g.current_function.level r.levels) outer envs)

-- Compiling a script without `try`, without what the generator leaves unimplemented, without a NUL in a
-- text and with `break` and `continue` in loops only, while the script's id and those of functions to
-- come are free, ends without a panic: with an error, or with a reference that stands under the script's
-- id in the table of functions, all blocks, loops and functions left again, and the entries of
-- environments kept.
pub compile-Compiles :
    (n : Node) (use_value : Bool) (table : ConstantTable) (f : Factory) (id : ℕ)
    → HasRoom f id
    → Supports f.host false n
    → Compiles id table (compile n use_value (new_generator table f id))
unfolding compile new_generator has_loop
compile-Compiles n use_value table f id room s =
    finished (visit n use_value (new_generator table f id)) (
      visit-Ends f.host false n (function_frame ∷ []) use_value _ s (λ h. absurd (cc))
        (record { levels = (tt, tt); host_kept = refl; room = room }))
  where
    finished :
        (r : Result CodeGenerator)
        → Ends f.host (function_frame ∷ []) (new_generator table f id) r
        → Compiles id table (r >>= finish_compile)
    finished _ (returns {g'} r k) =
        subst (λ i. Compiles i table (finish_compile g')) k.module_id
          (finish_compile-Compiles table g' r k.outer k.envs)
    finished _ raises = refused
