-- ===== src/Codegen/Safety/Steps.antt =====
-- The single steps of src/vm/codegen.rs: emitting an instruction, pushing and popping a level,
-- patching a jump.
use rapidus.Prelude.{
  ℕ, zero, suc, ◌+◌, ◌≤◌, ◌<◌, ◌≡◌, refl, inl, Bool, true, String, List, [], ◌∷◌, ◌++◌, arith,
  length, get_elem?, length-append, subst, sym, ◌∙◌,
}
use rapidus.Prelude.Int.{ℤ, sub_ℕ}
use rapidus.JsValue.Value.{Value}
use rapidus.Constant.{ConstantTable}
use rapidus.Constant.Laws.{add-get_of_get}
use rapidus.Factory.{Host}
use rapidus.Bytecode.Words.{ByteCode, append_int32}
use rapidus.Bytecode.Words.RoundTrip.{patch_keeps}
use rapidus.Bytecode.Gen
use rapidus.Codegen.Levels.{Level, block, loop}
use rapidus.Codegen.State.{
  Result, ok, ◌>>=◌, CodeGenerator, Visitor, emit, emit_const, push_level, pop_level, with_level,
  pop_from, patch_jump, patch_jumps, pop_envs, save_source_pos,
}
use rapidus.Codegen.Safety.{
  Frame, block_frame, loop_frame, AreWithin, LevelFits, LevelsFit, KeepsEnvs, IsReady, Extends,
  Keeps, Ends, returns, IsSafe, has_loop, bind-Ends, Extends-trans, Keeps-trans,
}

get_elem?-append : (c w : ByteCode) (i : ℕ) → i < length c → get_elem? (c ++ w) i ≡ get_elem? c i
get_elem?-append [] w i h = absurd (omega arith)
get_elem?-append (x ∷ c) w zero h = refl
get_elem?-append (x ∷ c) w (suc i) h = get_elem?-append c w i (omega arith)

pub append-Extends : (c w : ByteCode) → Extends c (c ++ w)
append-Extends c w = record {
  longer = omega (arith, length-append c w);
  same = get_elem?-append c w;
}

-- What an `append_` method does to any code.
abbrev pub Appends : (ByteCode → ByteCode) → Type 0
Appends f = (c : ByteCode) → Extends c (f c)

abbrev pub byte_step : (w : ByteCode) → Appends (λ c. c ++ w)
byte_step w c = append-Extends c w

pub with_int32-Appends : (op : ℕ) (n : ℤ) → Appends (Gen.with_int32 op n)
unfolding Gen.with_int32 append_int32
with_int32-Appends op n c = Extends-trans (append-Extends c _) (append-Extends _ _)

-- What an `append_` method that adds a constant does to any table and code.
abbrev pub AddsConst : (ConstantTable → ByteCode → ConstantTable × ByteCode) → Type 0
AddsConst f = (t : ConstantTable) (c : ByteCode) → Extends c (f t c).1 × KeepsEnvs t (f t c).0

pub append_push_const-AddsConst : (v : Value) → AddsConst (Gen.append_push_const v)
unfolding Gen.append_push_const
append_push_const-AddsConst v t c =
    (with_int32-Appends _ _ c, λ id h. (h.0, (add-get_of_get t id _ h.1).1 v))

pub append_get_value-AddsConst : (s : String) → AddsConst (Gen.append_get_value s)
unfolding Gen.append_get_value
append_get_value-AddsConst s t c =
    (with_int32-Appends _ _ c, λ id h. (h.0, (add-get_of_get t id _ h.1).0 s))

pub append_set_value-AddsConst : (s : String) → AddsConst (Gen.append_set_value s)
unfolding Gen.append_set_value
append_set_value-AddsConst s t c =
    (with_int32-Appends _ _ c, λ id h. (h.0, (add-get_of_get t id _ h.1).0 s))

AreWithin-le :
    (lo : ℕ) {hi hi' : ℕ} (ps : List ℕ) → hi ≤ hi' → AreWithin lo hi ps → AreWithin lo hi' ps
AreWithin-le lo [] h w = tt
AreWithin-le lo (p ∷ ps) h w = (w.0, omega (arith, w.1), AreWithin-le lo ps h w.2)

pub AreWithin-append :
    (lo hi : ℕ) (ps : List ℕ) (p : ℕ)
    → lo ≤ p
    → p + 5 ≤ hi
    → AreWithin lo hi ps
    → AreWithin lo hi (ps ++ p ∷ [])
AreWithin-append lo hi [] p a b w = (a, b, tt)
AreWithin-append lo hi (q ∷ ps) p a b w = (w.0, w.1, AreWithin-append lo hi ps p a b w.2)

LevelFits-le :
    (fr : Frame) {hi hi' : ℕ} (l : Level) → hi ≤ hi' → LevelFits fr hi l → LevelFits fr hi' l
LevelFits-le Frame.function_frame Level.function h w = tt
LevelFits-le block_frame (block names) h w = tt
LevelFits-le (loop_frame start) (loop breaks continues) h w =
    (omega (arith, w.0), AreWithin-le start breaks h w.1, AreWithin-le start continues h w.2)
LevelFits-le _ _ h w = absurd w

pub LevelsFit-le :
    (frames : List Frame) {hi hi' : ℕ} (ls : List Level)
    → hi ≤ hi'
    → LevelsFit frames hi ls
    → LevelsFit frames hi' ls
LevelsFit-le [] [] h w = tt
LevelsFit-le (fr ∷ frames) (l ∷ ls) h w = (LevelFits-le fr l h w.0, LevelsFit-le frames ls h w.1)
LevelsFit-le [] (l ∷ ls) h w = absurd w
LevelsFit-le (fr ∷ frames) [] h w = absurd w

-- A generator that is ready, and what has been kept since an earlier one.
abbrev pub Moves : Host → List Frame → CodeGenerator → CodeGenerator → Type 0
Moves host frames base g = IsReady host frames g × Keeps base g

module _ {host : Host} {frames : List Frame} {base g : CodeGenerator} where
  -- The code has grown, and the levels and the factory are what they were.
  pub grown :
      (code : ByteCode)
      → Extends g.iseq code
      → Moves host frames base g
      → Moves host frames base (record g { iseq = code })
  grown code e m = (
    record {
      levels = LevelsFit-le frames g.current_function.level e.longer m.0.levels;
      host_kept = m.0.host_kept;
      room = m.0.room;
    },
    Keeps-trans m.1 (record { code = e; envs = λ id h. h; outer = refl; module_id = refl }),
  )

  pub emit-Moves :
      {f : ByteCode → ByteCode}
      → Appends f
      → Moves host frames base g
      → Moves host frames base (emit f g)
  unfolding emit
  emit-Moves {f} a m = grown (f g.iseq) (a g.iseq) m

  pub emit_const-Moves :
      (f : ConstantTable → ByteCode → ConstantTable × ByteCode)
      → AddsConst f
      → Moves host frames base g
      → Moves host frames base (emit_const f g)
  unfolding emit_const
  emit_const-Moves f a m =
      let (e, envs) = a g.constant_table g.iseq in
      let (r, k) = grown (f g.constant_table g.iseq).1 e m in
      (
        record { levels = r.levels; host_kept = r.host_kept; room = r.room },
        record {
          code = k.code;
          envs = λ id h. envs id (k.envs id h);
          outer = k.outer;
          module_id = k.module_id;
        },
      )

  pub save_source_pos-Moves : Moves host frames base g → Moves host frames base (save_source_pos g)
  unfolding save_source_pos
  save_source_pos-Moves (r, k) = (
    record { levels = r.levels; host_kept = r.host_kept; room = r.room },
    record { code = k.code; envs = k.envs; outer = k.outer; module_id = k.module_id },
  )

  pub push_level-Moves :
      (fr : Frame) (l : Level)
      → LevelFits fr (length g.iseq) l
      → Moves host frames base g
      → Moves host (fr ∷ frames) base (push_level l g)
  unfolding push_level
  push_level-Moves fr l fits (r, k) = (
    record { levels = (fits, r.levels); host_kept = r.host_kept; room = r.room },
    record { code = k.code; envs = k.envs; outer = k.outer; module_id = k.module_id },
  )

  -- A jump is patched whose five bytes are new since `base`.
  pub patch_jump-Moves :
      (dst p : ℕ)
      → length base.iseq ≤ p
      → p + 5 ≤ length g.iseq
      → Moves host frames base g
      → (g' : CodeGenerator) × (patch_jump dst p g ≡ ok g')
        × Moves host frames base g'
        × (length g'.iseq ≡ length g.iseq)
        × (g'.current_function ≡ g.current_function)
  unfolding patch_jump
  patch_jump-Moves dst p lo hi (r, k) =
      let (code, e, len, same) = patch_keeps g.iseq p (sub_ℕ dst (p + 5)) hi in
      (
        record g { iseq = code },
        rw (e, patch_jump) refl,
        (
          record {
            levels = subst (λ n. LevelsFit frames n g.current_function.level) (sym len) r.levels;
            host_kept = r.host_kept;
            room = r.room;
          },
          record {
            code = record {
              longer = omega (arith, len, k.code.longer);
              same = λ i h. same i (inl (omega arith)) ∙ k.code.same i h;
            };
            envs = k.envs;
            outer = k.outer;
            module_id = k.module_id;
          },
        ),
        len,
        refl,
      )

module _ {host : Host} {frames : List Frame} {base g : CodeGenerator} (dst p : ℕ) where
  pub patch-bind :
      {inner : List Frame} {next : CodeGenerator → Result CodeGenerator}
      → length base.iseq ≤ p
      → p + 5 ≤ length g.iseq
      → Moves host inner base g
      → ((g' : CodeGenerator)
          → Moves host inner base g'
          → length g'.iseq ≡ length g.iseq
          → g'.current_function ≡ g.current_function
          → Ends host frames base (next g'))
      → Ends host frames base (patch_jump dst p g >>= next)
  patch-bind lo hi m k =
      let (g', e, m', len, cur) = patch_jump-Moves dst p lo hi m in rw e (k g' m' len cur)

  pub patch_jump-Ends :
      length base.iseq ≤ p
      → p + 5 ≤ length g.iseq
      → Moves host frames base g
      → Ends host frames base (patch_jump dst p g)
  patch_jump-Ends lo hi m =
      let (g', e, m', len, cur) = patch_jump-Moves dst p lo hi m in rw e (returns m'.0 m'.1)

-- Each recorded jump lies in new code, so the loop over them comes to its end.
pub patch_jumps-bind :
    {host : Host} {frames inner : List Frame} {base : CodeGenerator}
    {next : CodeGenerator → Result CodeGenerator} (dst : ℕ) (ps : List ℕ) (g : CodeGenerator)
    → AreWithin (length base.iseq) (length g.iseq) ps
    → Moves host inner base g
    → ((g' : CodeGenerator)
        → Moves host inner base g'
        → length g'.iseq ≡ length g.iseq
        → g'.current_function ≡ g.current_function
        → Ends host frames base (next g'))
    → Ends host frames base (patch_jumps dst ps g >>= next)
unfolding patch_jumps
patch_jumps-bind dst [] g w m k = k g m refl refl
patch_jumps-bind {base} dst (p ∷ ps) g w m k =
    let (g', e, m', len, cur) = patch_jump-Moves dst p w.0 w.1 m in
    rw e (
      patch_jumps-bind dst ps g' (subst (λ n. AreWithin (length base.iseq) n ps) (sym len) w.2) m'
        (λ g₂ m₂ len₂ cur₂. k g₂ m₂ (len₂ ∙ len) (cur₂ ∙ cur)))

pub patch_jumps-Ends :
    {host : Host} {frames : List Frame} {base : CodeGenerator} (dst : ℕ) (ps : List ℕ)
    (g : CodeGenerator)
    → AreWithin (length base.iseq) (length g.iseq) ps
    → Moves host frames base g
    → Ends host frames base (patch_jumps dst ps g)
unfolding patch_jumps
patch_jumps-Ends dst [] g w m = returns m.0 m.1
patch_jumps-Ends {host} {frames} {base} dst (p ∷ ps) g w m =
    patch-bind {host = host} {frames = frames} dst p w.0 w.1 m (λ g' m' len cur.
      patch_jumps-Ends dst ps g' (subst (λ n. AreWithin (length base.iseq) n ps) (sym len) w.2) m')

module _ {host : Host} {frames outer : List Frame} {fr : Frame} {base : CodeGenerator}
    (next : Level × CodeGenerator → Result CodeGenerator) where
  popped :
      (g : CodeGenerator) (levels : List Level)
      → LevelsFit (fr ∷ outer) (length g.iseq) levels
      → IsReady host (fr ∷ outer) g
      → Keeps base g
      → ((l : Level) (rest : List Level)
          → LevelFits fr (length g.iseq) l
          → Moves host outer base (with_level rest g)
          → Ends host frames base (next (l, with_level rest g)))
      → Ends host frames base (pop_from levels g >>= next)
  unfolding pop_from with_level
  popped g [] fits r k then_next = absurd fits
  popped g (l ∷ rest) fits r k then_next = then_next l rest fits.0 (
    record { levels = fits.1; host_kept = r.host_kept; room = r.room },
    record { code = k.code; envs = k.envs; outer = k.outer; module_id = k.module_id },
  )

  pub pop-bind :
      (g : CodeGenerator)
      → Moves host (fr ∷ outer) base g
      → ((l : Level) (rest : List Level)
          → LevelFits fr (length g.iseq) l
          → Moves host outer base (with_level rest g)
          → Ends host frames base (next (l, with_level rest g)))
      → Ends host frames base (pop_level g >>= next)
  unfolding pop_level
  pop-bind g (r, k) then_next = popped g g.current_function.level r.levels r k then_next

pub visit-bind :
    {host : Host} {in_loop : Bool} {frames outer : List Frame} {base g : CodeGenerator}
    {v : Visitor} {next : CodeGenerator → Result CodeGenerator} (use_value : Bool)
    → IsSafe host in_loop v
    → (in_loop ≡ true → has_loop frames ≡ true)
    → Moves host frames base g
    → ((g' : CodeGenerator)
        → Moves host frames base g'
        → length g.iseq ≤ length g'.iseq
        → Ends host outer base (next g'))
    → Ends host outer base (v use_value g >>= next)
visit-bind {frames} use_value safe inside m next =
    bind-Ends (safe frames inside use_value _ m.0)
      (λ g' r k. next g' (r, Keeps-trans m.1 k) k.code.longer)

pub length-with_int32 :
    (op : ℕ) (n : ℤ) (c : ByteCode) → length (Gen.with_int32 op n c) ≡ length c + 5
unfolding Gen.with_int32 append_int32
length-with_int32 op n c =
    omega (arith, length-append {0} (c ++ op ∷ []), length-append {0} c (op ∷ []))

-- The code after an instruction with a word is five bytes longer.
module _ (n : ℤ) where
  pub append_jmp-Appends : Appends (Gen.append_jmp n)
  unfolding Gen.append_jmp
  append_jmp-Appends = with_int32-Appends _ n

  pub append_jmp_if_false-Appends : Appends (Gen.append_jmp_if_false n)
  unfolding Gen.append_jmp_if_false
  append_jmp_if_false-Appends = with_int32-Appends _ n

  pub length-append_jmp :
      (g : CodeGenerator) → length (emit (Gen.append_jmp n) g).iseq ≡ length g.iseq + 5
  unfolding emit Gen.append_jmp
  length-append_jmp g = length-with_int32 _ n g.iseq

  pub length-append_jmp_if_false :
      (g : CodeGenerator) → length (emit (Gen.append_jmp_if_false n) g).iseq ≡ length g.iseq + 5
  unfolding emit Gen.append_jmp_if_false
  length-append_jmp_if_false g = length-with_int32 _ n g.iseq

pub pop_envs-Moves :
    {host : Host} {frames : List Frame} {base : CodeGenerator} (n : ℕ) (g : CodeGenerator)
    → Moves host frames base g
    → Moves host frames base (pop_envs n g)
unfolding pop_envs Gen.append_pop_env
pop_envs-Moves zero g m = m
pop_envs-Moves (suc n) g m =
    pop_envs-Moves n (emit Gen.append_pop_env g) (emit-Moves (byte_step _) m)
