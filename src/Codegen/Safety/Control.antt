-- ===== src/Codegen/Safety/Control.antt =====
-- The control structures of src/vm/codegen.rs over parts that are safe.
use rapidus.Prelude.{
  ℕ, ◌+◌, ◌≤◌, ◌≡◌, refl, sym, subst, Bool, true, false, List, [], ◌∷◌, ◌++◌, some, arith, length,
  if◌then◌else◌,
}
use rapidus.Prelude.Int.{pos, sub_ℕ}
use rapidus.Factory.{Host}
use rapidus.Bytecode.Gen
use rapidus.Codegen.Levels.{
  Level, block, try_or_catch, loop, push_break, push_continue, blocks_to_loop,
}
use rapidus.Codegen.State.{ok, CodeGenerator, Visitor, emit, with_level, patch_jump, pop_envs}
use rapidus.Codegen.Control.{
  visit_else, visit_if, replace_break_and_continue, close_loop, visit_while, visit_for, visit_break,
  visit_continue, visit_ternary_op,
}
use rapidus.Codegen.Safety.{
  Frame, block_frame, loop_frame, has_loop, AreWithin, LevelFits, LevelsFit, Ends, returns, IsSafe,
  Keeps-refl,
}
use rapidus.Codegen.Safety.Steps.{
  Moves, emit-Moves, push_level-Moves, patch-bind, patch_jump-Ends, patch_jumps-bind,
  patch_jumps-Ends, pop-bind, visit-bind, pop_envs-Moves, AreWithin-append, LevelsFit-le,
  append_jmp-Appends, append_jmp_if_false-Appends, length-append_jmp, length-append_jmp_if_false,
}

AreWithin-from :
    {lo start : ℕ} (hi : ℕ) (ps : List ℕ) → lo ≤ start → AreWithin start hi ps → AreWithin lo hi ps
AreWithin-from hi [] h w = tt
AreWithin-from hi (p ∷ ps) h w = (omega (arith, w.0), w.1, AreWithin-from hi ps h w.2)

module _ {host : Host} {in_loop : Bool} {frames : List Frame} {base : CodeGenerator} where
  visit_else-Ends :
      {else_ : Visitor} (cond_pos : ℕ) (g : CodeGenerator)
      → IsSafe host in_loop else_
      → (in_loop ≡ true → has_loop frames ≡ true)
      → length base.iseq ≤ cond_pos
      → cond_pos + 5 ≤ length g.iseq
      → Moves host frames base g
      → Ends host frames base (visit_else else_ cond_pos g)
  unfolding visit_else
  visit_else-Ends cond_pos g he inside lo hi m =
      let jumped = length-append_jmp (pos 0) g in
      patch-bind _ cond_pos lo (omega arith) (emit-Moves (append_jmp-Appends (pos 0)) m)
        (λ g₂ m₂ len₂ cur₂. visit-bind _ he inside m₂ (λ g₃ m₃ longer.
          patch_jump-Ends _ (length g.iseq) (omega (arith, m.1.code.longer)) (omega arith) m₃))

module _ {host : Host} {in_loop : Bool} where
  pub visit_if-IsSafe :
      {cond then_ else_ : Visitor} (no_else : Bool)
      → IsSafe host in_loop cond
      → IsSafe host in_loop then_
      → IsSafe host in_loop else_
      → IsSafe host in_loop (λ u. visit_if cond then_ no_else else_)
  unfolding visit_if
  visit_if-IsSafe {else_} no_else hc ht he frames inside u g r =
      visit-bind _ hc inside (r, Keeps-refl g)
        (λ g₁ m₁ longer₁.
          visit-bind _ ht inside (emit-Moves (append_jmp_if_false-Appends (pos 0)) m₁)
            (λ g₂ m₂ longer₂.
              let hi : length g₁.iseq + 5 ≤ length g₂.iseq =
                omega (arith, length-append_jmp_if_false (pos 0) g₁) in
              elim no_else
                as (λ b. Ends host frames g (
                  if b
                  then patch_jump (length g₂.iseq) (length g₁.iseq) g₂
                  else visit_else else_ (length g₁.iseq) g₂)) [
                    | true ↦ patch_jump-Ends _ _ m₁.1.code.longer hi m₂
                    | false ↦ visit_else-Ends _ g₂ he inside m₁.1.code.longer hi m₂
                  ]))

  pub visit_ternary_op-IsSafe :
      {cond then_exp else_exp : Visitor}
      → IsSafe host in_loop cond
      → IsSafe host in_loop then_exp
      → IsSafe host in_loop else_exp
      → IsSafe host in_loop (visit_ternary_op cond then_exp else_exp)
  unfolding visit_ternary_op
  visit_ternary_op-IsSafe hc ht he frames inside u g r =
      visit-bind _ hc inside (r, Keeps-refl g)
        (λ g₁ m₁ longer₁.
          visit-bind _ ht inside (emit-Moves (append_jmp_if_false-Appends (pos 0)) m₁)
            (λ g₂ m₂ longer₂.
              let len₁ = length-append_jmp_if_false (pos 0) g₁ in
              let len₂ = length-append_jmp (pos 0) g₂ in
              patch-bind _ _ m₁.1.code.longer (omega arith)
                (emit-Moves (append_jmp-Appends (pos 0)) m₂)
                (λ g₄ m₄ len₄ cur₄. visit-bind _ he inside m₄ (λ g₅ m₅ longer₅.
                  patch_jump-Ends _ (length g₂.iseq) m₂.1.code.longer (omega arith) m₅))))

replace_break_and_continue-Ends :
    {host : Host} {frames : List Frame} {base : CodeGenerator} (g : CodeGenerator) (l : Level)
    (break_dst continue_dst : ℕ) {start : ℕ}
    → length base.iseq ≤ start
    → LevelFits (loop_frame start) (length g.iseq) l
    → Moves host frames base g
    → Ends host frames base (replace_break_and_continue l break_dst continue_dst g)
unfolding replace_break_and_continue
replace_break_and_continue-Ends {base} g (loop breaks continues) break_dst continue_dst lo fits m =
    patch_jumps-bind break_dst breaks g (AreWithin-from _ breaks lo fits.1) m (λ g₁ m₁ len₁ cur₁.
      patch_jumps-Ends continue_dst continues g₁
        (subst (λ n. AreWithin (length base.iseq) n continues) (sym len₁)
          (AreWithin-from _ continues lo fits.2))
        m₁)
replace_break_and_continue-Ends g Level.function break_dst continue_dst lo fits m = absurd fits
replace_break_and_continue-Ends g Level.finally break_dst continue_dst lo fits m = absurd fits
replace_break_and_continue-Ends g (block _) break_dst continue_dst lo fits m = absurd fits
replace_break_and_continue-Ends g (try_or_catch _) break_dst continue_dst lo fits m = absurd fits

module _ {host : Host} {frames : List Frame} {base : CodeGenerator} where
  close_loop-Ends :
      (start cond_pos continue_pos : ℕ) {s : ℕ} (g : CodeGenerator)
      → length base.iseq ≤ s
      → length base.iseq ≤ cond_pos
      → cond_pos + 5 ≤ length g.iseq
      → Moves host (loop_frame s ∷ frames) base g
      → Ends host frames base (close_loop start cond_pos continue_pos g)
  unfolding close_loop
  close_loop-Ends start cond_pos continue_pos g lo lo_cond hi m =
      let back = sub_ℕ start (length g.iseq + 5) in
      let len = length-append_jmp back g in
      patch-bind _ cond_pos lo_cond (omega arith) (emit-Moves (append_jmp-Appends back) m)
        (λ g₂ m₂ len₂ cur₂.
          pop-bind _ g₂ m₂
            (λ l rest fits m₃. replace_break_and_continue-Ends _ l _ continue_pos lo fits m₃))

module _ {host : Host} where
  pub visit_while-IsSafe :
      {in_loop : Bool} {cond body : Visitor}
      → IsSafe host true cond
      → IsSafe host true body
      → IsSafe host in_loop (λ u. visit_while cond body)
  unfolding visit_while has_loop
  visit_while-IsSafe hc hb frames inside u g r =
      let start = length g.iseq in
      let m₀ = push_level-Moves (loop_frame start) (loop [] []) (omega arith) (r, Keeps-refl g) in
      visit-bind _ hc (λ h. refl) m₀
        (λ g₁ m₁ longer₁.
          visit-bind _ hb (λ h. refl) (emit-Moves (append_jmp_if_false-Appends (pos 0)) m₁)
            (λ g₂ m₂ longer₂.
              close_loop-Ends _ _ _ g₂ (omega arith) m₁.1.code.longer
                (omega (arith, length-append_jmp_if_false (pos 0) g₁)) m₂))

  pub visit_for-IsSafe :
      {in_loop : Bool} {init cond step body : Visitor}
      → IsSafe host true init
      → IsSafe host true cond
      → IsSafe host true step
      → IsSafe host true body
      → IsSafe host in_loop (λ u. visit_for init cond step body)
  unfolding visit_for has_loop
  visit_for-IsSafe hi hc hs hb frames inside u g r =
      let start = length g.iseq in
      let m₀ = push_level-Moves (loop_frame start) (loop [] []) (omega arith) (r, Keeps-refl g) in
      visit-bind _ hi (λ h. refl) m₀
        (λ g₀ m m_longer.
          visit-bind _ hc (λ h. refl) m
            (λ g₁ m₁ longer₁.
              visit-bind _ hb (λ h. refl) (emit-Moves (append_jmp_if_false-Appends (pos 0)) m₁)
                (λ g₂ m₂ longer₂.
                  visit-bind _ hs (λ h. refl) m₂
                    (λ g₃ m₃ longer₃.
                      close_loop-Ends _ _ _ g₃ (omega arith) m₁.1.code.longer
                        (omega (arith, length-append_jmp_if_false (pos 0) g₁)) m₃))))

-- A jump of five bytes at the end of the code is recorded in the innermost loop.
push_break-LevelsFit :
    (frames : List Frame) (ls : List Level) (p : ℕ)
    → has_loop frames ≡ true
    → LevelsFit frames p ls
    → (ls' : List Level) × (push_break p ls ≡ some ls') × LevelsFit frames (p + 5) ls'
unfolding has_loop push_break
push_break-LevelsFit [] ls p h fits = absurd (cc)
push_break-LevelsFit (loop_frame s ∷ frames) (loop breaks continues ∷ ls) p h fits =
    let wider : LevelsFit (loop_frame s ∷ frames) (p + 5) (loop breaks continues ∷ ls) =
      LevelsFit-le (loop_frame s ∷ frames) (loop breaks continues ∷ ls) (omega arith) fits in
    (
      loop (breaks ++ p ∷ []) continues ∷ ls,
      refl,
      (
        (
          wider.0.0,
          AreWithin-append s (p + 5) breaks p fits.0.0 (omega arith) wider.0.1,
          wider.0.2,
        ),
        wider.1,
      ),
    )
push_break-LevelsFit (Frame.function_frame ∷ frames) (Level.function ∷ ls) p h fits =
    let (ls', e, fits') = push_break-LevelsFit frames ls p h fits.1 in
    (Level.function ∷ ls', rw e refl, (tt, fits'))
push_break-LevelsFit (block_frame ∷ frames) (block names ∷ ls) p h fits =
    let (ls', e, fits') = push_break-LevelsFit frames ls p h fits.1 in
    (block names ∷ ls', rw e refl, (tt, fits'))
push_break-LevelsFit (Frame.function_frame ∷ frames) [] p h fits = absurd fits
push_break-LevelsFit (block_frame ∷ frames) [] p h fits = absurd fits
push_break-LevelsFit (loop_frame s ∷ frames) [] p h fits = absurd fits
push_break-LevelsFit (_ ∷ frames) (_ ∷ ls) p h fits = absurd fits.0

push_continue-LevelsFit :
    (frames : List Frame) (ls : List Level) (p : ℕ)
    → has_loop frames ≡ true
    → LevelsFit frames p ls
    → (ls' : List Level) × (push_continue p ls ≡ some ls') × LevelsFit frames (p + 5) ls'
unfolding has_loop push_continue
push_continue-LevelsFit [] ls p h fits = absurd (cc)
push_continue-LevelsFit (loop_frame s ∷ frames) (loop breaks continues ∷ ls) p h fits =
    let wider : LevelsFit (loop_frame s ∷ frames) (p + 5) (loop breaks continues ∷ ls) =
      LevelsFit-le (loop_frame s ∷ frames) (loop breaks continues ∷ ls) (omega arith) fits in
    (
      loop breaks (continues ++ p ∷ []) ∷ ls,
      refl,
      (
        (
          wider.0.0,
          wider.0.1,
          AreWithin-append s (p + 5) continues p fits.0.0 (omega arith) wider.0.2,
        ),
        wider.1,
      ),
    )
push_continue-LevelsFit (Frame.function_frame ∷ frames) (Level.function ∷ ls) p h fits =
    let (ls', e, fits') = push_continue-LevelsFit frames ls p h fits.1 in
    (Level.function ∷ ls', rw e refl, (tt, fits'))
push_continue-LevelsFit (block_frame ∷ frames) (block names ∷ ls) p h fits =
    let (ls', e, fits') = push_continue-LevelsFit frames ls p h fits.1 in
    (block names ∷ ls', rw e refl, (tt, fits'))
push_continue-LevelsFit (Frame.function_frame ∷ frames) [] p h fits = absurd fits
push_continue-LevelsFit (block_frame ∷ frames) [] p h fits = absurd fits
push_continue-LevelsFit (loop_frame s ∷ frames) [] p h fits = absurd fits
push_continue-LevelsFit (_ ∷ frames) (_ ∷ ls) p h fits = absurd fits.0

-- The jump is emitted and its place recorded.
jumped-Ends :
    {host : Host} {frames : List Frame} {base : CodeGenerator} (g : CodeGenerator) (ls : List Level)
    → LevelsFit frames (length g.iseq + 5) ls
    → Moves host frames base g
    → Ends host frames base (ok (with_level ls (emit (Gen.append_jmp (pos 0)) g)))
unfolding with_level
jumped-Ends {frames} g ls fits m =
    let (r, k) = emit-Moves (append_jmp-Appends (pos 0)) m in
    returns
      (record {
        levels = subst (λ n. LevelsFit frames n ls) (sym (length-append_jmp (pos 0) g)) fits;
        host_kept = r.host_kept;
        room = r.room;
      })
      (record { code = k.code; envs = k.envs; outer = k.outer; module_id = k.module_id })

module _ {host : Host} where
  pub visit_break-IsSafe : IsSafe host true (λ u. visit_break)
  unfolding visit_break
  visit_break-IsSafe frames inside u g r =
      let g₁ = pop_envs (blocks_to_loop g.current_function.level) g in
      let m = pop_envs-Moves (blocks_to_loop g.current_function.level) g (r, Keeps-refl g) in
      let (ls, e, fits) =
        push_break-LevelsFit frames g₁.current_function.level (length g₁.iseq) (inside refl)
          m.0.levels in
      rw e (jumped-Ends g₁ ls fits m)

  pub visit_continue-IsSafe : IsSafe host true (λ u. visit_continue)
  unfolding visit_continue
  visit_continue-IsSafe frames inside u g r =
      let (ls, e, fits) =
        push_continue-LevelsFit frames g.current_function.level (length g.iseq) (inside refl)
          r.levels in
      rw e (jumped-Ends g ls fits (r, Keeps-refl g))
