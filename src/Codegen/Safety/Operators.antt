-- ===== src/Codegen/Safety/Operators.antt =====
-- The expressions of src/vm/codegen.rs over parts that are safe.
use rapidus.Prelude.{
  ◌≡◌, ◌≢◌, refl, ap, ◌∙◌, Bool, true, false, String, List, [], ◌∷◌, ◌++◌, length,
}
use rapidus.Prelude.Int.{pos, ℤ}
use rapidus.Node.{UnaryOp}
use rapidus.JsValue.Value.{Value}
use rapidus.Factory
use rapidus.Factory.{Host, Factory, get_func_ref}
use rapidus.Bytecode.Words.{append_int8}
use rapidus.Bytecode.Gen
use rapidus.Codegen.State.{Result, ok, ◌>>=◌, CodeGenerator, Visitor, emit, pop_unless, push_string}
use rapidus.Codegen.Operators
use rapidus.Codegen.Operators.{Target, Callee}
use rapidus.Codegen.Safety.{Frame, has_loop, Ends, returns, raises, IsSafe, Extends-trans}
use rapidus.Codegen.Safety.Steps.{
  Moves, append-Extends, byte_step, emit-Moves, emit_const-Moves, append_push_const-AddsConst,
  append_set_value-AddsConst, save_source_pos-Moves, visit-bind,
}

-- A text that `CString::new` takes.
abbrev pub IsText : Host → String → Type 0
IsText host s = host.has_nul s ≡ false

module _ {host : Host} {frames : List Frame} {base : CodeGenerator} where
  pub returned : {g : CodeGenerator} → Moves host frames base g → Ends host frames base (ok g)
  returned m = returns m.0 m.1

  pub pop_unless-Moves :
      (u : Bool) {g : CodeGenerator}
      → Moves host frames base g
      → Moves host frames base (pop_unless u g)
  unfolding pop_unless Gen.append_pop
  pop_unless-Moves true m = m
  pop_unless-Moves false m = emit-Moves (byte_step _) m

  -- The factory has one more allocation, and the same functions.
  pub allocated :
      {g : CodeGenerator} (memory : List Factory.Allocation)
      → Moves host frames base g
      → Moves host frames base (record g { factory = record g.factory { memory = memory } })
  unfolding get_func_ref
  allocated memory (r, k) = (
    record {
      levels = r.levels;
      host_kept = r.host_kept;
      room = record {
        fresh = r.room.fresh;
        module_free = r.room.module_free;
        module_old = r.room.module_old;
      };
    },
    record { code = k.code; envs = k.envs; outer = k.outer; module_id = k.module_id },
  )

module _ {host : Host} {frames outer : List Frame} {base : CodeGenerator} where
  pub push_string-bind :
      {next : CodeGenerator → Result CodeGenerator} (s : String) (g : CodeGenerator)
      → IsText host s
      → Moves host frames base g
      → ((g' : CodeGenerator) → Moves host frames base g' → Ends host outer base (next g'))
      → Ends host outer base (push_string s g >>= next)
  unfolding push_string Factory.string Factory.alloc
  push_string-bind s g text m next =
      let clean : g.factory.host.has_nul s ≡ false = ap (λ h. h.has_nul s) m.0.host_kept ∙ text in
      let v = Value.string (g.factory.host.address (length g.factory.memory)) in
      let m₁ = allocated (g.factory.memory ++ Factory.text s ∷ []) m in
      let m₂ = emit_const-Moves _ (append_push_const-AddsConst v) m₁ in
      rw (clean, push_string) (next _ m₂)

-- The parts of a left-hand side, and of what is called.
abbrev pub IsSafeTarget : Host → Bool → Target → Type 0
IsSafeTarget host in_loop (Target.identifier name) = Unit
IsSafeTarget host in_loop (Target.member parent property) =
    IsSafe host in_loop parent × IsText host property
IsSafeTarget host in_loop (Target.index parent idx) =
    IsSafe host in_loop parent × IsSafe host in_loop idx
IsSafeTarget host in_loop (Target.invalid p) = Unit

abbrev pub IsSafeCallee : Host → Bool → Callee → Type 0
IsSafeCallee host in_loop (Callee.method parent property) =
    IsSafe host in_loop parent × IsText host property
IsSafeCallee host in_loop (Callee.plain callee) = IsSafe host in_loop callee

module _ {host : Host} {in_loop : Bool} {frames : List Frame} {base : CodeGenerator}
    (inside : in_loop ≡ true → has_loop frames ≡ true) where
  pub member_parts-Ends :
      {parent : Visitor} (property : String) (g : CodeGenerator)
      → IsSafe host in_loop parent
      → IsText host property
      → Moves host frames base g
      → Ends host frames base (Operators.member_parts parent property g)
  unfolding Operators.member_parts
  member_parts-Ends property g safe text m = visit-bind _ safe inside m (λ g₁ m₁ longer.
      push_string-bind property g₁ text m₁ (λ g₂ m₂. returned (save_source_pos-Moves m₂)))

  pub index_parts-Ends :
      {parent idx : Visitor} (g : CodeGenerator)
      → IsSafe host in_loop parent
      → IsSafe host in_loop idx
      → Moves host frames base g
      → Ends host frames base (Operators.index_parts parent idx g)
  unfolding Operators.index_parts
  index_parts-Ends g safe safe_idx m = visit-bind _ safe inside m (λ g₁ m₁ longer₁.
      visit-bind _ safe_idx inside m₁ (λ g₂ m₂ longer₂. returned (save_source_pos-Moves m₂)))

-- What ends safely and then emits, ends safely.
pub emit-after :
    {host : Host} {frames : List Frame} {base : CodeGenerator} {r : Result CodeGenerator}
    (f : CodeGenerator → CodeGenerator)
    → ((g : CodeGenerator) → Moves host frames base g → Moves host frames base (f g))
    → Ends host frames base r
    → Ends host frames base (r >>= λ g. ok (f g))
emit-after f step (returns r k) = returned (step _ (r, k))
emit-after f step raises = raises

module _ {host : Host} {in_loop : Bool} {frames : List Frame} {base : CodeGenerator}
    (inside : in_loop ≡ true → has_loop frames ≡ true) where
  pub assign_stack_top_to-Ends :
      (dst : Target) (g : CodeGenerator)
      → IsSafeTarget host in_loop dst
      → Moves host frames base g
      → Ends host frames base (Operators.assign_stack_top_to dst g)
  unfolding Operators.assign_stack_top_to Gen.append_set_member
  assign_stack_top_to-Ends (Target.identifier name) g safe m =
      returned (emit_const-Moves _ (append_set_value-AddsConst name) (save_source_pos-Moves m))
  assign_stack_top_to-Ends (Target.member parent property) g safe m =
      emit-after (emit Gen.append_set_member) (λ g' m'. emit-Moves (byte_step _) m')
        (member_parts-Ends inside property g safe.0 safe.1 m)
  assign_stack_top_to-Ends (Target.index parent idx) g safe m =
      emit-after (emit Gen.append_set_member) (λ g' m'. emit-Moves (byte_step _) m')
        (index_parts-Ends inside g safe.0 safe.1 m)
  assign_stack_top_to-Ends (Target.invalid p) g safe m = raises

  pub double_if-Moves :
      (b : Bool) {g : CodeGenerator}
      → Moves host frames base g
      → Moves host frames base (Operators.double_if b g)
  unfolding Operators.double_if Gen.append_double
  double_if-Moves true m = emit-Moves (byte_step _) m
  double_if-Moves false m = m

  append_push_int8-Moves :
      (n : ℤ) {g : CodeGenerator}
      → Moves host frames base g
      → Moves host frames base (emit (Gen.append_push_int8 n) g)
  unfolding Gen.append_push_int8 append_int8
  append_push_int8-Moves n m =
      emit-Moves (λ c. Extends-trans (append-Extends c _) (append-Extends _ _)) m

  pub unary_inst-Ends :
      (op : UnaryOp) (dst : Target) (u : Bool) (g : CodeGenerator)
      → op ≢ UnaryOp.delete
      → op ≢ UnaryOp.void
      → IsSafeTarget host in_loop dst
      → Moves host frames base g
      → Ends host frames base (Operators.unary_inst op dst u g)
  unfolding Operators.unary_inst Operators.pre_step Operators.post_step Gen.append_typeof
      Gen.append_posi Gen.append_neg Gen.append_lnot Gen.append_not Gen.append_add Gen.append_sub
      Gen.append_double
  unary_inst-Ends UnaryOp.delete dst u g a b safe m = absurd (a refl)
  unary_inst-Ends UnaryOp.void dst u g a b safe m = absurd (b refl)
  unary_inst-Ends UnaryOp.typeof dst u g a b safe m = returned (emit-Moves (byte_step _) m)
  unary_inst-Ends UnaryOp.plus dst u g a b safe m = returned (emit-Moves (byte_step _) m)
  unary_inst-Ends UnaryOp.minus dst u g a b safe m = returned (emit-Moves (byte_step _) m)
  unary_inst-Ends UnaryOp.not dst u g a b safe m = returned (emit-Moves (byte_step _) m)
  unary_inst-Ends UnaryOp.bitwise_not dst u g a b safe m = returned (emit-Moves (byte_step _) m)
  unary_inst-Ends UnaryOp.pr_inc dst u g a b safe m =
      assign_stack_top_to-Ends dst _ safe
        (double_if-Moves u (emit-Moves (byte_step _) (append_push_int8-Moves (pos 1) m)))
  unary_inst-Ends UnaryOp.pr_dec dst u g a b safe m =
      assign_stack_top_to-Ends dst _ safe
        (double_if-Moves u (emit-Moves (byte_step _) (append_push_int8-Moves (pos 1) m)))
  unary_inst-Ends UnaryOp.po_inc dst u g a b safe m =
      assign_stack_top_to-Ends dst _ safe
        (emit-Moves (byte_step _) (append_push_int8-Moves (pos 1) (emit-Moves (byte_step _) m)))
  unary_inst-Ends UnaryOp.po_dec dst u g a b safe m =
      assign_stack_top_to-Ends dst _ safe
        (emit-Moves (byte_step _) (append_push_int8-Moves (pos 1) (emit-Moves (byte_step _) m)))
