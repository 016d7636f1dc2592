-- ===== src/Vm/Variables.antt =====
-- Variables and their assignment, compiled by src/vm/codegen.rs, on the machine of src/vm/vm.rs.
use rapidus.Prelude.{
  ℕ, ◌+◌, ◌^◌, ◌<◌, ◌≡◌, refl, ap, subst, ◌∙◌, true, Option-cases, inl, inr, String, List, [], ◌∷◌,
  ◌++◌, none, some, arith, length, at, append_assoc, append-nil, length-append,
}
use rapidus.Prelude.Int.{pos}
use rapidus.JsValue.Value.{Value}
use rapidus.Constant
use rapidus.Constant.{ConstantTable, add_string, as_string}
use rapidus.Constant.Laws.{get-add_string, add-get_of_get}
use rapidus.Bytecode.Inst
use rapidus.Bytecode.Words.{append_int32, read_index, as_i32}
use rapidus.Bytecode.Words.RoundTrip.{read_index-append_int32}
use rapidus.Bytecode.Gen
use rapidus.Bytecode.Gen.{with_constant, with_int32, low_i32}
use rapidus.Codegen.State.{CodeGenerator, Visitor, emit, emit_const, save_source_pos, pop_unless}
use rapidus.Codegen.Visit.{visit_identifier}
use rapidus.Vm
use rapidus.Vm.{
  Runtime, Program, Machine, SubroutineKind, Answer, answer, raise, running, run_arm, run_get_value,
  run_set_value, run_double, stored, constant_at, constant_string, got, pushed,
}
use rapidus.Vm.Expression.{value_of, stored_in, eval_assign}
use rapidus.Vm.Runs.{Agrees, Reaches, Reaches_trans, here, next, step-run_arm, read_index-Agrees}
use rapidus.Vm.Compiled.{
  Grows, Grows-Emits, length-Emits, opcode-Emits, Emits, at_pc, Holds, Does, adds, Does-bind,
  Grows-trans,
}
use rapidus.Vm.Operators.{Holds-first, Holds-second, byte-Reaches}
use rapidus.Vm.Branches.{Eval}
use rapidus.Vm.Conjunction.{append_double-Emits}
use rapidus.Codegen.Operators.{identifier, visit_assign, double_if, assign_stack_top_to}

low_i32-small : (n : ℕ) → n < 2 ^ 31 → low_i32 n ≡ pos n
unfolding low_i32 as_i32
low_i32-small n h = ground arith

-- An instruction is added, whose operand is the id of a name.
record Names (op : ℕ) (name : String) (g g' : CodeGenerator) : Type 0 where
  id : ℕ
  code : g'.iseq ≡ append_int32 (low_i32 id) (g.iseq ++ op ∷ [])
  named : Constant.get g'.constant_table id ≡ some (Constant.string name)
  kept :
      (i : ℕ) {c : Constant.Constant}
      → Constant.get g.constant_table i ≡ some c
      → Constant.get g'.constant_table i ≡ some c

named_inst :
    (op : ℕ) (name : String) (g : CodeGenerator)
    → Names op name g (emit_const (λ t. with_constant op (add_string name t)) g)
unfolding emit_const with_constant with_int32
named_inst op name g = record {
  id = (add_string name g.constant_table).0;
  code = refl;
  named = get-add_string name g.constant_table;
  kept = λ i {c} e. (add-get_of_get g.constant_table i c e).0 name;
}

module _ {op : ℕ} {name : String} {g g' : CodeGenerator} (n : Names op name g g') where
  abbrev with_table : CodeGenerator
  with_table = record g { constant_table = g'.constant_table }

  inst : Emits op (append_int32 (low_i32 n.id) []) with_table g'
  unfolding append_int32
  inst = record {
    code = n.code ∙ append_assoc g.iseq (op ∷ []) (append_int32 (low_i32 n.id) []);
    table = refl;
  }

  len : length g'.iseq ≡ length g.iseq + 5
  unfolding append_int32
  len = omega (arith, length-Emits inst)

  Grows-Names : Grows g g'
  Grows-Names = record {
    longer = omega (arith, len);
    same = (Grows-Emits inst).same;
    constants = λ i e. n.kept i e;
  }

  operand : n.id < 2 ^ 31 → read_index g'.iseq (length g.iseq + 1) ≡ some n.id
  operand h = rw n.code (
      rw (low_i32-small n.id h) (
        rw (length-append {0} g.iseq (op ∷ []), append-nil) at
          (read_index-append_int32 n.id (g.iseq ++ op ∷ []) [] h)))

  module _ (R : Runtime) (P : Program) (H : Holds R P g g') where
    finds_name : constant_string R (constant_at R P (length g.iseq + 1)) ≡ some name
    unfolding constant_string constant_at as_string
    finds_name =
        let held = H.constants n.id n.named in
        let same : Agrees (length g.iseq + 1) (length g.iseq + 1 + 4) g'.iseq P.code =
          λ i lo hi. H.code i (omega arith) (omega (arith, len)) in
        let id_read =
          read_index-Agrees g'.iseq P.code (length g.iseq + 1) same ∙ operand (H.few n.id held) in
        ap
          (λ o.
            constant_string R (elim o [ none ↦ none | some id ↦ Constant.get P.constant_table id ]))
          id_read
        ∙ ap (constant_string R) held

    run_named :
        (arm : Vm.Arm) (s s' : List Value) (m m' : R.Memory) (subs : List SubroutineKind)
        → at op Vm.arms ≡ some arm
        → run_arm R P arm (at_pc R (length g.iseq + 1) s m subs)
          ≡ running (at_pc R (length g.iseq + 1 + 4) s' m' subs)
        → Reaches R P (at_pc R (length g.iseq) s m subs) (at_pc R (length g'.iseq) s' m' subs)
    run_named arm s s' m m' subs is_arm runs =
        let end : length g.iseq + 1 + 4 ≡ length g'.iseq = omega (arith, len) in
        let opcode =
          H.code (length g.iseq) (omega arith) (omega (arith, len)) ∙ opcode-Emits inst in
        subst (λ k. Reaches R P (at_pc R (length g.iseq) s m subs) (at_pc R k s' m' subs)) end
          (next (step-run_arm R P op arm (at_pc R (length g.iseq) s m subs) opcode is_arm ∙ runs)
            here)

-- The source position is not part of the code.
grows : (g : CodeGenerator) {g' : CodeGenerator} → Grows (save_source_pos g) g' → Grows g g'
unfolding save_source_pos
grows g k = record { longer = k.longer; same = k.same; constants = λ i e. k.constants i e }

held :
    {R : Runtime} (g : CodeGenerator) {g' : CodeGenerator} (P : Program)
    → Holds R P g g'
    → Holds R P (save_source_pos g) g'
unfolding save_source_pos
held g P H = record {
  code = H.code;
  constants = λ i e. H.constants i e;
  bounded = H.bounded;
  few = λ i e. H.few i e;
}

module _ (R : Runtime) (name : String) where
  value_inv :
      (this : Value) (a : Answer Value) (m : R.Memory) (v : Value) (m' : R.Memory)
      → value_of R this a m ≡ some (v, m')
      → (a ≡ answer v) × (m ≡ m')
  unfolding value_of
  value_inv this (answer w) m v m' h = (cc h, cc h)
  value_inv this (raise e) m v m' h = absurd (cc h)

  pub visit_identifier-Does :
      (g : CodeGenerator)
      → Does R (λ this m. value_of R this (R.get_value name m) m) g (visit_identifier name true g)
  unfolding visit_identifier pop_unless Gen.append_get_value at run_arm
  visit_identifier-Does g =
      let n : Names Inst.get_value name (save_source_pos g) _ =
        named_inst Inst.get_value name (save_source_pos g) in
      adds (grows g (Grows-Names n)) (λ P H s m subs v m' result.
        let (got_v, same_m) = value_inv P.this (R.get_value name m) m v m' result in
        run_named n R P (held g P H) Vm.get_value s (v ∷ s) m m' subs refl
          (rw (finds_name n R P (held g P H), got_v, same_m, pushed) refl))

  stored_inv :
      (this : Value) (a : Answer R.Memory) (w v : Value) (m' : R.Memory)
      → stored_in R this a w ≡ some (v, m')
      → (a ≡ answer m') × (w ≡ v)
  unfolding stored_in
  stored_inv this (answer n) w v m' h = (cc h, cc h)
  stored_inv this (raise e) w v m' h = absurd (cc h)

  -- `SET_VALUE` takes the copy that `DOUBLE` made.
  stores :
      (g : CodeGenerator) {g' : CodeGenerator} (n : Names Inst.set_value name g g') (P : Program)
      → Holds R P g g'
      → (w : Value) (s : List Value) (m : R.Memory) (subs : List SubroutineKind) (v : Value)
        (m' : R.Memory)
      → stored_in R P.this (R.set_value name w m) w ≡ some (v, m')
      → Reaches R P
          (at_pc R (length g.iseq) (w ∷ w ∷ s) m subs)
          (at_pc R (length g'.iseq) (v ∷ s) m' subs)
  unfolding run_arm at run_set_value
  stores g n P H w s m subs v m' result =
      let (done, same_v) = stored_inv P.this (R.set_value name w m) w v m' result in
      run_named n R P H Vm.set_value (w ∷ w ∷ s) (v ∷ s) m m' subs refl
        (rw (finds_name n R P H, done, same_v, stored) refl)

  pub visit_assign-Does :
      (ev : Eval R) (src : Visitor)
      → ((g : CodeGenerator) → Does R ev g (src true g))
      → (g : CodeGenerator)
      → Does R
          (λ this. eval_assign R this name (ev this))
          g
          (visit_assign src (identifier name) true g)
  unfolding visit_assign double_if assign_stack_top_to Gen.append_set_value eval_assign at run_arm
      run_double pushed
  visit_assign-Does ev src hs g = Does-bind R (hs g) (λ g₁ k₁ sim.
      let doubled = append_double-Emits g₁ in
      let g₂ = emit Gen.append_double g₁ in
      let n : Names Inst.set_value name (save_source_pos g₂) _ =
        named_inst Inst.set_value name (save_source_pos g₂) in
      let k₂ = Grows-Emits doubled in
      let k₃ = grows g₂ (Grows-Names n) in
      adds (Grows-trans k₁ (Grows-trans k₂ k₃)) (λ P H s m subs v m' result.
        elim (Option-cases (ev P.this m)) [
          | inl undefined ↦ absurd (cc (rw undefined at result))
          | inr (a, defined) ↦
              let H₁ = Holds-second R P k₁ (Grows-trans k₂ k₃) H in
              Reaches_trans R P
                (sim P (Holds-first R P k₁ (Grows-trans k₂ k₃) H) s m subs a.0 a.1 defined)
                (Reaches_trans R P
                  (byte-Reaches R P Inst.double Vm.double (a.0 ∷ s) (a.0 ∷ a.0 ∷ s) a.1 a.1 subs
                    doubled (Holds-first R P k₂ k₃ H₁) refl refl)
                  (stores (save_source_pos g₂) n P (held g₂ P (Holds-second R P k₂ k₃ H₁)) a.0 s a.1
                    subs v m' (rw defined at result)))
        ]))
