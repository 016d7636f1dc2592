-- ===== src/Vm/Numbers.antt =====
-- Number literals that are small integers, compiled by src/vm/codegen.rs, on the machine of
-- src/vm/vm.rs.
use rapidus.Prelude.{
  ℕ, ◌+◌, ◌^◌, ◌<◌, ◌≡◌, refl, ap, sym, subst, ◌∙◌, true, false, Bool-cases, inl, inr, List, [],
  ◌∷◌, ◌++◌, some, arith, length, get_elem?, at, append_assoc, append-nil, length-append,
  get_elem?-append_last,
}
use rapidus.Prelude.Int.{pos}
use rapidus.JsValue.F64.{F64, int_value}
use rapidus.JsValue.Value.{Value, number}
use rapidus.Bytecode.Inst
use rapidus.Bytecode.Words.{ByteCode, byte, append_int8, append_int32, read_int8, read_i32}
use rapidus.Bytecode.Words.RoundTrip.{read_i32-append_int32}
use rapidus.Bytecode.Gen.{
  append_push_number, push_as, push_integer, fits_int8, fits_int32, append_push_int8,
  append_push_int32, with_int32,
}
use rapidus.Codegen.State.{CodeGenerator, emit_const, ok}
use rapidus.Vm
use rapidus.Vm.{
  Runtime, Program, Machine, SubroutineKind, Arm, arms, running, run_arm, run_int, byte_as_int,
  pushed,
}
use rapidus.Vm.Expression.{eval_number}
use rapidus.Vm.Runs.{Agrees, Reaches, here, next, step-run_arm, read_i32-Agrees}
use rapidus.Vm.Compiled.{Grows-Emits, length-Emits, opcode-Emits, Emits, at_pc, Holds, Does, adds}
use rapidus.Vm.Operators.{some_inj}

low_byte : (k : ℕ) → k < 128 → byte (pos k) 0 ≡ k
unfolding byte
low_byte k h = omega arith

get_elem?-operand : (c : ByteCode) (op b : ℕ) → get_elem? (c ++ op ∷ b ∷ []) (length c + 1) ≡ some b
get_elem?-operand c op b =
    rw (append_assoc, length-append {0}) at (get_elem?-append_last (c ++ op ∷ []) b)

module _ (R : Runtime) (P : Program) where
  -- An instruction with an operand is run.
  inst-Reaches :
      (op : ℕ) (arm : Arm) (w : ByteCode) {g g' : CodeGenerator} (s s' : List Value)
      (m m' : R.Memory) (subs : List SubroutineKind)
      → Emits op w g g'
      → Holds R P g g'
      → at op arms ≡ some arm
      → run_arm R P arm (at_pc R (length g.iseq + 1) s m subs)
        ≡ running (at_pc R (length g.iseq + 1 + length w) s' m' subs)
      → Reaches R P (at_pc R (length g.iseq) s m subs) (at_pc R (length g'.iseq) s' m' subs)
  inst-Reaches op arm w {g} {g'} s s' m m' subs e H is_arm runs =
      let len : length g.iseq + 1 + length w ≡ length g'.iseq = omega (arith, length-Emits e) in
      let opcode = H.code (length g.iseq) (omega arith) (omega (arith, len)) ∙ opcode-Emits e in
      subst (λ n. Reaches R P (at_pc R (length g.iseq) s m subs) (at_pc R n s' m' subs)) len
        (next (step-run_arm R P op arm (at_pc R (length g.iseq) s m subs) opcode is_arm ∙ runs)
          here)

  module _ {g g' : CodeGenerator} (k : ℕ) (H : Holds R P g g') (s : List Value) (m : R.Memory)
      (subs : List SubroutineKind) where
    push_int8-Reaches :
        Emits Inst.push_int8 (byte (pos k) 0 ∷ []) g g'
        → k < 128
        → Reaches R P
            (at_pc R (length g.iseq) s m subs)
            (at_pc R (length g'.iseq) (number (R.of_int (pos k)) ∷ s) m subs)
    unfolding at run_arm read_int8 run_int pushed byte_as_int
    push_int8-Reaches e small =
        let operand : get_elem? P.code (length g.iseq + 1) ≡ some k =
          H.code (length g.iseq + 1) (omega arith) (omega (arith, length-Emits e))
          ∙ ap (λ (c : ByteCode). get_elem? c (length g.iseq + 1)) e.code
          ∙ get_elem?-operand g.iseq Inst.push_int8 (byte (pos k) 0)
          ∙ ap some (low_byte k small) in
        inst-Reaches Inst.push_int8 Vm.push_int8 (byte (pos k) 0 ∷ []) s
          (number (R.of_int (pos k)) ∷ s) m m subs e H refl (rw (operand, run_arm) refl)

    push_int32-Reaches :
        Emits Inst.push_int32 (append_int32 (pos k) []) g g'
        → k < 2 ^ 31
        → Reaches R P
            (at_pc R (length g.iseq) s m subs)
            (at_pc R (length g'.iseq) (number (R.of_int (pos k)) ∷ s) m subs)
    unfolding at run_arm run_int pushed append_int32
    push_int32-Reaches e small =
        let same : Agrees (length g.iseq + 1) (length g.iseq + 1 + 4) g'.iseq P.code =
          λ i lo hi. H.code i (omega arith) (omega (arith, length-Emits e)) in
        let whole : g'.iseq ≡ append_int32 (pos k) (g.iseq ++ Inst.push_int32 ∷ []) =
          e.code ∙ sym (append_assoc g.iseq (Inst.push_int32 ∷ []) (append_int32 (pos k) [])) in
        let written : read_i32 g'.iseq (length g.iseq + 1) ≡ some (pos k) = rw whole (
          rw (length-append {0} g.iseq (Inst.push_int32 ∷ []), append-nil) at
            (read_i32-append_int32 (pos k) (g.iseq ++ Inst.push_int32 ∷ []) [] small)) in
        let operand = read_i32-Agrees g'.iseq P.code (length g.iseq + 1) same ∙ written in
        inst-Reaches Inst.push_int32 Vm.push_int32 (append_int32 (pos k) []) s
          (number (R.of_int (pos k)) ∷ s) m m subs e H refl (rw (operand, run_arm) refl)

module _ (n : F64) (k : ℕ) (is : int_value n ≡ some (pos k)) (g : CodeGenerator) where
  append_push_number-int8 :
      fits_int8 (pos k) ≡ true
      → Emits Inst.push_int8 (byte (pos k) 0 ∷ []) g (emit_const (append_push_number n) g)
  unfolding emit_const append_push_number push_as push_integer append_push_int8 append_int8
  append_push_number-int8 small =
      rw (is, small)
        (record {
          code = append_assoc g.iseq (Inst.push_int8 ∷ []) (byte (pos k) 0 ∷ []);
          table = refl;
        })

  append_push_number-int32 :
      fits_int8 (pos k) ≡ false
      → fits_int32 (pos k) ≡ true
      → Emits Inst.push_int32 (append_int32 (pos k) []) g (emit_const (append_push_number n) g)
  unfolding emit_const append_push_number push_as push_integer append_push_int32 with_int32
      append_int32
  append_push_number-int32 large word =
      rw (is, large, word)
        (record {
          code = append_assoc g.iseq (Inst.push_int32 ∷ []) (append_int32 (pos k) []);
          table = refl;
        })

fits_int8-small : (k : ℕ) → fits_int8 (pos k) ≡ true → k < 128
unfolding fits_int8
fits_int8-small k h = ground arith

fits_int32_of_lt : (k : ℕ) → k < 2 ^ 31 → fits_int32 (pos k) ≡ true
unfolding fits_int32
fits_int32_of_lt k h = ground arith

module _ (R : Runtime) where
  pub append_push_number-Does :
      (n : F64) (k : ℕ)
      → int_value n ≡ some (pos k)
      → k < 2 ^ 31
      → (g : CodeGenerator)
      → Does R
          (λ this. eval_number R this (int_value n))
          g
          (ok (emit_const (append_push_number n) g))
  unfolding eval_number
  append_push_number-Does n k is bound g = elim (Bool-cases (fits_int8 (pos k))) [
    | inl small ↦
        let e = append_push_number-int8 n k is g small in
        adds (Grows-Emits e) (λ P H s m subs v m' result.
          subst
            (λ (q : Value × R.Memory).
              Reaches R P (at_pc R (length g.iseq) s m subs)
                (at_pc R (length (emit_const (append_push_number n) g).iseq) (q.0 ∷ s) q.1 subs))
            (some_inj (rw is at result))
            (push_int8-Reaches R P k H s m subs e (fits_int8-small k small)))
    | inr large ↦
        let e = append_push_number-int32 n k is g large (fits_int32_of_lt k bound) in
        adds (Grows-Emits e) (λ P H s m subs v m' result.
          subst
            (λ (q : Value × R.Memory).
              Reaches R P (at_pc R (length g.iseq) s m subs)
                (at_pc R (length (emit_const (append_push_number n) g).iseq) (q.0 ∷ s) q.1 subs))
            (some_inj (rw is at result)) (push_int32-Reaches R P k H s m subs e bound))
  ]
