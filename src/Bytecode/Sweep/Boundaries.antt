-- ===== src/Bytecode/Sweep/Boundaries.antt =====
-- The listing of src/bytecode_gen.rs and the boundaries of the instructions that it is about.
use rapidus.Prelude.{
  ℕ, zero, suc, ◌<◌, ◌≡◌, refl, ap, List, [], ◌∷◌, ◌++◌, Option, none, some, length, get_elem?,
  arith, ◌∙◌, sym, append_assoc, append-nil, length-append, Bool-cases, inl, inr, true, false,
}
use rapidus.Prelude.Int.{ℤ, pos}
use rapidus.JsValue.F64.{F64, int_value}
use rapidus.Constant.{ConstantTable}
use rapidus.Bytecode.Words.{ByteCode}
use rapidus.Bytecode.Words.RoundTrip.{get_elem?-append_start}
use rapidus.Bytecode.Inst
use rapidus.Bytecode.Inst.{get_inst_size}
use rapidus.Bytecode.Gen.{with_int32, push_integer, push_as, fits_int8, fits_int32}
use rapidus.Bytecode.Sweep.{
  Step, Code, emit, run, panic, show_inst_seq, prepend, push_seperator, push_const, get_value,
  set_value, push_env, push_int8, push_bool, push_number, return_try, loop_start, construct,
  create_object, call, call_method, push_int32, jmp, jmp_if_false, jmp_sub,
}

-- `code` with one more instruction, whose size is the number of bytes that it takes.
abbrev OneMore : ByteCode → ByteCode → Type 0
OneMore code code' =
    (op : ℕ) × (operands : ByteCode) × (code' ≡ code ++ op ∷ operands)
    × (get_inst_size op ≡ some (suc (length operands)))

-- Every instruction but `push_seperator` has a size.
abbrev pub HasSize : Step → Type 0
HasSize push_seperator = ⊥
HasSize _ = Unit

abbrev pub AllSized : List Step → Type 0
AllSized [] = Unit
AllSized (s ∷ ss) = HasSize s × AllSized ss

with_int32-OneMore :
    (op : ℕ) (n : ℤ) (code : ByteCode)
    → get_inst_size op ≡ some 5
    → OneMore code (with_int32 op n code)
unfolding with_int32
with_int32-OneMore op n code h = (op, _, append_assoc code (op ∷ []) _, h)

push_integer-OneMore :
    (n : F64) (i : ℤ) (t : ConstantTable) (code : ByteCode)
    → OneMore code (push_integer n i t code).1
unfolding push_integer get_inst_size
push_integer-OneMore n i t code = elim (Bool-cases (fits_int8 i)) [
  | inl small ↦ rw small (Inst.push_int8, _, append_assoc code (Inst.push_int8 ∷ []) _, refl)
  | inr large ↦ elim (Bool-cases (fits_int32 i)) [
    | inl word ↦ rw (large, word) (with_int32-OneMore Inst.push_int32 i code refl)
    | inr huge ↦ rw (large, huge) (with_int32-OneMore Inst.push_const _ code refl)
  ]
]

push_as-OneMore :
    (n : F64) (o : Option ℤ) (t : ConstantTable) (code : ByteCode)
    → OneMore code (push_as n o t code).1
unfolding push_as get_inst_size
push_as-OneMore n none t code = with_int32-OneMore Inst.push_const _ code refl
push_as-OneMore n (some i) t code = push_integer-OneMore n i t code

emit-OneMore : (s : Step) (c : Code) → HasSize s → OneMore c.1 (emit s c).1
unfolding emit get_inst_size
emit-OneMore push_seperator c h = absurd h
emit-OneMore return_try c h = with_int32-OneMore Inst.return_try (pos 0) c.1 refl
emit-OneMore loop_start c h = with_int32-OneMore Inst.loop_start (pos 0) c.1 refl
emit-OneMore (construct n) c h = with_int32-OneMore Inst.construct _ c.1 refl
emit-OneMore (create_object n) c h = with_int32-OneMore Inst.create_object _ c.1 refl
emit-OneMore (call n) c h = with_int32-OneMore Inst.call _ c.1 refl
emit-OneMore (call_method n) c h = with_int32-OneMore Inst.call_method _ c.1 refl
emit-OneMore (push_int32 n) c h = with_int32-OneMore Inst.push_int32 _ c.1 refl
emit-OneMore (jmp n) c h = with_int32-OneMore Inst.jmp _ c.1 refl
emit-OneMore (jmp_if_false n) c h = with_int32-OneMore Inst.jmp_if_false _ c.1 refl
emit-OneMore (jmp_sub n) c h = with_int32-OneMore Inst.jmp_sub _ c.1 refl
emit-OneMore (push_const n) c h = with_int32-OneMore Inst.push_const _ c.1 refl
emit-OneMore (get_value n) c h = with_int32-OneMore Inst.get_value _ c.1 refl
emit-OneMore (set_value n) c h = with_int32-OneMore Inst.set_value _ c.1 refl
emit-OneMore (push_env n) c h = (Inst.push_env, _, append_assoc c.1 (Inst.push_env ∷ []) _, refl)
emit-OneMore (push_int8 n) c h = (Inst.push_int8, _, append_assoc c.1 (Inst.push_int8 ∷ []) _, refl)
emit-OneMore (push_bool true) c h = (Inst.push_true, [], refl, refl)
emit-OneMore (push_bool false) c h = (Inst.push_false, [], refl, refl)
emit-OneMore (push_number n) c h = push_as-OneMore n (int_value n) c.0 c.1
emit-OneMore s c h = (_, [], refl, refl)

-- One more round of the loop, over an instruction in the middle of the code.
round-OneMore :
    (fuel : ℕ) (code rest code' : ByteCode)
    → OneMore code code'
    → show_inst_seq (suc fuel) (code' ++ rest) (length code)
      ≡ prepend (length code) (show_inst_seq fuel (code' ++ rest) (length code'))
unfolding show_inst_seq
round-OneMore fuel code rest code' (op, operands, e, size) =
    let inside : get_elem? (code' ++ rest) (length code) ≡ some op =
      rw e (get_elem?-append_start code operands rest op) in
    ground (
      arith,
      inside,
      size,
      length-append code' rest,
      length-append code (op ∷ operands),
      ap length e,
    )

emit-append : (s : Step) (c : Code) → (rest : ByteCode) × ((emit s c).1 ≡ c.1 ++ rest)
unfolding emit
emit-append push_seperator c = (_, refl)
emit-append s c = let (op, operands, e, _) = emit-OneMore s c tt in (op ∷ operands, e)

run-append : (ss : List Step) (c : Code) → (rest : ByteCode) × ((run ss c).1 ≡ c.1 ++ rest)
unfolding run
run-append [] c = ([], sym (append-nil c.1))
run-append (s ∷ ss) c =
    let (first, e) = emit-append s c in
    let (rest, more) = run-append ss (emit s c) in
    (first ++ rest, more ∙ (ap (λ x. x ++ rest) e ∙ append_assoc c.1 first rest))

separator_panics :
    (ss : List Step) (c : Code) (fuel : ℕ)
    → show_inst_seq (suc fuel) (run (push_seperator ∷ ss) c).1 (length c.1) ≡ panic
unfolding run emit show_inst_seq get_inst_size
separator_panics ss c fuel =
    let (rest, more) = run-append ss (emit push_seperator c) in
    let at_separator : get_elem? (run (push_seperator ∷ ss) c).1 (length c.1)
        ≡ some Inst.push_seperator =
      rw more (get_elem?-append_start c.1 [] rest Inst.push_seperator) in
    ground (
      arith,
      at_separator,
      ap length more,
      length-append (c.1 ++ Inst.push_seperator ∷ []) rest,
      length-append c.1 (Inst.push_seperator ∷ []),
    )

panics_from_here :
    (before after : List Step) (c : Code) (fuel : ℕ)
    → AllSized before
    → length before < fuel
    → show_inst_seq fuel (run (before ++ push_seperator ∷ after) c).1 (length c.1) ≡ panic
unfolding run prepend
panics_from_here before after c zero h enough = absurd (omega arith)
panics_from_here [] after c (suc fuel) h enough = separator_panics after c fuel
panics_from_here (s ∷ ss) after c (suc fuel) h enough =
    let (rest, more) = run-append (ss ++ push_seperator ∷ after) (emit s c) in
    let round = round-OneMore fuel c.1 rest (emit s c).1 (emit-OneMore s c h.0) in
    let later = panics_from_here ss after (emit s c) fuel h.1 (omega arith) in
    rw more (round ∙ ap (prepend (length c.1)) (rw more at later))

-- Code with a separator in it is never listed: with fuel for the instructions before the first
-- separator, the listing panics.
pub show_inst_seq-separator :
    (before after : List Step) (t : ConstantTable) (fuel : ℕ)
    → AllSized before
    → length before < fuel
    → show_inst_seq fuel (run (before ++ push_seperator ∷ after) (t, [])).1 0 ≡ panic
show_inst_seq-separator before after t fuel h enough =
    panics_from_here before after (t, []) fuel h enough
