-- ===== src/Bytecode/Numbers/Tests.antt =====
-- Runs of a number's instruction, and the instances of the theorems.
use rapidus.Prelude.{◌≡◌, refl, [], ◌∷◌, ◌++◌, some, arith}
use rapidus.JsValue.F64.{F64, int_value}
use rapidus.JsValue.Value.{number}
use rapidus.Constant.{new, value, add_value, position}
use rapidus.Bytecode.Inst
use rapidus.Bytecode.Gen.{append_push_number}
use rapidus.Bytecode.Numbers.{Pushed, pushed, Denotes, pushed-append_push_number}

-- 1000.0, 0.5 and 2 ^ 31 as patterns.
abbrev thousand : F64
thousand = 4652007308841189376

abbrev half : F64
half = 4602678819172646912

thousand_word : append_push_number thousand new [] ≡ (new, Inst.push_int32 ∷ 232 ∷ 3 ∷ 0 ∷ 0 ∷ [])
unfolding append_push_number int_value add_value position
thousand_word = refl

half_constant :
    append_push_number half new []
    ≡ (record { table = value (number half) ∷ [] }, Inst.push_const ∷ 0 ∷ 0 ∷ 0 ∷ 0 ∷ [])
unfolding append_push_number int_value add_value position
half_constant = refl

pushed-append_push_number_example :
    (p : Pushed) × (pushed
        (append_push_number half new (7 ∷ [])).0
        ((append_push_number half new (7 ∷ [])).1 ++ 9 ∷ [])
        1
      ≡ some p)
    × Denotes half p
pushed-append_push_number_example =
    pushed-append_push_number half new (7 ∷ []) (9 ∷ []) (λ k e. unfold int_value in ground arith)
      (omega arith)
