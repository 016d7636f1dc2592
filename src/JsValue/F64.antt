-- ===== src/JsValue/F64.antt =====
-- `f64` by its 64-bit pattern, as the nan-boxed values of src/vm/jsvalue/value.rs hold it. The
-- comparison `==` of the language and the test whether a number is an integer are here.
use rapidus.Prelude.{
  ℕ, ◌+◌, ◌-◌, ◌*◌, ◌/◌, ◌%◌, ◌^◌, Bool, not, ◌&&◌, ◌||◌, ◌==◌, leb, Option, none, some,
  if◌then◌else◌,
}
use rapidus.Prelude.Int.{ℤ, pos, negsuc}

abbrev pub F64 : Type 0
F64 = ℕ

-- The exponent is all ones, and the fraction is not zero.
unfoldable pub is_nan : F64 → Bool
is_nan b = (b / 2 ^ 52 % 2 ^ 11 == 2047) && not (b % 2 ^ 52 == 0)

-- 0.0 or -0.0: all bits but the sign are zero.
unfoldable pub is_zero : F64 → Bool
is_zero b = b % 2 ^ 63 == 0

-- `==`: false at NaN, true of the two zeros, and equality of patterns elsewhere.
unfoldable pub f64_eq : F64 → F64 → Bool
f64_eq a b = not (is_nan a) && not (is_nan b) && (a == b || is_zero a && is_zero b)

-- The integer of a magnitude and a sign bit.
signed : Bool → ℕ → ℤ
signed negative m = if negative && not (m == 0) then negsuc (m - 1) else pos m

-- The integer that a finite number equals, if it equals one: then `n - n.floor() == 0.0`. A number
-- is the mantissa, with its leading bit unless it is subnormal, times 2 ^ (exponent - 1075).
unfoldable pub int_value : F64 → Option ℤ
unfolding signed
int_value b =
    let e = b / 2 ^ 52 % 2 ^ 11 in
    let m = 2 ^ 52 + b % 2 ^ 52 in
    let sign = not (b / 2 ^ 63 == 0) in
    if e == 2047
    then none
    else if e == 0
    then (if b % 2 ^ 52 == 0 then some (pos 0) else none)
    else if leb 1075 e
    then some (signed sign (m * 2 ^ (e - 1075)))
    else if m % 2 ^ (1075 - e) == 0
    then some (signed sign (m / 2 ^ (1075 - e)))
    else none
