-- ===== src/Token/Symbol.antt =====
-- src/token.rs: punctuation, and the operators of src/node.rs that it stands for.
use rapidus.Prelude.{ℕ, Bool, String, Option, none, some, ◌==◌}

pub data BinOp : Type 0 where
  add sub mul div rem exp and or xor l_and l_or eq ne strict_eq strict_ne lt gt le ge shl shr zf_shr
        comma assign :
      BinOp

pub data Symbol : Type 0 where
  opening_paren closing_paren opening_brace closing_brace opening_box_bracket closing_box_bracket
        comma semicolon colon point arrow inc dec add sub asterisk div rem exp lnot bitwise_not shl
        shr zf_shr lt le gt ge eq strict_eq ne strict_ne and or xor l_and l_or question assign
        assign_add assign_sub assign_mul assign_div assign_mod assign_shl assign_shr assign_and
        assign_or assign_xor assign_l_and assign_l_or hash spread fat_arrow :
      Symbol

-- The position of a symbol in the `enum`, by which the derived `==` compares.
pub discriminant : Symbol → ℕ
discriminant opening_paren = 0
discriminant closing_paren = 1
discriminant opening_brace = 2
discriminant closing_brace = 3
discriminant opening_box_bracket = 4
discriminant closing_box_bracket = 5
discriminant comma = 6
discriminant semicolon = 7
discriminant colon = 8
discriminant point = 9
discriminant arrow = 10
discriminant inc = 11
discriminant dec = 12
discriminant add = 13
discriminant sub = 14
discriminant asterisk = 15
discriminant div = 16
discriminant rem = 17
discriminant exp = 18
discriminant lnot = 19
discriminant bitwise_not = 20
discriminant shl = 21
discriminant shr = 22
discriminant zf_shr = 23
discriminant lt = 24
discriminant le = 25
discriminant gt = 26
discriminant ge = 27
discriminant eq = 28
discriminant strict_eq = 29
discriminant ne = 30
discriminant strict_ne = 31
discriminant and = 32
discriminant or = 33
discriminant xor = 34
discriminant l_and = 35
discriminant l_or = 36
discriminant question = 37
discriminant assign = 38
discriminant assign_add = 39
discriminant assign_sub = 40
discriminant assign_mul = 41
discriminant assign_div = 42
discriminant assign_mod = 43
discriminant assign_shl = 44
discriminant assign_shr = 45
discriminant assign_and = 46
discriminant assign_or = 47
discriminant assign_xor = 48
discriminant assign_l_and = 49
discriminant assign_l_or = 50
discriminant hash = 51
discriminant spread = 52
discriminant fat_arrow = 53

unfoldable pub symbol_eq : Symbol → Symbol → Bool
unfolding discriminant
symbol_eq a b = discriminant a == discriminant b

unfoldable pub as_binop : Symbol → Option BinOp
as_binop add = some BinOp.add
as_binop sub = some BinOp.sub
as_binop asterisk = some BinOp.mul
as_binop div = some BinOp.div
as_binop rem = some BinOp.rem
as_binop and = some BinOp.and
as_binop or = some BinOp.or
as_binop xor = some BinOp.xor
as_binop l_and = some BinOp.l_and
as_binop l_or = some BinOp.l_or
as_binop eq = some BinOp.eq
as_binop ne = some BinOp.ne
as_binop strict_eq = some BinOp.strict_eq
as_binop strict_ne = some BinOp.strict_ne
as_binop lt = some BinOp.lt
as_binop gt = some BinOp.gt
as_binop le = some BinOp.le
as_binop ge = some BinOp.ge
as_binop shl = some BinOp.shl
as_binop shr = some BinOp.shr
as_binop zf_shr = some BinOp.zf_shr
as_binop comma = some BinOp.comma
as_binop assign = some BinOp.assign
as_binop _ = none

unfoldable pub get_string_for_symbol : Symbol → String
get_string_for_symbol opening_paren = "("
get_string_for_symbol closing_paren = ")"
get_string_for_symbol opening_brace = "{"
get_string_for_symbol closing_brace = "}"
get_string_for_symbol opening_box_bracket = "["
get_string_for_symbol closing_box_bracket = "]"
get_string_for_symbol comma = ","
get_string_for_symbol semicolon = ";"
get_string_for_symbol colon = ":"
get_string_for_symbol point = "."
get_string_for_symbol arrow = "=>"
get_string_for_symbol inc = "++"
get_string_for_symbol dec = "--"
get_string_for_symbol add = "+"
get_string_for_symbol sub = "-"
get_string_for_symbol asterisk = "*"
get_string_for_symbol _ = "???"
