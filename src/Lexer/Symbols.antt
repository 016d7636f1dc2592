-- ===== src/Lexer/Symbols.antt =====
-- `read_symbol` of src/lexer.rs.
pub mod Spelling
use Prim.Native.Char.{Char, code}
use rapidus.Prelude.{
  ℕ, ◌+◌, Bool, true, false, ◌&&◌, ◌||◌, List, [], ◌∷◌, Option, none, some, if◌then◌else◌, ◌==◌,
}
use rapidus.Token.{Token, new_symbol}
use rapidus.Token.Symbol.{Symbol, symbol_eq}
use rapidus.Lexer.{Lexer, Result, ok, err, normal_eof, general}
use rapidus.Lexer.Chars.{peek_char, take_char, take_char_if}

-- A symbol with the lexer behind it.
abbrev Read : Type 0
Read = Result Symbol × Lexer

-- `if self.take_char_if(c)? { .. } else { .. }`.
if_taken : Bool × Lexer → (Lexer → Read) → (Lexer → Read) → Read
if_taken (true, l) taken left = taken l
if_taken (false, l) taken left = left l

one : Symbol → Lexer → Read
one s l = (ok s, l)

-- `symbol` starts as `Hash`, and the arms of `'+' | '-'` leave it so where the signs differ.
signed : ℕ → ℕ → Symbol
signed c d =
    if d == b'='
    then (if c == b'+' then Symbol.assign_add else Symbol.assign_sub)
    else if d == b'>'
    then (if c == b'-' then Symbol.arrow else Symbol.hash)
    else if d == b'+'
    then (if c == b'+' then Symbol.inc else Symbol.hash)
    else (if c == b'-' then Symbol.dec else Symbol.hash)

plus_minus : ℕ → Lexer → Read
unfolding peek_char take_char signed one
plus_minus c l = elim (peek_char l) [
  | err e ↦ (err e, l)
  | ok d ↦
      if code d == b'=' || code d == b'>' || code d == b'+' || code d == b'-'
      then (ok (signed c (code d)), (take_char l).1)
      else one (if c == b'+' then Symbol.add else Symbol.sub) l
]

doubled : ℕ → Lexer → Bool × (Symbol × Lexer)
unfolding take_char_if
doubled c l =
    let (twice, l') = take_char_if c l in
    let (thrice, l'') = take_char_if b'>' l' in
    if twice
    then (if c == b'<'
        then (true, (Symbol.shl, l'))
        else if c == b'>'
        then (true, (if thrice then Symbol.zf_shr else Symbol.shr, l''))
        else if c == b'&'
        then (true, (Symbol.l_and, l'))
        else (true, (Symbol.l_or, l')))
    else (false, (Symbol.hash, l'))

-- The match on `(c, symbol)`.
assigned : ℕ → Symbol → Symbol
unfolding symbol_eq
assigned c s =
    if c == b'<'
    then (if symbol_eq s Symbol.shl then Symbol.assign_shl else Symbol.le)
    else if c == b'>'
    then (if symbol_eq s Symbol.shr then Symbol.assign_shr else Symbol.ge)
    else if c == b'&'
    then (if symbol_eq s Symbol.l_and then Symbol.assign_l_and else Symbol.assign_and)
    else (if symbol_eq s Symbol.l_or then Symbol.assign_l_or else Symbol.assign_or)

single : ℕ → Symbol
single c =
    if c == b'<'
    then Symbol.lt
    else if c == b'>'
    then Symbol.gt
    else if c == b'&'
    then Symbol.and
    else Symbol.or

angle : ℕ → Lexer → Read
unfolding doubled take_char_if assigned single if_taken
angle c l =
    let (twice, (s, l')) = doubled c l in
    if_taken (take_char_if b'=' l') (λ k. (ok (assigned c s), k))
      (λ k. (ok (if twice then s else single c), k))

points : ℕ → Lexer → Read
unfolding take_char_if if_taken one
points pos l =
    if_taken (take_char_if b'.' l)
      (λ k.
        if_taken (take_char_if b'.' k) (one Symbol.spread)
          (λ k. (err (general pos "Invalid token"), k)))
      (one Symbol.point)

-- The arms that read one character.
alone : ℕ → Symbol
alone c =
    if c == b'('
    then Symbol.opening_paren
    else if c == b')'
    then Symbol.closing_paren
    else if c == b'['
    then Symbol.opening_box_bracket
    else if c == b']'
    then Symbol.closing_box_bracket
    else if c == b'{'
    then Symbol.opening_brace
    else if c == b'}'
    then Symbol.closing_brace
    else if c == b','
    then Symbol.comma
    else if c == b';'
    then Symbol.semicolon
    else if c == b':'
    then Symbol.colon
    else if c == b'~'
    then Symbol.bitwise_not
    else if c == b'?'
    then Symbol.question
    else Symbol.hash

-- The match on the first character `c`; `pos` is where it stands.
symbol_from : ℕ → ℕ → Lexer → Read
unfolding plus_minus take_char_if if_taken angle points alone one
symbol_from pos c l =
    if c == b'+' || c == b'-'
    then plus_minus c l
    else if c == b'*'
    then if_taken (take_char_if b'=' l) (one Symbol.assign_mul)
        (λ k. if_taken (take_char_if b'*' k) (one Symbol.exp) (one Symbol.asterisk))
    else if c == b'/'
    then if_taken (take_char_if b'=' l) (one Symbol.assign_div) (one Symbol.div)
    else if c == b'%'
    then if_taken (take_char_if b'=' l) (one Symbol.assign_mod) (one Symbol.rem)
    else if c == b'='
    then if_taken (take_char_if b'>' l) (one Symbol.fat_arrow) (λ k.
      if_taken (take_char_if b'=' k)
        (λ k. if_taken (take_char_if b'=' k) (one Symbol.strict_eq) (one Symbol.eq))
        (one Symbol.assign))
    else if c == b'^'
    then if_taken (take_char_if b'=' l) (one Symbol.assign_xor) (one Symbol.xor)
    else if c == b'!'
    then if_taken (take_char_if b'=' l)
        (λ k. if_taken (take_char_if b'=' k) (one Symbol.strict_ne) (one Symbol.ne))
        (one Symbol.lnot)
    else if c == b'<' || c == b'>' || c == b'&' || c == b'|'
    then angle c l
    else if c == b'.'
    then points pos l
    else one (alone c) l

token_of : ℕ → Read → Result Token × Lexer
unfolding new_symbol
token_of pos (ok s, l) = (ok (new_symbol pos s), l)
token_of pos (err e, l) = (err e, l)

unfoldable pub read_symbol : Lexer → Result Token × Lexer
unfolding take_char symbol_from token_of
read_symbol l =
    let (r, l') = take_char l in
    elim r [ err e ↦ (err e, l') | ok c ↦ token_of l.pos (symbol_from l.pos (code c) l') ]
