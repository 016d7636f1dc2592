-- ===== src/Lexer.antt =====
-- src/lexer.rs: the lexer. The parser reads the tokens from a buffer (here and in Lexer/Buffer); the
-- script behind the buffer is read character by character (Lexer/Chars, Lexer/Symbols).
pub mod Buffer
pub mod Skipping
pub mod Chars
pub mod Symbols
pub mod Words
pub mod Comments
mod Tests
use Prim.Native.Char.{Char}
use rapidus.Prelude.{
  ℕ, zero, suc, ◌+◌, ◌-◌, Bool, true, false, String, List, [], ◌∷◌, Option, none, some,
  if◌then◌else◌, ltb, length, get_elem?, drop,
}
use rapidus.Token.{Token, Kind, kind_eq, line_terminator}

-- `Error` of src/parser.rs.
pub data Error : Type 0 where
  normal_eof : Error
  unexpected_eof : String → Error
  unexpected_token : ℕ → String → Error
  unsupported_feature : ℕ → Error
  expect : ℕ → String → Error
  invalid_token : ℕ → Error
  general : ℕ → String → Error

pub data Result {ℓ} (A : Type ℓ) : Type ℓ where
  ok : A → Result A
  err : Error → Result A

-- `code` is the script from the byte `pos` on, `self.code[self.pos..]`, as its characters.
pub record Lexer : Type 0 where
  pub code : List Char
  pub pos : ℕ
  pub line : ℕ
  pub buf : List Token
  pub pos_line_list : List (ℕ × ℕ)
  pub token_pos : ℕ
  pub prev_token_pos : ℕ
  pub states : List ℕ

abbrev pub new : List Char → Lexer
new code = record {
  code = code;
  pos = 0;
  line = 1;
  buf = [];
  pos_line_list = (0, 1) ∷ [];
  token_pos = 0;
  prev_token_pos = 0;
  states = [];
}

unfoldable pub is_line_terminator : Token → Bool
unfolding kind_eq
is_line_terminator tok = kind_eq tok.kind line_terminator

unfoldable pub read_token : Lexer → Result Token × Lexer
read_token l = elim (get_elem? l.buf l.token_pos) [
  | some tok ↦ (ok tok, record l { token_pos = l.token_pos + 1 })
  | none ↦ (err normal_eof, l)
]

-- The assignment with which `next` and `next_skip_lineterminator` begin.
abbrev pub marked : Lexer → Lexer
marked l = record l { prev_token_pos = l.token_pos }

unfoldable pub next : Lexer → Result Token × Lexer
unfolding read_token
next l = read_token (marked l)

-- The loop of `next_skip_lineterminator`; a round takes one of the tokens that are left, so one more
-- round than there are tokens is never used up.
unfoldable pub read_loop : ℕ → Lexer → Result Token × Lexer
unfolding read_token is_line_terminator
read_loop zero l = (err normal_eof, l)
read_loop (suc fuel) l =
    let (r, l') = read_token l in
    let rest = read_loop fuel l' in
    elim r [ err e ↦ (err e, l') | ok tok ↦ if is_line_terminator tok then rest else (ok tok, l') ]

unfoldable pub next_skip_lineterminator : Lexer → Result Token × Lexer
unfolding read_loop
next_skip_lineterminator l = read_loop (length l.buf - l.token_pos + 1) (marked l)

-- `for i in self.token_pos..len`: the first token that is no line terminator, with its index.
unfoldable pub scan : ℕ → List Token → Option (ℕ × Token)
unfolding is_line_terminator
scan i [] = none
scan i (tok ∷ toks) = if is_line_terminator tok then scan (i + 1) toks else some (i, tok)

unfoldable pub skip_lineterminator : Lexer → Result {0} Unit × Lexer
unfolding scan
skip_lineterminator l = elim (scan l.token_pos (drop l.token_pos l.buf)) [
  | some (i, tok) ↦ (ok tt, record l { token_pos = i })
  | none ↦ (err normal_eof, l)
]

unfoldable pub peek_skip_lineterminator : Lexer → Result Token
unfolding scan
peek_skip_lineterminator l = elim (scan l.token_pos (drop l.token_pos l.buf)) [
  | some (i, tok) ↦ ok tok
  | none ↦ err normal_eof
]

unfoldable pub peek : Lexer → ℕ → Result Token
peek l index = elim (get_elem? l.buf (l.token_pos + index)) [
  | some tok ↦ ok tok
  | none ↦ err normal_eof
]

-- At the first token the index underflows, a panic: `none`.
unfoldable pub peek_prev : Lexer → Option Token
peek_prev l = elim l.token_pos [ zero ↦ none | suc i ↦ get_elem? l.buf i ]

unfoldable pub get_current_pos : Lexer → ℕ
get_current_pos l = elim (get_elem? l.buf l.token_pos) [ some tok ↦ tok.pos | none ↦ l.pos ]

-- `self.pos - 1` panics at 0.
unfoldable pub get_prev_pos : Lexer → Option ℕ
get_prev_pos l = elim (get_elem? l.buf l.token_pos) [
  | some tok ↦ some tok.prev_pos
  | none ↦ elim l.pos [ zero ↦ none | suc p ↦ some p ]
]

unfoldable pub next_if : Kind → Lexer → Bool × Lexer
unfolding peek read_token kind_eq
next_if kind l = elim (peek l 0) [
  | ok tok ↦ if kind_eq tok.kind kind then (true, (read_token l).1) else (false, l)
  | err _ ↦ (false, l)
]

unfoldable pub next_if_skip_lineterminator : Kind → Lexer → Result Bool × Lexer
unfolding peek_skip_lineterminator next_skip_lineterminator kind_eq
next_if_skip_lineterminator kind l = elim (peek_skip_lineterminator l) [
  | ok tok ↦
      let (r, l') = next_skip_lineterminator l in
      if kind_eq tok.kind kind
      then elim r [ ok _ ↦ (ok true, l') | err e ↦ (err e, l') ]
      else (ok false, l)
  | err e ↦ (err e, l)
]

unfoldable pub unget : Lexer → Lexer
unget l = record l { token_pos = l.prev_token_pos }

unfoldable pub is_empty : Lexer → Bool
is_empty l = elim (ltb l.token_pos (length l.buf)) [ true ↦ false | false ↦ true ]
