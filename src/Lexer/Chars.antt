-- ===== src/Lexer/Chars.antt =====
-- src/lexer.rs: the script character by character, white space, comments and line ends. A panic is
-- `none`; an `assert_eq!` of a character that was just peeked compares it with itself and is left out.
use Prim.Native.Char.{Char, code, len_utf8}
use rapidus.Prelude.{
  ℕ, ◌+◌, Bool, true, false, not, ◌&&◌, ◌||◌, List, [], ◌∷◌, ◌++◌, Option, none, some,
  if◌then◌else◌, ◌==◌,
}
use rapidus.Token.{Token, new_line_terminator}
use rapidus.Lexer.{Lexer, Result, ok, err, normal_eof}

unfoldable pub peek_char : Lexer → Result Char
peek_char l = elim l.code [ [] ↦ err normal_eof | c ∷ cs ↦ ok c ]

abbrev pub is_eof : List Char → Bool
is_eof [] = true
is_eof (c ∷ cs) = false

unfoldable pub eof : Lexer → Bool
eof l = is_eof l.code

abbrev pub advance : Lexer → Char → List Char → Lexer
advance l c cs = record l { code = cs; pos = l.pos + len_utf8 c }

unfoldable pub take_char : Lexer → Result Char × Lexer
take_char l = elim l.code [ [] ↦ (err normal_eof, l) | c ∷ cs ↦ (ok c, advance l c cs) ]

-- The test for the end comes first, so there is no error to return.
unfoldable pub take_char_if : ℕ → Lexer → Bool × Lexer
take_char_if c l = elim l.code [
  | [] ↦ (false, l)
  | d ∷ cs ↦ if code d == c then (true, advance l d cs) else (false, l)
]

-- The loops of `take_char_while` and `skip_char_while`. The test is a closure with state `S`; the
-- result is the characters taken, the rest with its position, and the state.
pub record Taken (S : Type 0) : Type 0 where
  pub taken : List Char
  pub rest : List Char
  pub pos : ℕ
  pub state : S

unfoldable pub while_loop : {S : Type 0} → (S → Char → Bool × S) → S → List Char → ℕ → Taken S
while_loop f s [] pos = record { taken = []; rest = []; pos = pos; state = s }
while_loop f s (c ∷ cs) pos =
    let later = while_loop f (f s c).1 cs (pos + len_utf8 c) in
    if (f s c).0
    then record later { taken = c ∷ later.taken }
    else record { taken = []; rest = c ∷ cs; pos = pos; state = (f s c).1 }

abbrev pub stateless : (Char → Bool) → Unit {0} → Char → Bool × Unit {0}
stateless f s c = (f c, s)

abbrev pub moved : {S : Type 0} → Lexer → Taken S → Lexer
moved l t = record l { code = t.rest; pos = t.pos }

unfoldable pub take_char_while : (Char → Bool) → Lexer → List Char × Lexer
unfolding while_loop
take_char_while f l = let t = while_loop (stateless f) tt l.code l.pos in (t.taken, moved l t)

unfoldable pub skip_char_while : {S : Type 0} → (S → Char → Bool × S) → S → Lexer → S × Lexer
unfolding while_loop
skip_char_while f s l = let t = while_loop f s l.code l.pos in (t.state, moved l t)

unfoldable pub skip_whitespace : Lexer → Lexer
unfolding take_char_while
skip_whitespace l = (take_char_while (λ c. code c == b' ' || code c == b'\t') l).1

unfoldable pub skip_line_comment : Lexer → Lexer
unfolding skip_char_while
skip_line_comment l = (skip_char_while (stateless (λ c. not (code c == b'\n'))) tt l).1

-- The closure of `skip_normal_comment`: the last character and the line.
unfoldable pub in_comment : ℕ × ℕ → Char → Bool × (ℕ × ℕ)
in_comment (last, line) c =
    (not (last == b'*' && code c == b'/'), (code c, if code c == b'\n' then line + 1 else line))

unfoldable pub skip_normal_comment : Lexer → Option (Result {0} Unit × Lexer)
unfolding skip_char_while in_comment take_char
skip_normal_comment l =
    let ((last, line), l') = skip_char_while in_comment (b' ', l.line) l in
    let list = if l.line == line then l.pos_line_list else l.pos_line_list ++ (l'.pos, line) ∷ [] in
    let (r, l'') = take_char (record l' { pos_line_list = list; line = line }) in
    elim r [ err e ↦ some (err e, l'') | ok c ↦ if code c == b'/' then some (ok tt, l'') else none ]

unfoldable pub read_line_terminator : Lexer → Option (Result Token × Lexer)
unfolding take_char new_line_terminator
read_line_terminator l =
    let (r, l') = take_char l in
    elim r [
      | err e ↦ some (err e, l')
      | ok c ↦
          if code c == b'\n'
          then some (
            ok (new_line_terminator l.pos),
            record l' {
              line = l'.line + 1;
              pos_line_list = l'.pos_line_list ++ (l'.pos, l'.line + 1) ∷ [];
            },
          )
          else none
    ]
