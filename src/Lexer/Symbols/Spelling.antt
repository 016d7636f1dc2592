-- ===== src/Lexer/Symbols/Spelling.antt =====
-- The texts of the symbols, and how `read_symbol` of src/lexer.rs reads them.
use Prim.Native.Char.{Char, code}
use rapidus.Prelude.{ℕ, ◌+◌, ◌≡◌, ◌≢◌, List, [], ◌∷◌, ◌++◌, length, arith, ◌⊎◌, inl, inr}
use rapidus.Token.{new_symbol}
use rapidus.Token.Symbol.{Symbol}
use rapidus.Lexer.{Lexer, ok}
use rapidus.Lexer.Symbols.{read_symbol}

-- The text of each symbol.
unfoldable pub spelling : Symbol → List Char
spelling Symbol.opening_paren = "(" ∷ []
spelling Symbol.closing_paren = ")" ∷ []
spelling Symbol.opening_brace = "{" ∷ []
spelling Symbol.closing_brace = "}" ∷ []
spelling Symbol.opening_box_bracket = "[" ∷ []
spelling Symbol.closing_box_bracket = "]" ∷ []
spelling Symbol.comma = "," ∷ []
spelling Symbol.semicolon = ";" ∷ []
spelling Symbol.colon = ":" ∷ []
spelling Symbol.point = "." ∷ []
spelling Symbol.arrow = "-" ∷ ">" ∷ []
spelling Symbol.inc = "+" ∷ "+" ∷ []
spelling Symbol.dec = "-" ∷ "-" ∷ []
spelling Symbol.add = "+" ∷ []
spelling Symbol.sub = "-" ∷ []
spelling Symbol.asterisk = "*" ∷ []
spelling Symbol.div = "/" ∷ []
spelling Symbol.rem = "%" ∷ []
spelling Symbol.exp = "*" ∷ "*" ∷ []
spelling Symbol.lnot = "!" ∷ []
spelling Symbol.bitwise_not = "~" ∷ []
spelling Symbol.shl = "<" ∷ "<" ∷ []
spelling Symbol.shr = ">" ∷ ">" ∷ []
spelling Symbol.zf_shr = ">" ∷ ">" ∷ ">" ∷ []
spelling Symbol.lt = "<" ∷ []
spelling Symbol.le = "<" ∷ "=" ∷ []
spelling Symbol.gt = ">" ∷ []
spelling Symbol.ge = ">" ∷ "=" ∷ []
spelling Symbol.eq = "=" ∷ "=" ∷ []
spelling Symbol.strict_eq = "=" ∷ "=" ∷ "=" ∷ []
spelling Symbol.ne = "!" ∷ "=" ∷ []
spelling Symbol.strict_ne = "!" ∷ "=" ∷ "=" ∷ []
spelling Symbol.and = "&" ∷ []
spelling Symbol.or = "|" ∷ []
spelling Symbol.xor = "^" ∷ []
spelling Symbol.l_and = "&" ∷ "&" ∷ []
spelling Symbol.l_or = "|" ∷ "|" ∷ []
spelling Symbol.question = "?" ∷ []
spelling Symbol.assign = "=" ∷ []
spelling Symbol.assign_add = "+" ∷ "=" ∷ []
spelling Symbol.assign_sub = "-" ∷ "=" ∷ []
spelling Symbol.assign_mul = "*" ∷ "=" ∷ []
spelling Symbol.assign_div = "/" ∷ "=" ∷ []
spelling Symbol.assign_mod = "%" ∷ "=" ∷ []
spelling Symbol.assign_shl = "<" ∷ "<" ∷ "=" ∷ []
spelling Symbol.assign_shr = ">" ∷ ">" ∷ "=" ∷ []
spelling Symbol.assign_and = "&" ∷ "=" ∷ []
spelling Symbol.assign_or = "|" ∷ "=" ∷ []
spelling Symbol.assign_xor = "^" ∷ "=" ∷ []
spelling Symbol.assign_l_and = "&" ∷ "&" ∷ "=" ∷ []
spelling Symbol.assign_l_or = "|" ∷ "|" ∷ "=" ∷ []
spelling Symbol.hash = "#" ∷ []
spelling Symbol.spread = "." ∷ "." ∷ "." ∷ []
spelling Symbol.fat_arrow = "=" ∷ ">" ∷ []

-- The character is none with which a symbol could go on.
abbrev pub EndsSymbol : Char → Type 0
EndsSymbol d =
    (code d ≢ b'=')
    × (code d ≢ b'>')
    × (code d ≢ b'<')
    × (code d ≢ b'+')
    × (code d ≢ b'-')
    × (code d ≢ b'*')
    × (code d ≢ b'&')
    × (code d ≢ b'|')
    × (code d ≢ b'.')

abbrev pub behind : Lexer → ℕ → List Char → Lexer
behind l n cs = record l { code = cs; pos = l.pos + n }

-- The text of a symbol, before a character with which no symbol goes on, is read as that symbol, at
-- the position where it begins, and exactly the text is used up.
pub read_symbol-spelling :
    (s : Symbol) (l : Lexer) (d : Char) (ds : List Char)
    → EndsSymbol d
    → l.code ≡ spelling s ++ d ∷ ds
    → read_symbol l ≡ (ok (new_symbol l.pos s), behind l (length (spelling s)) (d ∷ ds))
unfolding read_symbol spelling
read_symbol-spelling Symbol.add l d ds ends e = ground arith
read_symbol-spelling _ l d ds ends e = ground arith

-- The text of a plus sign and a minus sign side by side is read as `Hash`, and both are used up.
pub read_symbol-mixed_signs :
    (l : Lexer) (c d : Char) (rest : List Char)
    → ((c ≡ "+") × (d ≡ "-")) ⊎ ((c ≡ "-") × (d ≡ "+"))
    → l.code ≡ c ∷ d ∷ rest
    → read_symbol l ≡ (ok (new_symbol l.pos Symbol.hash), behind l 2 rest)
unfolding read_symbol
read_symbol-mixed_signs l c d rest (inl (p, q)) e =
    let e' : l.code ≡ "+" ∷ "-" ∷ rest = cc (p, q, e) in ground (arith, e')
read_symbol-mixed_signs l c d rest (inr (p, q)) e =
    let e' : l.code ≡ "-" ∷ "+" ∷ rest = cc (p, q, e) in ground (arith, e')
