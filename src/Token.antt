-- ===== src/Token.antt =====
-- src/token.rs: tokens.
pub mod Keyword
pub mod Symbol
pub mod Words
mod Tests
use rapidus.Prelude.{ℕ, Bool, true, false, String, str_eq}
use rapidus.JsValue.F64.{F64, f64_eq}

pub data Kind : Type 0 where
  keyword : Keyword.Keyword → Kind
  identifier : String → Kind
  number : F64 → Kind
  string : String → Kind
  symbol : Symbol.Symbol → Kind
  line_terminator : Kind
  eof : Kind

pub record Token : Type 0 where
  pub kind : Kind
  pub pos : ℕ
  pub prev_pos : ℕ

-- The derived `==`.
unfoldable pub kind_eq : Kind → Kind → Bool
unfolding Keyword.keyword_eq Symbol.symbol_eq
kind_eq (keyword a) (keyword b) = Keyword.keyword_eq a b
kind_eq (identifier a) (identifier b) = str_eq a b
kind_eq (number a) (number b) = f64_eq a b
kind_eq (string a) (string b) = str_eq a b
kind_eq (symbol a) (symbol b) = Symbol.symbol_eq a b
kind_eq line_terminator line_terminator = true
kind_eq eof eof = true
kind_eq _ _ = false

unfoldable pub is_the_keyword : Token → Keyword.Keyword → Bool
unfolding kind_eq
is_the_keyword t k = kind_eq t.kind (keyword k)

unfoldable pub is_the_symbol : Token → Symbol.Symbol → Bool
unfolding kind_eq
is_the_symbol t s = kind_eq t.kind (symbol s)

is_identifier_kind : Kind → Bool
is_identifier_kind (identifier _) = true
is_identifier_kind _ = false

unfoldable pub is_identifier : Token → Bool
unfolding is_identifier_kind
is_identifier t = is_identifier_kind t.kind

module _ (pos : ℕ) where
  unfoldable pub new_number : F64 → Token
  new_number f = record { kind = number f; pos = pos; prev_pos = 0 }

  unfoldable pub new_identifier : String → Token
  new_identifier ident = record { kind = identifier ident; pos = pos; prev_pos = 0 }

  unfoldable pub new_keyword : Keyword.Keyword → Token
  new_keyword k = record { kind = keyword k; pos = pos; prev_pos = 0 }

  unfoldable pub new_string : String → Token
  new_string s = record { kind = string s; pos = pos; prev_pos = 0 }

  unfoldable pub new_symbol : Symbol.Symbol → Token
  new_symbol s = record { kind = symbol s; pos = pos; prev_pos = 0 }

  unfoldable pub new_line_terminator : Token
  new_line_terminator = record { kind = line_terminator; pos = pos; prev_pos = 0 }
