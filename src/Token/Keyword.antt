-- ===== src/Token/Keyword.antt =====
-- src/token.rs: keywords, with the tables that print and read them.
use rapidus.Prelude.{ℕ, Bool, String, List, [], ◌∷◌, Option, ◌==◌, get}

pub data Keyword : Type 0 where
  abstract arguments break case_kw catch const continue debugger default delete do_kw else_kw
        finally for function if_kw in_kw instanceof let_kw new return switch this throw try typeof
        var void while with :
      Keyword

-- The position of a keyword in the `enum`, by which the derived `==` compares.
pub discriminant : Keyword → ℕ
discriminant abstract = 0
discriminant arguments = 1
discriminant break = 2
discriminant case_kw = 3
discriminant catch = 4
discriminant const = 5
discriminant continue = 6
discriminant debugger = 7
discriminant default = 8
discriminant delete = 9
discriminant do_kw = 10
discriminant else_kw = 11
discriminant finally = 12
discriminant for = 13
discriminant function = 14
discriminant if_kw = 15
discriminant in_kw = 16
discriminant instanceof = 17
discriminant let_kw = 18
discriminant new = 19
discriminant return = 20
discriminant switch = 21
discriminant this = 22
discriminant throw = 23
discriminant try = 24
discriminant typeof = 25
discriminant var = 26
discriminant void = 27
discriminant while = 28
discriminant with = 29

unfoldable pub keyword_eq : Keyword → Keyword → Bool
unfolding discriminant
keyword_eq a b = discriminant a == discriminant b

unfoldable pub to_str : Keyword → String
to_str abstract = "abstract"
to_str arguments = "arguments"
to_str break = "break"
to_str case_kw = "case"
to_str catch = "catch"
to_str continue = "continue"
to_str const = "const"
to_str debugger = "debugger"
to_str default = "default"
to_str delete = "delete"
to_str do_kw = "do"
to_str else_kw = "else"
to_str finally = "finally"
to_str for = "for"
to_str function = "function"
to_str if_kw = "if"
to_str in_kw = "in"
to_str instanceof = "instanceof"
to_str let_kw = "let"
to_str new = "new"
to_str return = "return"
to_str switch = "switch"
to_str this = "this"
to_str throw = "throw"
to_str try = "try"
to_str typeof = "typeof"
to_str var = "var"
to_str void = "void"
to_str while = "while"
to_str with = "with"

-- The arms of the match in `convert_reserved_keyword`, in its order.
unfoldable pub reserved : List (String × Keyword)
reserved =
    ("abstract", abstract)
    ∷ ("arguments", arguments)
    ∷ ("break", break)
    ∷ ("case", case_kw)
    ∷ ("catch", catch)
    ∷ ("continue", continue)
    ∷ ("const", const)
    ∷ ("debugger", debugger)
    ∷ ("default", default)
    ∷ ("delete", delete)
    ∷ ("do", do_kw)
    ∷ ("else", else_kw)
    ∷ ("finally", finally)
    ∷ ("for", for)
    ∷ ("function", function)
    ∷ ("if", if_kw)
    ∷ ("in", in_kw)
    ∷ ("instanceof", instanceof)
    ∷ ("let", let_kw)
    ∷ ("new", new)
    ∷ ("return", return)
    ∷ ("switch", switch)
    ∷ ("this", this)
    ∷ ("throw", throw)
    ∷ ("try", try)
    ∷ ("typeof", typeof)
    ∷ ("var", var)
    ∷ ("void", void)
    ∷ ("while", while)
    ∷ ("with", with)
    ∷ []

-- The first arm that has the text.
unfoldable pub convert_reserved_keyword : String → Option Keyword
unfolding reserved
convert_reserved_keyword word = get word reserved
