-- ===== src/Token/Tests.antt =====
-- Instances of the theorems on tokens.
use rapidus.Prelude.{◌≡◌, ◌↔◌, some}
use rapidus.Token.Keyword.{convert_reserved_keyword, to_str, while}
use rapidus.Token.Words.{convert_reserved_keyword_iff}

convert_reserved_keyword_iff_example :
    (convert_reserved_keyword "while" ≡ some while) ↔ ("while" ≡ to_str while)
convert_reserved_keyword_iff_example = convert_reserved_keyword_iff "while" while
