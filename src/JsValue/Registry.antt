-- ===== src/JsValue/Registry.antt =====
-- src/vm/jsvalue/symbol.rs: the registry of the symbols that `Symbol.for` makes. The symbol that the
-- factory allocates when the key is new is an argument, and `key_for` returns the text that the
-- source then allocates; `undefined` is `none`.
pub mod Keys
mod Tests
use rapidus.Prelude.{
  Bool, true, false, String, str_eq, List, [], ◌∷◌, ◌++◌, Option, none, some, if◌then◌else◌,
}
use rapidus.JsValue.Value.{Value, value_eq}

pub record GlobalSymbolRegistry : Type 0 where
  pub list : List (String × Value)

abbrev pub new : GlobalSymbolRegistry
new = record { list = [] }

-- `iter().find`, by the key and by the symbol.
unfoldable pub find_key : String → List (String × Value) → Option Value
find_key key [] = none
find_key key ((key', sym) ∷ rest) = if str_eq key key' then some sym else find_key key rest

unfoldable pub find_symbol : Value → List (String × Value) → Option String
unfolding value_eq
find_symbol sym [] = none
find_symbol sym ((key, sym') ∷ rest) = if value_eq sym sym' then some key else find_symbol sym rest

unfoldable pub for_key : String → Value → GlobalSymbolRegistry → Value × GlobalSymbolRegistry
unfolding find_key
for_key key fresh r = elim (find_key key r.list) [
  | some sym ↦ (sym, r)
  | none ↦ (fresh, record { list = r.list ++ (key, fresh) ∷ [] })
]

unfoldable pub key_for : Value → GlobalSymbolRegistry → Option String
unfolding find_symbol
key_for sym r = find_symbol sym r.list
