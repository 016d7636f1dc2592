-- ===== src/JsValue/Registry/Tests.antt =====
-- A registry with one symbol, and the theorem at it.
use rapidus.Prelude.{◌≡◌, refl, [], ◌∷◌, some}
use rapidus.JsValue.Value.{object, undefined, value_eq}
use rapidus.JsValue.Registry.{GlobalSymbolRegistry, for_key, key_for, find_symbol}
use rapidus.JsValue.Registry.Keys.{IsRegistry, key_for-for_key}

abbrev one_symbol : GlobalSymbolRegistry
one_symbol = record { list = ("a", object 1) ∷ [] }

key_for-for_key_example :
    (key_for (for_key "b" (object 2) one_symbol).0 (for_key "b" (object 2) one_symbol).1 ≡ some "b")
    × IsRegistry (for_key "b" (object 2) one_symbol).1
    × (for_key "b" undefined (for_key "b" (object 2) one_symbol).1
        ≡ for_key "b" (object 2) one_symbol)
unfolding find_symbol key_for value_eq
key_for-for_key_example = key_for-for_key one_symbol "b" 2 undefined ((1, refl), refl, tt) refl
