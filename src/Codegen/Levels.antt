-- ===== src/Codegen/Levels.antt =====
-- `Level`, `ToSourcePos` and `FunctionInfo` of src/vm/codegen.rs: what the generator knows about the
-- function that it compiles. The vector of levels is a list with the last level first.
use rapidus.Prelude.{
  ℕ, ◌+◌, ◌==◌, if◌then◌else◌, Bool, true, false, String, str_eq, List, [], ◌∷◌, ◌++◌, Option, none,
  some,
}
use rapidus.JsValue.Function.{Exception}

pub data Level : Type 0 where
  function finally : Level
  block : List String → Level
  try_or_catch : List ℕ → Level
  loop : List ℕ → List ℕ → Level

abbrev pub new_block_level : Level
new_block_level = block []

abbrev pub new_try_or_catch_level : Level
new_try_or_catch_level = try_or_catch []

unfoldable pub as_block : Level → Option (List String)
as_block (block names) = some names
as_block _ = none

unfoldable pub as_loop : Level → Option (List ℕ × List ℕ)
as_loop (loop breaks continues) = some (breaks, continues)
as_loop _ = none

unfoldable pub as_try_or_catch : Level → Option (List ℕ)
as_try_or_catch (try_or_catch positions) = some positions
as_try_or_catch _ = none

-- A position in the bytecode and the position in the script that it comes from.
pub record ToSourcePos : Type 0 where
  pub table : List (ℕ × ℕ)
  pub module_func_id : ℕ

abbrev pub new_source_pos : ℕ → ToSourcePos
new_source_pos id = record { table = []; module_func_id = id }

unfoldable pub append : ℕ → ℕ → ToSourcePos → ToSourcePos
append bp np t = record t { table = t.table ++ (bp, np) ∷ [] }

unfoldable pub find_pos : ℕ → List (ℕ × ℕ) → Option ℕ
find_pos offset [] = none
find_pos offset ((bp, np) ∷ rest) = if bp == offset then some np else find_pos offset rest

unfoldable pub get_node_pos : ToSourcePos → ℕ → Option ℕ
unfolding find_pos
get_node_pos t offset = find_pos offset t.table

pub record FunctionInfo : Type 0 where
  pub name : Option String
  pub param_names : List String
  pub var_names : List String
  pub lex_names : List String
  pub func_decls : List ℕ
  pub level : List Level
  pub exception_table : List Exception
  pub to_source_pos : ToSourcePos
  pub module_func_id : ℕ

abbrev pub new : Option String → ℕ → FunctionInfo
new name id = record {
  name = name;
  param_names = [];
  var_names = [];
  lex_names = [];
  func_decls = [];
  level = function ∷ [];
  exception_table = [];
  to_source_pos = new_source_pos id;
  module_func_id = id;
}

unfoldable pub any_try_or_catch : List Level → Bool
any_try_or_catch [] = false
any_try_or_catch (try_or_catch positions ∷ rest) = true
any_try_or_catch (_ ∷ rest) = any_try_or_catch rest

unfoldable pub in_try_or_catch : FunctionInfo → Bool
unfolding any_try_or_catch
in_try_or_catch info = any_try_or_catch info.level

unfoldable pub any_finally : List Level → Bool
any_finally [] = false
any_finally (finally ∷ rest) = true
any_finally (_ ∷ rest) = any_finally rest

unfoldable pub in_finally : FunctionInfo → Bool
unfolding any_finally
in_finally info = any_finally info.level

-- `get_last_loop().as_loop_mut().0.push(p)`; `unwrap` panics outside of a loop.
unfoldable pub push_break : ℕ → List Level → Option (List Level)
push_break p [] = none
push_break p (loop breaks continues ∷ rest) = some (loop (breaks ++ p ∷ []) continues ∷ rest)
push_break p (l ∷ rest) = elim (push_break p rest) [ none ↦ none | some ls ↦ some (l ∷ ls) ]

-- `get_last_loop().as_loop_mut().1.push(p)`.
unfoldable pub push_continue : ℕ → List Level → Option (List Level)
push_continue p [] = none
push_continue p (loop breaks continues ∷ rest) = some (loop breaks (continues ++ p ∷ []) ∷ rest)
push_continue p (l ∷ rest) = elim (push_continue p rest) [ none ↦ none | some ls ↦ some (l ∷ ls) ]

-- `find_last_try_or_catch().map(|l| l.as_try_or_catch_mut().push(p))`.
unfoldable pub push_try_or_catch : ℕ → List Level → Option (List Level)
push_try_or_catch p [] = none
push_try_or_catch p (try_or_catch positions ∷ rest) =
    some (try_or_catch (positions ++ p ∷ []) ∷ rest)
push_try_or_catch p (l ∷ rest) = elim (push_try_or_catch p rest) [
  | none ↦ none
  | some ls ↦ some (l ∷ ls)
]

-- `get_last_block`: the names of the innermost block, if there is one.
unfoldable pub get_last_block : List Level → Option (List String)
get_last_block [] = none
get_last_block (block names ∷ rest) = some names
get_last_block (_ ∷ rest) = get_last_block rest

-- `block.as_block_mut()` with one more name.
unfoldable pub push_block : String → List Level → List Level
push_block name [] = []
push_block name (block names ∷ rest) = block (names ++ name ∷ []) ∷ rest
push_block name (l ∷ rest) = l ∷ push_block name rest

unfoldable pub declares : String → List String → Bool
declares name [] = false
declares name (declared ∷ rest) = if str_eq declared name then true else declares name rest

-- How many blocks the walks `unwind_loop`, `unwind_try_or_catch` and `unwind_finally` leave.
unfoldable pub blocks_to_loop : List Level → ℕ
blocks_to_loop [] = 0
blocks_to_loop (loop _ _ ∷ rest) = 0
blocks_to_loop (block _ ∷ rest) = blocks_to_loop rest + 1
blocks_to_loop (_ ∷ rest) = blocks_to_loop rest

unfoldable pub blocks_to_try_or_catch : List Level → ℕ
blocks_to_try_or_catch [] = 0
blocks_to_try_or_catch (try_or_catch _ ∷ rest) = 0
blocks_to_try_or_catch (block _ ∷ rest) = blocks_to_try_or_catch rest + 1
blocks_to_try_or_catch (_ ∷ rest) = blocks_to_try_or_catch rest

unfoldable pub blocks_to_finally : List Level → ℕ
blocks_to_finally [] = 0
blocks_to_finally (finally ∷ rest) = 0
blocks_to_finally (block _ ∷ rest) = blocks_to_finally rest + 1
blocks_to_finally (_ ∷ rest) = blocks_to_finally rest
