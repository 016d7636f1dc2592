-- ===== src/Id.antt =====
-- src/id.rs: the generator of ids, a stack of counters. A panic on an empty stack is `none`.
pub mod Scopes
mod Tests
use rapidus.Prelude.{ℕ, suc, ◌+◌, List, [], ◌∷◌, Option, none, some}

-- `IdGen.id`, the last counter first.
pub record IdGen : Type 0 where
  pub id : List ℕ

abbrev pub new : IdGen
new = record { id = 0 ∷ [] }

abbrev counters : List ℕ → IdGen
counters l = record { id = l }

bump : List ℕ → Option (ℕ × IdGen)
bump [] = none
bump (n ∷ rest) = some (n, counters ((n + 1) ∷ rest))

unfoldable pub gen_id : IdGen → Option (ℕ × IdGen)
unfolding bump
gen_id g = bump g.id

current : List ℕ → Option ℕ
current [] = none
current (n ∷ rest) = some n

unfoldable pub get_cur_id : IdGen → Option ℕ
unfolding current
get_cur_id g = current g.id

unfoldable pub save : IdGen → IdGen
save g = record { id = 0 ∷ g.id }

drop_last : List ℕ → List ℕ
drop_last [] = []
drop_last (n ∷ rest) = rest

-- `Vec::pop` on an empty vector does nothing.
unfoldable pub restore : IdGen → IdGen
unfolding drop_last
restore g = record { id = drop_last g.id }

-- `get_unique_id` on the thread's generator.
unfoldable pub get_unique_id : IdGen → Option (ℕ × IdGen)
unfolding gen_id
get_unique_id g = elim (gen_id g) [ none ↦ none | some (n, g') ↦ some (n + 1, g') ]
