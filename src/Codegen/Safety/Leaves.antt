-- ===== src/Codegen/Safety/Leaves.antt =====
-- The leaves of the tree and the literals of objects, in src/vm/codegen.rs.
use rapidus.Prelude.{
  ℕ, ◌≡◌, refl, Bool, true, false, String, List, Option, none, some, Bool-cases, inl, inr, subst,
}
use rapidus.Prelude.Int.{ℤ}
use rapidus.JsValue.F64.{F64, int_value}
use rapidus.JsValue.Value.{number}
use rapidus.Constant.{ConstantTable, SpecialProperties, add_object_literal_info}
use rapidus.Constant.Laws.{add-get_of_get}
use rapidus.Factory.{Host}
use rapidus.Bytecode.Words.{ByteCode}
use rapidus.Bytecode.Gen
use rapidus.Codegen.State.{
  Result, ok, err, panic, ◌>>=◌, CodeGenerator, Visitor, emit, emit_const, push_string, >>=-ok,
}
use rapidus.Codegen.Functions.{close_object}
use rapidus.Codegen.Visit.{visit_spread, leaf, visit_string, named, visit_identifier}
use rapidus.Codegen.Safety.{
  Frame, has_loop, Ends, returns, raises, IsSafe, Keeps-refl, Extends-refl, Extends-trans, Extends,
  KeepsEnvs, Ends-from, not-Ends-panic,
}
use rapidus.Codegen.Safety.Steps.{
  Moves, Appends, AddsConst, append-Extends, byte_step, with_int32-Appends, emit-Moves,
  emit_const-Moves, append_push_const-AddsConst, append_get_value-AddsConst, save_source_pos-Moves,
  visit-bind,
}
use rapidus.Codegen.Safety.Operators.{IsText, returned, pop_unless-Moves, push_string-bind}

pub append_push_number-AddsConst : (n : F64) → AddsConst (Gen.append_push_number n)
unfolding Gen.append_push_number
append_push_number-AddsConst n t c = integer (int_value n)
  where
    integer :
        (o : Option ℤ) → Extends c (Gen.push_as n o t c).1 × KeepsEnvs t (Gen.push_as n o t c).0
    integer none = append_push_const-AddsConst (number n) t c
    integer (some i) = elim (Bool-cases (Gen.fits_int8 i)) [
      | inl small ↦
          rw (small, Gen.push_as)
            (Extends-trans (append-Extends c _) (append-Extends _ _), λ id h. h)
      | inr large ↦ elim (Bool-cases (Gen.fits_int32 i)) [
        | inl word ↦ rw (large, word, Gen.push_as) (with_int32-Appends _ i c, λ id h. h)
        | inr other ↦ rw (large, other, Gen.push_as) (append_push_const-AddsConst (number n) t c)
      ]
    ]

module _ {host : Host} {in_loop : Bool} where
  -- `self.node_pos = node.pos`.
  pub at_node :
      {v : Visitor} (p : ℕ)
      → IsSafe host in_loop v
      → IsSafe host in_loop (λ u g. v u (record g { node_pos = p }))
  at_node p safe frames inside u g r =
      Ends-from
        (record { code = Extends-refl g.iseq; envs = λ id h. h; outer = refl; module_id = refl })
        (safe frames inside u (record g { node_pos = p })
          (record { levels = r.levels; host_kept = r.host_kept; room = r.room }))

  pub leaf-IsSafe : {f : ByteCode → ByteCode} → Appends f → IsSafe host in_loop (leaf (emit f))
  leaf-IsSafe a frames inside true g r = returned (emit-Moves a (r, Keeps-refl g))
  leaf-IsSafe a frames inside false g r = returned (r, Keeps-refl g)

  pub const-IsSafe :
      (f : ConstantTable → ByteCode → ConstantTable × ByteCode)
      → AddsConst f
      → IsSafe host in_loop (leaf (emit_const f))
  const-IsSafe f a frames inside true g r = returned (emit_const-Moves f a (r, Keeps-refl g))
  const-IsSafe f a frames inside false g r = returned (r, Keeps-refl g)

  pub visit_identifier-IsSafe : (name : String) → IsSafe host in_loop (visit_identifier name)
  unfolding visit_identifier
  visit_identifier-IsSafe name frames inside u g r = returned (
      pop_unless-Moves u (
        emit_const-Moves _ (append_get_value-AddsConst name)
          (save_source_pos-Moves (r, Keeps-refl g))))

  pub visit_spread-IsSafe :
      {v : Visitor} → IsSafe host in_loop v → IsSafe host in_loop (visit_spread v)
  unfolding visit_spread Gen.append_spread_array Gen.append_pop
  visit_spread-IsSafe safe frames inside true g r =
      visit-bind true safe inside (r, Keeps-refl g)
        (λ g₁ m₁ longer. returned (emit-Moves (byte_step _) m₁))
  visit_spread-IsSafe safe frames inside false g r =
      visit-bind true safe inside (r, Keeps-refl g)
        (λ g₁ m₁ longer. returned (emit-Moves (byte_step _) m₁))

module _ {host : Host} {frames : List Frame} {base : CodeGenerator} where
  pub push_string-Ends :
      (s : String) (g : CodeGenerator)
      → IsText host s
      → Moves host frames base g
      → Ends host frames base (push_string s g)
  push_string-Ends s g text m =
      subst (Ends host frames base) (>>=-ok (push_string s g))
        (push_string-bind {next = ok} s g text m (λ g' m'. returned m'))

module _ {host : Host} {in_loop : Bool} where
  pub visit_string-IsSafe : (s : String) → IsText host s → IsSafe host in_loop (visit_string s)
  unfolding visit_string
  visit_string-IsSafe s text frames inside true g r = push_string-Ends s g text (r, Keeps-refl g)
  visit_string-IsSafe s text frames inside false g r = returned (r, Keeps-refl g)

  pub named-Ends :
      {frames : List Frame} {base : CodeGenerator} {val : Visitor} (name : String)
      (g : CodeGenerator)
      → IsSafe host in_loop val
      → IsText host name
      → (in_loop ≡ true → has_loop frames ≡ true)
      → Moves host frames base g
      → Ends host frames base (named val name g)
  unfolding named
  named-Ends name g safe text inside m =
      visit-bind true safe inside m (λ g₁ m₁ longer. push_string-Ends name g₁ text m₁)

-- The literal of an object also counts its special properties.
abbrev pub IsSafeLiteral :
    Host → Bool → (CodeGenerator → Result (SpecialProperties × CodeGenerator)) → Type 0
IsSafeLiteral host in_loop f =
    (frames : List Frame)
    → (in_loop ≡ true → has_loop frames ≡ true)
    → (base g : CodeGenerator) → Moves host frames base g
    → Ends host frames base (f g >>= λ q. ok q.1)

abbrev pub paired :
    SpecialProperties
    → (CodeGenerator → CodeGenerator)
    → CodeGenerator
    → Result (SpecialProperties × CodeGenerator)
paired special f g = ok (special, f g)

module _ {host : Host} {frames : List Frame} {base : CodeGenerator} where
  pub literal-after :
      (special : SpecialProperties) (f : CodeGenerator → CodeGenerator)
      → ((g : CodeGenerator) → Moves host frames base g → Moves host frames base (f g))
      → (r : Result CodeGenerator) → Ends host frames base r
      → Ends host frames base ((r >>= paired special f) >>= λ q. ok q.1)
  literal-after special f step _ (returns r k) = returned (step _ (r, k))
  literal-after special f step _ raises = raises

  module _ (k : SpecialProperties × CodeGenerator → Result CodeGenerator) where
    pub literal-bind :
        (r : Result (SpecialProperties × CodeGenerator))
        → Ends host frames base (r >>= λ q. ok q.1)
        → ((special : SpecialProperties) (g : CodeGenerator)
            → Moves host frames base g
            → Ends host frames base (k (special, g)))
        → Ends host frames base (r >>= k)
    literal-bind (ok (special, g)) (returns r kept) next = next special g (r, kept)
    literal-bind (err e) ends next = raises
    literal-bind panic ends next = absurd (not-Ends-panic ends)

  pub literal-chain :
      (k : SpecialProperties × CodeGenerator → Result (SpecialProperties × CodeGenerator))
      (r : Result (SpecialProperties × CodeGenerator))
      → Ends host frames base (r >>= λ q. ok q.1)
      → ((special : SpecialProperties) (g : CodeGenerator)
          → Moves host frames base g
          → Ends host frames base (k (special, g) >>= λ q. ok q.1))
      → Ends host frames base ((r >>= k) >>= λ q. ok q.1)
  literal-chain k (ok (special, g)) (returns r kept) next = next special g (r, kept)
  literal-chain k (err e) ends next = raises
  literal-chain k panic ends next = absurd (not-Ends-panic ends)

  pub close_object-Moves :
      (special : SpecialProperties) (g : CodeGenerator)
      → Moves host frames base g
      → Moves host frames base (close_object (special, g))
  unfolding close_object Gen.append_create_object
  close_object-Moves special g m =
      let added : Moves host frames base
          (record g { constant_table = (add_object_literal_info special g.constant_table).1 }) =
        (
          record { levels = m.0.levels; host_kept = m.0.host_kept; room = m.0.room },
          record {
            code = m.1.code;
            envs = λ id h.
                let (names, e) = m.1.envs id h in
                (names, (add-get_of_get g.constant_table id _ e).2 special);
            outer = m.1.outer;
            module_id = m.1.module_id;
          },
        ) in
      emit-Moves (with_int32-Appends _ _) added
