-- ===== src/Filtering/Adding.antt =====
-- What `addFilterValue` does to the filters, and that the query can be built afterwards.
use neural_vyuha_prime.Common.{
  ℕ, zero, suc, String, true, false, not, ◌||◌, Option, none, some, List, [], ◌∷◌, ◌++◌, ◌==◌, ◌≡◌,
  refl, arith, ok, filter, length, ◌+◌, Number, Bool-cases, >>=-steps, eq_refl, Option-cases, ◌∙◌,
  ◌≤◌, ◌≢◌, inl, inr,
}
use Prim.Native.Nat.{max}
use neural_vyuha_prime.Query.{Scalar, Filter, FieldDef, Value}
use neural_vyuha_prime.Query.Builder.{Engine}
use neural_vyuha_prime.Query.Throwing.{throws}
use neural_vyuha_prime.Filtering.{Filtering, erase_idx, contents, change, fields_of}
use neural_vyuha_prime.Filtering.Values.{
  has_field, find_index, put_filter, filter_value, add_filter_value,
}

abbrev pub count_field : String → List Filter → ℕ
count_field k xs = length (filter (has_field k) xs)

abbrev pub others : String → List Filter → List Filter
others k xs = filter (λ f. not (has_field k f)) xs

contents-change :
    (f : List Filter → List Filter) (s t : Filtering) (xs : List Filter)
    → contents s ≡ some xs
    → change f s ≡ ok t
    → contents t ≡ some (f xs)
unfolding change
contents-change f s t xs h r = ground arith

module _ (k : String) where
  erased :
      (xs : List Filter) (i : ℕ)
      → find_index k xs ≡ some i
      → (others k (erase_idx i xs) ≡ others k xs)
        × (count_field k (erase_idx i xs) + 1 ≡ count_field k xs)
  unfolding find_index
  erased [] i h = ground arith
  erased (f ∷ fs) zero h = elim (Bool-cases (has_field k f)) [
    | inl here ↦ rw here (refl, omega arith)
    | inr away ↦ go (find_index k fs) (rw away at h)
  ]
    where
      go :
          (r : Option ℕ)
          → elim r [ none ↦ none | some j ↦ some (suc j) ] ≡ some zero
          → (others k fs ≡ others k (f ∷ fs)) × (count_field k fs + 1 ≡ count_field k (f ∷ fs))
      go none e = cc
      go (some j) e = absurd (ground arith)
  erased (f ∷ fs) (suc i) h = elim (Bool-cases (has_field k f)) [
    | inl here ↦ absurd (ground arith)
    | inr away ↦ ground (arith, erased fs i)
  ]

  not_found : (xs : List Filter) → find_index k xs ≡ none → count_field k xs ≡ 0
  unfolding find_index
  not_found [] h = refl
  not_found (f ∷ fs) h = ground (arith, not_found fs)

  push :
      (f : Filter) (ys : List Filter)
      → has_field k f ≡ true
      → (others k (ys ++ f ∷ []) ≡ others k ys)
        × (count_field k (ys ++ f ∷ []) ≡ count_field k ys + 1)
  push f [] same = ground arith
  push f (y ∷ ys) same = ground (arith, push f ys same)

  -- The new filter comes last; the filters of other fields stay, in their order; and the filters of
  -- its own field are as many as before, but at least one.
  pub put_filter_lem :
      (f : Filter) (xs : List Filter)
      → has_field k f ≡ true
      → ((ys : List Filter) × (put_filter k f xs ≡ ys ++ f ∷ []))
        × (others k (put_filter k f xs) ≡ others k xs)
        × (count_field k (put_filter k f xs) ≡ max 1 (count_field k xs))
  unfolding put_filter
  put_filter_lem f xs same = elim (Option-cases (find_index k xs)) [
    | inl missing ↦
        let (rest, number) = push f xs same in
        rw (missing, put_filter) ((xs, refl), rest, omega (arith, not_found xs missing))
    | inr (i, found) ↦
        let (rest, number) = push f (erase_idx i xs) same in
        let (rest', number') = erased xs i found in
        rw (found, put_filter) ((erase_idx i xs, refl), rest ∙ rest', omega arith)
  ]

  -- A value added to a field of the metadata, where that does not throw, leaves one filter of that
  -- field, if there was at most one, and leaves the filters of all other fields as they were, in
  -- their order.
  pub add_filter_value_lem :
      (e : Engine) (moment : Scalar → Number) (v : Scalar) (s t : Filtering) (xs : List Filter)
      (d : FieldDef)
      → fields_of s k ≡ some d
      → contents s ≡ some xs
      → count_field k xs ≤ 1
      → add_filter_value e moment k v s ≡ ok t
      → (ys : List Filter) × (contents t ≡ some ys)
        × (others k ys ≡ others k xs)
        × (count_field k ys ≡ 1)
  unfolding add_filter_value
  add_filter_value_lem e moment v s t xs d known shown few h =
      let (w, _, changed) =
        >>=-steps (filter_value e moment d v) _ (rw (known, add_filter_value) at h) in
      let f : Filter = record { field = some k; type = some d.type; value = w } in
      let (_, rest, number) = put_filter_lem f xs (eq_refl k) in
      (put_filter k f xs, contents-change (put_filter k f) s t xs shown changed, rest, omega arith)

-- The attribute has what the switch of `addFilterValue` and the builders read of it, and one of the
-- types that the switch knows.
abbrev pub IsKnown : FieldDef → Type 0
IsKnown d =
    (d.values ≢ none)
    × ((d.type == "date"
          || d.type == "tags"
          || d.type == "string"
          || d.type == "number"
          || d.type == "enumeration"
          || d.type == "boolean"
          || d.type == "integer"
          || d.type == "float")
        ≡ true)

-- Where the metadata has values for the attribute, and its type is one that the switch of
-- `addFilterValue` gives a value to, the filter that it makes does not make the query throw.
pub filter_value-not-throws :
    (e : Engine) (moment : Scalar → Number) (d : FieldDef) (k : String) (v : Scalar) (w : Value)
    → IsKnown d
    → filter_value e moment d v ≡ ok w
    → throws (some d) (record { field = some k; type = some d.type; value = w }) ≡ false
unfolding filter_value
filter_value-not-throws e moment d k v w known h = ground arith
