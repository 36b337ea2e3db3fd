-- ===== src/Filtering/Values.antt =====
-- `addFilterValue` of FilteringSrv.js, for a single value. (For a list of values it makes one item
-- for each where the attribute is a number or an enumeration.)
use neural_vyuha_prime.Common.{
  ℕ, suc, String, Bool, ◌||◌, Option, none, some, List, [], ◌∷◌, ◌++◌, ◌==◌, if◌then◌else◌, Result,
  ok, type_error, ◌>>=◌, Number,
}
use neural_vyuha_prime.Query.{
  Scalar, Item, Filter, FieldDef, Value, undefined, scalar, object, missing, date, is_text,
  is_truthy_scalar, scalar_eq,
}
use neural_vyuha_prime.Query.Builder.{Engine}
use neural_vyuha_prime.Filtering.{Filtering, fields_of, change, erase_idx}

-- `labels[values.indexOf(item)]`, `none` where that is `undefined`.
unfoldable pub label_at : List Scalar → List Scalar → Scalar → Option Scalar
label_at [] labels item = none
label_at (v ∷ vs) [] item = none
label_at (v ∷ vs) (l ∷ ls) item =
    let rest = label_at vs ls item in if scalar_eq v item then some l else rest

abbrev pub label_or : Option Scalar → Scalar → Scalar
label_or none item = item
label_or (some l) item = if is_truthy_scalar l then l else item

-- The item for a value of a number or an enumeration: both arrays are read without a test.
unfoldable pub labelled_item : FieldDef → Scalar → Result Item
unfolding label_at
labelled_item d v = elim d.labels [
  | none ↦ type_error
  | some ls ↦ elim d.values [
    | none ↦ type_error
    | some vs ↦ ok (record { text = v; label = label_or (label_at vs ls v) v })
  ]
]

abbrev pub listing : Item → Value
listing i =
    object
      (record { operator = none; value = none; list = some (i ∷ []); from = missing; to = missing })

-- The range of the day of a value; `moment` is `moment(value)`.
unfoldable pub day_of : Engine → (Scalar → Number) → Scalar → Value
day_of e moment v = object (record {
  operator = none;
  value = none;
  list = none;
  from = date (e.first_second (moment v));
  to = date (e.last_second (moment v));
})

abbrev pub exactly : Scalar → Value
exactly v =
    object
      (record { operator = some "="; value = some v; list = none; from = missing; to = missing })

-- The `switch (type)`: the value of the new filter.
unfoldable pub filter_value : Engine → (Scalar → Number) → FieldDef → Scalar → Result Value
unfolding labelled_item day_of
filter_value e moment d v =
    if d.type == "date"
    then ok (day_of e moment v)
    else if d.type == "tags" || d.type == "string"
    then ok (listing (record { text = v; label = v }))
    else if d.type == "number" || d.type == "enumeration"
    then (labelled_item d v >>= λ i. ok (listing i))
    else if d.type == "boolean"
    then ok (scalar v)
    else if d.type == "integer" || d.type == "float"
    then ok (exactly v)
    else ok undefined

-- `_.findIndex`, by the field.
abbrev pub has_field : String → Filter → Bool
has_field k f = is_text f.field k

unfoldable pub find_index : String → List Filter → Option ℕ
find_index k [] = none
find_index k (f ∷ fs) =
    let rest = find_index k fs in
    if has_field k f then some 0 else elim rest [ none ↦ none | some i ↦ some (suc i) ]

-- The first filter of the field makes room for the new one, which comes last.
unfoldable pub put_filter : String → Filter → List Filter → List Filter
unfolding find_index
put_filter k f xs = elim (find_index k xs) [
  | none ↦ xs ++ f ∷ []
  | some i ↦ erase_idx i xs ++ f ∷ []
]

unfoldable pub add_filter_value :
    Engine → (Scalar → Number) → String → Scalar → Filtering → Result Filtering
unfolding filter_value put_filter change
add_filter_value e moment k v s = elim (fields_of s k) [
  | none ↦ ok s
  | some d ↦ filter_value e moment d v >>= λ w.
      change (put_filter k (record { field = some k; type = some d.type; value = w })) s
]
