-- ===== src/AlertPage/FilterBy/Criterion.antt =====
-- The filter that FilteringSrv.js makes for a value, and the criterion that QueryBuilderSrv.js makes of
-- it.
use neural_vyuha_prime.Common.{
  String, Bool, true, ◌&&◌, ◌||◌, none, some, List, length, ◌==◌, eqb, if◌then◌else◌, ok, ◌≡◌,
  eq_iff, Number, Bool-cases, inl, inr,
}
use neural_vyuha_prime.Query.{Scalar, Value, scalar, Filter, FieldDef, Query, field_is, like}
use neural_vyuha_prime.Query.Builder.{
  Engine, build_listed, combine, join, build_query_from_list_filter, build_query_from_tags_filter,
  build_query_from_free_text_filter,
}
use neural_vyuha_prime.Query.Dispatch.{
  build_query_from_filter, build_by_value, is_free_text, values_length,
}
use neural_vyuha_prime.Filtering.Values.{filter_value, listing, label_or, label_at}

-- The criterion for a value of an attribute, from its type and what is known of its values.
abbrev pub is_unlisted : FieldDef → Bool
is_unlisted d = d.type == "string" && (elim d.values [ none ↦ true | some vs ↦ eqb (length vs) 0 ])

abbrev pub wanted_criterion : FieldDef → String → Scalar → Query
wanted_criterion d field v =
    if d.type == "boolean"
    then field_is (some field) (scalar v)
    else if field == "tags" || is_unlisted d
    then like (some field) v
    else field_is (some field) (scalar v)

-- The attribute has its values and labels, and one of the types whose values are listed.
abbrev pub IsListed : FieldDef → Type 0
IsListed d =
    ((vs : List Scalar) × (d.values ≡ some vs))
    × ((ls : List Scalar) × (d.labels ≡ some ls))
    × ((d.type == "boolean"
          || d.type == "enumeration"
          || d.type == "number"
          || d.type == "string"
          || d.type == "tags")
        ≡ true)

abbrev pub filter_for : String → FieldDef → Value → Filter
filter_for field d w = record { field = some field; type = some d.type; value = w }

module _ (e : Engine) (moment : Scalar → Number) (field : String) (d : FieldDef) (v : Scalar) where
  abbrev pub Made : Type 0
  Made =
      (w : Value) × (filter_value e moment d v ≡ ok w)
      × (build_query_from_filter e (some d)
            (record { field = some field; type = some d.type; value = w })
          ≡ ok (some (wanted_criterion d field v)))

  made_boolean : d.type ≡ "boolean" → Made
  unfolding filter_value build_query_from_filter
  made_boolean t = (scalar v, rw t, rw t)

  made_enumeration :
      (vs ls : List Scalar)
      → d.values ≡ some vs
      → d.labels ≡ some ls
      → d.type ≡ "enumeration"
      → Made
  unfolding filter_value build_query_from_filter build_query_from_tags_filter
      build_query_from_list_filter build_listed combine join
  made_enumeration vs ls values labels t = elim (Bool-cases (field == "tags")) [
    | inl tags ↦ (
      listing (record { text = v; label = label_or (label_at vs ls v) v }),
      rw (t, labels, values),
      rw (t, tags),
    )
    | inr other ↦ (
      listing (record { text = v; label = label_or (label_at vs ls v) v }),
      rw (t, labels, values),
      rw (t, other),
    )
  ]

  made_number :
      (vs ls : List Scalar) → d.values ≡ some vs → d.labels ≡ some ls → d.type ≡ "number" → Made
  unfolding filter_value build_query_from_filter build_query_from_tags_filter
      build_query_from_list_filter build_listed combine join build_by_value
  made_number vs ls values labels t = elim (Bool-cases (field == "tags")) [
    | inl tags ↦ (
      listing (record { text = v; label = label_or (label_at vs ls v) v }),
      rw (t, labels, values),
      rw (t, tags),
    )
    | inr other ↦ (
      listing (record { text = v; label = label_or (label_at vs ls v) v }),
      rw (t, labels, values),
      rw (t, other),
    )
  ]

  made_tags : d.type ≡ "tags" → Made
  unfolding filter_value build_query_from_filter build_query_from_tags_filter
      build_query_from_list_filter build_listed combine join build_by_value
  made_tags t = elim (Bool-cases (field == "tags")) [
    | inl tags ↦ (listing (record { text = v; label = v }), rw t, rw (t, tags))
    | inr other ↦ (listing (record { text = v; label = v }), rw t, rw (t, other))
  ]

  made_string : (vs : List Scalar) → d.values ≡ some vs → d.type ≡ "string" → Made
  unfolding filter_value build_query_from_filter build_query_from_tags_filter
      build_query_from_list_filter build_query_from_free_text_filter build_listed combine join
      build_by_value is_free_text values_length
  made_string vs values t = elim (Bool-cases (field == "tags")) [
    | inl tags ↦ (listing (record { text = v; label = v }), rw t, rw (t, tags))
    | inr other ↦ elim (Bool-cases (eqb (length vs) 0)) [
      | inl free ↦ (listing (record { text = v; label = v }), rw t, rw (t, other, values, free))
      | inr listed ↦ (listing (record { text = v; label = v }), rw t, rw (t, other, values, listed))
    ]
  ]

  pub made : IsListed d → Made
  made ((vs, values), (ls, labels), type) = elim (Bool-cases (d.type == "boolean")) [
    | inl b ↦ made_boolean ((eq_iff d.type "boolean").0 b)
    | inr nb ↦ elim (Bool-cases (d.type == "enumeration")) [
      | inl t ↦ made_enumeration vs ls values labels ((eq_iff d.type "enumeration").0 t)
      | inr ne ↦ elim (Bool-cases (d.type == "number")) [
        | inl t ↦ made_number vs ls values labels ((eq_iff d.type "number").0 t)
        | inr nn ↦ elim (Bool-cases (d.type == "string")) [
          | inl t ↦ made_string vs values ((eq_iff d.type "string").0 t)
          | inr ns ↦ made_tags ((eq_iff d.type "tags").0 (rw (nb, ne, nn, ns) at type))
        ]
      ]
    ]
  ]
