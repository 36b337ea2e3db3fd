-- ===== src/Query/Throwing.antt =====
-- Which filters make QueryBuilderSrv.js throw.
use neural_vyuha_prime.Common.{
  any-append_cons, Bool, true, false, not, ◌&&◌, ◌||◌, Option, none, some, List, [], ◌∷◌, ◌++◌, ◌≡◌,
  refl, ◌↔◌, arith, if◌then◌else◌, length, any, Result, ok, type_error, ◌>>=◌, eqb,
}
use neural_vyuha_prime.Query.{
  Value, undefined, null, scalar, object, Filter, FieldDef, Fields, Query, key_of, is_text,
}
use neural_vyuha_prime.Query.Builder.{Engine, build_query_from_date_filter}
use neural_vyuha_prime.Query.Dispatch.{
  criteria, all_of, build_filters_query, build_query_from_filter, build_by_value, is_free_text,
  has_list,
}

abbrev pub is_nullish : Value → Bool
is_nullish undefined = true
is_nullish null = true
is_nullish (scalar s) = false
is_nullish (object o) = false

abbrev pub has_items : Value → Bool
has_items (object o) = elim o.list [ none ↦ false | some items ↦ true ]
has_items _ = false

-- The attribute is not in the metadata, or has no array of values there.
abbrev pub lacks_values : Option FieldDef → Bool
lacks_values none = true
lacks_values (some d) = elim d.values [ none ↦ true | some vs ↦ false ]

-- The attribute has an empty array of values.
abbrev pub has_no_values : Option FieldDef → Bool
has_no_values none = false
has_no_values (some d) = elim d.values [ none ↦ false | some vs ↦ eqb (length vs) 0 ]

-- The filters whose value and metadata are read without a test.
abbrev pub throws : Option FieldDef → Filter → Bool
throws d f =
    if is_text f.type "date"
    then is_nullish f.value
    else if is_text f.type "boolean"
        || is_text f.field "tags"
        || is_text f.type "user"
        || is_text f.type "enumeration"
    then false
    else if is_text f.type "string"
    then lacks_values d
      || not (has_no_values d) && (is_nullish f.value || not (has_items f.value) && lacks_values d)
    else is_nullish f.value || not (has_items f.value) && lacks_values d

abbrev pub is_error {ℓ} : {A : Type ℓ} → Result A → Bool
is_error (ok a) = false
is_error type_error = true

is_error-date :
    (e : Engine) (f : Filter) → is_error (build_query_from_date_filter e f) ≡ is_nullish f.value
unfolding build_query_from_date_filter
is_error-date e f = ground arith

has_list-is_error :
    (d : Option FieldDef) (v : Value)
    → is_error (has_list d v) ≡ (is_nullish v || not (has_items v) && lacks_values d)
unfolding has_list
has_list-is_error d v = ground arith

is_error-free_text :
    (d : Option FieldDef) (f : Filter)
    → is_error (is_free_text d f) ≡ (is_text f.type "string" && lacks_values d)
unfolding is_free_text
is_error-free_text d f = ground arith

free_text-eq :
    (d : Option FieldDef) (f : Filter) (b : Bool)
    → is_free_text d f ≡ ok b
    → b ≡ (is_text f.type "string" && has_no_values d)
unfolding is_free_text
free_text-eq d f b h = ground arith

is_error-by_value :
    (e : Engine) (d : Option FieldDef) (f : Filter)
    → is_error (build_by_value e d f) ≡ (
        is_text f.type "string" && lacks_values d
        || not (is_text f.type "string" && has_no_values d)
          && (is_nullish f.value || not (has_items f.value) && lacks_values d))
unfolding build_by_value
is_error-by_value e d f =
    ground (arith, has_list-is_error d f.value, is_error-free_text d f, free_text-eq d f)

is_error-filter :
    (e : Engine) (d : Option FieldDef) (f : Filter)
    → is_error (build_query_from_filter e d f) ≡ throws d f
unfolding build_query_from_filter
is_error-filter e d f = ground (arith, is_error-date e f, is_error-by_value e d f)

pub is_error-build_filters_query :
    (e : Engine) (fields : Fields) (filters : List Filter)
    → is_error (build_filters_query e fields filters)
      ≡ any (λ f. throws (fields (key_of f.field)) f) filters
unfolding build_filters_query criteria
is_error-build_filters_query e fields [] = refl
is_error-build_filters_query e fields (f ∷ fs) =
    go (build_query_from_filter e d f) (criteria e fields fs) (throws d f) (is_error-filter e d f)
      (is_error-build_filters_query e fields fs)
  where
    d : Option FieldDef
    d = fields (key_of f.field)

    later : Bool
    later = any (λ g. throws (fields (key_of g.field)) g) fs

    go :
        (c : Result (Option Query)) (rest : Result (List Query)) (b : Bool)
        → is_error c ≡ b
        → is_error (rest >>= λ qs. ok (all_of qs)) ≡ later
        → is_error (
            (c >>= λ o. rest >>= λ qs. elim o [ none ↦ ok qs | some q ↦ ok (q ∷ qs) ]) >>= λ qs.
            ok (all_of qs))
          ≡ (b || later)
    go type_error rest b p q = cc
    go (ok none) (ok qs) b p q = ground arith
    go (ok (some x)) (ok qs) b p q = ground arith
    go (ok none) type_error b p q = ground arith
    go (ok (some x)) type_error b p q = ground arith

-- Building the query throws exactly if one of the filters reads its value or its metadata where
-- they are missing; one that does leaves the whole list without a query.
pub build_filters_query-throws_iff :
    (e : Engine) (fields : Fields) (filters : List Filter)
    → (build_filters_query e fields filters ≡ type_error)
      ↔ (any (λ f. throws (fields (key_of f.field)) f) filters ≡ true)
build_filters_query-throws_iff e fields filters =
    ground (arith, is_error-build_filters_query e fields filters)

-- What `addFilter()` adds.
abbrev pub fresh_filter : Filter
fresh_filter = record { field = none; type = none; value = undefined }

-- With a filter that was added and not yet given a field, no query can be built, whatever the other
-- filters and the metadata are.
pub build_filters_query-fresh_filter :
    (e : Engine) (fields : Fields) (before after : List Filter)
    → build_filters_query e fields (before ++ fresh_filter ∷ after) ≡ type_error
build_filters_query-fresh_filter e fields before after =
    (build_filters_query-throws_iff e fields _).1
      (any-append_cons (λ f. throws (fields (key_of f.field)) f) before after fresh_filter refl)
