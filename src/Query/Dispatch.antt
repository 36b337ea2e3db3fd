-- ===== src/Query/Dispatch.antt =====
-- Which builder a filter goes to, and the query of all filters, of QueryBuilderSrv.js.
use neural_vyuha_prime.Common.{
  ℕ, String, Bool, true, false, Option, none, some, List, [], ◌∷◌, eqb, ltb, ◌||◌, if◌then◌else◌,
  length, Result, ok, type_error, ◌>>=◌,
}
use neural_vyuha_prime.Query.{
  Value, undefined, null, scalar, object, Filter, FieldDef, Fields, Query, everything, string_query,
  conjunction, of_list, key_of, is_text,
}
use Prim.Native.String
use neural_vyuha_prime.Query.Builder.{
  Engine, build_query_from_boolean_filter, build_query_from_date_filter,
  build_query_from_free_text_filter, build_query_from_list_filter, build_query_from_number_filter,
  build_query_from_tags_filter,
}

-- `fieldDef.values.length`
unfoldable pub values_length : Option FieldDef → Result ℕ
values_length none = type_error
values_length (some d) = elim d.values [ none ↦ type_error | some vs ↦ ok (length vs) ]

-- `filter.value.list || fieldDef.values.length > 0`
unfoldable pub has_list : Option FieldDef → Value → Result Bool
unfolding values_length
has_list d undefined = type_error
has_list d null = type_error
has_list d (scalar s) = values_length d >>= λ n. ok (ltb 0 n)
has_list d (object o) = elim o.list [
  | none ↦ values_length d >>= λ n. ok (ltb 0 n)
  | some items ↦ ok true
]

-- `filter.type === 'string' && fieldDef.values.length === 0`
unfoldable pub is_free_text : Option FieldDef → Filter → Result Bool
unfolding values_length
is_free_text d f =
    if is_text f.type "string" then (values_length d >>= λ n. ok (eqb n 0)) else ok false

abbrev pub is_number_type : Option String → Bool
is_number_type t = is_text t "number" || is_text t "integer" || is_text t "float"

unfoldable pub quoted : Engine → Filter → Query
quoted e f =
    string_query
      (String.◌++◌ (key_of f.field) (String.◌++◌ ":\"" (String.◌++◌ (e.show f.value) "\"")))

-- The tests that follow those on the type alone.
unfoldable pub build_by_value : Engine → Option FieldDef → Filter → Result (Option Query)
unfolding is_free_text build_query_from_free_text_filter has_list build_query_from_list_filter
    build_query_from_number_filter quoted
build_by_value e d f = is_free_text d f >>= λ free.
    (if free
      then ok (build_query_from_free_text_filter f)
      else (has_list d f.value >>= λ listed.
          if listed
          then ok (build_query_from_list_filter f)
          else if is_number_type f.type
          then ok (build_query_from_number_filter f)
          else ok (some (quoted e f))))

unfoldable pub build_query_from_filter : Engine → Option FieldDef → Filter → Result (Option Query)
unfolding build_query_from_date_filter build_query_from_boolean_filter build_query_from_tags_filter
    build_query_from_list_filter build_by_value
build_query_from_filter e d f =
    if is_text f.type "date"
    then (build_query_from_date_filter e f >>= λ q. ok (some q))
    else if is_text f.type "boolean"
    then ok (build_query_from_boolean_filter f)
    else if is_text f.field "tags"
    then ok (build_query_from_tags_filter f)
    else if is_text f.type "user" || is_text f.field "tags" || is_text f.type "enumeration"
    then ok (build_query_from_list_filter f)
    else build_by_value e d f

-- `_.map` of the filters, then `_.without(criterias, null, undefined, {})`: the last of the three
-- is a new object, which no criterion is.
unfoldable pub criteria : Engine → Fields → List Filter → Result (List Query)
criteria e fields [] = ok []
criteria e fields (f ∷ fs) =
    let rest = criteria e fields fs in
    build_query_from_filter e (fields (key_of f.field)) f >>= λ c.
    rest >>= λ qs. elim c [ none ↦ ok qs | some q ↦ ok (q ∷ qs) ]

unfoldable pub all_of : List Query → Query
all_of [] = everything
all_of (q ∷ []) = q
all_of qs = conjunction (of_list qs)

unfoldable pub build_filters_query : Engine → Fields → List Filter → Result Query
unfolding criteria all_of
build_filters_query e fields filters = criteria e fields filters >>= λ qs. ok (all_of qs)
