-- ===== src/Query/Examples.antt =====
-- Concrete servers, filters and requests.
use neural_vyuha_prime.Common.{
  String, Bool, true, false, not, ◌&&◌, ◌||◌, Option, none, some, List, [], ◌∷◌, ◌==◌, ◌≡◌, refl,
  all, any, ok, type_error, ◌↔◌, if◌then◌else◌, pos, whole, nan, ◌&&◌,
}
use neural_vyuha_prime.Query.{
  Scalar, text, missing, FilterObject, Value, scalar, object, Filter, Fields, Query, everything,
  field_is, keyed, compares, contains, like, between, string_query, negation, conjunction,
  disjunction, Queries, nil, cons, of_list, key_of, is_text, scalar_eq,
}
use neural_vyuha_prime.Query.Builder.{
  Engine, build_query_from_list_filter, build_query_from_tags_filter,
  build_query_from_free_text_filter, field_criterion, build_listed, combine, join,
}
use neural_vyuha_prime.Query.Dispatch.{
  build_filters_query, all_of, criteria, build_query_from_filter,
}
use neural_vyuha_prime.Query.Meaning.{
  Server, filter_selects, wanted, selects, holds-build_filters_query, select-list_filters,
}
use neural_vyuha_prime.Query.Throwing.{build_filters_query-throws_iff, throws}
use neural_vyuha_prime.Query.Pipeline.{Operation, named}

-- Entities are lists of fields with their values.
abbrev pub Fielded : Type 0
Fielded = List (String × Scalar)

abbrev pub value_is : Value → Scalar → Bool
value_is (scalar s) t = scalar_eq s t
value_is _ t = false

abbrev pub has_field : Option String → Fielded → Bool
has_field f x = any (λ p. is_text f (p.0)) x

abbrev pub is_in : Option String → Value → Fielded → Bool
is_in f v x = any (λ p. is_text f (p.0) && value_is v (p.1)) x

unfoldable mutual
  pub evaluate : Query → Fielded → Bool
  evaluate everything x = true
  evaluate (field_is f v) x = is_in f v x
  evaluate (keyed f v) x = is_in (some f) v x
  evaluate (compares c f v) x = false
  evaluate (contains f) x = has_field f x
  evaluate (like f s) x = is_in f (scalar s) x
  evaluate (between f a b) x = false
  evaluate (string_query s) x = false
  evaluate (negation q) x = not (evaluate q x)
  evaluate (conjunction qs) x = every qs x
  evaluate (disjunction qs) x = either qs x

  every : Queries → Fielded → Bool
  every nil x = true
  every (cons q qs) x = evaluate q x && every qs x

  either : Queries → Fielded → Bool
  either nil x = false
  either (cons q qs) x = evaluate q x || either qs x

every-of_list : (qs : List Query) (x : Fielded) → every (of_list qs) x ≡ all (λ q. evaluate q x) qs
unfolding every
every-of_list [] x = refl
every-of_list (q ∷ qs) x = rw (every-of_list qs x)

either-of_list :
    (qs : List Query) (x : Fielded) → either (of_list qs) x ≡ any (λ q. evaluate q x) qs
unfolding either
either-of_list [] x = refl
either-of_list (q ∷ qs) x = rw (either-of_list qs x)

pub evaluate-everything : (x : Fielded) → evaluate everything x ≡ true
unfolding evaluate
evaluate-everything x = refl

pub evaluate-negation : (q : Query) (x : Fielded) → evaluate (negation q) x ≡ not (evaluate q x)
unfolding evaluate
evaluate-negation q x = refl

pub evaluate-conjunction :
    (qs : List Query) (x : Fielded)
    → evaluate (conjunction (of_list qs)) x ≡ all (λ q. evaluate q x) qs
unfolding evaluate
evaluate-conjunction qs x = every-of_list qs x

pub evaluate-disjunction :
    (qs : List Query) (x : Fielded)
    → evaluate (disjunction (of_list qs)) x ≡ any (λ q. evaluate q x) qs
unfolding evaluate
evaluate-disjunction qs x = either-of_list qs x

abbrev pub small_server : Server
small_server = record {
  Entity = Fielded;
  holds = evaluate;
  holds-everything = evaluate-everything;
  holds-negation = evaluate-negation;
  holds-conjunction = evaluate-conjunction;
  holds-disjunction = evaluate-disjunction;
}

abbrev pub open_case : Fielded
open_case = ("status", text "Open") ∷ ("tags", text "phishing") ∷ []

abbrev pub closed_case : Fielded
closed_case = ("status", text "Closed") ∷ []

abbrev pub plain_engine : Engine
plain_engine = record {
  parse = λ s. nan;
  last_ms_of_day = λ t. t;
  now = whole (pos 1000);
  subtract = λ t n u. whole (pos n);
  first_second = λ t. t;
  last_second = λ t. t;
  show = λ v. "[object Object]";
}

abbrev pub status_fields : Fields
status_fields name =
    if name == "status"
    then some (record { type = "enumeration"; values = some (text "Open" ∷ []); labels = none })
    else none

abbrev pub open_status : FilterObject
open_status = record {
  operator = some "any";
  value = none;
  list = some (record { text = text "Open"; label = text "Open" } ∷ []);
  from = missing;
  to = missing;
}

abbrev pub status_filter : Filter
status_filter = record {
  field = some "status";
  type = some "enumeration";
  value = object open_status;
}

abbrev status_query : Query
status_query = field_is (some "status") (scalar (text "Open"))

status_query-built :
    build_filters_query plain_engine status_fields (status_filter ∷ []) ≡ ok status_query
unfolding build_filters_query criteria all_of build_query_from_filter build_query_from_list_filter
    build_listed combine join
status_query-built = refl

holds-build_filters_query_example :
    Server.holds small_server status_query open_case
    ≡ all (filter_selects small_server open_case plain_engine status_fields) (status_filter ∷ [])
holds-build_filters_query_example =
    holds-build_filters_query small_server open_case plain_engine status_fields (status_filter ∷ [])
      status_query status_query-built

select-list_filters_example :
    let f : Filter = status_filter in
    let chosen = wanted small_server closed_case in
    (selects small_server (build_query_from_list_filter f) closed_case
      ≡ chosen field_criterion (some "status") open_status)
    × (selects small_server (build_query_from_tags_filter f) closed_case
        ≡ chosen like (some "status") open_status)
    × (selects small_server (build_query_from_free_text_filter f) closed_case
        ≡ chosen like (some "status") open_status)
select-list_filters_example =
    select-list_filters small_server closed_case (some "status") (some "enumeration") open_status

throws_iff_example :
    (build_filters_query plain_engine status_fields (status_filter ∷ []) ≡ type_error)
    ↔ (any (λ f. throws (status_fields (key_of f.field)) f) (status_filter ∷ []) ≡ true)
throws_iff_example = build_filters_query-throws_iff plain_engine status_fields (status_filter ∷ [])

abbrev list_cases : List Operation
list_cases = named "listCase" [] ∷ []
