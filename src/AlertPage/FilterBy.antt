-- ===== src/AlertPage/FilterBy.antt =====
-- From a click on a value of AlertListCtrl.js to the requests that are sent, through FilteringSrv.js,
-- QueryBuilderSrv.js, AlertingSrv.js, PaginatedQuerySrv.js and QuerySrv.js.
pub mod Criterion
use neural_vyuha_prime.Common.{
  ℕ, String, Bool, true, false, ◌&&◌, ◌||◌, Option, none, some, List, [], ◌∷◌, map, length, ◌==◌,
  eqb, if◌then◌else◌, ok, ◌≡◌, refl, eq_iff, Number, Bool-cases, inl, inr,
}
use neural_vyuha_prime.Query.{
  Scalar, Value, scalar, Filter, FieldDef, Query, everything, field_is, like,
}
use neural_vyuha_prime.Query.Builder.{
  Engine, build_listed, combine, join, build_query_from_list_filter, build_query_from_tags_filter,
  build_query_from_free_text_filter,
}
use neural_vyuha_prime.Query.Dispatch.{
  build_query_from_filter, build_by_value, is_free_text, values_length, build_filters_query,
  criteria, all_of,
}
use neural_vyuha_prime.Query.Pipeline.{
  Operation, filter_by, call, count, query, filter_operations, sort_operations, page_operations,
}
use neural_vyuha_prime.Filtering.{
  Filtering, own, fields_of, contents, change, write, clear_filters, build_query, store_context,
  snapshot,
}
use neural_vyuha_prime.Filtering.Values.{
  filter_value, listing, label_or, label_at, put_filter, find_index, add_filter_value,
}
use neural_vyuha_prime.Paging.{
  list_request, count_request, update, needs_count, list_options, count_options, get_filter,
}
use neural_vyuha_prime.AlertPage.{AlertPage, AlertCall, get_alerts, ask}
use neural_vyuha_prime.AlertPage.Feeds.{
  filter_by_value, list_alerts, load, search, add_page_value, update_adapter,
}
use neural_vyuha_prime.AlertPage.FilterBy.Criterion.{
  wanted_criterion, is_unlisted, IsListed, filter_for, made,
}

-- The criteria of a request's operations, and of a call.
abbrev pub filters_of : List Operation → List Query
filters_of [] = []
filters_of (filter_by q ∷ ops) = q ∷ filters_of ops
filters_of (_ ∷ ops) = filters_of ops

abbrev pub criteria_sent : AlertCall → List Query
criteria_sent (get_alerts p) = p.filter ∷ []
criteria_sent (ask (list_request r)) = filters_of r.query
criteria_sent (ask (count_request r)) = filters_of r.query
criteria_sent _ = []

-- The one filter that is left, in the filters of the page.
abbrev with_filter : Filtering → Filter → Filtering
with_filter s f = record s { context = record (s.context) { filters = own (some (f ∷ [])) } }

added :
    (e : Engine) (moment : Scalar → Number) (field : String) (d : FieldDef) (v : Scalar) (w : Value)
    (s : Filtering)
    → fields_of s field ≡ some d
    → filter_value e moment d v ≡ ok w
    → add_filter_value e moment field v (clear_filters s)
      ≡ ok (with_filter s (record { field = some field; type = some d.type; value = w }))
unfolding add_filter_value clear_filters change write contents put_filter find_index
added e moment field d v w s known value = rw (add_filter_value, known, value)

built :
    (e : Engine) (field : String) (d : FieldDef) (w : Value) (q : Query) (s : Filtering)
    → fields_of s field ≡ some d
    → build_query_from_filter e (some d) (filter_for field d w) ≡ ok (some q)
    → build_query e (with_filter s (filter_for field d w)) ≡ ok q
unfolding build_query contents build_filters_query criteria all_of
built e field d w q s known value = rw (known, value)

-- Each request for a list that is made anew carries just the one criterion.
abbrev pub sent_once : Bool → Query → List (List Query)
sent_once nv q = if nv then (q ∷ []) ∷ [] else (q ∷ []) ∷ (q ∷ []) ∷ []

-- Each request is sent without a criterion: of the two kinds of lists, the adapter sends the filter
-- that is empty, the other no filter at all.
abbrev pub sent_plain : Bool → List (List Query)
sent_plain nv = if nv then (everything ∷ []) ∷ [] else [] ∷ [] ∷ []

abbrev sent : Engine → (Option Query → String) → Bool → List String → ℕ → Query → List (List Query)
sent e hash nv sort size q = map criteria_sent (list_alerts e hash nv sort q size).1

module _ (e : Engine) (hash : Option Query → String) (sort : List String) (size : ℕ) where
  sent-field_is :
      (nv : Bool) (field : Option String) (v : Value)
      → sent e hash nv sort size (field_is field v) ≡ sent_once nv (field_is field v)
  unfolding list_alerts update_adapter update needs_count list_options count_options get_filter call
      count query filter_operations sort_operations page_operations
  sent-field_is true field v = refl
  sent-field_is false field v = refl

  sent-like :
      (nv : Bool) (field : Option String) (v : Scalar)
      → sent e hash nv sort size (like field v) ≡ sent_once nv (like field v)
  unfolding list_alerts update_adapter update needs_count list_options count_options get_filter call
      count query filter_operations sort_operations page_operations
  sent-like true field v = refl
  sent-like false field v = refl

  sent-wanted :
      (nv : Bool) (d : FieldDef) (field : String) (v : Scalar)
      → let q = wanted_criterion d field v in sent e hash nv sort size q ≡ sent_once nv q
  sent-wanted nv d field v = elim (Bool-cases (d.type == "boolean")) [
    | inl b ↦ rw b (sent-field_is nv (some field) (scalar v))
    | inr nb ↦ elim (Bool-cases (field == "tags" || is_unlisted d)) [
      | inl l ↦ rw (nb, l) (sent-like nv (some field) v)
      | inr n ↦ rw (nb, n) (sent-field_is nv (some field) (scalar v))
    ]
  ]

listed-sends :
    (e : Engine) (hash : Option Query → String) (nv : Bool) (moment : Scalar → Number)
    (field : String) (d : FieldDef) (v : Scalar) (vm : AlertPage)
    → fields_of vm.filtering field ≡ some d
    → IsListed d
    → (w : AlertPage) × (calls : List AlertCall) × (filter_by_value e hash nv moment field v vm
        ≡ ok (w, calls))
      × (map criteria_sent calls ≡ sent_once nv (wanted_criterion d field v))
      × ((x : Value) × (contents w.filtering ≡ some (filter_for field d x ∷ [])))
      × (w.filtering.stored ≡ some (snapshot w.filtering))
unfolding filter_by_value add_page_value search load store_context snapshot contents
listed-sends e hash nv moment field d v vm known listed =
    let (x, value, criterion) = made e moment field d v listed in
    let q = wanted_criterion d field v in
    let s = with_filter vm.filtering (filter_for field d x) in
    let listed_anew = list_alerts e hash nv s.context.sort q s.context.page_size in
    let after : AlertPage = record vm {
      filtering = store_context s;
      feed = listed_anew.0;
      former = vm.feed ∷ vm.former;
    } in
    (
      after,
      listed_anew.1,
      rw (
        added e moment field d v x vm.filtering known value,
        built e field d x q vm.filtering known criterion,
      ),
      sent-wanted e hash s.context.sort s.context.page_size nv d field v,
      (x, refl),
      refl,
    )

abbrev without_filters : Filtering → Filtering
without_filters s = record s { context = record (s.context) { filters = own (some []) } }

added_none :
    (e : Engine) (moment : Scalar → Number) (field : String) (v : Scalar) (s : Filtering)
    → fields_of s field ≡ none
    → add_filter_value e moment field v (clear_filters s) ≡ ok (without_filters s)
unfolding add_filter_value clear_filters change write contents
added_none e moment field v s unknown = rw (add_filter_value, unknown) refl

built_none : (e : Engine) (s : Filtering) → build_query e (without_filters s) ≡ ok everything
unfolding build_query contents build_filters_query criteria all_of
built_none e s = refl

sent-none :
    (e : Engine) (hash : Option Query → String) (nv : Bool) (sort : List String) (size : ℕ)
    → sent e hash nv sort size everything ≡ sent_plain nv
unfolding list_alerts update_adapter update needs_count list_options count_options get_filter call
    count query filter_operations sort_operations page_operations
sent-none e hash true sort size = refl
sent-none e hash false sort size = refl

unknown-sends :
    (e : Engine) (hash : Option Query → String) (nv : Bool) (moment : Scalar → Number)
    (field : String) (v : Scalar) (vm : AlertPage)
    → fields_of vm.filtering field ≡ none
    → (w : AlertPage) × (calls : List AlertCall) × (filter_by_value e hash nv moment field v vm
        ≡ ok (w, calls))
      × (map criteria_sent calls ≡ sent_plain nv)
      × (contents w.filtering ≡ some [])
      × (w.filtering.stored ≡ some (snapshot w.filtering))
unfolding filter_by_value add_page_value search load store_context snapshot contents
unknown-sends e hash nv moment field v vm unknown =
    let s = without_filters vm.filtering in
    let listed_anew = list_alerts e hash nv s.context.sort everything s.context.page_size in
    let after : AlertPage = record vm {
      filtering = store_context s;
      feed = listed_anew.0;
      former = vm.feed ∷ vm.former;
    } in
    (
      after,
      listed_anew.1,
      rw (added_none e moment field v vm.filtering unknown, built_none e vm.filtering),
      sent-none e hash nv s.context.sort s.context.page_size,
      refl,
      refl,
    )

-- What the requests have to carry, and the page to show, for what is known of the attribute.
abbrev pub wanted_sent : Bool → Option FieldDef → String → Scalar → List (List Query)
wanted_sent nv none field v = sent_plain nv
wanted_sent nv (some d) field v = sent_once nv (wanted_criterion d field v)

abbrev pub shown_filters : Option FieldDef → String → Value → List Filter
shown_filters none field x = []
shown_filters (some d) field x = filter_for field d x ∷ []

abbrev pub IsListedIfKnown : Option FieldDef → Type 0
IsListedIfKnown none = Unit
IsListedIfKnown (some d) = IsListed d

-- Filtering by a value does not throw, whatever filters the page had, if the attribute is not known,
-- or is known with its values, its labels and a type whose values are listed. Of a known attribute,
-- each request that is sent carries exactly the criterion for this value, and the page shows this
-- filter alone; of an unknown one no request carries a criterion, and the page shows no filter. What
-- is handed to local storage is what the page shows.
pub filter_by_value-sends :
    (e : Engine) (hash : Option Query → String) (nv : Bool) (moment : Scalar → Number)
    (field : String) (r : Option FieldDef) (v : Scalar) (vm : AlertPage)
    → fields_of vm.filtering field ≡ r
    → IsListedIfKnown r
    → (w : AlertPage) × (calls : List AlertCall) × (filter_by_value e hash nv moment field v vm
        ≡ ok (w, calls))
      × (map criteria_sent calls ≡ wanted_sent nv r field v)
      × ((x : Value) × (contents w.filtering ≡ some (shown_filters r field x)))
      × (w.filtering.stored ≡ some (snapshot w.filtering))
filter_by_value-sends e hash nv moment field none v vm unknown _ =
    let (w, calls, done, carried, shown, stored) =
      unknown-sends e hash nv moment field v vm unknown in
    (w, calls, done, carried, (scalar v, shown), stored)
filter_by_value-sends e hash nv moment field (some d) v vm known listed =
    listed-sends e hash nv moment field d v vm known listed
