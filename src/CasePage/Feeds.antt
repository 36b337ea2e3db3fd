-- ===== src/CasePage/Feeds.antt =====
-- How CaseListCtrl.js loads, sorts and filters its list: a PaginatedQuerySrv or, where NvConfig says so,
-- the adapter of CaseSrv.js.
use neural_vyuha_prime.Common.{
  ℕ, String, Bool, true, false, not, ◌||◌, Option, none, some, List, [], ◌∷◌, map, filter, ◌==◌,
  if◌then◌else◌, Result, ok, type_error, ◌>>=◌,
}
use Prim.Native.String
use neural_vyuha_prime.Query.{Query, Filter}
use neural_vyuha_prime.Query.Builder.{Engine}
use neural_vyuha_prime.Query.Pipeline.{named, many}
use neural_vyuha_prime.Filtering.{
  build_query, clear_filters, remove_filter, add_filter, store_context, set_sort,
}
use neural_vyuha_prime.Paging.{Settings, PagedQuery, new, update, on_list}
use neural_vyuha_prime.AlertPage.Feeds.{without_sign}
use neural_vyuha_prime.CasePage.{
  CaseRow, CaseAdapter, CaseFeed, unloaded, paged, adapted, CasePage, CaseCall, ask,
  reset_case_selection,
}
use neural_vyuha_prime.CasePage.Service.{ServiceCase, row_of, update_case_adapter}

abbrev pub case_settings : List String → Settings
case_settings sort = record {
  version = "v1";
  operations = named "listCase" [] ∷ [];
  load_all = false;
  sort = some (many sort);
  name = some "cases";
  config = some (record { name = none; settings = [] });
  limited_count = true;
  extra_data = some (
      "observableStats" ∷ "taskStats" ∷ "procedureCount" ∷ "isOwner" ∷ "shareCount" ∷ "permissions"
      ∷ "actionRequired" ∷ []);
}

-- The adapter, made with what `load` gives: the size of a page, but no page and no `filtering`.
abbrev pub new_case_adapter : ℕ → CaseAdapter
new_case_adapter size = record {
  values = [];
  total = 0;
  loading = false;
  config = record { page_size = size; current_page = none; filters = none };
}

-- `nv` is NvConfig.useNvQueryReads, `hash` the MD5 text of a filter.
module _ (e : Engine) (hash : Option Query → String) (nv : Bool) where
  -- `list` of CaseSrv, with the first request of what it makes.
  unfoldable pub list_cases : List String → Query → ℕ → CaseFeed × List CaseCall
  unfolding update_case_adapter update
  list_cases sort filter size =
      let adapter = update_case_adapter (new_case_adapter size) in
      let settings = case_settings sort in
      let list = update {A = CaseRow} settings hash false (new (some size) none (some filter)) in
      if nv then (adapted adapter.0, adapter.1) else (paged settings list.0, map ask list.1)

  unfoldable pub load_cases : CasePage → Result (CasePage × List CaseCall)
  unfolding list_cases build_query
  load_cases vm = build_query e vm.filtering >>= λ q.
      let listed = list_cases vm.filtering.context.sort q vm.filtering.context.page_size in
      ok (record vm { feed = listed.0 }, listed.1)

  unfoldable pub search_cases : CasePage → Result (CasePage × List CaseCall)
  unfolding load_cases store_context
  search_cases vm =
      load_cases vm >>= λ r. ok (record (r.0) { filtering = store_context r.0.filtering }, r.1)

  unfoldable pub clear_case_filters : CasePage → Result (CasePage × List CaseCall)
  unfolding search_cases clear_filters
  clear_case_filters vm = search_cases (record vm { filtering = clear_filters vm.filtering })

  unfoldable pub remove_case_filter : ℕ → CasePage → Result (CasePage × List CaseCall)
  unfolding search_cases remove_filter
  remove_case_filter i vm =
      remove_filter i vm.filtering >>= λ f. search_cases (record vm { filtering = f })

  -- `filtering.addFilter` of a filter, then `search`.
  unfoldable pub add_and_search : Filter → CasePage → Result (CasePage × List CaseCall)
  unfolding search_cases add_filter
  add_and_search f vm =
      add_filter f vm.filtering >>= λ s. search_cases (record vm { filtering = s })

  unfoldable pub sort_case_feed : List String → CaseFeed → Result (CaseFeed × List CaseCall)
  unfolding update_case_adapter update
  sort_case_feed sort unloaded = type_error
  sort_case_feed sort (paged s p) =
      let sorted = record s { sort = some (many sort) } in
      let r = update sorted hash false p in ok (paged sorted r.0, map ask r.1)
  sort_case_feed sort (adapted a) = let r = update_case_adapter a in ok (adapted r.0, r.1)

  unfoldable pub sort_cases : List String → CasePage → Result (CasePage × List CaseCall)
  unfolding sort_case_feed set_sort
  sort_cases sort vm = sort_case_feed sort vm.feed >>= λ r.
      ok (record vm { feed = r.0; filtering = set_sort sort vm.filtering }, r.1)

  -- The answer of a list of PaginatedQuerySrv, with the callback.
  unfoldable pub on_case_rows :
      Settings → PagedQuery CaseRow → List CaseRow → CasePage → Result CasePage
  unfolding reset_case_selection on_list
  on_case_rows s p rows vm =
      reset_case_selection (record vm { feed = paged s (on_list s hash rows p).0 })

-- `_.without(context.sort, '-flag', '+flag')[0]`
abbrev pub first_unflagged : List String → Option String
first_unflagged [] = none
first_unflagged (s ∷ ss) =
    let rest = first_unflagged ss in if s == "-flag" || s == "+flag" then rest else some s

abbrev pub next_case_sort : String → String → List String
next_case_sort field current =
    let up = String.◌++◌ "+" field in
    let down = String.◌++◌ "-" field in
    if not (without_sign current == field)
    then "-flag" ∷ up ∷ []
    else "-flag" ∷ (if current == up then down else up) ∷ []

unfoldable pub sort_cases_by_field :
    Engine → (Option Query → String) → Bool → String → CasePage → Result (CasePage × List CaseCall)
unfolding sort_cases
sort_cases_by_field e hash nv field vm = elim (first_unflagged vm.filtering.context.sort) [
  | none ↦ type_error
  | some current ↦ sort_cases e hash nv (next_case_sort field current) vm
]

abbrev pub with_service_rows : List CaseRow → ℕ → CaseAdapter → CasePage → CasePage
with_service_rows rows total a vm = record vm {
  feed = adapted (record a { values = rows; total = total; loading = false });
}

-- A failed answer of the service to the adapter `a`, and a good one: what the callback throws is caught
-- there too, and leads to the failed answer.
unfoldable pub on_cases_error : CaseAdapter → CasePage → Result CasePage
unfolding reset_case_selection
on_cases_error a vm = reset_case_selection (with_service_rows [] 0 a vm)

unfoldable pub on_cases : CaseAdapter → List ServiceCase → ℕ → CasePage → Result CasePage
unfolding reset_case_selection on_cases_error row_of
on_cases a cases total vm =
    elim (reset_case_selection (with_service_rows (map row_of cases) total a vm)) [
      | ok w ↦ ok w
      | type_error ↦ on_cases_error a vm
    ]
