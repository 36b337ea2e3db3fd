-- ===== src/AlertPage/Sorting.antt =====
-- A click on a column of AlertListCtrl.js, and the sort of the requests that it sends.
use neural_vyuha_prime.Common.{
  String, Bool, true, false, Option, none, some, List, [], ◌∷◌, ◌++◌, map, ◌==◌, if◌then◌else◌, ok,
  ◌≡◌, refl, ◌∙◌, ap, eqb, eq_iff, eq_refl, Bool-cases, inl, inr,
}
use Prim.Native.String
use Prim.Native.String.append.{nil, cons}
use neural_vyuha_prime.Query.{Query, everything}
use neural_vyuha_prime.Query.Pipeline.{
  Operation, sort_by, SortField, asc, desc, many, sort_field, build_sort, call, query,
  filter_operations, sort_operations, page_operations,
}
use neural_vyuha_prime.Filtering.{contents, set_sort, store_context, snapshot}
use neural_vyuha_prime.Paging.{
  Settings, PagedQuery, list_request, update, list_options, get_page, needs_count, count_options,
}
use neural_vyuha_prime.AlertPage.{
  Row, AlertPage, AlertCall, AlertsParams, Adapter, get_alerts, ask, paged, adapted,
}
use neural_vyuha_prime.AlertPage.Feeds.{
  sort_by_field, sort_feed, next_sort, without_sign, update_adapter, alert_settings,
}
use neural_vyuha_prime.AlertPage.Feeds
use neural_vyuha_prime.Query.Builder.{Engine}

-- The sorts of the operations of a request.
abbrev pub sorts_of : List Operation → List (List SortField)
sorts_of [] = []
sorts_of (sort_by fields ∷ ops) = fields ∷ sorts_of ops
sorts_of (_ ∷ ops) = sorts_of ops

abbrev pub sorts_sent : AlertCall → List (List SortField)
sorts_sent (ask (list_request r)) = sorts_of r.query
sorts_sent _ = []

abbrev pub toggled : String → String → SortField
toggled field current = if current == String.◌++◌ "+" field then desc field else asc field

sort_field-up : (field : String) → sort_field (String.◌++◌ "+" field) ≡ asc field
unfolding sort_field
sort_field-up field = rw (cons, nil) refl

sort_field-down : (field : String) → sort_field (String.◌++◌ "-" field) ≡ desc field
unfolding sort_field
sort_field-down field = rw (cons, nil) refl

without_sign-up : (field : String) → without_sign (String.◌++◌ "+" field) ≡ field
without_sign-up field = rw (cons, nil) refl

build_sort-next_sort :
    (field current : String)
    → build_sort (many (next_sort field current)) ≡ toggled field current ∷ []
unfolding build_sort
build_sort-next_sort field current = elim (Bool-cases (without_sign current == field)) [
  | inr other ↦ elim (Bool-cases (current == String.◌++◌ "+" field)) [
    | inl same ↦
        let is_field : without_sign current ≡ field =
          ap without_sign ((eq_iff current (String.◌++◌ "+" field)).0 same)
          ∙ without_sign-up field in
        let yes : without_sign current == field ≡ true = rw is_field (eq_refl field) in cc
    | inr differs ↦ rw (other, differs, sort_field-up)
  ]
  | inl this ↦ elim (Bool-cases (current == String.◌++◌ "+" field)) [
    | inl same ↦ rw (this, same, sort_field-down)
    | inr differs ↦ rw (this, differs, sort_field-up)
  ]
]

sorts_of-filter :
    (f : Option Query) (ops : List Operation) → sorts_of (filter_operations f ++ ops) ≡ sorts_of ops
unfolding filter_operations
sorts_of-filter none ops = refl
sorts_of-filter (some everything) ops = refl
sorts_of-filter (some q) ops = refl

abbrev pub all_sorts : List AlertCall → List (List SortField)
all_sorts [] = []
all_sorts (c ∷ cs) = sorts_sent c ++ all_sorts cs

-- An update asks for the sort of the settings, once.
sorts_sent-update :
    (hash : Option Query → String) (sorts old : List String) (p : PagedQuery Row)
    → let s : Settings = record (alert_settings old) { sort = some (many sorts) } in
      all_sorts (map ask (update s hash false p).1) ≡ build_sort (many sorts) ∷ []
unfolding update list_options count_options call query sort_operations page_operations get_page
sorts_sent-update hash sorts old p =
    let s : Settings = record (alert_settings old) { sort = some (many sorts) } in
    elim (Bool-cases (needs_count s hash false p)) [
      | inl counted ↦ rw (counted, sorts_of-filter)
      | inr kept ↦ rw (kept, sorts_of-filter)
    ]

module _ (e : Engine) (hash : Option Query → String) (nv : Bool) (field current : String)
    (more : List String) (vm : AlertPage) (known : vm.filtering.context.sort ≡ current ∷ more) where
  -- Where the list is a PaginatedQuerySrv, a click on a column asks for the alerts sorted by it,
  -- downwards if they were sorted upwards by it and upwards otherwise, and local storage keeps the
  -- same sort.
  pub sort_by_field-sends :
      (old : List String) (p : PagedQuery Row)
      → vm.feed ≡ paged (alert_settings old) p
      → (w : AlertPage) × (calls : List AlertCall) × (sort_by_field e hash nv field vm
          ≡ ok (w, calls))
        × (all_sorts calls ≡ (toggled field current ∷ []) ∷ [])
        × (w.filtering.stored ≡ some (snapshot w.filtering))
        × (build_sort (many w.filtering.context.sort) ≡ toggled field current ∷ [])
  unfolding sort_by_field Feeds.sort_by sort_feed set_sort store_context snapshot contents
  sort_by_field-sends old p shown =
      let sorts = next_sort field current in
      let s : Settings = record (alert_settings old) { sort = some (many sorts) } in
      let r = update s hash false p in
      let w : AlertPage = record vm {
        feed = paged s r.0;
        filtering = set_sort sorts vm.filtering;
      } in
      (
        w,
        map ask r.1,
        rw (known, shown) refl,
        sorts_sent-update hash sorts old p ∙ ap (λ x. x ∷ []) (build_sort-next_sort field current),
        refl,
        build_sort-next_sort field current,
      )

  -- Where the list is the adapter, the click sends a request by the sort that the list was made with,
  -- while local storage keeps the new sort.
  pub sort_by_field-adapted :
      (a : Adapter)
      → vm.feed ≡ adapted a
      → (w : AlertPage) × (params : AlertsParams) × (sort_by_field e hash nv field vm
          ≡ ok (w, get_alerts params ∷ []))
        × (params.sort ≡ a.config_sort)
        × (w.filtering.stored ≡ some (snapshot w.filtering))
        × (build_sort (many w.filtering.context.sort) ≡ toggled field current ∷ [])
  unfolding sort_by_field Feeds.sort_by sort_feed set_sort store_context snapshot update_adapter
      contents
  sort_by_field-adapted a shown =
      let sorts = next_sort field current in
      let sent : AlertsParams = record {
        limit = if eqb a.config_page_size 0 then 10 else a.config_page_size;
        sort = a.config_sort;
        filter = a.config_filter;
      } in
      let w : AlertPage = record vm {
        feed = adapted (record a { sort = sorts; loading = true });
        filtering = set_sort sorts vm.filtering;
      } in
      (w, sent, rw (known, shown) refl, refl, refl, build_sort-next_sort field current)
