-- ===== src/AlertPage/Feeds.antt =====
-- The list of AlertListCtrl.js: how it is loaded, sorted and filtered. AlertingSrv.js makes it a
-- PaginatedQuerySrv or, where NvConfig says so, an adapter of its own.
use neural_vyuha_prime.Common.{
  ℕ, String, Bool, true, false, not, Option, none, some, List, [], ◌∷◌, ◌++◌, map, ◌==◌, eqb,
  if◌then◌else◌, Result, ok, type_error, ◌>>=◌, length, Number,
}
use Prim.Native.String
use Prim.Native.String.{◌∷◌}
use neural_vyuha_prime.Filtering.{
  build_query, clear_filters, remove_filter, store_context, set_sort,
}
use neural_vyuha_prime.Filtering.Values.{add_filter_value}
use neural_vyuha_prime.Query.{Query, Scalar}
use neural_vyuha_prime.Query.Builder.{Engine}
use neural_vyuha_prime.Query.Pipeline.{named, many}
use neural_vyuha_prime.Paging.{Settings, new, update, on_list, on_stream}
use neural_vyuha_prime.AlertPage.{
  Row, Adapter, Feed, unloaded, paged, adapted, AlertPage, AlertCall, get_alerts, ask,
  reset_selection,
}

-- `update` of the adapter, up to its request.
unfoldable pub update_adapter : Adapter → Adapter × List AlertCall
update_adapter a = (
  record a { loading = true },
  get_alerts (record {
    limit = if eqb a.config_page_size 0 then 10 else a.config_page_size;
    sort = a.config_sort;
    filter = a.config_filter;
  })
      ∷ [],
)

-- An answer of NvRouter: the array of the alerts, or an object with the array and a total.
pub data AlertsAnswer : Type 0 where
  array : List Row → AlertsAnswer
  results : List Row → ℕ → AlertsAnswer

unfoldable pub on_alerts_answer : AlertsAnswer → Adapter → Adapter
on_alerts_answer (array rows) a = record a { values = rows; total = length rows; loading = false }
on_alerts_answer (results rows total) a = record a { values = rows; total = total; loading = false }

unfoldable pub on_alerts_answer_error : Adapter → Adapter
on_alerts_answer_error a = record a { loading = false }

abbrev pub alert_settings : List String → Settings
alert_settings sort = record {
  version = "v1";
  operations = named "listAlert" [] ∷ [];
  load_all = false;
  sort = some (many sort);
  name = some "alerts";
  config = some (record { name = none; settings = [] });
  limited_count = true;
  extra_data = some ("importDate" ∷ "caseNumber" ∷ []);
}

abbrev pub new_adapter : List String → Query → ℕ → Adapter
new_adapter sort filter size = record {
  values = [];
  total = 0;
  loading = false;
  sort = [];
  config_sort = sort;
  config_filter = filter;
  config_page_size = size;
}

-- `substr(1)`
abbrev pub without_sign : String → String
without_sign String.[] = ""
without_sign (String.◌∷◌ c s) = s

abbrev pub next_sort : String → String → List String
next_sort field current =
    let up = String.◌++◌ "+" field in
    let down = String.◌++◌ "-" field in
    if not (without_sign current == field)
    then up ∷ []
    else (if current == up then down else up) ∷ []

-- `nv` is NvConfig.useNvQueryReads, `hash` the MD5 text of a filter.
module _ (e : Engine) (hash : Option Query → String) (nv : Bool) where
  -- `list` of AlertingSrv, with the first request of what it makes.
  unfoldable pub list_alerts : List String → Query → ℕ → Feed × List AlertCall
  unfolding update_adapter update
  list_alerts sort filter size =
      let adapter = update_adapter (new_adapter sort filter size) in
      let settings = alert_settings sort in
      let list = update {A = Row} settings hash false (new (some size) none (some filter)) in
      if nv then (adapted adapter.0, adapter.1) else (paged settings list.0, map ask list.1)

  unfoldable pub load : AlertPage → Result (AlertPage × List AlertCall)
  unfolding list_alerts build_query
  load vm = build_query e vm.filtering >>= λ q.
      let listed = list_alerts vm.filtering.context.sort q vm.filtering.context.page_size in
      ok (record vm { feed = listed.0; former = vm.feed ∷ vm.former }, listed.1)

  unfoldable pub search : AlertPage → Result (AlertPage × List AlertCall)
  unfolding load store_context
  search vm = load vm >>= λ r. ok (record (r.0) { filtering = store_context r.0.filtering }, r.1)

  unfoldable pub clear_page_filters : AlertPage → Result (AlertPage × List AlertCall)
  unfolding search clear_filters
  clear_page_filters vm = search (record vm { filtering = clear_filters vm.filtering })

  unfoldable pub remove_page_filter : ℕ → AlertPage → Result (AlertPage × List AlertCall)
  unfolding search remove_filter
  remove_page_filter i vm =
      remove_filter i vm.filtering >>= λ f. search (record vm { filtering = f })

  -- `moment` is `moment(value)`.
  unfoldable pub add_page_value :
      (Scalar → Number) → String → Scalar → AlertPage → Result (AlertPage × List AlertCall)
  unfolding search add_filter_value
  add_page_value moment field v vm =
      add_filter_value e moment field v vm.filtering >>= λ f. search (record vm { filtering = f })

  -- `filterBy`, and with the field "imported" `filterByStatus`.
  unfoldable pub filter_by_value :
      (Scalar → Number) → String → Scalar → AlertPage → Result (AlertPage × List AlertCall)
  unfolding add_page_value clear_filters
  filter_by_value moment field v vm =
      add_page_value moment field v (record vm { filtering = clear_filters vm.filtering })

  -- `list.sort = sort; list.update()`
  unfoldable pub sort_feed : List String → Feed → Result (Feed × List AlertCall)
  unfolding update_adapter update
  sort_feed sort unloaded = type_error
  sort_feed sort (paged s p) =
      let sorted = record s { sort = some (many sort) } in
      let r = update sorted hash false p in ok (paged sorted r.0, map ask r.1)
  sort_feed sort (adapted a) =
      let r = update_adapter (record a { sort = sort }) in ok (adapted r.0, r.1)

  unfoldable pub sort_by : List String → AlertPage → Result (AlertPage × List AlertCall)
  unfolding sort_feed set_sort
  sort_by sort vm = sort_feed sort vm.feed >>= λ r.
      ok (record vm { feed = r.0; filtering = set_sort sort vm.filtering }, r.1)

  -- Without a sort `substr` is read of `undefined`.
  unfoldable pub sort_by_field : String → AlertPage → Result (AlertPage × List AlertCall)
  unfolding sort_by
  sort_by_field field vm = elim vm.filtering.context.sort [
    | [] ↦ type_error
    | current ∷ more ↦ sort_by (next_sort field current) vm
  ]

  -- A message of the stream for which an object of `list` listens, where `disabled` is that of
  -- StreamSrv; the adapter does not listen.
  unfoldable pub feed_on_stream : Bool → Feed → Feed × List AlertCall
  unfolding on_stream
  feed_on_stream disabled unloaded = (unloaded, [])
  feed_on_stream disabled (adapted a) = (adapted a, [])
  feed_on_stream disabled (paged s p) =
      let r = on_stream s hash true p in
      if disabled then (paged s p, []) else (paged s r.0, map ask r.1)

  unfoldable pub feeds_on_stream : Bool → List Feed → List Feed × List AlertCall
  unfolding feed_on_stream
  feeds_on_stream disabled [] = ([], [])
  feeds_on_stream disabled (f ∷ fs) =
      let rest = feeds_on_stream disabled fs in
      let first = feed_on_stream disabled f in (first.0 ∷ rest.0, first.1 ++ rest.1)

  unfoldable pub on_alert_message : Bool → AlertPage → AlertPage × List AlertCall
  unfolding feed_on_stream feeds_on_stream
  on_alert_message disabled vm =
      let now = feed_on_stream disabled vm.feed in
      let before = feeds_on_stream disabled vm.former in
      (record vm { feed = now.0; former = before.0 }, now.1 ++ before.1)

  -- The answer to the request for the list that is shown, with the callback.
  unfoldable pub on_rows : List Row → AlertPage → AlertPage
  unfolding reset_selection on_list on_alerts_answer
  on_rows rows vm = elim vm.feed [
    | unloaded ↦ vm
    | paged s p ↦ reset_selection (record vm { feed = paged s (on_list s hash rows p).0 })
    | adapted a ↦ reset_selection (record vm { feed = adapted (on_alerts_answer (array rows) a) })
  ]
