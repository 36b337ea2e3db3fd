-- ===== src/Incidents.antt =====
-- nv-ui/app/scripts/controllers/nv/nvGroupListController.js: the list of incidents with its filters,
-- its pages and its timers. The statistics, charts and health checks of the page are left out.
pub mod Paging
pub mod Timers
pub mod Loading
mod Examples
use neural_vyuha_prime.Common.{
  ℕ, String, Bool, true, false, not, Option, none, some, List, [], ◌∷◌, ◌+◌, ◌*◌, ◌-◌, ◌/◌, ◌==◌,
  if◌then◌else◌, eqb, ltb, leb,
}
use Prim.Native.Nat.{max}

-- What a request for incidents carries; `none` is `undefined`.
pub record Params : Type 0 where
  pub size : ℕ
  pub from : ℕ
  pub status : Option String
  pub severity : Option ℕ
  pub search : Option String
  pub date_from : Option ℕ
  pub date_to : Option ℕ

pub record IncidentList (A : Type 0) : Type 0 where
  pub loading : Bool
  pub is_loading : Bool
  pub error : Option String
  pub groups : List A
  pub total : ℕ
  pub total_groups : ℕ
  pub current_page : ℕ
  pub page_size : ℕ
  pub params : Params
  pub filter : String
  pub severity_filter : Option ℕ
  pub search_query : String
  pub range_from : Option ℕ
  pub range_to : Option ℕ
  pub show_date_filter : Bool

abbrev pub initial : {A : Type 0} → IncidentList A
initial = record {
  loading = true;
  is_loading = true;
  error = none;
  groups = [];
  total = 0;
  total_groups = 0;
  current_page = 0;
  page_size = 20;
  params = record {
    size = 20;
    from = 0;
    status = some "OPEN";
    severity = none;
    search = none;
    date_from = none;
    date_to = none;
  };
  filter = "OPEN";
  severity_filter = none;
  search_query = "";
  range_from = none;
  range_to = none;
  show_date_filter = false;
}

abbrev pub same_severity : Option ℕ → ℕ → Bool
same_severity none n = false
same_severity (some m) n = eqb m n

module _ {A : Type 0} where
  -- `load`: the request, which goes by the page and not by `params.from_`.
  unfoldable pub load : IncidentList A → IncidentList A × Option Params
  load vm = (
    record vm { loading = true; is_loading = true },
    some (record (vm.params) { size = vm.page_size; from = vm.current_page * vm.page_size }),
  )

  -- The answer, with the `finally` that follows; an answer without items or total has `[]` and 0.
  unfoldable pub on_groups : List A → ℕ → IncidentList A → IncidentList A
  on_groups items n vm = record vm {
    groups = items;
    total = n;
    total_groups = n;
    loading = false;
    is_loading = false;
  }

  unfoldable pub on_groups_error : IncidentList A → IncidentList A
  on_groups_error vm = record vm {
    groups = [];
    total = 0;
    error = some "Unable to load incidents. The server may be unreachable.";
    loading = false;
  }

  abbrev from_start : IncidentList A → IncidentList A × Option Params
  from_start vm = load (record vm { current_page = 0 })

  unfoldable pub set_filter : String → IncidentList A → IncidentList A × Option Params
  unfolding load
  set_filter status vm = from_start (record vm {
    filter = status;
    params = record (vm.params) { status = if status == "ALL" then none else some status };
  })

  unfoldable pub set_severity_filter : ℕ → IncidentList A → IncidentList A × Option Params
  unfolding load
  set_severity_filter sev vm =
      let chosen = if same_severity vm.severity_filter sev then none else some sev in
      from_start
        (record vm { severity_filter = chosen; params = record (vm.params) { severity = chosen } })

  unfoldable pub on_search : IncidentList A → IncidentList A × Option Params
  unfolding load
  on_search vm = from_start (record vm {
    params = record (vm.params) {
      search = if vm.search_query == "" then none else some vm.search_query;
    };
  })

  unfoldable pub clear_search : IncidentList A → IncidentList A × Option Params
  unfolding load
  clear_search vm =
      from_start (record vm { search_query = ""; params = record (vm.params) { search = none } })

  unfoldable pub toggle_date_filter : IncidentList A → IncidentList A × Option Params
  toggle_date_filter vm = (record vm { show_date_filter = not vm.show_date_filter }, none)

  -- `end_of_day` is moment's `endOf('day')`; the dates are times in milliseconds.
  unfoldable pub apply_date_filter : (ℕ → ℕ) → IncidentList A → IncidentList A × Option Params
  unfolding load
  apply_date_filter end_of_day vm = from_start (record vm {
    params = record (vm.params) {
      date_from = vm.range_from;
      date_to = elim vm.range_to [ none ↦ none | some t ↦ some (end_of_day t) ];
    };
  })

  unfoldable pub clear_date_filter : IncidentList A → IncidentList A × Option Params
  unfolding load
  clear_date_filter vm = from_start (record vm {
    range_from = none;
    range_to = none;
    params = record (vm.params) { date_from = none; date_to = none };
  })

  unfoldable pub filter_status : String → IncidentList A → IncidentList A × Option Params
  unfolding load
  filter_status status vm =
      load (record vm { params = record (vm.params) { status = some status; from = 0 } })

  unfoldable pub next_page : IncidentList A → IncidentList A × Option Params
  unfolding load
  next_page vm =
      if ltb ((vm.current_page + 1) * vm.page_size) vm.total_groups
      then load (record vm { current_page = vm.current_page + 1 })
      else (vm, none)

  unfoldable pub prev_page : IncidentList A → IncidentList A × Option Params
  unfolding load
  prev_page vm =
      if ltb 0 vm.current_page
      then load (record vm { current_page = vm.current_page - 1 })
      else (vm, none)

  unfoldable pub get_current_page : IncidentList A → ℕ
  get_current_page vm = vm.current_page + 1

  -- The rounding up of a quotient is written out for natural numbers.
  unfoldable pub get_total_pages : IncidentList A → ℕ
  get_total_pages vm = max 1 ((vm.total_groups + vm.page_size - 1) / vm.page_size)

  unfoldable pub retry : IncidentList A → IncidentList A × Option Params
  unfolding load
  retry vm = load (record vm { error = none })

unfoldable pub get_severity_label : ℕ → String
get_severity_label n =
    if leb 4 n then "CRITICAL" else if eqb n 3 then "HIGH" else if eqb n 2 then "MEDIUM" else "LOW"

unfoldable pub get_severity_class : ℕ → String
get_severity_class n =
    if leb 4 n
    then "nv-sev-critical"
    else if eqb n 3
    then "nv-sev-high"
    else if eqb n 2
    then "nv-sev-medium"
    else "nv-sev-low"
