-- ===== src/Alerts.antt =====
-- nv-ui/app/scripts/controllers/nv/nvAlertListController.js: the list of alerts with its pages, its
-- sorting, the selection with the bulk actions, and the live stream. The side bar, the helpers of
-- the page's text and the correlation of alerts are left out.
--
-- The object `selectedIds` is the list of its keys. A method gives the requests that it sends; what
-- it does with the answer is a function of its own.
pub mod Selection
pub mod Bulk
pub mod Marks
pub mod Pages
pub mod Live
pub mod Search
pub mod SideBar
mod Examples
use neural_vyuha_prime.Common.{
  ℕ, ceil, String, Bool, true, false, not, ◌&&◌, ◌||◌, Option, none, some, List, [], ◌∷◌, ◌++◌, map,
  filter, any, length, ◌+◌, ◌*◌, ◌-◌, ◌/◌, ◌==◌, eqb, ltb, leb, if◌then◌else◌, take,
}
use Prim.Native.Nat.{max}
use Prim.Native.String

-- The three names that an alert may have; `none` is `undefined`.
pub record Alert : Type 0 where
  pub id : Option String
  pub event_id : Option String
  pub other_id : Option String
  pub read : Bool
  pub follow : Bool
  pub selected : Bool
  pub is_new : Bool

pub data Direction : Type 0 where
  asc desc : Direction

pub record AlertFilters : Type 0 where
  pub status : Option String
  pub severity : Option ℕ
  pub source : String
  pub q : String
  pub sort : String

-- What a request for alerts carries; `none` where the property is not set.
pub record AlertParams : Type 0 where
  pub size : ℕ
  pub from : ℕ
  pub status : Option String
  pub severity : Option ℕ
  pub source : Option String
  pub q : Option String
  pub sort : Option String

-- The changes of several alerts; `promote` is `promoteAlerts`, the others are updates of the status.
pub data Change : Type 0 where
  mark_read ignore false_positive delete promote : Change

pub data AlertRequest : Type 0 where
  get_alerts : AlertParams → AlertRequest
  get_stats : AlertRequest
  bulk_update : List String → Change → AlertRequest

pub record AlertList : Type 0 where
  pub alerts : List Alert
  pub loading : Bool
  pub error : Option String
  pub stats_total : ℕ
  pub stats_new : ℕ
  pub page : ℕ
  pub page_size : ℕ
  pub total_alerts : ℕ
  pub total_pages : ℕ
  pub filter_params : AlertFilters
  pub sort_field : String
  pub sort_dir : Direction
  pub selected_ids : List String
  pub selected_count : ℕ
  pub select_all_checked : Bool
  pub live_enabled : Bool
  pub new_alert_count : ℕ

abbrev pub no_filters : AlertFilters
no_filters = record { status = none; severity = none; source = ""; q = ""; sort = "-timestamp" }

abbrev pub initial : AlertList
initial = record {
  alerts = [];
  loading = true;
  error = none;
  stats_total = 0;
  stats_new = 0;
  page = 1;
  page_size = 25;
  total_alerts = 0;
  total_pages = 1;
  filter_params = no_filters;
  sort_field = "timestamp";
  sort_dir = desc;
  selected_ids = [];
  selected_count = 0;
  select_all_checked = false;
  live_enabled = true;
  new_alert_count = 0;
}

-- `a || b` of texts that may be missing; the empty text counts as missing.
abbrev pub or_else : Option String → Option String → Option String
or_else none b = b
or_else (some a) b = if a == "" then b else some a

-- A missing name used as a key is the text "undefined".
abbrev pub as_key : Option String → String
as_key none = "undefined"
as_key (some a) = a

abbrev pub key : Alert → String
key a = as_key (or_else a.id a.event_id)

abbrev pub is_member : String → List String → Bool
is_member k ks = any (λ j. j == k) ks

abbrev pub insert_key : String → List String → List String
insert_key k ks = if is_member k ks then ks else ks ++ k ∷ []

abbrev pub delete_key : String → List String → List String
delete_key k ks = filter (λ j. not (j == k)) ks

abbrev pub unless_empty : String → Option String
unless_empty s = if s == "" then none else some s

-- A status that is the empty text, and the severity 0, are not sent.
abbrev pub unless_falsy : Option String → Option String
unless_falsy none = none
unless_falsy (some s) = unless_empty s

abbrev pub unless_zero : Option ℕ → Option ℕ
unless_zero none = none
unless_zero (some n) = if eqb n 0 then none else some n

unfoldable pub load_alerts : AlertList → AlertList × List AlertRequest
load_alerts vm = (
  record vm { loading = true; error = none },
  get_alerts (record {
    size = vm.page_size;
    from = (vm.page - 1) * vm.page_size;
    status = unless_falsy vm.filter_params.status;
    severity = unless_zero vm.filter_params.severity;
    source = unless_empty vm.filter_params.source;
    q = unless_empty vm.filter_params.q;
    sort = unless_empty vm.filter_params.sort;
  })
      ∷ [],
)

-- The answers that are told apart: `hits` with their total, an array, and anything else.
pub data Answer : Type 0 where
  hits : List Alert → ℕ → Answer
  array : List Alert → Answer
  nothing : Answer

-- An alert of the answer gets its name and its mark.
abbrev pub named : List String → Alert → Alert
named ids a =
    let name = or_else (or_else a.id a.event_id) a.other_id in
    record a { id = name; selected = is_member (as_key name) ids }

unfoldable pub on_alerts : Answer → AlertList → AlertList
on_alerts (hits found n) vm = record vm {
  alerts = map (named vm.selected_ids) found;
  total_alerts = n;
  total_pages = max 1 (ceil n vm.page_size);
  loading = false;
  new_alert_count = 0;
}
on_alerts (array found) vm = record vm {
  alerts = found;
  total_alerts = length found;
  total_pages = 1;
  loading = false;
  new_alert_count = 0;
}
on_alerts nothing vm = record vm {
  alerts = [];
  total_alerts = 0;
  total_pages = 1;
  loading = false;
  new_alert_count = 0;
}

unfoldable pub on_alerts_error : AlertList → AlertList
on_alerts_error vm = record vm {
  error = some "Failed to load alerts. Please try again.";
  loading = false;
  alerts = [];
}

unfoldable pub on_stats : ℕ → ℕ → AlertList → AlertList
on_stats total fresh vm = record vm { stats_total = total; stats_new = fresh }

unfoldable pub refresh : AlertList → AlertList × List AlertRequest
unfolding load_alerts
refresh vm = ((load_alerts vm).0, (load_alerts vm).1 ++ get_stats ∷ [])
