-- ===== src/Alerts/Pages.antt =====
-- Filters, sorting and pages of nvAlertListController.js.
use neural_vyuha_prime.Common.{
  ℕ, lt-ceil, mul-lt_of_lt-ceil, String, Bool, false, ◌&&◌, Option, none, some, List, [], ◌+◌, ◌*◌,
  ◌-◌, ◌≤◌, ◌<◌, ◌==◌, ◌≡◌, ◌≢◌, ◌↔◌, ◌⊎◌, refl, sym, arith, eqb, ltb, leb, eq_iff, eq_refl,
  if◌then◌else◌, inl, inr,
}
use mathlib.Core.Bool.{true≢false}
use native.Mathlib.Decide.{dec_lt}
use Prim.Native.String
use neural_vyuha_prime.Alerts.{
  Alert, AlertList, AlertRequest, Direction, asc, desc, no_filters, load_alerts, on_alerts, hits,
}

abbrev pub same_text : Option String → String → Bool
same_text none s = false
same_text (some t) s = t == s

abbrev pub same_number : Option ℕ → ℕ → Bool
same_number none n = false
same_number (some m) n = eqb m n

unfoldable pub set_status_filter : String → AlertList → AlertList × List AlertRequest
unfolding load_alerts
set_status_filter status vm = load_alerts (record vm {
  filter_params = record (vm.filter_params) {
    status = if same_text vm.filter_params.status status then none else some status;
  };
  page = 1;
})

unfoldable pub set_severity_filter : ℕ → AlertList → AlertList × List AlertRequest
unfolding load_alerts
set_severity_filter severity vm = load_alerts (record vm {
  filter_params = record (vm.filter_params) {
    severity = if same_number vm.filter_params.severity severity then none else some severity;
  };
  page = 1;
})

unfoldable pub clear_filters : AlertList → AlertList × List AlertRequest
unfolding load_alerts
clear_filters vm = load_alerts (record vm { filter_params = no_filters; page = 1 })

abbrev pub flip : Direction → Direction
flip asc = desc
flip desc = asc

abbrev pub sort_text : Direction → String → String
sort_text asc field = String.◌++◌ "+" field
sort_text desc field = String.◌++◌ "-" field

unfoldable pub sort_by : String → AlertList → AlertList × List AlertRequest
unfolding load_alerts
sort_by field vm =
    let dir = if vm.sort_field == field then flip vm.sort_dir else desc in
    load_alerts (record vm {
      sort_field = field;
      sort_dir = dir;
      filter_params = record (vm.filter_params) { sort = sort_text dir field };
    })

unfoldable pub get_sort_icon : String → AlertList → String
get_sort_icon field vm =
    if vm.sort_field == field
    then elim vm.sort_dir [ asc ↦ "fa-caret-up" | desc ↦ "fa-caret-down" ]
    else "fa-sort"

unfoldable pub prev_page : AlertList → AlertList × List AlertRequest
unfolding load_alerts
prev_page vm = if ltb 1 vm.page then load_alerts (record vm { page = vm.page - 1 }) else (vm, [])

unfoldable pub next_page : AlertList → AlertList × List AlertRequest
unfolding load_alerts
next_page vm =
    if ltb vm.page vm.total_pages then load_alerts (record vm { page = vm.page + 1 }) else (vm, [])

unfoldable pub go_to_page : ℕ → AlertList → AlertList × List AlertRequest
unfolding load_alerts
go_to_page p vm =
    if leb 1 p && leb p vm.total_pages then load_alerts (record vm { page = p }) else (vm, [])

-- The text that is sent is that of the field and the direction that are shown.
abbrev pub IsSortShown : AlertList → Type 0
IsSortShown vm = vm.filter_params.sort ≡ sort_text vm.sort_dir vm.sort_field

pub data ListOp : Type 0 where
  status : String → ListOp
  severity : ℕ → ListOp
  sorts : String → ListOp
  prev next : ListOp
  go_to : ℕ → ListOp

unfoldable pub apply : ListOp → AlertList → AlertList × List AlertRequest
apply (status s) vm = set_status_filter s vm
apply (severity n) vm = set_severity_filter n vm
apply (sorts f) vm = sort_by f vm
apply prev vm = prev_page vm
apply next vm = next_page vm
apply (go_to p) vm = go_to_page p vm

abbrev pub InPages : AlertList → Type 0
InPages vm = (1 ≤ vm.page) × (vm.page ≤ vm.total_pages)

-- Every change of the filter, the sorting or the page leaves a page that exists and a sorting that
-- is the one shown, if they were before.
pub apply-InPages :
    (op : ListOp) (vm : AlertList)
    → InPages vm
    → IsSortShown vm
    → InPages (apply op vm).0 × IsSortShown (apply op vm).0
unfolding apply set_status_filter set_severity_filter sort_by prev_page next_page go_to_page
    load_alerts
apply-InPages (status s) vm (low, high) h = ground arith
apply-InPages (severity n) vm (low, high) h = ground arith
apply-InPages (sorts f) vm (low, high) h = ground arith
apply-InPages prev vm (low, high) h = ground arith
apply-InPages next vm (low, high) h = ground arith
apply-InPages (go_to p) vm (low, high) h = ground arith

icon-ne :
    (d : Direction)
    → ◌≢◌ {A = String} (elim d [ asc ↦ "fa-caret-up" | desc ↦ "fa-caret-down" ]) "fa-sort"
icon-ne asc h = true≢false (sym ((eq_iff "fa-caret-up" "fa-sort").1 h))
icon-ne desc h = true≢false (sym ((eq_iff "fa-caret-down" "fa-sort").1 h))

-- After `clearFilters` the list is requested by date again, but the page still shows the field that
-- the user sorted by last as the one in use.
pub sort_by-clear_filters :
    (field : String) (vm : AlertList)
    → let t = (clear_filters (sort_by field vm).0).0 in
      (t.filter_params.sort ≡ "-timestamp") × (get_sort_icon field t ≢ "fa-sort")
unfolding clear_filters sort_by get_sort_icon load_alerts
sort_by-clear_filters field vm =
    rw (eq_refl field) (refl, icon-ne (if vm.sort_field == field then flip vm.sort_dir else desc))

-- An answer may leave a page that no longer exists: for a positive page size, and a page from 1 on,
-- the page exists exactly if it is the first one or starts before the end of the alerts.
pub answer-InPages_iff :
    (found : List Alert) (n : ℕ) (vm : AlertList)
    → 0 < vm.page_size
    → 1 ≤ vm.page
    → InPages (on_alerts (hits found n) vm) ↔ ((vm.page ≡ 1) ⊎ ((vm.page - 1) * vm.page_size < n))
unfolding on_alerts
answer-InPages_iff found n vm pos low = (
  λ (one, last). elim (dec_lt 1 vm.page) [
    | yes later ↦ inr (mul-lt_of_lt-ceil (vm.page - 1) n vm.page_size pos (omega arith))
    | no first ↦ inl (omega arith)
  ],
  λ h. elim h [
    | inl first ↦ (low, omega arith)
    | inr inside ↦ (low, omega (arith, lt-ceil (vm.page - 1) n vm.page_size pos inside))
  ],
)
