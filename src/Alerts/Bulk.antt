-- ===== src/Alerts/Bulk.antt =====
-- The bulk actions of nvAlertListController.js. The notifications are left out.
use neural_vyuha_prime.Common.{
  String, Bool, true, false, not, ◌||◌, List, [], ◌∷◌, ◌++◌, length, ◌-◌, ◌*◌, ◌≡◌, ◌≢◌, refl,
  arith, eqb, if◌then◌else◌,
}
use neural_vyuha_prime.Alerts.{
  AlertList, AlertRequest, AlertParams, get_alerts, get_stats, unless_empty, unless_falsy,
  unless_zero, Change, delete, bulk_update, refresh, load_alerts,
}
use neural_vyuha_prime.Alerts.Selection.{clear_selection, get_selected_ids}
use neural_vyuha_prime.Alerts.Marks.{IsShown, AllMarked-none}

-- Only deleting asks the user first.
abbrev pub is_confirmed : Change → Bool → Bool
is_confirmed delete confirmed = confirmed
is_confirmed _ confirmed = true

-- `bulkMarkRead`, `bulkIgnore`, `bulkFalsePositive`, `bulkDelete` and `bulkPromote` as far as the
-- request.
unfoldable pub bulk : Change → Bool → AlertList → List AlertRequest
unfolding get_selected_ids
bulk change confirmed vm =
    if eqb (length (get_selected_ids vm)) 0
    then []
    else if is_confirmed change confirmed
    then bulk_update (get_selected_ids vm) change ∷ []
    else []

-- What they do when the server has accepted.
unfoldable pub on_bulk : AlertList → AlertList × List AlertRequest
unfolding clear_selection refresh
on_bulk vm = refresh (clear_selection vm)

-- A whole bulk action: the request, and what follows where one was sent and was accepted.
unfoldable pub bulk_all : Change → Bool → Bool → AlertList → AlertList × List AlertRequest
unfolding bulk on_bulk
bulk_all change confirmed accepted vm = elim (bulk change confirmed vm) [
  | [] ↦ (vm, [])
  | r ∷ rs ↦ if accepted then ((on_bulk vm).0, r ∷ rs ++ (on_bulk vm).1) else (vm, r ∷ rs)
]

length-nonempty : (ids : List String) → ids ≢ [] → eqb (length ids) 0 ≡ false
length-nonempty [] h = absurd (h refl)
length-nonempty (i ∷ ids) h = ground arith

bulk-sent :
    (change : Change) (confirmed : Bool) (vm : AlertList)
    → vm.selected_ids ≢ []
    → is_confirmed change confirmed ≡ true
    → bulk change confirmed vm ≡ bulk_update vm.selected_ids change ∷ []
unfolding bulk get_selected_ids
bulk-sent change confirmed vm h yes_do = rw (length-nonempty vm.selected_ids h, yes_do)

-- The page that is shown, under its filters; a filter that is empty, or a severity of 0, is not set.
abbrev pub listing_of : AlertList → AlertParams
listing_of vm = record {
  size = vm.page_size;
  from = (vm.page - 1) * vm.page_size;
  status = unless_falsy vm.filter_params.status;
  severity = unless_zero vm.filter_params.severity;
  source = unless_empty vm.filter_params.source;
  q = unless_empty vm.filter_params.q;
  sort = unless_empty vm.filter_params.sort;
}

-- An accepted bulk action on a selection, confirmed where it has to be, asks the server for the
-- change of exactly the selected alerts, and then for the page of the list that is shown, under its
-- filters, and for the statistics, once each; it leaves nothing selected, with the number and the marks of the rows in agreement.
pub bulk_all-accepted :
    (change : Change) (confirmed : Bool) (vm : AlertList)
    → vm.selected_ids ≢ []
    → is_confirmed change confirmed ≡ true
    → let done = bulk_all change confirmed true vm in
      (done.1 ≡ bulk_update vm.selected_ids change ∷ get_alerts (listing_of vm) ∷ get_stats ∷ [])
      × (done.0.selected_ids ≡ [])
      × IsShown done.0
unfolding bulk_all on_bulk refresh load_alerts clear_selection
bulk_all-accepted change confirmed vm h yes_do =
    rw (bulk-sent change confirmed vm h yes_do, bulk_all)
      (refl, refl, (refl, AllMarked-none vm.alerts))

bulk-idle :
    (change : Change) (confirmed : Bool) (vm : AlertList)
    → (eqb (length vm.selected_ids) 0 || not (is_confirmed change confirmed)) ≡ true
    → bulk change confirmed vm ≡ []
unfolding bulk get_selected_ids
bulk-idle change confirmed vm h = ground arith

-- Without a selection, or where the user does not confirm, nothing is sent and nothing changes.
pub bulk_all-idle :
    (change : Change) (confirmed accepted : Bool) (vm : AlertList)
    → (eqb (length vm.selected_ids) 0 || not (is_confirmed change confirmed)) ≡ true
    → bulk_all change confirmed accepted vm ≡ (vm, [])
unfolding bulk_all
bulk_all-idle change confirmed accepted vm h = rw (bulk-idle change confirmed vm h, bulk_all)
