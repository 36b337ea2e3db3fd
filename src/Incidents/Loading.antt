-- ===== src/Incidents/Loading.antt =====
-- What the filters of the incidents ask for, and what an answer leaves.
use neural_vyuha_prime.Common.{ℕ, ◌*◌, String, ◌≡◌, refl, arith, Option, some, List, true, false}
use neural_vyuha_prime.Incidents.{
  IncidentList, Params, load, on_groups, on_groups_error, set_filter, set_severity_filter,
  on_search, clear_search, apply_date_filter, clear_date_filter, filter_status,
}

-- The changes of the filters that load the list again.
pub data FilterOp : Type 0 where
  status : String → FilterOp
  severity : ℕ → FilterOp
  search no_search dates no_dates : FilterOp
  status_only : String → FilterOp

module _ {A : Type 0} (end_of_day : ℕ → ℕ) where
  unfoldable pub apply : FilterOp → IncidentList A → IncidentList A × Option Params
  apply (status s) vm = set_filter s vm
  apply (severity n) vm = set_severity_filter n vm
  apply search vm = on_search vm
  apply no_search vm = clear_search vm
  apply dates vm = apply_date_filter end_of_day vm
  apply no_dates vm = clear_date_filter vm
  apply (status_only s) vm = filter_status s vm

  -- Where the request of a changed filter starts: at the first incident, but at the page that was
  -- shown for `filterStatus`.
  abbrev pub start_of : FilterOp → IncidentList A → ℕ
  start_of (status_only s) vm = vm.current_page * vm.page_size
  start_of _ vm = 0

  -- Every change of a filter sends one request, for a whole page of the incidents that the changed
  -- parameters select. It starts at the first incident, except that `filterStatus` stays on the page
  -- that was shown.
  pub apply-request :
      (op : FilterOp) (vm : IncidentList A)
      → (apply op vm).1
        ≡ some (record ((apply op vm).0.params) { size = vm.page_size; from = start_of op vm })
  unfolding apply set_filter set_severity_filter on_search clear_search apply_date_filter
      clear_date_filter filter_status
  apply-request (status s) vm = ground arith
  apply-request _ vm = ground arith

  -- The severity that is requested is the highlighted one.
  abbrev pub IsSynced : IncidentList A → Type 0
  IsSynced vm = vm.params.severity ≡ vm.severity_filter

  -- Every change of a filter keeps the requested severity the one that is highlighted, if it was
  -- before.
  pub apply-IsSynced :
      (op : FilterOp) (vm : IncidentList A) → IsSynced vm → IsSynced (apply op vm).0
  unfolding apply set_filter set_severity_filter on_search clear_search apply_date_filter
      clear_date_filter filter_status
  apply-IsSynced (status s) vm h = h
  apply-IsSynced (severity n) vm h = refl
  apply-IsSynced _ vm h = h

  -- After a request and its answer the list is no longer marked as loading; but its second mark,
  -- `isLoading`, goes with a good answer only: after a failed one it stays set, and so does the
  -- number of incidents that the pages go by.
  pub answer-loading :
      (vm : IncidentList A) (items : List A) (n : ℕ)
      → ((on_groups items n (load vm).0).loading ≡ false)
        × ((on_groups items n (load vm).0).is_loading ≡ false)
        × ((on_groups_error (load vm).0).loading ≡ false)
        × ((on_groups_error (load vm).0).is_loading ≡ true)
        × ((on_groups_error (load vm).0).total ≡ 0)
        × ((on_groups_error (load vm).0).total_groups ≡ vm.total_groups)
  unfolding on_groups on_groups_error load
  answer-loading vm items n = (refl, refl, refl, refl, refl, refl)
