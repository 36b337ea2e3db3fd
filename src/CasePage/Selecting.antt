-- ===== src/CasePage/Selecting.antt =====
-- The selection of CaseListCtrl.js with rows from the adapter of CaseSrv.js, and the requests of that
-- adapter.
use neural_vyuha_prime.Common.{
  ℕ, String, Bool, true, Option, none, List, [], ◌∷◌, map, Result, ok, type_error, ◌≡◌, refl, sym,
  ap, ok-injective,
}
use neural_vyuha_prime.Query.{Query}
use neural_vyuha_prime.Query.Builder.{Engine}
use neural_vyuha_prime.Filtering.{build_query}
use neural_vyuha_prime.CasePage.{
  CaseAdapter, CasePage, CaseCall, get_cases, rows_of, mark_rows, select_all_cases,
  reset_case_selection, update_case_menu,
}
use neural_vyuha_prime.CasePage.Service.{
  ServiceCase, row_of, size_or_15, case_params, update_case_adapter,
}
use neural_vyuha_prime.CasePage.Feeds.{
  list_cases, load_cases, on_cases, on_cases_error, with_service_rows,
}

-- Once "select all" is checked, every answer of the nv-query service that has cases leaves the list
-- empty: marking its rows throws, and that is taken for a failed answer.
pub on_cases-select_all :
    (a : CaseAdapter) (c : ServiceCase) (cases : List ServiceCase) (total : ℕ) (vm : CasePage)
    → vm.menu.select_all ≡ true
    → (w : CasePage) × (on_cases a (c ∷ cases) total vm ≡ ok w) × (rows_of w.feed ≡ [])
unfolding on_cases on_cases_error reset_case_selection select_all_cases mark_rows update_case_menu
    row_of
on_cases-select_all a c cases total vm checked =
    let empty = with_service_rows [] 0 a vm in
    let w : CasePage =
      update_case_menu
        (record empty { selection = []; menu = record (vm.menu) { select_all = true } }) in
    (w, rw checked refl, refl)

-- Checking it throws while rows of that service are shown.
pub select_all_cases-throws :
    (a : CaseAdapter) (c : ServiceCase) (cases : List ServiceCase) (total : ℕ) (on : Bool)
    (vm : CasePage)
    → select_all_cases on (with_service_rows (map row_of (c ∷ cases)) total a vm) ≡ type_error
unfolding select_all_cases mark_rows row_of
select_all_cases-throws a c cases total on vm = refl

-- Where the service is used, the request of a load is the same whatever the filters, the sort and
-- the page are: it asks for the first page of all cases.
pub load_cases-ignores :
    (e : Engine) (hash : Option Query → String) (vm w : CasePage) (calls : List CaseCall)
    → load_cases e hash true vm ≡ ok (w, calls)
    → calls
      ≡ get_cases
          (record { limit = size_or_15 vm.filtering.context.page_size; offset = 0; status = none })
        ∷ []
unfolding load_cases list_cases update_case_adapter case_params
load_cases-ignores e hash vm w calls h = go (build_query e vm.filtering) refl
  where
    go :
        (r : Result Query)
        → build_query e vm.filtering ≡ r
        → calls
          ≡ get_cases (record {
            limit = size_or_15 vm.filtering.context.page_size;
            offset = 0;
            status = none;
          })
            ∷ []
    go type_error b = let thrown = rw b at h in cc
    go (ok q) b = ap (λ r. r.1) (sym (ok-injective (rw b at h)))
