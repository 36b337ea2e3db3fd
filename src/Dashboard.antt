-- ===== src/Dashboard.antt =====
-- nv-ui/app/scripts/services/api/DashboardSrv.js, nv-ui/app/scripts/controllers/dashboard/
-- DashboardViewCtrl.js and nv-ui/app/scripts/directives/dashboard/counter.js: the period of a
-- dashboard, the query of its charts, and the search that a chart opens.
--
-- The saving and the export of dashboards, the dialogs and the drawing of charts are left out.
pub mod Fields
pub mod Charts
pub mod View
pub mod Streams
pub mod Refresh
mod Examples
use neural_vyuha_prime.Common.{
  ℕ, String, Bool, true, false, not, ◌&&◌, ◌||◌, Option, none, some, List, [], ◌∷◌, ◌++◌, map, ◌==◌,
  if◌then◌else◌, Result, ok, type_error, ◌>>=◌, Number,
}
use neural_vyuha_prime.Query.{Scalar, Query, Filter, is_truthy_scalar}
use neural_vyuha_prime.Query.Builder.{Engine, DateUnit, days, months}
use neural_vyuha_prime.Paging.{is_empty}

-- `_between`, `_gt` and `_lt` of a field; the bound of the last is `null` where it is `none`.
pub data PeriodQuery : Type 0 where
  between : String → Number → Number → PeriodQuery
  after : String → Number → PeriodQuery
  before : String → Option Number → PeriodQuery

abbrev pub is_given : Option Scalar → Bool
is_given none = false
is_given (some s) = is_truthy_scalar s

-- `moment` is `moment(value).valueOf()`.
module _ (e : Engine) (moment : Scalar → Number) where
  abbrev pub start_bound : Option Scalar → Option Number
  start_bound none = none
  start_bound (some s) = if is_truthy_scalar s then some (moment s) else none

  abbrev pub end_bound : Option Scalar → Option Number
  end_bound none = none
  end_bound (some s) = if is_truthy_scalar s then some (e.last_ms_of_day (moment s)) else none

  abbrev pub custom_query : String → Option Number → Option Number → PeriodQuery
  custom_query field (some from) (some to) = between field from to
  custom_query field (some from) none = after field from
  custom_query field none to = before field to

  -- `today` is the midnight at which the present day starts. For another period than the five, `from`
  -- is `undefined` and reading its `valueOf` throws.
  unfoldable pub build_period_query :
      Number → String → String → Option Scalar → Option Scalar → Result (Option PeriodQuery)
  build_period_query today period field start end =
      let last = λ (from : Number). ok (some (between field from (e.last_ms_of_day today))) in
      if period == "" && (not (is_given start) && not (is_given end))
      then ok none
      else if period == "last7Days"
      then last (e.subtract today 7 days)
      else if period == "last30Days"
      then last (e.subtract today 30 days)
      else if period == "last3Months"
      then last (e.subtract today 3 months)
      else if period == "custom"
      then ok (some (custom_query field (start_bound start) (end_bound end)))
      else if period == "all"
      then ok none
      else type_error

-- `{}`, one criterion, or the two under `_and`.
pub data ChartQuery : Type 0 where
  everything : ChartQuery
  in_period : PeriodQuery → ChartQuery
  filtered : Query → ChartQuery
  both : PeriodQuery → Query → ChartQuery

-- `buildChartQuery` of the period of the dashboard and the query of a widget.
unfoldable pub build_chart_query : Option PeriodQuery → Option Query → ChartQuery
build_chart_query none none = everything
build_chart_query none (some q) = if is_empty (some q) then everything else filtered q
build_chart_query (some p) none = in_period p
build_chart_query (some p) (some q) = if is_empty (some q) then in_period p else both p q

-- The filter for the period in `openSearch`: only `_between` has the fields that it reads.
unfoldable pub time_frame : Option PeriodQuery → Result (List (String × (Number × Number)))
time_frame none = ok []
time_frame (some (between field from to)) = ok ((field, (from, to)) ∷ [])
time_frame (some (after field from)) = type_error
time_frame (some (before field to)) = type_error

-- What `openSearch` saves for the search page: the text "*" or nothing, and the filters, those for
-- the period last.
pub record SavedSearch : Type 0 where
  pub search : Option String
  pub filters : List Filter
  pub frame : List (String × (Number × Number))

abbrev pub is_nil {ℓ} : {A : Type ℓ} → List A → Bool
is_nil [] = true
is_nil (x ∷ xs) = false

unfoldable pub open_search :
    Bool → Option PeriodQuery → List Filter → List Filter → Result (Option SavedSearch)
unfolding time_frame
open_search editing period filters serie_filters =
    if editing
    then ok none
    else (time_frame period >>= λ frame.
        let all_filters = filters ++ serie_filters in
        ok (
          some (record {
            search = if is_nil all_filters && is_nil frame then some "*" else none;
            filters = all_filters;
            frame = frame;
          })))
