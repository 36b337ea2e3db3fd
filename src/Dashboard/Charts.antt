-- ===== src/Dashboard/Charts.antt =====
-- What the charts of a dashboard count, and which of their searches open.
use neural_vyuha_prime.Common.{
  String, Bool, true, false, not, ◌&&◌, ◌||◌, Option, none, some, List, ◌==◌, ok, type_error,
  ok-injective, Number, ◌≡◌, ◌↔◌, refl, sym, ◌∙◌, ap, arith, eq_iff, Bool-cases, inl, inr,
}
use neural_vyuha_prime.Query.{Scalar, Query, Filter}
use neural_vyuha_prime.Query.Builder.{Engine}
use neural_vyuha_prime.Query.Meaning.{Server, selects}
use neural_vyuha_prime.Paging.{is_empty}
use neural_vyuha_prime.Paging.Loading.{holds_of_is_empty}
use neural_vyuha_prime.Dashboard.{
  PeriodQuery, between, after, before, is_given, start_bound, end_bound, custom_query,
  build_period_query, ChartQuery, everything, in_period, filtered, both, build_chart_query,
  open_search,
}

-- A server's reading of a chart's query: `within` is its reading of the periods.
module _ (s : Server) (x : Server.Entity s) (within : PeriodQuery → Bool) where
  abbrev pub holds_chart : ChartQuery → Bool
  holds_chart everything = true
  holds_chart (in_period p) = within p
  holds_chart (filtered q) = Server.holds s q x
  holds_chart (both p q) = within p && Server.holds s q x

  abbrev pub in_time : Option PeriodQuery → Bool
  in_time none = true
  in_time (some p) = within p

  -- A chart counts what lies in the period and what its own query selects.
  pub holds-build_chart_query :
      (p : Option PeriodQuery) (q : Option Query)
      → holds_chart (build_chart_query p q) ≡ (in_time p && selects s q x)
  unfolding build_chart_query
  holds-build_chart_query none none = refl
  holds-build_chart_query none (some q) = elim (Bool-cases (is_empty (some q))) [
    | inl empty ↦ rw (empty, holds_of_is_empty s x q empty)
    | inr full ↦ rw full
  ]
  holds-build_chart_query (some p) none = ground arith
  holds-build_chart_query (some p) (some q) = elim (Bool-cases (is_empty (some q))) [
    | inl empty ↦ rw (empty, holds_of_is_empty s x q empty) (ground arith)
    | inr full ↦ rw full
  ]

abbrev pub IsNamed : String → Type 0
IsNamed p =
    (p == "last7Days" || p == "last30Days" || p == "last3Months" || p == "custom" || p == "all")
    ≡ true

abbrev is_one_sided : Option PeriodQuery → Bool
is_one_sided none = false
is_one_sided (some (between field from to)) = false
is_one_sided (some (after field from)) = true
is_one_sided (some (before field to)) = true

open_search-one_sided :
    (p : Option PeriodQuery) (filters serie : List Filter)
    → (open_search false p filters serie ≡ type_error) ↔ (is_one_sided p ≡ true)
unfolding open_search
open_search-one_sided none filters serie = (λ h. cc, λ h. cc)
open_search-one_sided (some (between field from to)) filters serie = (λ h. cc, λ h. cc)
open_search-one_sided (some (after field from)) filters serie = (λ h. refl, λ h. refl)
open_search-one_sided (some (before field to)) filters serie = (λ h. refl, λ h. refl)

module _ (e : Engine) (moment : Scalar → Number) (today : Number) (field : String) where
  -- The query of a period throws exactly if the period is none of the five and is given, or is not
  -- given while a bound is.
  pub build_period_query-throws_iff :
      (period : String) (start end : Option Scalar)
      → (build_period_query e moment today period field start end ≡ type_error) ↔ (
          ((not (period == "") || is_given start || is_given end)
            && not (
                period == "last7Days"
                || period == "last30Days"
                || period == "last3Months"
                || period == "custom"
                || period == "all"))
          ≡ true)
  unfolding build_period_query
  build_period_query-throws_iff period start end = ground arith

  one_sided-custom :
      (start end : Option Scalar)
      → is_one_sided
          (some (custom_query e moment field (start_bound e moment start) (end_bound e moment end)))
        ≡ not (is_given start && is_given end)
  one_sided-custom none none = refl
  one_sided-custom none (some b) = ground arith
  one_sided-custom (some a) none = ground arith
  one_sided-custom (some a) (some b) = ground arith

  one_sided-period :
      (period : String) (start end : Option Scalar) (p : Option PeriodQuery)
      → build_period_query e moment today period field start end ≡ ok p
      → is_one_sided p ≡ (period == "custom" && not (is_given start && is_given end))
  unfolding build_period_query
  one_sided-period period start end p made = elim (Bool-cases (period == "custom")) [
    | inl custom ↦
        let named = (eq_iff period "custom").0 custom in
        rw custom
          (ap is_one_sided (sym (ok-injective (rw named at made))) ∙ one_sided-custom start end)
    | inr other ↦ ground (arith, other)
  ]

  -- A click on a chart throws exactly if the period of the dashboard is a custom one without both
  -- bounds.
  pub open_search-throws_iff :
      (period : String) (start end : Option Scalar) (p : Option PeriodQuery)
      (filters serie : List Filter)
      → build_period_query e moment today period field start end ≡ ok p
      → (open_search false p filters serie ≡ type_error)
        ↔ ((period == "custom" && not (is_given start && is_given end)) ≡ true)
  open_search-throws_iff period start end p filters serie made =
      rw (← one_sided-period period start end p made) (open_search-one_sided p filters serie)
