-- ===== src/Dashboard/Examples.antt =====
-- A dashboard with one row and no live stream.
use neural_vyuha_prime.Common.{Bool, true, ◌&&◌, some, ◌≡◌, nan}
use neural_vyuha_prime.Query.{contains}
use neural_vyuha_prime.Query.Examples.{small_server, open_case}
use neural_vyuha_prime.Query.Meaning.{selects}
use neural_vyuha_prime.Dashboard.{PeriodQuery, after, build_chart_query}
use neural_vyuha_prime.Dashboard.Charts.{holds_chart, in_time, holds-build_chart_query}
use neural_vyuha_prime.Dashboard.View.{Widget}

abbrev every_period : PeriodQuery → Bool
every_period p = true

holds-build_chart_query_example :
    holds_chart small_server open_case every_period
      (build_chart_query (some (after "createdAt" nan)) (some (contains (some "tags"))))
    ≡ (in_time small_server open_case every_period (some (after "createdAt" nan))
        && selects small_server (some (contains (some "tags"))) open_case)
holds-build_chart_query_example =
    holds-build_chart_query small_server open_case every_period (some (after "createdAt" nan))
      (some (contains (some "tags")))

abbrev counter : Widget
counter = record { id = "w1"; type = "counter"; entity = "case" }
