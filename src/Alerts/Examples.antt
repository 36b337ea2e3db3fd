-- ===== src/Alerts/Examples.antt =====
-- A page of two alerts, one of them selected.
use neural_vyuha_prime.Common.{
  ℕ, inl, String, Bool, true, false, none, some, List, [], ◌∷◌, ◌≡◌, ◌≢◌, refl, arith,
}
use neural_vyuha_prime.Alerts.{
  Alert, AlertList, get_alerts, get_stats, unless_empty, initial, bulk_update, delete,
}
use neural_vyuha_prime.Alerts.Marks.{row, select, IsShown, select-IsShown}
use neural_vyuha_prime.Alerts.Search.{
  SearchPage, on_search_change, on_search_timer, types, changes, asked, on_search_change-settles,
}
use neural_vyuha_prime.Alerts.Bulk.{bulk_all, bulk_all-accepted}

abbrev alert_of : String → Bool → Alert
alert_of id selected = record {
  id = some id;
  event_id = none;
  other_id = none;
  read = false;
  follow = false;
  selected = selected;
  is_new = false;
}

abbrev two_alerts : AlertList
two_alerts = record initial {
  alerts = alert_of "a1" true ∷ alert_of "a2" false ∷ [];
  loading = false;
  total_alerts = 60;
  total_pages = 3;
  selected_ids = "a1" ∷ [];
  selected_count = 1;
}

two_alerts-IsShown : IsShown two_alerts
two_alerts-IsShown = ground arith

select-IsShown_example : IsShown (select (row 1 (alert_of "a2" false)) two_alerts)
select-IsShown_example =
    select-IsShown (row 1 (alert_of "a2" false)) two_alerts (refl, (refl, tt)) two_alerts-IsShown

some_selected : ◌≢◌ {A = List String} ("a1" ∷ []) []
some_selected h = cc

bulk_all-accepted_example :
    let done = bulk_all delete true true two_alerts in
    (done.1
      ≡ bulk_update ("a1" ∷ []) delete
        ∷ get_alerts (record {
          size = 25;
          from = 0;
          status = none;
          severity = none;
          source = none;
          q = none;
          sort = some "-timestamp";
        })
        ∷ get_stats
        ∷ [])
    × (done.0.selected_ids ≡ [])
    × IsShown done.0
bulk_all-accepted_example = bulk_all-accepted delete true two_alerts some_selected refl

abbrev idle_page : SearchPage
idle_page = record { list = two_alerts; search_timeout = none; pending = []; next = 1 }

on_search_change-settles_example :
    let typed = on_search_change "ph" (types (changes "p" ∷ []) idle_page) in
    (t : ℕ) × (typed.pending ≡ t ∷ [])
    × (asked (on_search_timer t typed).1 ≡ (0, unless_empty "ph") ∷ [])
    × ((on_search_timer t typed).0.pending ≡ [])
on_search_change-settles_example =
    on_search_change-settles (changes "p" ∷ []) "ph" idle_page (inl refl)
