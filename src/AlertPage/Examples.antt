-- ===== src/AlertPage/Examples.antt =====
-- A page of two alerts, one of them selected.
use neural_vyuha_prime.Common.{true, false, none, some, List, [], ◌∷◌, map, ◌≡◌, refl, ok, all}
use mathlib.Core.Bool.{beq}
use neural_vyuha_prime.Query.{text, Value, FieldDef}
use neural_vyuha_prime.Query.Examples.{plain_engine}
use neural_vyuha_prime.Filtering.{Filtering, own, contents, snapshot}
use neural_vyuha_prime.Filtering.Examples.{no_moment}
use neural_vyuha_prime.Paging.{PagedQuery, new}
use neural_vyuha_prime.Paging.Examples.{constant_hash}
use neural_vyuha_prime.AlertPage.{
  Row, Menu, AlertPage, AlertCall, paged, update_menu, bulk_mark_as_read, mark_as_read,
}
use neural_vyuha_prime.AlertPage.Feeds.{alert_settings, filter_by_value}
use neural_vyuha_prime.AlertPage.Menus.{bulk_mark_as_read-offered}
use neural_vyuha_prime.AlertPage.FilterBy.Criterion.{wanted_criterion, filter_for}
use neural_vyuha_prime.AlertPage.FilterBy.{criteria_sent, sent_once, filter_by_value-sends}

abbrev severity_def : FieldDef
severity_def = record {
  type = "enumeration";
  values = some (text "low" ∷ text "high" ∷ []);
  labels = some (text "Low" ∷ text "High" ∷ []);
}

abbrev page_filtering : Filtering
page_filtering = record {
  state = "list";
  defaults = record {
    show_filters = true;
    show_stats = false;
    page_size = some 15;
    sort = "-date" ∷ [];
  };
  default_filter = some [];
  attributes = ("severity", severity_def) ∷ [];
  context = record {
    state = "list";
    show_filters = true;
    show_stats = false;
    show_advanced = some true;
    page_size = 15;
    sort = "+severity" ∷ [];
    filters = own (some []);
  };
  stored = none;
}

abbrev no_menu : Menu
no_menu = record {
  select_all = false;
  follow = false;
  unfollow = false;
  mark_as_read = false;
  mark_as_unread = false;
  create_new_case = false;
  merge_in_case = false;
  delete = false;
}

abbrev unread : Row
unread = record { id = "a1"; follow = true; read = false; case_id = none; selected = true }

abbrev rows_query : PagedQuery Row
rows_query = new (some 15) none none

abbrev page : AlertPage
page = record {
  filtering = page_filtering;
  feed = paged (alert_settings ("+severity" ∷ [])) rows_query;
  former = [];
  selection = unread ∷ [];
  menu = no_menu;
}

offers_read : (update_menu page).menu.mark_as_read ≡ true
unfolding update_menu
offers_read = refl

bulk_mark_as_read-offered_example :
    (bulk_mark_as_read true (update_menu page) ≡ ok (map mark_as_read ("a1" ∷ [])))
    × (all (λ (r : Row). beq r.read false) page.selection ≡ true)
bulk_mark_as_read-offered_example = bulk_mark_as_read-offered true page offers_read

filter_by_value-sends_example :
    (w : AlertPage) × (calls : List AlertCall) × (filter_by_value plain_engine constant_hash false
        no_moment "severity"
        (text "high")
        page
      ≡ ok (w, calls))
    × (map criteria_sent calls
        ≡ sent_once false (wanted_criterion severity_def "severity" (text "high")))
    × ((x : Value) × (contents w.filtering ≡ some (filter_for "severity" severity_def x ∷ [])))
    × (w.filtering.stored ≡ some (snapshot w.filtering))
filter_by_value-sends_example =
    filter_by_value-sends plain_engine constant_hash false no_moment "severity" (some severity_def)
      (text "high") page refl ((_, refl), (_, refl), refl)
