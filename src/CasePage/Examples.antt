-- ===== src/CasePage/Examples.antt =====
-- A page of cases whose "select all" is checked.
use neural_vyuha_prime.Common.{◌||◌, true, false, ◌&&◌, none, some, [], ◌∷◌, ◌≡◌, refl, ok, ◌>>=◌}
use neural_vyuha_prime.Query.{Query, text, scalar, field_is, FieldDef}
use neural_vyuha_prime.Query.Meaning.{Server}
use neural_vyuha_prime.Query.Examples.{plain_engine, small_server, open_case}
use neural_vyuha_prime.Filtering.{Filtering, own, build_query}
use neural_vyuha_prime.Filtering.Examples.{no_moment}
use neural_vyuha_prime.CasePage.Presets.{User, my_open_filters}
use neural_vyuha_prime.CasePage.Presets.Meaning.{my_open_filters-selects}

abbrev case_status : FieldDef
case_status = record {
  type = "enumeration";
  values = some (text "Open" ∷ text "Resolved" ∷ []);
  labels = some (text "Open" ∷ text "Resolved" ∷ []);
}

abbrev case_organisation : FieldDef
case_organisation = record { type = "string"; values = some []; labels = none }

abbrev case_filtering : Filtering
case_filtering = record {
  state = "list";
  defaults = record {
    show_filters = true;
    show_stats = false;
    page_size = some 15;
    sort = "-flag" ∷ "-startDate" ∷ [];
  };
  default_filter = some [];
  attributes = ("status", case_status) ∷ ("owningOrganisation", case_organisation) ∷ [];
  context = record {
    state = "list";
    show_filters = true;
    show_stats = false;
    show_advanced = some true;
    page_size = 15;
    sort = "-flag" ∷ "-startDate" ∷ [];
    filters = own (some []);
  };
  stored = none;
}

abbrev ada : User
ada = record { login = "ada"; name = "Ada"; organisation = "cert" }

my_open_filters-selects_example :
    (q : Query) × ((my_open_filters plain_engine no_moment ada case_filtering
        >>= build_query plain_engine)
      ≡ ok q)
    × (Server.holds small_server q open_case ≡ (
        Server.holds small_server (field_is (some "assignee") (scalar (text "ada"))) open_case
        && (false
            || Server.holds small_server
                (field_is (some "status") (scalar (text "Open")))
                open_case)))
my_open_filters-selects_example =
    my_open_filters-selects plain_engine no_moment small_server open_case ada case_filtering
      (some case_status) refl (refl, (_, refl), (_, refl))
