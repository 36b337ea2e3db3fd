-- ===== src/Filtering/Examples.antt =====
-- The list of alerts, with a default filter on the status.
use neural_vyuha_prime.Common.{
  String, true, false, none, some, [], ◌∷◌, ◌≡◌, ◌≢◌, refl, sym, eq_iff, Number, nan,
}
use mathlib.Core.Bool.{true≢false}
use neural_vyuha_prime.Query.{Scalar, FieldDef}
use neural_vyuha_prime.Query.Examples.{status_filter}
use neural_vyuha_prime.Common.{ℤ}
use neural_vyuha_prime.Filtering.{json_filters}
use neural_vyuha_prime.Filtering.{Filtering, shared, contents, init_context, snapshot, Snapshot}
use neural_vyuha_prime.Filtering.Storage.{page_size, display, snapshot-init-display}

abbrev title_def : FieldDef
title_def = record { type = "string"; values = some []; labels = none }

abbrev alerts : Filtering
alerts = record {
  state = "alerts";
  defaults = record {
    show_filters = false;
    show_stats = false;
    page_size = some 30;
    sort = "-date" ∷ [];
  };
  default_filter = some (status_filter ∷ []);
  attributes = ("title", title_def) ∷ [];
  context = record {
    state = "alerts";
    show_filters = false;
    show_stats = false;
    show_advanced = some true;
    page_size = 30;
    sort = "-date" ∷ [];
    filters = shared;
  };
  stored = none;
}

abbrev pub no_moment : Scalar → Number
no_moment v = nan

-- A stored copy of the context, as `initContext` makes it.
abbrev alerts_stored : Snapshot
alerts_stored = record {
  state = "alerts";
  show_filters = false;
  show_stats = false;
  show_advanced = some true;
  page_size = 30;
  sort = "-date" ∷ [];
  filters = some (status_filter ∷ []);
}

abbrev alerts_bare : Filtering
alerts_bare = record alerts { default_filter = some []; stored = some alerts_stored }

abbrev no_iso : ℤ → String
no_iso n = "1970"

alerts_named : ◌≢◌ {A = String} "alerts" ""
alerts_named h = true≢false (sym ((eq_iff "alerts" "").1 h))

snapshot-init-display_example :
    snapshot (
      init_context no_iso [] []
        (display (page_size 50) alerts).state
        (display (page_size 50) alerts))
    ≡ record (snapshot (display (page_size 50) alerts)) {
      filters = json_filters no_iso (contents (display (page_size 50) alerts));
    }
snapshot-init-display_example =
    snapshot-init-display no_iso [] [] (page_size 50) alerts alerts_named refl
