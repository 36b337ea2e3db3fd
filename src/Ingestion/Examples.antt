-- ===== src/Ingestion/Examples.antt =====
-- The engine that is halted, and two sources.
use neural_vyuha_prime.Common.{
  ℕ, String, Bool, true, false, none, some, List, [], ◌∷◌, ◌≡◌, refl, any, eqb, ◌+◌, ◌/◌,
}
use neural_vyuha_prime.Ingestion.{
  Policy, IngestionPage, Action, initial, calls_of, update_stats, on_engine_status,
  toggle_master_switch, execute_confirm,
}
use neural_vyuha_prime.Ingestion.Confirming.{
  confirm, switch_engine, told, happens, handle, run, is_dangerous, asks, dangerous-confirmed,
}
use neural_vyuha_prime.Ingestion.Sources.{toggle_source, on_source_updated, on_source_error}
use neural_vyuha_prime.Ingestion.Stale.{on_source_error-stale}
use neural_vyuha_prime.Ingestion.Sharing
use neural_vyuha_prime.Ingestion.Sharing.{World, toggled, refused, IsConsistent, run-shows}
use neural_vyuha_prime.Ingestion.Forms.Fields.{Padded, field_paths-padded}
use neural_vyuha_prime.Ingestion.Forms.{
  field_paths, format_uptime, minutes_of, IsClock, format_uptime_lem,
}

halting : any is_dangerous (happens confirm (run (switch_engine ∷ told none ∷ []) initial)).1 ≡ true
unfolding run happens handle on_engine_status toggle_master_switch execute_confirm
halting = refl

dangerous-confirmed_example :
    let vm = run (switch_engine ∷ told none ∷ []) initial in
    (◌≡◌ confirm confirm)
    × (vm.show_confirm ≡ true)
    × ((a : Action) × (vm.confirm_prompt ≡ asks a) × ((happens confirm vm).1 ≡ calls_of a))
dangerous-confirmed_example = dangerous-confirmed (switch_engine ∷ told none ∷ []) confirm halting

abbrev policy : ℕ → String → Bool → Policy
policy ref source enabled = record {
  ref = ref;
  source = source;
  enabled = enabled;
  eps = some 100;
  max_payload = some 512;
}

abbrev two_sources : IngestionPage
two_sources = record initial { policies = policy 1 "wazuh" false ∷ policy 2 "misp" true ∷ [] }

abbrev world : World
world = record { page = two_sources; server = λ r. eqb r 2; pending = λ r. [] }

world-IsConsistent : IsConsistent world
world-IsConsistent = record { switches = (refl, (refl, tt)); remembered = λ r b bs e. cc }

abbrev switched_back : List Sharing.Event
switched_back = toggled 1 ∷ refused 1 0 ∷ toggled 2 ∷ []

found :
    Sharing.find_policy 1 (Sharing.run switched_back world).page.policies
    ≡ some (policy 1 "wazuh" false)
unfolding Sharing.run Sharing.step toggle_source on_source_error
found = refl

free : (Sharing.run switched_back world).pending 1 ≡ []
unfolding Sharing.run Sharing.step toggle_source on_source_error
free = refl

run-shows_example : (policy 1 "wazuh" false).enabled ≡ (Sharing.run switched_back world).server 1
unfolding Sharing.step toggle_source on_source_error
run-shows_example =
    run-shows switched_back 1 (policy 1 "wazuh" false) world (refl, (tt, (refl, tt)))
      world-IsConsistent found free

on_source_error-stale_example :
    let both =
      (toggle_source
        (policy 2 "misp" true)
        (toggle_source (policy 1 "wazuh" false) two_sources).0).0 in
    let answered = on_source_error 1 false (on_source_updated both) in
    answered.stats.active_sources ≡ (update_stats answered).stats.active_sources + 1
on_source_error-stale_example =
    on_source_error-stale (policy 1 "wazuh" false) (policy 2 "misp" true) two_sources refl refl refl

format_uptime_lem_example :
    (minutes_of (format_uptime 3725) ≡ 3725 / 60) × IsClock (format_uptime 3725)
format_uptime_lem_example = format_uptime_lem 3725

-- `a , b`
abbrev field_a : Padded
field_a = record { before = []; field = 97 ∷ []; behind = 32 ∷ [] }

abbrev field_b : Padded
field_b = record { before = 32 ∷ []; field = 98 ∷ []; behind = [] }

field_paths-padded_example : field_paths (97 ∷ 32 ∷ 44 ∷ 32 ∷ 98 ∷ []) ≡ (97 ∷ []) ∷ (98 ∷ []) ∷ []
field_paths-padded_example =
    field_paths-padded field_a (field_b ∷ [])
      ((refl, refl, refl, refl), ((refl, refl, refl, refl), tt))
