-- ===== src/Incidents/Examples.antt =====
-- A list of forty-five incidents.
use neural_vyuha_prime.Common.{ℕ, false, [], ◌≡◌}
use neural_vyuha_prime.Incidents.{IncidentList, initial}
use neural_vyuha_prime.Incidents.Timers.{start, toggles, destroy, NoLeak, toggles-NoLeak-destroy}

abbrev listed : IncidentList ℕ
listed = record initial { total = 45; total_groups = 45; loading = false; is_loading = false }

toggles-NoLeak-destroy_example :
    NoLeak (toggles 3 start) × ((destroy (toggles 3 start)).running ≡ [])
toggles-NoLeak-destroy_example = toggles-NoLeak-destroy 3
