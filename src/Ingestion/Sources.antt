-- ===== src/Ingestion/Sources.antt =====
-- The switches and the limits of the sources in nvIngestionControlController.js. The switch of a
-- source is turned before the server is asked, and turned back where it refuses.
use neural_vyuha_prime.Common.{ℕ, Bool, not, Option, List, [], ◌∷◌, map, eqb, if◌then◌else◌}
use neural_vyuha_prime.Ingestion.{
  Policy, IngestionPage, Call, update_policy, limit_policy, update_stats,
}

abbrev pub set_enabled : ℕ → Bool → List Policy → List Policy
set_enabled ref on ps =
    map (λ (p : Policy). if eqb p.ref ref then record p { enabled = on } else p) ps

-- `toggleSource`, up to its request. What it remembers is `policy.enabled`.
unfoldable pub toggle_source : Policy → IngestionPage → IngestionPage × List Call
toggle_source p vm = (
  record vm { policies = set_enabled p.ref (not p.enabled) vm.policies },
  update_policy p.source (not p.enabled) ∷ [],
)

unfoldable pub on_source_updated : IngestionPage → IngestionPage
unfolding update_stats
on_source_updated vm = update_stats vm

-- The refusal, with the object and the state that were remembered.
unfoldable pub on_source_error : ℕ → Bool → IngestionPage → IngestionPage
on_source_error ref original vm = record vm { policies = set_enabled ref original vm.policies }

-- `updateLimit`, which the two sliders call after they have set the limits; its answer is that of a
-- switch. `none` is the NaN that `parseInt` gives where there is no number.
unfoldable pub update_limit :
    Policy → Option ℕ → Option ℕ → IngestionPage → IngestionPage × List Call
update_limit p eps max_payload vm = (
  record vm {
    policies =
        map
          (λ (q : Policy).
            if eqb q.ref p.ref then record q { eps = eps; max_payload = max_payload } else q)
          vm.policies;
  },
  limit_policy p.source eps max_payload ∷ [],
)
