-- ===== src/Ingestion/Rules.antt =====
-- The switches of the drop rules and of the correlation rules in nvIngestionControlController.js.
use neural_vyuha_prime.Common.{String, Bool, not, List, [], ◌∷◌, map, ◌==◌, if◌then◌else◌}
use neural_vyuha_prime.Ingestion.{IngestionPage, Rule, Call, toggle_rule, toggle_correlation}

-- The rule of an id, with another state.
abbrev pub set_rule : String → Bool → List Rule → List Rule
set_rule id on rules = map (λ (r : Rule). if r.id == id then record r { active = on } else r) rules

unfoldable pub toggle_drop_rule : Rule → IngestionPage → IngestionPage × List Call
toggle_drop_rule rule vm = (vm, toggle_rule rule.id (not rule.active) ∷ [])

-- The answer to `toggleDropRule` turns the state of the rule as it is then.
unfoldable pub on_drop_rule : String → IngestionPage → IngestionPage
on_drop_rule id vm = record vm {
  drop_rules =
      map (λ (r : Rule). if r.id == id then record r { active = not r.active } else r)
        vm.drop_rules;
}

unfoldable pub toggle_correlation_rule : Rule → IngestionPage → IngestionPage × List Call
toggle_correlation_rule rule vm = (vm, toggle_correlation rule.id (not rule.active) ∷ [])

-- The answer to `toggleCorrelationRule` sets the state that was asked for.
unfoldable pub on_correlation_rule : String → Bool → IngestionPage → IngestionPage
on_correlation_rule id asked vm = record vm { corr_rules = set_rule id asked vm.corr_rules }
