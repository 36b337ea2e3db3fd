-- ===== src/Stream/Examples.antt =====
-- Three updates of two cases.
use neural_vyuha_prime.Common.{String, none, List, [], ◌∷◌, filter, ◌==◌, ◌≡◌}
use neural_vyuha_prime.Stream.{Message, group_by}
use neural_vyuha_prime.Stream.Grouping.{entries, one_group, group_by_lem}

abbrev update_of : String → String → Message
update_of root type = record { root_id = root; object_type = type; summary = none }

abbrev three_updates : List Message
three_updates = update_of "c1" "case" ∷ update_of "c2" "task" ∷ update_of "c1" "task" ∷ []

group_by_example :
    entries "c1" (group_by (λ m. m.root_id ∷ []) three_updates [])
    ≡ one_group "c1" (filter (λ m. m.root_id == "c1") three_updates)
group_by_example = group_by_lem (λ m. m.root_id) "c1" three_updates
