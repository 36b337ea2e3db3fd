-- ===== src/Fanging/Examples.antt =====
-- The text `HTTP.` made safe.
use neural_vyuha_prime.Common.{false, [], ◌∷◌, ◌≡◌}
use neural_vyuha_prime.Fanging.{Text, fang_value}
use neural_vyuha_prime.Fanging.Twice.{
  has_http, has_bare_dot, fang_value-fang_value, fang_value-safe,
}

abbrev a_link : Text
a_link = 72 ∷ 84 ∷ 84 ∷ 80 ∷ 46 ∷ []

fang_value-fang_value_example : fang_value (fang_value a_link) ≡ fang_value a_link
fang_value-fang_value_example = fang_value-fang_value a_link

fang_value-safe_example :
    (has_http (fang_value a_link) ≡ false) × (has_bare_dot false (fang_value a_link) ≡ false)
fang_value-safe_example = fang_value-safe a_link
