-- ===== src/CaseRows/Examples.antt =====
-- Forty-five cases.
use neural_vyuha_prime.Common.{ℕ, String, List, [], ◌∷◌, ◌+◌, ◌≡◌, refl, arith, ltb, if◌then◌else◌}
use neural_vyuha_prime.CaseRows.{CaseList, initial, current_page, total_pages}
use neural_vyuha_prime.CaseRows.Walking.{presses, current_page-presses}

abbrev many_cases : CaseList
many_cases = record initial { total = 45 }

abbrev one_row : ℕ → List String
one_row offset = "c" ∷ []

current_page-presses_example :
    current_page (presses one_row 7 many_cases)
    ≡ (if ltb 7 (total_pages many_cases) then 7 + 1 else total_pages many_cases)
current_page-presses_example = current_page-presses one_row 7 many_cases (omega arith) refl
