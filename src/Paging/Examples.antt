-- ===== src/Paging/Examples.antt =====
-- Two lists of cases.
use neural_vyuha_prime.Common.{
  ℕ, String, Bool, true, false, Option, none, some, [], ◌∷◌, ◌≡◌, refl, arith,
}
use neural_vyuha_prime.Query.{Query}
use neural_vyuha_prime.Query.Pipeline.{named}
use neural_vyuha_prime.Paging.{Settings, PagedQuery, new, on_list, list_options}
use neural_vyuha_prime.Paging.Slices.{first_pages}
use neural_vyuha_prime.Paging.Pages.{asks_for, page_shown, load_all-pages, requested_page}

abbrev case_settings : Bool → Settings
case_settings whole = record {
  version = "v1";
  operations = named "listCase" [] ∷ [];
  load_all = whole;
  sort = none;
  name = some "cases";
  config = none;
  limited_count = false;
  extra_data = none;
}

abbrev pub constant_hash : Option Query → String
constant_hash q = "d41d8cd9"

abbrev two_per_page : PagedQuery ℕ
two_per_page = new (some 2) none none

load_all-pages_example :
    first_pages
      (page_shown
        (case_settings true)
        constant_hash
        (on_list (case_settings true) constant_hash (7 ∷ 8 ∷ 9 ∷ []) two_per_page).0)
      2
    ≡ 7 ∷ 8 ∷ 9 ∷ []
load_all-pages_example =
    load_all-pages (case_settings true) constant_hash two_per_page (7 ∷ 8 ∷ 9 ∷ []) 2 refl
      (omega arith)

abbrev next_page : PagedQuery ℕ
next_page = record two_per_page { current_page = 3 }

requested_page_example : asks_for (list_options (case_settings false) next_page).page 5 ≡ true
requested_page_example =
    requested_page (case_settings false) constant_hash two_per_page 2 2 1 refl (omega arith)
