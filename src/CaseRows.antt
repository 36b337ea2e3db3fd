-- ===== src/CaseRows.antt =====
-- nv-ui/app/scripts/controllers/nv/nvCaseListController.js: the short list of cases, page by page.
pub mod Walking
mod Examples
use neural_vyuha_prime.Common.{
  ℕ, String, Bool, true, false, ◌||◌, Option, none, some, List, [], ◌∷◌, ◌+◌, ◌-◌, ◌/◌, ltb, leb,
  eqb, ceil, length, ◌==◌, if◌then◌else◌,
}

pub record ListParams : Type 0 where
  pub limit : ℕ
  pub offset : ℕ
  pub status : String

pub record CaseList : Type 0 where
  pub loading : Bool
  pub failed : Bool
  pub cases : List String
  pub total : ℕ
  pub params : ListParams

abbrev pub initial : CaseList
initial = record {
  loading = true;
  failed = false;
  cases = [];
  total = 0;
  params = record { limit = 20; offset = 0; status = "Open" };
}

pub record ListRequest : Type 0 where
  pub limit : ℕ
  pub offset : ℕ
  pub status : Option String

-- The status as the server calls it; "All" asks for none.
abbrev pub server_status : String → Option String
server_status s =
    if s == "Resolved" || s == "Closed"
    then some "CLOSED"
    else if s == "Open" || s == "InProgress"
    then some "OPEN"
    else if s == "All"
    then none
    else some s

unfoldable pub load_list : CaseList → CaseList × List ListRequest
load_list vm = (
  record vm { loading = true; failed = false },
  record {
    limit = vm.params.limit;
    offset = vm.params.offset;
    status = server_status vm.params.status;
  }
      ∷ [],
)

-- The answer is an array, an object with a list and a total, or nothing. A list that is missing is
-- that of the next of the names `data`, `cases` and `hits`: here the one that is there.
pub data ListAnswer : Type 0 where
  array : List String → ListAnswer
  object : Option (List String) → Option ℕ → ListAnswer
  nothing : ListAnswer

abbrev pub rows_or_none : Option (List String) → List String
rows_or_none none = []
rows_or_none (some cs) = cs

abbrev pub counted : Option ℕ → ℕ
counted none = 0
counted (some n) = n

unfoldable pub on_answer : ListAnswer → CaseList → CaseList
on_answer (array cs) vm = record vm { cases = cs; total = length cs; loading = false }
on_answer (object cs n) vm = record vm {
  cases = rows_or_none cs;
  total = counted n;
  loading = false;
}
on_answer nothing vm = record vm { cases = []; total = 0; loading = false }

unfoldable pub on_answer_error : CaseList → CaseList
on_answer_error vm = record vm { cases = []; total = 0; failed = true; loading = false }

unfoldable pub choose_status : String → CaseList → CaseList × List ListRequest
unfolding load_list
choose_status status vm =
    load_list (record vm { params = record (vm.params) { status = status; offset = 0 } })

unfoldable pub next_cases : CaseList → CaseList × List ListRequest
unfolding load_list
next_cases vm =
    if ltb (vm.params.offset + vm.params.limit) vm.total
    then load_list
        (record vm { params = record (vm.params) { offset = vm.params.offset + vm.params.limit } })
    else (vm, [])

-- `Math.max(0, offset - limit)` is the subtraction of natural numbers.
unfoldable pub prev_cases : CaseList → CaseList × List ListRequest
unfolding load_list
prev_cases vm =
    if ltb 0 vm.params.offset
    then load_list
        (record vm { params = record (vm.params) { offset = vm.params.offset - vm.params.limit } })
    else (vm, [])

unfoldable pub current_page : CaseList → ℕ
current_page vm = vm.params.offset / vm.params.limit + 1

unfoldable pub total_pages : CaseList → ℕ
total_pages vm = let pages = ceil vm.total vm.params.limit in if leb pages 1 then 1 else pages
