-- ===== src/CaseView.antt =====
-- nv-ui/app/scripts/controllers/case/CaseMainCtrl.js: the page around one case, with its tabs, its
-- links and the changes of its fields.
pub mod Closing
pub mod Flag
mod Examples
use neural_vyuha_prime.Common.{
  ℕ, String, Bool, true, false, not, ◌||◌, Option, none, some, List, [], ◌∷◌, ◌==◌, if◌then◌else◌,
  length, filter, Result, ok, type_error,
}
use Prim.Native.String
use neural_vyuha_prime.Tabs.{Tab, CaseTabs, init_tabs, get_tab, remove_tab}

-- What all pages of cases share: `$rootScope.currentCaseId` and the tabs of CaseTabsSrv.
pub record Root : Type 0 where
  pub current_case_id : Option String
  pub case_tabs : CaseTabs

abbrev pub known_case : Option String → Option String
known_case none = none
known_case (some id) = if id == "" then none else some id

-- What the controller does first, for the case of the address.
unfoldable pub enter_case : String → Root → Root
enter_case case_id r = elim (known_case r.current_case_id) [
  | none ↦ record r { current_case_id = some case_id }
  | some shown ↦
      if shown == case_id
      then r
      else record { current_case_id = some case_id; case_tabs = init_tabs r.case_tabs }
]

-- The handlers of `tasks:task-removed` and `observables:observable-removed`: what `removeTab` answers
-- is not looked at.
abbrev pub tab_of_task : String → String
tab_of_task id = String.◌++◌ "task-" id

abbrev pub tab_of_observable : String → String
tab_of_observable id = String.◌++◌ "observable-" id

unfoldable pub on_task_removed : String → CaseTabs → CaseTabs
on_task_removed id s = (remove_tab (tab_of_task id) s).0

unfoldable pub on_observable_removed : String → CaseTabs → CaseTabs
on_observable_removed id s = (remove_tab (tab_of_observable id) s).0

-- `openTab`: the state to go to. Where the tab is unknown, reading its `params` throws.
unfoldable pub open_tab : String → CaseTabs → Result String
open_tab name s = elim (get_tab name s) [ none ↦ type_error | some t ↦ ok t.state ]

-- `removeTab` of the page: the tabs, and the state to go to if there is one.
unfoldable pub close_tab : String → CaseTabs → Result (CaseTabs × Option String)
unfolding open_tab
close_tab name s =
    let closed = remove_tab name s in
    elim closed.1 [
      | some true ↦ elim (open_tab "details" closed.0) [
        | ok state ↦ ok (closed.0, some state)
        | type_error ↦ type_error
      ]
      | _ ↦ ok (closed.0, none)
    ]

-- What the page reads and writes of a case.
pub record Case : Type 0 where
  pub flag : Bool
  pub status : String
  pub owner : Option String
  pub assignee : Option String
  pub assigned_to : Option String

-- The fields of a change that are given.
pub record CaseChange : Type 0 where
  pub flag : Option Bool
  pub status : Option String
  pub owner : Option String

abbrev pub kept_or : {A : Type 0} → Option A → A → A
kept_or none old = old
kept_or (some new) old = new

abbrev pub first_of : Option String → Option String → Option String
first_of none old = old
first_of (some new) old = some new

-- `angular.extend($scope.caze, data)`
abbrev pub extend_case : CaseChange → Case → Case
extend_case change c = record c {
  flag = kept_or change.flag c.flag;
  status = kept_or change.status c.status;
  owner = first_of change.owner c.owner;
}

abbrev pub normalized_status : String → String
normalized_status s =
    if s == "CLOSED" || s == "Resolved" || s == "Closed"
    then "Resolved"
    else if s == "IN_PROGRESS" || s == "InProgress"
    then "InProgress"
    else if s == "OPEN" || s == "Open"
    then "Open"
    else s

-- The answer to `updateField` of this change.
unfoldable pub on_updated : CaseChange → Case → Case
on_updated change c =
    let extended = extend_case change c in
    elim (known_case change.owner) [
      | none ↦ record extended { status = normalized_status extended.status }
      | some o ↦ record extended {
        assignee = some o;
        assigned_to = some o;
        status = normalized_status extended.status;
      }
    ]

unfoldable pub is_case_closed : Case → Bool
is_case_closed c = c.status == "Resolved"

-- `switchFlag` up to its request, with the value that is asked for.
unfoldable pub switch_flag : Case → Case × Bool
switch_flag c = (record c { flag = not c.flag }, not c.flag)

abbrev pub flag_change : Bool → CaseChange
flag_change asked = record { flag = some asked; status = none; owner = none }

-- Its answers.
unfoldable pub on_flag_updated : Bool → Case → Case
unfolding on_updated
on_flag_updated asked c = on_updated (flag_change asked) c

unfoldable pub on_flag_error : Bool → Case → Case
on_flag_error asked c = record c { flag = not asked }

-- A link to another case: which of the shared observables are indicators of compromise.
pub record Link : Type 0 where
  pub case_id : String
  pub shared : List Bool

pub record Links : Type 0 where
  pub links : List (Link × ℕ)
  pub newest : Option (Link × ℕ)
  pub oldest : Option (Link × ℕ)

abbrev pub count_ioc : Link → ℕ
count_ioc l = length (filter (λ b. b) l.shared)

abbrev pub last_link : Link → List Link → Link
last_link l [] = l
last_link l (m ∷ ms) = last_link m ms

abbrev pub with_counts : List Link → List (Link × ℕ)
with_counts [] = []
with_counts (l ∷ ls) = (l, length l.shared) ∷ with_counts ls

-- The answer to `CaseSrv.links`.
unfoldable pub on_links : List Link → Links → Links
on_links [] s = record s { links = [] }
on_links (l ∷ []) s = record s { links = with_counts (l ∷ []); newest = some (l, count_ioc l) }
on_links (l ∷ m ∷ ms) s = record {
  links = with_counts (l ∷ m ∷ ms);
  newest = some (l, count_ioc l);
  oldest = some (last_link m ms, count_ioc (last_link m ms));
}
