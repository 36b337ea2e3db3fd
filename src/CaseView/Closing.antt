-- ===== src/CaseView/Closing.antt =====
-- What the removal of tasks in CaseTasksCtrl.js does to the tabs of CaseMainCtrl.js.
use neural_vyuha_prime.Common.{
  ℕ, String, Bool, not, ◌||◌, none, List, [], ◌∷◌, filter, any, ◌==◌, ◌≡◌, ◌≢◌, refl, sym, ◌∙◌, ap,
  arith, Option-cases, inl, inr,
}
use Prim.Native.Char.{code}
use Prim.Native.String.append
use neural_vyuha_prime.Tabs.{CaseTabs, find_tab, remove_tab}
use neural_vyuha_prime.Tabs.Lookup.{Tabs, IsValid}
use neural_vyuha_prime.Tabs.Validity.{remove_tab-IsValid}
use neural_vyuha_prime.Tasks.{Scope, cancel}
use neural_vyuha_prime.Tasks.Bulk.{
  status_all, bulk_update, selected_ids, bulk_remove, on_bulk_removed,
}
use neural_vyuha_prime.CaseView.{tab_of_task, on_task_removed}

-- The page is told of these tasks, one after the other.
unfoldable pub tasks_removed : List String → CaseTabs → CaseTabs
tasks_removed [] s = s
tasks_removed (id ∷ ids) s = tasks_removed ids (on_task_removed id s)

-- The tab is that of one of these tasks.
abbrev pub is_task_tab : List String → String → Bool
is_task_tab ids name = any (λ id. name == tab_of_task id) ids

filter-missing :
    (name : String) (ts : Tabs) → find_tab name ts ≡ none → filter (λ u. not (u.0 == name)) ts ≡ ts
filter-missing name [] h = refl
filter-missing name ((k, t) ∷ ts) h = ground (arith, filter-missing name ts)

remove_tab-tabs :
    (name : String) (s : CaseTabs)
    → (remove_tab name s).0.tabs ≡ filter (λ u. not (u.0 == name)) s.tabs
unfolding remove_tab
remove_tab-tabs name s = elim (Option-cases (find_tab name s.tabs)) [
  | inl missing ↦ rw (missing, remove_tab) (sym (filter-missing name s.tabs missing))
  | inr (t, found) ↦ rw (found, remove_tab) refl
]

filter-filter :
    (name : String) (ids : List String) (ts : Tabs)
    → filter (λ u. not (is_task_tab ids u.0)) (filter (λ u. not (u.0 == name)) ts)
      ≡ filter (λ u. not (u.0 == name || is_task_tab ids u.0)) ts
filter-filter name ids [] = refl
filter-filter name ids ((k, t) ∷ ts) = ground (arith, filter-filter name ids ts)

tasks_removed-tabs :
    (ids : List String) (s : CaseTabs)
    → (tasks_removed ids s).tabs ≡ filter (λ u. not (is_task_tab ids u.0)) s.tabs
unfolding tasks_removed on_task_removed
tasks_removed-tabs [] s = sym (keep s.tabs)
  where
    keep : (ts : Tabs) → filter (λ u. not (is_task_tab [] u.0)) ts ≡ ts
    keep [] = refl
    keep (t ∷ ts) = ap (λ us. t ∷ us) (keep ts)
tasks_removed-tabs (id ∷ ids) s =
    tasks_removed-tabs ids (on_task_removed id s)
    ∙ ap (λ ts. filter (λ u. not (is_task_tab ids u.0)) ts) (remove_tab-tabs (tab_of_task id) s)
    ∙ filter-filter (tab_of_task id) ids s.tabs

abbrev first_code : String → ℕ
first_code String.[] = 0
first_code (String.◌∷◌ c s) = code c

tab_of_task-ne-details : (id : String) → tab_of_task id ≢ "details"
tab_of_task-ne-details id e =
    let starts = append.cons "t" "ask-" id in
    let first = ap first_code (sym starts ∙ e) in absurd (omega (arith, first))

tasks_removed-IsValid :
    (ids : List String) (s : CaseTabs) → IsValid s → IsValid (tasks_removed ids s)
unfolding tasks_removed on_task_removed
tasks_removed-IsValid [] s h = h
tasks_removed-IsValid (id ∷ ids) s h =
    tasks_removed-IsValid ids (on_task_removed id s)
      (remove_tab-IsValid (tab_of_task id) s (tab_of_task-ne-details id) h)

-- Where the selection stayed as it was between the question and the answer: removing the selected
-- tasks asks the server to cancel exactly these, and then takes exactly their tabs away; all others
-- stay, in their order, and the tabs stay valid.
pub bulk_remove-closes :
    (asked answered : Scope) (s : CaseTabs)
    → answered.selection ≡ asked.selection
    → IsValid s
    → (bulk_remove asked ≡ bulk_update (selected_ids asked) (status_all cancel) ∷ [])
      × ((tasks_removed (on_bulk_removed answered) s).tabs
          ≡ filter (λ u. not (is_task_tab (selected_ids asked) u.0)) s.tabs)
      × IsValid (tasks_removed (on_bulk_removed answered) s)
unfolding bulk_remove on_bulk_removed
bulk_remove-closes asked answered s same h = (
  refl,
  rw same (tasks_removed-tabs (selected_ids asked) s),
  tasks_removed-IsValid (selected_ids answered) s h,
)
