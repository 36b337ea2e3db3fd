-- ===== src/CaseView/Examples.antt =====
-- A case with the tab of a task, which is selected and removed.
use neural_vyuha_prime.Common.{true, false, not, none, [], ◌∷◌, filter, ◌≡◌, refl}
use neural_vyuha_prime.Tabs.{CaseTabs, fixed_tab}
use neural_vyuha_prime.Tabs.Lookup.{IsValid}
use neural_vyuha_prime.Tasks.{Task, Scope, waiting, cancel}
use neural_vyuha_prime.Tasks.Bulk.{
  bulk_update, status_all, selected_ids, bulk_remove, on_bulk_removed,
}
use neural_vyuha_prime.CaseView.{Case}
use neural_vyuha_prime.CaseView.Closing.{tasks_removed, is_task_tab, bulk_remove-closes}
use neural_vyuha_prime.CaseView.Flag.{clicks, refusals, turned, flag-refusals}

abbrev removed_task : Task
removed_task = record {
  id = "t1";
  title = "look";
  group = "default";
  order = 0;
  status = waiting;
  flag = false;
  selected = true;
}

abbrev one_selected : Scope
one_selected = record {
  values = removed_task ∷ [];
  total = 1;
  selection = removed_task ∷ [];
  menu = record {
    select_all = false;
    flag = true;
    unflag = false;
    start = true;
    close = true;
    reopen = false;
    delete = true;
  };
  groups = [];
  grouped_tasks = [];
}

abbrev open_tabs : CaseTabs
open_tabs = record {
  tabs =
      fixed_tab "details" false "Details" "app.case.details"
      ∷ fixed_tab "tasks" true "Tasks" "app.case.tasks"
      ∷ (
        "task-t1",
        record {
          name = "task-t1";
          active = false;
          closable = true;
          label = "look";
          state = "app.case.tasks-item";
        },
      )
      ∷ [];
  active_index = 1;
}

bulk_remove-closes_example :
    (bulk_remove one_selected ≡ bulk_update ("t1" ∷ []) (status_all cancel) ∷ [])
    × ((tasks_removed (on_bulk_removed one_selected) open_tabs).tabs
        ≡ filter (λ u. not (is_task_tab (selected_ids one_selected) u.0)) open_tabs.tabs)
    × IsValid (tasks_removed (on_bulk_removed one_selected) open_tabs)
bulk_remove-closes_example =
    bulk_remove-closes one_selected one_selected open_tabs refl (refl, refl)

abbrev plain_case : Case
plain_case = record {
  flag = false;
  status = "Open";
  owner = none;
  assignee = none;
  assigned_to = none;
}

flag-refusals_example :
    let clicked = clicks 2 plain_case in
    (refusals clicked.1 clicked.0).flag ≡ turned 1 plain_case.flag
flag-refusals_example = flag-refusals 1 plain_case
