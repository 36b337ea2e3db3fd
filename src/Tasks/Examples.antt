-- ===== src/Tasks/Examples.antt =====
-- A case with three tasks.
use neural_vyuha_prime.Common.{
  ℕ, String, Bool, true, false, List, [], ◌∷◌, ◌≡◌, refl, map, arith, filter, length,
}
use neural_vyuha_prime.Tasks.{
  Status, waiting, in_progress, completed, Task, Scope, build_task_groups, group_of,
}
use neural_vyuha_prime.Tasks.Groups.{IsDistinct, concat_tasks, build_task_groups_lem}
use neural_vyuha_prime.Tasks.Selection.{click, step, IsSynced, step-IsSynced}

abbrev a_task : String → String → ℕ → Status → Task
a_task id group order status = record {
  id = id;
  title = "Task";
  group = group;
  order = order;
  status = status;
  flag = false;
  selected = false;
}

abbrev three_tasks : List Task
three_tasks =
    a_task "t1" "Containment" 1 in_progress
    ∷ a_task "t2" "Analysis" 0 waiting
    ∷ a_task "t3" "Containment" 2 completed
    ∷ []

abbrev fresh_scope : Scope
fresh_scope = record {
  values = three_tasks;
  total = 3;
  selection = [];
  menu = record {
    select_all = false;
    flag = false;
    unflag = false;
    start = false;
    close = false;
    reopen = false;
    delete = false;
  };
  groups = [];
  grouped_tasks = [];
}

build_task_groups_example :
    let t = build_task_groups three_tasks fresh_scope in
    IsDistinct t.groups
    × (t.grouped_tasks ≡ map (group_of three_tasks) t.groups)
    × ((p : Task → Bool)
        → length (filter p (concat_tasks t.grouped_tasks)) ≡ length (filter p three_tasks))
build_task_groups_example = build_task_groups_lem three_tasks fresh_scope

fresh_scope-IsSynced : IsSynced fresh_scope
fresh_scope-IsSynced id = ground arith

tasks-step-IsSynced_example :
    IsSynced (step (click (a_task "t2" "Analysis" 0 waiting) true) fresh_scope)
tasks-step-IsSynced_example =
    step-IsSynced (click (a_task "t2" "Analysis" 0 waiting) true) fresh_scope refl
      fresh_scope-IsSynced
