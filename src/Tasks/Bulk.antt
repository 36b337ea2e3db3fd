-- ===== src/Tasks/Bulk.antt =====
-- Adding and removing tasks in CaseTasksCtrl.js, and the changes of all selected tasks.
use neural_vyuha_prime.Common.{
  ℕ, String, Bool, false, Option, none, some, List, [], ◌∷◌, map, ◌==◌, if◌then◌else◌,
}
use neural_vyuha_prime.Tasks.{Status, waiting, cancel, Task, Scope}

-- The form of a new task; `group` is missing at first.
pub record NewTask : Type 0 where
  pub title : String
  pub group : Option String
  pub status : Status
  pub priority : ℕ
  pub description : String

pub record TaskForm : Type 0 where
  pub new_task : NewTask
  pub is_new_task : Bool

abbrev pub empty_task : NewTask
empty_task = record { title = ""; group = none; status = waiting; priority = 2; description = "" }

pub data BulkPatch : Type 0 where
  flag_all : Bool → BulkPatch
  status_all : Status → BulkPatch

pub data TaskCall : Type 0 where
  create_task : NewTask → TaskCall
  delete_task : String → TaskCall
  bulk_update : List String → BulkPatch → TaskCall
  load_tasks : TaskCall

-- A task of the group "default", or of none, is sent without a group.
abbrev pub clean_group : Option String → Option String
clean_group none = none
clean_group (some g) = if g == "default" then none else if g == "" then none else some g

unfoldable pub add_task : TaskForm → List TaskCall
add_task f =
    if f.new_task.title == ""
    then []
    else create_task (record (f.new_task) { group = clean_group f.new_task.group }) ∷ []

unfoldable pub on_task_added : TaskForm → TaskForm × List TaskCall
on_task_added f = (record { new_task = empty_task; is_new_task = false }, load_tasks ∷ [])

-- `removeTask`, once it is confirmed, and its answer.
unfoldable pub remove_task : Task → List TaskCall
remove_task t = delete_task t.id ∷ []

unfoldable pub on_task_deleted : List TaskCall
on_task_deleted = load_tasks ∷ []

abbrev pub selected_ids : Scope → List String
selected_ids s = map (λ (t : Task). t.id) s.selection

unfoldable pub bulk_flag_tasks : Bool → Scope → List TaskCall
bulk_flag_tasks flag s = bulk_update (selected_ids s) (flag_all flag) ∷ []

unfoldable pub bulk_status_tasks : Status → Scope → List TaskCall
bulk_status_tasks status s = bulk_update (selected_ids s) (status_all status) ∷ []

-- `bulkRemove`, once it is confirmed: the ids are those from before the question.
unfoldable pub bulk_remove : Scope → List TaskCall
bulk_remove asked = bulk_update (selected_ids asked) (status_all cancel) ∷ []

-- Its answer tells the page of the case of each task that is selected then.
unfoldable pub on_bulk_removed : Scope → List String
on_bulk_removed s = selected_ids s
