-- ===== src/Tasks/Updates.antt =====
-- The changes of a task's status in CaseTasksCtrl.js: `startTask`, `openTask`, `closeTask` and
-- `updateTaskStatus`, in the definitions that stand last in the file and replace the earlier ones.
use neural_vyuha_prime.Common.{
  ℕ, String, Bool, true, false, List, [], ◌∷◌, ◌++◌, ◌≡◌, refl, if◌then◌else◌,
}
use neural_vyuha_prime.Tasks.{Status, waiting, in_progress, completed, cancel, Task, status_eq}

-- What a handler does, in order: a PATCH of a task's status, a reload of the list, going to the page
-- of a task, and notifications.
pub data Effect : Type 0 where
  patch : String → Status → Effect
  reload : Effect
  show : String → Effect
  success : Effect
  error : Effect

-- `updateTaskStatus`; `answered` says whether the server accepts. The result says whether the
-- promise is resolved.
unfoldable pub update_task_status : Bool → String → Status → List Effect × Bool
update_task_status answered id status =
    if answered
    then (patch id status ∷ reload ∷ [], true)
    else (patch id status ∷ error ∷ [], false)

-- `.then(next)` of it.
unfoldable pub then_do : List Effect × Bool → List Effect → List Effect
then_do first next = if first.1 then first.0 ++ next else first.0

unfoldable pub start_task : Bool → Task → List Effect
unfolding update_task_status then_do
start_task answered t =
    if status_eq t.status waiting
    then then_do (update_task_status answered t.id in_progress) (show t.id ∷ [])
    else show t.id ∷ []

unfoldable pub open_task : Bool → Task → List Effect
unfolding update_task_status then_do
open_task answered t =
    if status_eq t.status completed
    then then_do (update_task_status answered t.id in_progress) (show t.id ∷ [])
    else []

unfoldable pub close_task : Bool → Task → List Effect
unfolding update_task_status then_do
close_task answered t =
    if status_eq t.status in_progress
    then then_do (update_task_status answered t.id completed) (success ∷ [])
    else []

-- The changes of status that the three buttons may ask for.
pub data Allowed : Status → Status → Type 0 where
  start : Allowed waiting in_progress
  reopen : Allowed completed in_progress
  close : Allowed in_progress completed

-- Each PATCH among the effects changes this task, by an allowed change of its status.
abbrev pub PatchesAllowed : Task → List Effect → Type 0
PatchesAllowed t [] = Unit
PatchesAllowed t (patch id status ∷ es) =
    (id ≡ t.id) × Allowed t.status status × PatchesAllowed t es
PatchesAllowed t (_ ∷ es) = PatchesAllowed t es

pub data Button : Type 0 where
  start_button open_button close_button : Button

unfoldable pub press : Button → Bool → Task → List Effect
press start_button answered t = start_task answered t
press open_button answered t = open_task answered t
press close_button answered t = close_task answered t

-- At a task written out, whose status is a constructor.
abbrev task_of : String → String → String → ℕ → Status → Bool → Bool → Task
task_of id title group order status flag selected = record {
  id = id;
  title = title;
  group = group;
  order = order;
  status = status;
  flag = flag;
  selected = selected;
}

press-at :
    (b : Button) (answered : Bool) (status : Status) (id title group : String) (order : ℕ)
    (flag selected : Bool)
    → let t = task_of id title group order status flag selected in
      PatchesAllowed t (press b answered t)
unfolding press start_task open_task close_task
press-at start_button true waiting id title group order flag selected = (refl, start, tt)
press-at start_button false waiting id title group order flag selected = (refl, start, tt)
press-at start_button answered in_progress id title group order flag selected = tt
press-at start_button answered completed id title group order flag selected = tt
press-at start_button answered cancel id title group order flag selected = tt
press-at open_button true completed id title group order flag selected = (refl, reopen, tt)
press-at open_button false completed id title group order flag selected = (refl, reopen, tt)
press-at open_button answered _ id title group order flag selected = tt
press-at close_button true in_progress id title group order flag selected = (refl, close, tt)
press-at close_button false in_progress id title group order flag selected = (refl, close, tt)
press-at close_button answered _ id title group order flag selected = tt

-- Whatever the server answers, the buttons ask for no other change of status than starting a waiting
-- task, reopening a completed one and closing one in progress.
pub press-PatchesAllowed :
    (b : Button) (answered : Bool) (t : Task) → PatchesAllowed t (press b answered t)
press-PatchesAllowed b answered t =
    press-at b answered t.status t.id t.title t.group t.order t.flag t.selected
