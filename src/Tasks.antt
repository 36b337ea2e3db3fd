-- ===== src/Tasks.antt =====
-- nv-ui/app/scripts/controllers/case/CaseTasksCtrl.js: the tasks of a case, their selection with the
-- menu that depends on it, their groups and the changes of their status.
--
-- A task object of the source is shared by the list and the selection; a task here is its record,
-- and its `_id` tells tasks apart.
pub mod Selection
pub mod Menus
pub mod Groups
pub mod Updates
pub mod Bulk
mod Examples
use neural_vyuha_prime.Common.{
  ℕ, String, Bool, true, false, not, ◌&&◌, ◌||◌, Option, none, some, List, [], ◌∷◌, ◌++◌, map, ◌==◌,
  if◌then◌else◌, length, filter, any, eqb, ltb, leb,
}
use mathlib.Core.Bool.{beq}
use neural_vyuha_prime.Uniq.{elem, uniq, is_only}

pub data Status : Type 0 where
  waiting in_progress completed cancel : Status

pub record Task : Type 0 where
  pub id : String
  pub title : String
  pub group : String
  pub order : ℕ
  pub status : Status
  pub flag : Bool
  pub selected : Bool

pub record Menu : Type 0 where
  pub select_all : Bool
  pub flag : Bool
  pub unflag : Bool
  pub start : Bool
  pub close : Bool
  pub reopen : Bool
  pub delete : Bool

pub record TaskGroup : Type 0 where
  pub group : String
  pub tasks : List Task

pub record Scope : Type 0 where
  pub values : List Task
  pub total : ℕ
  pub selection : List Task
  pub menu : Menu
  pub groups : List String
  pub grouped_tasks : List TaskGroup

abbrev pub status_eq : Status → Status → Bool
status_eq waiting waiting = true
status_eq in_progress in_progress = true
status_eq completed completed = true
status_eq cancel cancel = true
status_eq _ _ = false

unfoldable pub update_menu : Scope → Scope
update_menu s =
    let flags = uniq beq (map (λ (t : Task). t.flag) s.selection) in
    let statuses = uniq status_eq (map (λ (t : Task). t.status) s.selection) in
    record s {
      menu = record {
        select_all = s.menu.select_all;
        flag = is_only beq false flags;
        unflag = is_only beq true flags;
        start = is_only status_eq waiting statuses;
        close = not (elem status_eq completed statuses);
        reopen = is_only status_eq completed statuses;
        delete = ltb 0 (length s.selection);
      };
    }

-- `select`, which the checkbox of a task calls after it has set `selected` to `on`.
unfoldable pub select : Task → Bool → Scope → Scope
unfolding update_menu
select task on s =
    let checked = record task { selected = on } in
    let marked =
      map (λ (t : Task). if t.id == task.id then record t { selected = on } else t) s.values in
    update_menu (record s {
      values = marked;
      selection =
          if on
          then s.selection ++ checked ∷ []
          else filter (λ (t : Task). not (t.id == task.id)) s.selection;
    })

-- `selectAll`, which the menu calls after it has set `menu.selectAll` to `on`.
unfoldable pub select_all : Bool → Scope → Scope
unfolding update_menu
select_all on s =
    let marked = map (λ (t : Task). record t { selected = on }) s.values in
    update_menu (record s {
      menu = record (s.menu) { select_all = on };
      values = marked;
      selection = if on then filter (λ (t : Task). t.selected) marked else [];
    })

unfoldable pub reset_selection : Scope → Scope
unfolding select_all update_menu
reset_selection s =
    if s.menu.select_all
    then select_all true s
    else update_menu (record s { selection = []; menu = record (s.menu) { select_all = false } })

-- `load`, on the answer of the server.
unfoldable pub on_tasks : List Task → Scope → Scope
unfolding reset_selection
on_tasks found s =
    let shown = filter (λ (t : Task). not (status_eq t.status cancel)) found in
    reset_selection (record s { values = shown; total = length shown })

-- `_.sortBy` by the order: stable, as underscore's is.
abbrev pub insert_by_order : Task → List Task → List Task
insert_by_order t [] = t ∷ []
insert_by_order t (u ∷ us) = if leb t.order u.order then t ∷ u ∷ us else u ∷ insert_by_order t us

abbrev pub sort_by_order : List Task → List Task
sort_by_order [] = []
sort_by_order (t ∷ ts) = insert_by_order t (sort_by_order ts)

-- One round of the loop that collects the names of the groups.
abbrev pub add_group : List String → Task → List String
add_group groups t = if elem ◌==◌ t.group groups then groups else groups ++ t.group ∷ []

abbrev pub group_names : List String → List Task → List String
group_names groups [] = groups
group_names groups (t ∷ ts) = group_names (add_group groups t) ts

abbrev pub group_of : List Task → String → TaskGroup
group_of tasks g = record { group = g; tasks = filter (λ (t : Task). t.group == g) tasks }

unfoldable pub build_task_groups : List Task → Scope → Scope
build_task_groups tasks s =
    let groups = group_names [] (sort_by_order tasks) in
    record s { groups = groups; grouped_tasks = map (group_of tasks) groups }
