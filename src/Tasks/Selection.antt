-- ===== src/Tasks/Selection.antt =====
-- The selection of tasks agrees with the marks on the listed tasks.
use neural_vyuha_prime.Common.{
  String, Bool, true, false, not, ◌&&◌, ◌||◌, List, [], ◌∷◌, ◌++◌, map, ◌==◌, ◌≡◌, ◌≢◌, refl, sym,
  arith, eq_iff, eq_refl, filter, any, length, if◌then◌else◌, Bool-cases, inl, inr,
}
use neural_vyuha_prime.Tasks.{
  Task, Scope, cancel, status_eq, select, select_all, reset_selection, on_tasks,
}

-- A task of this id is in the list; it is there and selected.
abbrev pub has_id : String → List Task → Bool
has_id id ts = any (λ (t : Task). t.id == id) ts

abbrev pub selected_id : String → List Task → Bool
selected_id id ts = any (λ (t : Task). t.selected && t.id == id) ts

-- The ids of the selection are those of the tasks that are marked.
abbrev pub IsSynced : Scope → Type 0
IsSynced s = (id : String) → has_id id s.selection ≡ selected_id id s.values

abbrev mark : Bool → List Task → List Task
mark on ts = map (λ (t : Task). record t { selected = on }) ts

abbrev mark_one : String → Bool → List Task → List Task
mark_one i on ts = map (λ (t : Task). if t.id == i then record t { selected = on } else t) ts

has_id-append :
    (id : String) (xs ys : List Task) → has_id id (xs ++ ys) ≡ (has_id id xs || has_id id ys)
has_id-append id [] ys = refl
has_id-append id (x ∷ xs) ys = ground (arith, has_id-append id xs ys)

-- Marking the task of an id changes what is selected for that id alone.
selected-mark_one_self :
    (i : String) (on : Bool) (ts : List Task)
    → selected_id i (mark_one i on ts) ≡ (on && has_id i ts)
selected-mark_one_self i on [] = ground arith
selected-mark_one_self i on (t ∷ ts) = ground (arith, selected-mark_one_self i on ts)

selected-mark_one_other :
    (i id : String) (on : Bool) (ts : List Task)
    → i ≢ id
    → selected_id id (mark_one i on ts) ≡ selected_id id ts
selected-mark_one_other i id on [] n = refl
selected-mark_one_other i id on (t ∷ ts) n =
    ground (arith, eq_iff t.id i, eq_iff t.id id, selected-mark_one_other i id on ts)

has_id-remove :
    (i id : String) (ts : List Task)
    → has_id id (filter (λ (t : Task). not (t.id == i)) ts) ≡ (not (i == id) && has_id id ts)
has_id-remove i id [] = ground arith
has_id-remove i id (t ∷ ts) =
    ground (arith, eq_iff t.id i, eq_iff t.id id, eq_iff i id, has_id-remove i id ts)

selected-mark_all :
    (id : String) (ts : List Task)
    → has_id id (filter (λ (t : Task). t.selected) (mark true ts)) ≡ selected_id id (mark true ts)
selected-mark_all id [] = refl
selected-mark_all id (t ∷ ts) = ground (arith, selected-mark_all id ts)

selected-mark_none : (id : String) (ts : List Task) → selected_id id (mark false ts) ≡ false
selected-mark_none id [] = refl
selected-mark_none id (t ∷ ts) = selected-mark_none id ts

-- Clicks on the check boxes of a task and of the menu, and the answer to a reload of the list.
pub data SelectionOp : Type 0 where
  click : Task → Bool → SelectionOp
  click_all : Bool → SelectionOp
  reload : List Task → SelectionOp

unfoldable pub step : SelectionOp → Scope → Scope
step (click t on) s = select t on s
step (click_all on) s = select_all on s
step (reload found) s = on_tasks found s

abbrev IsUnmarked : List Task → Type 0
IsUnmarked [] = Unit
IsUnmarked (t ∷ ts) = (t.selected ≡ false) × IsUnmarked ts

-- Only listed tasks have a check box, and the server's tasks carry no mark.
abbrev pub Happens : SelectionOp → Scope → Type 0
Happens (click t on) s = has_id t.id s.values ≡ true
Happens (click_all on) s = Unit
Happens (reload found) s = IsUnmarked found

selected-unmarked :
    (id : String) (p : Task → Bool) (ts : List Task)
    → IsUnmarked ts
    → selected_id id (filter p ts) ≡ false
selected-unmarked id p [] h = refl
selected-unmarked id p (t ∷ ts) (off, h) = ground (arith, selected-unmarked id p ts h)

click-IsSynced :
    (t : Task) (on : Bool) (s : Scope)
    → has_id t.id s.values ≡ true
    → IsSynced s
    → IsSynced (select t on s)
unfolding select
click-IsSynced t true s here h id = elim (Bool-cases (t.id == id)) [
  | inl same ↦ rw (← (eq_iff t.id id).0 same) (
      ground (
        arith,
        has_id-append t.id s.selection (record t { selected = true } ∷ []),
        selected-mark_one_self t.id true s.values,
        eq_refl t.id,
      ))
  | inr other ↦ ground (
    arith,
    has_id-append id s.selection (record t { selected = true } ∷ []),
    selected-mark_one_other t.id id true s.values,
    eq_iff t.id id,
    h id,
  )
]
click-IsSynced t false s here h id = elim (Bool-cases (t.id == id)) [
  | inl same ↦ rw (← (eq_iff t.id id).0 same) (
      ground (
        arith,
        has_id-remove t.id t.id s.selection,
        selected-mark_one_self t.id false s.values,
        eq_refl t.id,
      ))
  | inr other ↦ ground (
    arith,
    has_id-remove t.id id s.selection,
    selected-mark_one_other t.id id false s.values,
    eq_iff t.id id,
    h id,
  )
]

click_all-IsSynced : (on : Bool) (s : Scope) → IsSynced (select_all on s)
unfolding select_all
click_all-IsSynced true s id = selected-mark_all id s.values
click_all-IsSynced false s id = sym (selected-mark_none id s.values)

reset-IsSynced :
    (s : Scope) → ((id : String) → selected_id id s.values ≡ false) → IsSynced (reset_selection s)
unfolding reset_selection
reset-IsSynced s none_yet id = elim (Bool-cases s.menu.select_all) [
  | inl on ↦ rw on (click_all-IsSynced true s id)
  | inr off ↦ rw off (sym (none_yet id))
]

reload-IsSynced : (found : List Task) (s : Scope) → IsUnmarked found → IsSynced (on_tasks found s)
unfolding on_tasks
reload-IsSynced found s h =
    let shown = filter (λ (t : Task). not (status_eq t.status cancel)) found in
    reset-IsSynced (record s { values = shown; total = length shown })
      (λ id. selected-unmarked id (λ (t : Task). not (status_eq t.status cancel)) found h)

-- Every click on a listed task or on the menu, and every reload with tasks that carry no mark,
-- leaves the selection in agreement with the marks.
pub step-IsSynced :
    (op : SelectionOp) (s : Scope) → Happens op s → IsSynced s → IsSynced (step op s)
unfolding step
step-IsSynced (click t on) s here h = click-IsSynced t on s here h
step-IsSynced (click_all on) s _ h = click_all-IsSynced on s
step-IsSynced (reload found) s fresh h = reload-IsSynced found s fresh
