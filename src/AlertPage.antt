-- ===== src/AlertPage.antt =====
-- nv-ui/app/scripts/controllers/alert/AlertListCtrl.js: the page that lists alerts with filters, with
-- its menu, its selection and its bulk actions, and the part of
-- nv-ui/app/scripts/services/api/AlertingSrv.js that it calls.
--
-- A row that is in the list and in the selection is one object in the source; what the page reads
-- of a selected row is what no click changes. The dialogs, responders and import of alerts are left
-- out.
pub mod Feeds
pub mod Menus
pub mod FilterBy
pub mod Sorting
mod Examples
use neural_vyuha_prime.Common.{
  ℕ, String, Bool, true, false, not, ◌&&◌, ◌||◌, Option, none, some, List, [], ◌∷◌, ◌++◌, map,
  filter, ◌==◌, eqb, if◌then◌else◌, Result, ok, type_error, length,
}
use mathlib.Core.Bool.{beq}
use neural_vyuha_prime.Uniq.{uniq, is_only}
use neural_vyuha_prime.Filtering.{Filtering}
use neural_vyuha_prime.Query.{Query}
use neural_vyuha_prime.Paging.{Settings, PagedQuery, Effect}

pub record Row : Type 0 where
  pub id : String
  pub follow : Bool
  pub read : Bool
  pub case_id : Option String
  pub selected : Bool

pub record Menu : Type 0 where
  pub select_all : Bool
  pub follow : Bool
  pub unfollow : Bool
  pub mark_as_read : Bool
  pub mark_as_unread : Bool
  pub create_new_case : Bool
  pub merge_in_case : Bool
  pub delete : Bool

-- What the adapter asks NvRouter for, and the adapter.
pub record AlertsParams : Type 0 where
  pub limit : ℕ
  pub sort : List String
  pub filter : Query

pub record Adapter : Type 0 where
  pub values : List Row
  pub total : ℕ
  pub loading : Bool
  pub sort : List String
  pub config_sort : List String
  pub config_filter : Query
  pub config_page_size : ℕ

-- `list`: nothing yet, a PaginatedQuerySrv, or the adapter of AlertingSrv.
pub data Feed : Type 0 where
  unloaded : Feed
  paged : Settings → PagedQuery Row → Feed
  adapted : Adapter → Feed

-- `former` are the objects that `list` was before; they listen to the stream like `list` does.
pub record AlertPage : Type 0 where
  pub filtering : Filtering
  pub feed : Feed
  pub former : List Feed
  pub selection : List Row
  pub menu : Menu

-- The calls of AlertingSrv that send something, with the ids in their paths and bodies; `ask` is
-- what the list of PaginatedQuerySrv does.
pub data AlertCall : Type 0 where
  mark_as_read mark_as_unread follow unfollow : String → AlertCall
  bulk_remove : List String → AlertCall
  bulk_merge_into : List String → String → AlertCall
  get_alerts : AlertsParams → AlertCall
  ask : Effect → AlertCall

abbrev pub values_of : Feed → List Row
values_of unloaded = []
values_of (paged s p) = p.values
values_of (adapted a) = a.values

-- A change of the rows in place.
abbrev pub with_values : List Row → Feed → Feed
with_values rows unloaded = unloaded
with_values rows (paged s p) = paged s (record p { values = rows })
with_values rows (adapted a) = adapted (record a { values = rows })

abbrev pub has_case : Row → Bool
has_case r = elim r.case_id [ none ↦ false | some c ↦ true ]

abbrev pub ids_of : List Row → List String
ids_of rows = map (λ (r : Row). r.id) rows

unfoldable pub update_menu : AlertPage → AlertPage
update_menu vm =
    let follows = uniq beq (map (λ (r : Row). r.follow) vm.selection) in
    let reads = uniq beq (map (λ (r : Row). r.read) vm.selection) in
    let free = eqb (length (filter has_case vm.selection)) 0 in
    record vm {
      menu = record {
        select_all = vm.menu.select_all;
        unfollow = is_only beq true follows;
        follow = is_only beq false follows;
        mark_as_read = is_only beq false reads;
        mark_as_unread = is_only beq true reads;
        create_new_case = free;
        merge_in_case = free;
        delete = free;
      };
    }

-- `select`, which the check box of a row calls after it has set `selected` to `on`.
unfoldable pub select : Row → Bool → AlertPage → AlertPage
unfolding update_menu
select row on vm =
    let marked =
      map (λ (r : Row). if r.id == row.id then record r { selected = on } else r)
        (values_of vm.feed) in
    update_menu (record vm {
      feed = with_values marked vm.feed;
      selection =
          if on
          then vm.selection ++ record row { selected = on } ∷ []
          else filter (λ (r : Row). not (r.id == row.id)) vm.selection;
    })

-- `selectAll`, which the check box of the header calls after it has set `menu.selectAll` to `on`.
unfoldable pub select_all : Bool → AlertPage → AlertPage
unfolding update_menu
select_all on vm =
    let marked = map (λ (r : Row). record r { selected = on }) (values_of vm.feed) in
    update_menu (record vm {
      feed = with_values marked vm.feed;
      selection = if on then marked else [];
      menu = record (vm.menu) { select_all = on };
    })

unfoldable pub reset_selection : AlertPage → AlertPage
unfolding select_all update_menu
reset_selection vm =
    if vm.menu.select_all
    then select_all true vm
    else update_menu (record vm { selection = []; menu = record (vm.menu) { select_all = false } })

-- `markAsRead` and `follow` of one row.
unfoldable pub toggle_read : Row → AlertCall
toggle_read r = if not r.read then mark_as_read r.id else mark_as_unread r.id

unfoldable pub toggle_follow : Row → AlertCall
toggle_follow r = if r.follow then unfollow r.id else follow r.id

unfoldable pub bulk_follow : Bool → AlertPage → List AlertCall
bulk_follow on vm = map (if on then follow else unfollow) (ids_of vm.selection)

-- With the flag, `selection[0].read` is read, also where nothing is selected.
unfoldable pub bulk_mark_as_read : Bool → AlertPage → Result (List AlertCall)
bulk_mark_as_read on vm = elim vm.selection [
  | [] ↦ if on then type_error else ok []
  | r ∷ rs ↦
      ok (map (if on && not r.read then mark_as_read else mark_as_unread) (ids_of vm.selection))
]

-- `bulkDelete`, with the answer to the question.
unfoldable pub bulk_delete : Bool → AlertPage → List AlertCall
bulk_delete confirmed vm = if confirmed then bulk_remove (ids_of vm.selection) ∷ [] else []

-- `createNewCase` and `mergeInCase`, after the dialog that gives the case. The new case gets the
-- alerts that were selected when the dialog was opened.
unfoldable pub create_new_case : AlertPage → String → List AlertCall
create_new_case opened case_id = bulk_merge_into (ids_of opened.selection) case_id ∷ []

unfoldable pub merge_in_case : AlertPage → String → List AlertCall
merge_in_case answered case_id = bulk_merge_into (ids_of answered.selection) case_id ∷ []
