-- ===== src/CasePage.antt =====
-- nv-ui/app/scripts/controllers/case/CaseListCtrl.js: the page that lists cases, with its selection,
-- its menu and its named filters, and the lists of nv-ui/app/scripts/services/api/CaseSrv.js.
--
-- A row that is in the list and in the selection is one object in the source; what the page reads of
-- a selected row is what no click changes. Dialogs, responders, and the import of archives are left
-- out.
pub mod Service
pub mod Feeds
pub mod Presets
pub mod Selecting
mod Examples
use neural_vyuha_prime.Common.{
  ℕ, String, Bool, true, false, not, ◌&&◌, ◌||◌, Option, none, some, List, [], ◌∷◌, ◌++◌, map,
  filter, ◌==◌, eqb, ltb, if◌then◌else◌, Result, ok, type_error, ◌>>=◌, length,
}
use mathlib.Core.Bool.{beq}
use neural_vyuha_prime.Uniq.{uniq, is_only}
use neural_vyuha_prime.Session.{check_permissions}
use neural_vyuha_prime.Query.{Filter}
use neural_vyuha_prime.Filtering.{Filtering}
use neural_vyuha_prime.Paging.{Settings, PagedQuery, Effect}

-- `flag` is missing where the service does not give it, and so is the `permissions` of `extraData`
-- where there is no `extraData`.
pub record CaseRow : Type 0 where
  pub id : String
  pub title : String
  pub status : String
  pub flag : Option Bool
  pub permissions : Option (List String)
  pub selected : Bool

pub record CaseMenu : Type 0 where
  pub select_all : Bool
  pub flag : Bool
  pub unflag : Bool
  pub close : Bool
  pub reopen : Bool
  pub delete : Bool

-- What the adapter of CaseSrv is made with.
pub record CaseConfig : Type 0 where
  pub page_size : ℕ
  pub current_page : Option ℕ
  pub filters : Option (List Filter)

pub record CaseAdapter : Type 0 where
  pub values : List CaseRow
  pub total : ℕ
  pub loading : Bool
  pub config : CaseConfig

pub data CaseFeed : Type 0 where
  unloaded : CaseFeed
  paged : Settings → PagedQuery CaseRow → CaseFeed
  adapted : CaseAdapter → CaseFeed

pub record CasePage : Type 0 where
  pub filtering : Filtering
  pub feed : CaseFeed
  pub selection : List CaseRow
  pub menu : CaseMenu

pub record CasesParams : Type 0 where
  pub limit : ℕ
  pub offset : ℕ
  pub status : Option String

-- A change of several cases: of their flag or of their status.
pub data CaseChange : Type 0 where
  set_flag : Bool → CaseChange
  set_status : String → CaseChange

pub data CaseCall : Type 0 where
  get_cases : CasesParams → CaseCall
  bulk_update : List String → CaseChange → CaseCall
  force_remove : String → CaseCall
  ask : Effect → CaseCall

abbrev pub rows_of : CaseFeed → List CaseRow
rows_of unloaded = []
rows_of (paged s p) = p.values
rows_of (adapted a) = a.values

abbrev pub with_rows : List CaseRow → CaseFeed → CaseFeed
with_rows rows unloaded = unloaded
with_rows rows (paged s p) = paged s (record p { values = rows })
with_rows rows (adapted a) = adapted (record a { values = rows })

-- `===` of flags that may be missing.
abbrev pub flag_eq : Option Bool → Option Bool → Bool
flag_eq none none = true
flag_eq none (some b) = false
flag_eq (some a) none = false
flag_eq (some a) (some b) = beq a b

unfoldable pub update_case_menu : CasePage → CasePage
update_case_menu vm =
    let flags = uniq flag_eq (map (λ (r : CaseRow). r.flag) vm.selection) in
    let statuses = uniq ◌==◌ (map (λ (r : CaseRow). r.status) vm.selection) in
    record vm {
      menu = record {
        select_all = vm.menu.select_all;
        unflag = is_only flag_eq (some true) flags;
        flag = is_only flag_eq (some false) flags;
        close = is_only ◌==◌ "Open" statuses;
        reopen = is_only ◌==◌ "Resolved" statuses;
        delete = ltb 0 (length vm.selection);
      };
    }

-- `select`, which the check box of a row calls after it has set `selected` to `on`.
unfoldable pub select_case : CaseRow → Bool → CasePage → CasePage
unfolding update_case_menu
select_case row on vm =
    let marked =
      map (λ (r : CaseRow). if r.id == row.id then record r { selected = on } else r)
        (rows_of vm.feed) in
    update_case_menu (record vm {
      feed = with_rows marked vm.feed;
      selection =
          if on
          then vm.selection ++ record row { selected = on } ∷ []
          else filter (λ (r : CaseRow). not (r.id == row.id)) vm.selection;
    })

-- The loop of `selectAll`: `extraData.permissions` is read of each row.
unfoldable pub mark_rows : Bool → List CaseRow → Result (List CaseRow)
unfolding check_permissions
mark_rows on [] = ok []
mark_rows on (r ∷ rows) =
    let rest = mark_rows on rows in
    elim r.permissions [
      | none ↦ type_error
      | some permissions ↦ rest >>= λ marked. ok (
          (if check_permissions ("manageCase" ∷ []) permissions
            then record r { selected = on }
            else r)
          ∷ marked)
    ]

-- `selectAll`, which the check box of the header calls after it has set `menu.selectAll` to `on`.
unfoldable pub select_all_cases : Bool → CasePage → Result CasePage
unfolding mark_rows update_case_menu
select_all_cases on vm = mark_rows on (rows_of vm.feed) >>= λ marked. ok (
    update_case_menu (record vm {
      feed = with_rows marked vm.feed;
      selection = if on then filter (λ (r : CaseRow). r.selected) marked else [];
      menu = record (vm.menu) { select_all = on };
    }))

unfoldable pub reset_case_selection : CasePage → Result CasePage
unfolding select_all_cases update_case_menu
reset_case_selection vm =
    if vm.menu.select_all
    then select_all_cases true vm
    else ok (
        update_case_menu
          (record vm { selection = []; menu = record (vm.menu) { select_all = false } }))

abbrev pub case_ids : List CaseRow → List String
case_ids rows = map (λ (r : CaseRow). r.id) rows

unfoldable pub bulk_flag : Bool → CasePage → List CaseCall
bulk_flag on vm = bulk_update (case_ids vm.selection) (set_flag on) ∷ []

-- `bulkReopen` and the dialog of `bulkRemove`, with the answers to their questions.
unfoldable pub bulk_reopen : Bool → CasePage → List CaseCall
bulk_reopen confirmed vm =
    if confirmed then bulk_update (case_ids vm.selection) (set_status "Open") ∷ [] else []

unfoldable pub bulk_remove_cases : Bool → CasePage → List CaseCall
bulk_remove_cases confirmed vm =
    if confirmed then map (λ (r : CaseRow). force_remove r.id) vm.selection else []
