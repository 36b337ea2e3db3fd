-- ===== src/Observables.antt =====
-- nv-ui/app/scripts/controllers/case/CaseObservablesCtrl.js: the observables of a case, their
-- selection and the actions on it. The dialog of the bulk edit is Observables/Dialog.
--
-- An observable of the source is shared by the list and the selection; here it is its record, and its
-- `_id` tells observables apart. `permissions` is `extraData.permissions`, none where there is no
-- `extraData`.
pub mod Dialog
pub mod Selecting
mod Examples
use neural_vyuha_prime.Common.{
  ℕ, String, Bool, true, false, not, Option, none, some, List, [], ◌∷◌, ◌++◌, map, ◌==◌,
  if◌then◌else◌, length, filter, Result, ok, type_error, ◌>>=◌,
}
use neural_vyuha_prime.Session.{check_permissions}

pub record Observable : Type 0 where
  pub id : String
  pub data_type : String
  pub tags : List String
  pub permissions : Option (List String)
  pub selected : Bool

-- `selection` is `selection.artifacts`, which is not there before the first answer.
pub record ObservablePage : Type 0 where
  pub values : List Observable
  pub total : ℕ
  pub selection : Option (List Observable)
  pub select_all : Bool
  pub show_export_panel : Bool

abbrev pub or_none : Option (List Observable) → List Observable
or_none none = []
or_none (some os) = os

abbrev pub initial : ObservablePage
initial = record {
  values = [];
  total = 0;
  selection = none;
  select_all = false;
  show_export_panel = false;
}

-- The loop of `selectAll`.
unfoldable pub mark_observables : Bool → List Observable → Result (List Observable)
unfolding check_permissions
mark_observables on [] = ok []
mark_observables on (o ∷ os) =
    let rest = mark_observables on os in
    elim o.permissions [
      | none ↦ type_error
      | some permissions ↦ rest >>= λ marked. ok (
          (if check_permissions ("manageObservable" ∷ []) permissions
            then record o { selected = on }
            else o)
          ∷ marked)
    ]

-- `selectAll`, which the check box of the header calls after it has set `menu.selectAll` to `on`.
unfoldable pub select_all_observables : Bool → ObservablePage → Result ObservablePage
unfolding mark_observables
select_all_observables on s = mark_observables on s.values >>= λ marked. ok (record s {
  select_all = on;
  values = marked;
  selection = some (if on then filter (λ (o : Observable). o.selected) marked else []);
})

unfoldable pub reset_observables : ObservablePage → Result ObservablePage
unfolding select_all_observables
reset_observables s =
    if s.select_all
    then select_all_observables true s
    else ok (record s { selection = some []; select_all = false })

-- `load`, up to its request, its answer and its failure, which is also what follows where the
-- handler of the answer throws.
unfoldable pub load_observables : ObservablePage → ObservablePage
load_observables s = record s { values = []; total = 0 }

unfoldable pub on_observables_error : ObservablePage → ObservablePage
on_observables_error s = record s { values = []; total = 0 }

unfoldable pub on_observables : Option (List Observable) → ObservablePage → ObservablePage
unfolding on_observables_error reset_observables
on_observables found s =
    let shown = or_none found in
    elim (reset_observables (record s { values = shown; total = length shown })) [
      | ok t ↦ t
      | type_error ↦ on_observables_error s
    ]

-- `selectArtifact`, which the check box of a row calls after it has set `selected` to `on`.
unfoldable pub select_artifact : Observable → Bool → ObservablePage → Result ObservablePage
select_artifact row on s =
    let marked =
      map (λ (o : Observable). if o.id == row.id then record o { selected = on } else o) s.values in
    if on
    then elim s.selection [
      | none ↦ type_error
      | some chosen ↦ ok (record s {
        values = marked;
        selection = some (chosen ++ record row { selected = true } ∷ []);
      })
    ]
    else ok (record s {
      values = marked;
      selection = some (filter (λ (o : Observable). not (o.id == row.id)) (or_none s.selection));
    })

-- `removeObservables`, once it is confirmed: `accepted` tells which deletions the server accepts. The
-- requests, and the observables of which the pages above are told.
pub record Removal : Type 0 where
  pub deleted : List String
  pub emitted : List Observable

unfoldable pub remove_observables : (String → Bool) → ObservablePage → Removal
remove_observables accepted s =
    let chosen = or_none s.selection in
    record {
      deleted = map (λ (o : Observable). o.id) chosen;
      emitted = filter (λ (o : Observable). accepted o.id) chosen;
    }
