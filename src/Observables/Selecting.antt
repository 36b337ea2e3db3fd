-- ===== src/Observables/Selecting.antt =====
-- "Select all" of CaseObservablesCtrl.js, and what an answer shows while it is checked.
use neural_vyuha_prime.Common.{
  Bool, true, false, Option, none, some, List, [], ◌∷◌, map, ok, type_error, ◌≡◌, refl, arith, any,
  length, if◌then◌else◌, Bool-cases, inl, inr, filter,
}
use neural_vyuha_prime.Observables.{
  Observable, ObservablePage, mark_observables, select_all_observables, reset_observables,
  on_observables, on_observables_error, or_none,
}

-- It came without `extraData`.
abbrev pub is_bare : Observable → Bool
is_bare o = elim o.permissions [ none ↦ true | some _ ↦ false ]

abbrev pub marked : Bool → List Observable → List Observable
marked on os = map (λ (o : Observable). record o { selected = on }) os

pub mark_observables_lem :
    (on : Bool) (os : List Observable)
    → mark_observables on os ≡ (if any is_bare os then type_error else ok (marked on os))
unfolding mark_observables
mark_observables_lem on [] = refl
mark_observables_lem on (o ∷ os) = ground (arith, mark_observables_lem on os)

select-marked :
    (os : List Observable)
    → filter (λ (o : Observable). o.selected) (marked true os) ≡ marked true os
select-marked [] = refl
select-marked (o ∷ os) = rw (select-marked os) refl

-- While "select all" is checked, an answer with an observable that has no `extraData` leaves the list
-- empty, and any other answer is shown whole, marked and selected.
pub on_observables-select_all :
    (found : Option (List Observable)) (s : ObservablePage)
    → s.select_all ≡ true
    → let shown = marked true (or_none found) in
      on_observables found s ≡ (
        if any is_bare (or_none found) then record s { values = []; total = 0 } else record s {
          values = shown;
          total = length (or_none found);
          selection = some shown;
          select_all = true;
        })
unfolding on_observables on_observables_error reset_observables select_all_observables
on_observables-select_all found s checked =
    let os = or_none found in
    elim (Bool-cases (any is_bare os)) [
      | inl bare ↦ ground (arith, mark_observables_lem true os)
      | inr whole ↦ ground (arith, mark_observables_lem true os, select-marked os)
    ]
