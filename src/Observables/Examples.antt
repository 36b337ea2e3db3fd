-- ===== src/Observables/Examples.antt =====
-- Three selected observables, one of them without tags.
use neural_vyuha_prime.Common.{
  String, true, none, some, List, [], ◌∷◌, map, ◌≡◌, refl, length, any, if◌then◌else◌, arith, ◌≤◌,
}
use neural_vyuha_prime.Observables.{Observable, ObservablePage, initial, on_observables, or_none}
use neural_vyuha_prime.Observables.Selecting.{is_bare, marked, on_observables-select_all}
use neural_vyuha_prime.Observables.Dialog.{
  Dialog, open_dialog, add_from_library, remove_from_library, toggle_tlp, save,
}
use neural_vyuha_prime.Observables.Dialog.Patches.{
  of_id, patches_for, wanted_patch, patches_for-save,
}

abbrev observable : String → List String → Observable
observable id tags = record {
  id = id;
  data_type = "ip";
  tags = tags;
  permissions = some [];
  selected = true;
}

abbrev chosen : List Observable
chosen =
    observable "o1" ("old" ∷ "seen" ∷ []) ∷ observable "o2" [] ∷ observable "o3" ("old" ∷ []) ∷ []

abbrev edited : Dialog
edited = toggle_tlp 3 (
    remove_from_library ("old" ∷ [])
      (add_from_library ("new" ∷ "old" ∷ []) (open_dialog chosen ("ip" ∷ "url" ∷ []))))

one_named : length (of_id "o1" edited.selection) ≤ 1
unfolding open_dialog toggle_tlp add_from_library remove_from_library
one_named = omega arith

patches_for-save_example :
    patches_for "o1" (save edited) ≡ map (wanted_patch edited) (of_id "o1" edited.selection)
patches_for-save_example = patches_for-save "o1" edited one_named

abbrev checked : ObservablePage
checked = record initial { select_all = true }

on_observables-select_all_example :
    let found = some (record (observable "o4" []) { permissions = none } ∷ chosen) in
    on_observables found checked ≡ (
      if any is_bare (or_none found)
      then record checked { values = []; total = 0 }
      else record checked {
        values = marked true (or_none found);
        total = length (or_none found);
        selection = some (marked true (or_none found));
        select_all = true;
      })
on_observables-select_all_example =
    on_observables-select_all (some (record (observable "o4" []) { permissions = none } ∷ chosen))
      checked refl
