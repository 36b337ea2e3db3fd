-- ===== src/Alerts/Selection.antt =====
-- The selection of nvAlertListController.js.
use neural_vyuha_prime.Common.{
  ℕ, suc, ap, sym, String, Bool, true, false, not, ◌&&◌, ◌||◌, List, [], ◌∷◌, ◌++◌, map, any,
  length, ◌==◌, ◌≡◌, refl, arith, eqb, ltb, eq_iff, if◌then◌else◌, Bool-cases, inl, inr, ◌∙◌,
}
use neural_vyuha_prime.Alerts.{Alert, AlertList, key, is_member, insert_key, delete_key}

-- The alert object of a row is told by the row's number.
abbrev pub mark_row : ℕ → Bool → List Alert → List Alert
mark_row n on [] = []
mark_row ℕ.zero on (a ∷ as') = record a { selected = on } ∷ as'
mark_row (suc n) on (a ∷ as') = a ∷ mark_row n on as'

unfoldable pub toggle_select : ℕ → Alert → AlertList → AlertList
toggle_select n alert vm =
    let k = key alert in
    let ids =
      if is_member k vm.selected_ids
      then delete_key k vm.selected_ids
      else insert_key k vm.selected_ids in
    record vm {
      selected_ids = ids;
      alerts = mark_row n (is_member k ids) vm.alerts;
      selected_count = length ids;
      select_all_checked = eqb (length ids) (length vm.alerts) && ltb 0 (length vm.alerts);
    }

-- The loop over the listed alerts.
unfoldable pub select_each : Bool → List Alert → List String → List String
select_each on [] ids = ids
select_each on (a ∷ as') ids =
    select_each on as' (if on then insert_key (key a) ids else delete_key (key a) ids)

unfoldable pub toggle_select_all : AlertList → AlertList
unfolding select_each
toggle_select_all vm =
    let on = not vm.select_all_checked in
    let ids = select_each on vm.alerts vm.selected_ids in
    record vm {
      select_all_checked = on;
      selected_ids = ids;
      alerts = map (λ (a : Alert). record a { selected = on }) vm.alerts;
      selected_count = length ids;
    }

unfoldable pub clear_selection : AlertList → AlertList
clear_selection vm = record vm {
  selected_ids = [];
  selected_count = 0;
  select_all_checked = false;
  alerts = map (λ (a : Alert). record a { selected = false }) vm.alerts;
}

unfoldable pub get_selected_ids : AlertList → List String
get_selected_ids vm = vm.selected_ids

member-append :
    (i k : String) (ks : List String) → is_member i (ks ++ k ∷ []) ≡ (k == i || is_member i ks)
member-append i k [] = refl
member-append i k (j ∷ ks) = ground (arith, member-append i k ks)

member-insert :
    (i k : String) (ks : List String) → is_member i (insert_key k ks) ≡ (k == i || is_member i ks)
member-insert i k ks = elim (Bool-cases (is_member k ks)) [
  | inl old ↦ rw old (elim (Bool-cases (k == i)) [
    | inl same ↦ rw same (ap (λ j. is_member j ks) (sym ((eq_iff k i).0 same)) ∙ old)
    | inr other ↦ rw other
  ])
  | inr new ↦ rw new (member-append i k ks)
]

member-delete :
    (i k : String) (ks : List String)
    → is_member i (delete_key k ks) ≡ (not (k == i) && is_member i ks)
member-delete i k [] = ground arith
member-delete i k (j ∷ ks) =
    ground (arith, member-delete i k ks, eq_iff j k, eq_iff k i, eq_iff j i)

abbrev pub is_listed : String → List Alert → Bool
is_listed i as' = any (λ a. key a == i) as'

member-select_each :
    (i : String) (on : Bool) (as' : List Alert) (ids : List String)
    → is_member i (select_each on as' ids) ≡ (if is_listed i as' then on else is_member i ids)
unfolding select_each
member-select_each i on [] ids = refl
member-select_each i true (a ∷ as') ids =
    ground
      (arith, member-select_each i true as' (insert_key (key a) ids), member-insert i (key a) ids)
member-select_each i false (a ∷ as') ids =
    ground
      (arith, member-select_each i false as' (delete_key (key a) ids), member-delete i (key a) ids)

-- The check box of the header selects or deselects all the listed alerts, and leaves the selection
-- of the alerts of other pages as it was.
pub member-toggle_select_all :
    (i : String) (vm : AlertList)
    → is_member i (toggle_select_all vm).selected_ids
      ≡ (if is_listed i vm.alerts then not vm.select_all_checked else is_member i vm.selected_ids)
unfolding toggle_select_all
member-toggle_select_all i vm =
    member-select_each i (not vm.select_all_checked) vm.alerts vm.selected_ids

-- The check box of a row changes whether its alert is selected, and nothing else in the selection.
pub member-toggle_select :
    (i : String) (n : ℕ) (a : Alert) (vm : AlertList)
    → is_member i (toggle_select n a vm).selected_ids
      ≡ (if key a == i then not (is_member i vm.selected_ids) else is_member i vm.selected_ids)
unfolding toggle_select
member-toggle_select i n a vm = elim (Bool-cases (is_member (key a) vm.selected_ids)) [
  | inl old ↦
      rw old (ground (arith, member-delete i (key a) vm.selected_ids, eq_iff (key a) i, old))
  | inr new ↦
      rw new (ground (arith, member-insert i (key a) vm.selected_ids, eq_iff (key a) i, new))
]
