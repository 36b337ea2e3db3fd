-- ===== src/AlertPage/Menus.antt =====
-- What the menu of AlertListCtrl.js offers, and that it offers what can be done.
use neural_vyuha_prime.Common.{
  Bool, true, false, not, ◌&&◌, List, [], ◌∷◌, map, all, filter, length, ◌≡◌, refl, sym, ◌∙◌, arith,
  ok, eqb, if◌then◌else◌,
}
use mathlib.Core.Bool.{beq}
use neural_vyuha_prime.Uniq.{is_nonempty, is_only-uniq-beq}
use neural_vyuha_prime.AlertPage.{
  Row, AlertPage, has_case, ids_of, update_menu, bulk_mark_as_read, mark_as_read, mark_as_unread,
}

none_has_case :
    (rows : List Row)
    → eqb (length (filter has_case rows)) 0 ≡ all (λ (r : Row). not (has_case r)) rows
none_has_case [] = refl
none_has_case (r ∷ rows) = ground (arith, none_has_case rows)

-- The menu offers to follow or to unfollow alerts, and to mark them as read or unread, exactly if
-- some are selected and each of them allows it; it offers to make a case of alerts, to merge and to
-- delete them exactly if no selected alert has a case, also where none is selected.
pub update_menu-offers :
    (vm : AlertPage)
    → let m = (update_menu vm).menu in
      let every = λ (p : Row → Bool). is_nonempty vm.selection && all p vm.selection in
      (m.unfollow ≡ every (λ r. beq r.follow true))
      × (m.follow ≡ every (λ r. beq r.follow false))
      × (m.mark_as_unread ≡ every (λ r. beq r.read true))
      × (m.mark_as_read ≡ every (λ r. beq r.read false))
      × (m.create_new_case ≡ all (λ (r : Row). not (has_case r)) vm.selection)
      × (m.merge_in_case ≡ all (λ (r : Row). not (has_case r)) vm.selection)
      × (m.delete ≡ all (λ (r : Row). not (has_case r)) vm.selection)
unfolding update_menu
update_menu-offers vm = (
  is_only-uniq-beq (λ (r : Row). r.follow) true vm.selection,
  is_only-uniq-beq (λ (r : Row). r.follow) false vm.selection,
  is_only-uniq-beq (λ (r : Row). r.read) true vm.selection,
  is_only-uniq-beq (λ (r : Row). r.read) false vm.selection,
  none_has_case vm.selection,
  none_has_case vm.selection,
  none_has_case vm.selection,
)

marks-all :
    (on : Bool) (vm : AlertPage) (rows : List Row)
    → vm.selection ≡ rows
    → (is_nonempty rows && all (λ (r : Row). beq r.read (not on)) rows) ≡ true
    → bulk_mark_as_read on vm ≡ ok (map (if on then mark_as_read else mark_as_unread) (ids_of rows))
unfolding bulk_mark_as_read
marks-all on vm [] e h = cc
marks-all true vm (r ∷ rows) e h = ground arith
marks-all false vm (r ∷ rows) e h = ground arith

offered :
    (on : Bool) (vm : AlertPage)
    → (if on then (update_menu vm).menu.mark_as_read else (update_menu vm).menu.mark_as_unread)
      ≡ (is_nonempty vm.selection && all (λ (r : Row). beq r.read (not on)) vm.selection)
unfolding update_menu
offered true vm = is_only-uniq-beq (λ (r : Row). r.read) false vm.selection
offered false vm = is_only-uniq-beq (λ (r : Row). r.read) true vm.selection

-- Where the menu offers to mark the selection as read, or as unread, the action does not throw, each
-- selected alert is in the other state, and the requests mark exactly the selected alerts.
pub bulk_mark_as_read-offered :
    (on : Bool) (vm : AlertPage)
    → (if on then (update_menu vm).menu.mark_as_read else (update_menu vm).menu.mark_as_unread)
      ≡ true
    → (bulk_mark_as_read on (update_menu vm)
        ≡ ok (map (if on then mark_as_read else mark_as_unread) (ids_of vm.selection)))
      × (all (λ (r : Row). beq r.read (not on)) vm.selection ≡ true)
unfolding update_menu
bulk_mark_as_read-offered on vm h =
    let allowed = sym (offered on vm) ∙ h in
    (marks-all on (update_menu vm) vm.selection refl allowed, ground (arith, allowed))
