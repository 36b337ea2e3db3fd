-- ===== src/Tasks/Menus.antt =====
-- What the menu offers for a selection.
use neural_vyuha_prime.Common.{
  Bool, true, false, not, ◌&&◌, List, [], ◌∷◌, map, ◌≡◌, refl, ◌∙◌, arith, length, all, ap, any,
  ltb,
}
use mathlib.Core.Bool.{beq}
use neural_vyuha_prime.Tasks.{Status, waiting, completed, Task, Scope, status_eq, update_menu}
use neural_vyuha_prime.Uniq.{
  is_nonempty, is_only-uniq-map, is_only-uniq-beq, elem-uniq_from, any-map,
}

abbrev statuses : Scope → List Status
statuses s = map (λ (t : Task). t.status) s.selection

status_refl : (a : Status) → status_eq a a ≡ true
status_refl a = ground arith

status_euclid : (a b c : Status) → status_eq a b ≡ true → status_eq a c ≡ status_eq b c
status_euclid a b c h = ground arith

status_comm : (a b : Status) → status_eq a b ≡ status_eq b a
status_comm a b = ground arith

length-is_nonempty : {A : Type 0} (xs : List A) → ltb 0 (length xs) ≡ is_nonempty xs
length-is_nonempty [] = refl
length-is_nonempty (x ∷ xs) = ground arith

-- The menu offers to flag, unflag, start or reopen tasks exactly if some are selected and all of
-- them allow it, and to delete exactly if some are selected; it offers to close exactly if none of
-- the selected tasks is completed, also where none is selected.
pub update_menu_lem :
    (s : Scope)
    → let m = (update_menu s).menu in
      let every = λ (p : Task → Bool). is_nonempty s.selection && all p s.selection in
      (m.unflag ≡ every (λ t. beq t.flag true))
      × (m.flag ≡ every (λ t. beq t.flag false))
      × (m.start ≡ every (λ t. status_eq t.status waiting))
      × (m.reopen ≡ every (λ t. status_eq t.status completed))
      × (m.close ≡ not (any (λ (t : Task). status_eq t.status completed) s.selection))
      × (m.delete ≡ is_nonempty s.selection)
unfolding update_menu
update_menu_lem s = (
  is_only-uniq-beq (λ (t : Task). t.flag) true s.selection,
  is_only-uniq-beq (λ (t : Task). t.flag) false s.selection,
  is_only-uniq-map status_eq status_refl status_euclid status_comm (λ (t : Task). t.status) waiting
      s.selection,
  is_only-uniq-map status_eq status_refl status_euclid status_comm (λ (t : Task). t.status)
      completed s.selection,
  ap not (
      elem-uniq_from status_eq status_refl status_euclid status_comm completed [] (statuses s)
      ∙ any-map (λ (t : Task). t.status) (λ x. status_eq x completed) s.selection),
  length-is_nonempty s.selection,
)
