-- ===== src/Alerts/Marks.antt =====
-- The marks of the rows in nvAlertListController.js.
use neural_vyuha_prime.Common.{
  ℕ, suc, ap, sym, Option, none, some, String, Bool, true, false, not, List, [], ◌∷◌, map, length,
  ◌==◌, ◌≡◌, refl, arith, eq_refl, ◌∙◌,
}
use neural_vyuha_prime.Alerts.{
  Alert, AlertList, named, as_key, or_else, key, is_member, on_alerts, on_alerts_error, hits, array,
  nothing, Answer,
}
use neural_vyuha_prime.Alerts.Selection.{
  mark_row, toggle_select, toggle_select_all, clear_selection, is_listed, member-toggle_select,
  member-toggle_select_all,
}

-- The number that is shown is that of the selected alerts, and a row is marked exactly if its alert
-- is selected.
abbrev pub AllMarked : List String → List Alert → Type 0
AllMarked ids [] = Unit
AllMarked ids (a ∷ as') = (a.selected ≡ is_member (key a) ids) × AllMarked ids as'

abbrev pub IsShown : AlertList → Type 0
IsShown vm = (vm.selected_count ≡ length vm.selected_ids) × AllMarked vm.selected_ids vm.alerts

-- The row n is the only one with this key.
abbrev NoKey : String → List Alert → Type 0
NoKey k [] = Unit
NoKey k (a ∷ as') = ((k == key a) ≡ false) × NoKey k as'

abbrev pub IsOnlyRow : ℕ → String → List Alert → Type 0
IsOnlyRow n k [] = ⊥
IsOnlyRow ℕ.zero k (a ∷ as') = (k ≡ key a) × NoKey k as'
IsOnlyRow (suc n) k (a ∷ as') = ((k == key a) ≡ false) × IsOnlyRow n k as'

abbrev pub is_named : Option String → Bool
is_named none = false
is_named (some s) = not (s == "")

-- Every alert of the answer has a name.
abbrev pub AllNamed : List Alert → Type 0
AllNamed [] = Unit
AllNamed (a ∷ as') = (is_named (or_else (or_else a.id a.event_id) a.other_id) ≡ true) × AllNamed as'

-- The alerts come without a mark, and none of them is selected.
abbrev pub AllFresh : List String → List Alert → Type 0
AllFresh ids [] = Unit
AllFresh ids (a ∷ as') = (a.selected ≡ false) × (is_member (key a) ids ≡ false) × AllFresh ids as'

pub data SelectOp : Type 0 where
  row : ℕ → Alert → SelectOp
  all_rows : SelectOp
  clear : SelectOp
  answered : Answer → SelectOp
  failed : SelectOp

unfoldable pub select : SelectOp → AlertList → AlertList
select (row n a) vm = toggle_select n a vm
select all_rows vm = toggle_select_all vm
select clear vm = clear_selection vm
select (answered answer) vm = on_alerts answer vm
select failed vm = on_alerts_error vm

abbrev pub Happens : SelectOp → AlertList → Type 0
Happens (row n a) vm = IsOnlyRow n (key a) vm.alerts
Happens (answered (hits found n)) vm = AllNamed found
Happens (answered (array found)) vm = AllFresh vm.selected_ids found
Happens _ vm = Unit

-- `AllMarked` depends on the members of the selection alone.
AllMarked-ext :
    (k : String) (ids ids' : List String) (as' : List Alert)
    → ((i : String) → (k == i) ≡ false → is_member i ids' ≡ is_member i ids)
    → NoKey k as'
    → AllMarked ids as'
    → AllMarked ids' as'
AllMarked-ext k ids ids' [] same none_of m = tt
AllMarked-ext k ids ids' (a ∷ as') same (other, none_of) (here, m) =
    (here ∙ sym (same (key a) other), AllMarked-ext k ids ids' as' same none_of m)

AllMarked-mark_row :
    (k : String) (ids ids' : List String) (n : ℕ) (as' : List Alert)
    → ((i : String) → (k == i) ≡ false → is_member i ids' ≡ is_member i ids)
    → IsOnlyRow n k as'
    → AllMarked ids as'
    → AllMarked ids' (mark_row n (is_member k ids') as')
AllMarked-mark_row k ids ids' n [] same only m = absurd only
AllMarked-mark_row k ids ids' ℕ.zero (a ∷ as') same (this, none_of) (here, m) =
    (ap (λ j. is_member j ids') this, AllMarked-ext k ids ids' as' same none_of m)
AllMarked-mark_row k ids ids' (suc n) (a ∷ as') same (other, only) (here, m) =
    (here ∙ sym (same (key a) other), AllMarked-mark_row k ids ids' n as' same only m)

AllMarked-all :
    (on : Bool) (ids : List String) (as' : List Alert)
    → ((i : String) → is_listed i as' ≡ true → is_member i ids ≡ on)
    → AllMarked ids (map (λ (a : Alert). record a { selected = on }) as')
AllMarked-all on ids [] h = tt
AllMarked-all on ids (a ∷ as') h =
    (sym (h (key a) (rw (eq_refl (key a)))), AllMarked-all on ids as' (λ i l. h i (ground arith)))

pub AllMarked-none :
    (as' : List Alert) → AllMarked [] (map (λ (a : Alert). record a { selected = false }) as')
AllMarked-none [] = tt
AllMarked-none (a ∷ as') = (refl, AllMarked-none as')

AllFresh-marked :
    (ids : List String) (found : List Alert) → AllFresh ids found → AllMarked ids found
AllFresh-marked ids [] h = tt
AllFresh-marked ids (a ∷ as') (unmarked, other, rest) =
    (unmarked ∙ sym other, AllFresh-marked ids as' rest)

or_else-named : (n e : Option String) → is_named n ≡ true → as_key (or_else n e) ≡ as_key n
or_else-named none e h = cc
or_else-named (some s) e h = ground arith

key-named :
    (ids : List String) (a : Alert)
    → AllNamed (a ∷ [])
    → key (named ids a) ≡ as_key (named ids a).id
key-named ids a (h, _) = or_else-named (or_else (or_else a.id a.event_id) a.other_id) a.event_id h

AllMarked-named :
    (ids : List String) (found : List Alert)
    → AllNamed found
    → AllMarked ids (map (named ids) found)
AllMarked-named ids [] h = tt
AllMarked-named ids (a ∷ as') (n, h) =
    (ap (λ k. is_member k ids) (sym (key-named ids a (n, tt))), AllMarked-named ids as' h)

-- Where the number of selected alerts and the marks of the rows agree with the selection, they
-- still do after a click and after an answer, if the clicked row is the only one with its key,
-- every alert among the hits of an answer has a name that is not empty, and an answer that is an
-- array, which the page takes as it is, comes without marks and has none of the selected alerts.
pub select-IsShown :
    (op : SelectOp) (vm : AlertList) → Happens op vm → IsShown vm → IsShown (select op vm)
unfolding select on_alerts on_alerts_error clear_selection toggle_select toggle_select_all
select-IsShown (row n a) vm only (c, m) = (
  refl,
  AllMarked-mark_row (key a) vm.selected_ids _ n vm.alerts
      (λ i other. member-toggle_select i n a vm ∙ rw other) only m,
)
select-IsShown all_rows vm _ (c, m) = (
  refl,
  AllMarked-all (not vm.select_all_checked) _ vm.alerts
      (λ i listed. member-toggle_select_all i vm ∙ rw listed),
)
select-IsShown clear vm _ h = (refl, AllMarked-none vm.alerts)
select-IsShown (answered (hits found n)) vm h (c, m) = (c, AllMarked-named vm.selected_ids found h)
select-IsShown (answered (array found)) vm h (c, m) = (c, AllFresh-marked vm.selected_ids found h)
select-IsShown (answered nothing) vm _ (c, m) = (c, tt)
select-IsShown failed vm _ (c, m) = (c, tt)
