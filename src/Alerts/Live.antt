-- ===== src/Alerts/Live.antt =====
-- The live stream of nvAlertListController.js.
use neural_vyuha_prime.Common.{
  ℕ, suc, Bool, true, not, ◌&&◌, ◌||◌, none, some, List, ◌∷◌, length, ◌+◌, ◌-◌, ◌≤◌, ◌<◌, ◌==◌, ◌≡◌,
  refl, sym, arith, eqb, ltb, if◌then◌else◌, take, Bool-cases, inl, inr,
}
use neural_vyuha_prime.Common.{take_all, ap}
use neural_vyuha_prime.Alerts.{Alert, AlertList, or_else}

-- `unshift`, then `pop` of what no longer fits.
abbrev pub prepend : ℕ → Alert → List Alert → List Alert
prepend size a xs =
    let more = a ∷ xs in if ltb size (length more) then take (length more - 1) more else more

-- The list shows new alerts: it is at its first page and not filtered by another status.
abbrev pub takes_new : AlertList → Bool
takes_new vm = elim vm.filter_params.status [
  | none ↦ eqb vm.page 1
  | some status ↦ eqb vm.page 1 && (status == "" || status == "New")
]

-- A message about a new alert.
unfoldable pub on_new_alert : Alert → AlertList → AlertList
on_new_alert alert vm =
    let fresh = record alert {
      id = or_else (or_else alert.id alert.event_id) alert.other_id;
      is_new = true;
    } in
    let counted = record vm {
      new_alert_count = vm.new_alert_count + 1;
      stats_total = vm.stats_total + 1;
      stats_new = vm.stats_new + 1;
    } in
    if vm.live_enabled
    then (if takes_new vm
        then record counted {
          alerts = prepend vm.page_size fresh vm.alerts;
          total_alerts = vm.total_alerts + 1;
        }
        else counted)
    else vm

unfoldable pub toggle_live : AlertList → AlertList
toggle_live vm = record vm { live_enabled = not vm.live_enabled }

prepend-take :
    (size : ℕ) (a : Alert) (xs : List Alert)
    → 0 < size
    → length xs ≤ size
    → prepend size a xs ≡ a ∷ take (size - 1) xs
prepend-take size a xs pos short = elim (Bool-cases (ltb size (length (a ∷ xs)))) [
  | inl full ↦ rw full (let same : suc (length xs) - 1 ≡ suc (size - 1) = ground arith in rw same)
  | inr free ↦ rw free (ap (a ∷◌) (sym (take_all (size - 1) xs (ground arith))))
]

-- What a message's alert looks like in the list.
abbrev pub arrived : Alert → Alert
arrived a = record a { id = or_else (or_else a.id a.event_id) a.other_id; is_new = true }

-- While the live stream is on, and the list takes new alerts and has no more than a page of a
-- positive size, a new alert becomes the first of the page, the last one leaves a full page, and
-- the counters count it.
pub on_new_alert_lem :
    (a : Alert) (vm : AlertList)
    → vm.live_enabled ≡ true
    → takes_new vm ≡ true
    → 0 < vm.page_size
    → length vm.alerts ≤ vm.page_size
    → let t = on_new_alert a vm in
      (t.alerts ≡ arrived a ∷ take (vm.page_size - 1) vm.alerts)
      × (t.total_alerts ≡ vm.total_alerts + 1)
      × (t.new_alert_count ≡ vm.new_alert_count + 1)
      × (t.stats_new ≡ vm.stats_new + 1)
unfolding on_new_alert
on_new_alert_lem a vm live shown pos short =
    rw (live, shown) (prepend-take vm.page_size (arrived a) vm.alerts pos short, refl, refl, refl)
