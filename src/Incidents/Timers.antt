-- ===== src/Incidents/Timers.antt =====
-- The two timers of nvGroupListController.js. The browser's running timers are a list of handles;
-- a handle is a number from 1 on.
use neural_vyuha_prime.Common.{
  ℕ, zero, suc, ◌+◌, ◌<◌, Bool, true, false, not, ◌||◌, Option, none, some, List, [], ◌∷◌, ◌≡◌,
  refl, arith, eqb, ◌∙◌, filter, if◌then◌else◌,
}

pub record Timers : Type 0 where
  pub auto_refresh_enabled : Bool
  pub refresh : Option ℕ
  pub metrics : Option ℕ
  pub running : List ℕ
  pub next : ℕ

abbrev pub initial : Timers
initial = record {
  auto_refresh_enabled = true;
  refresh = none;
  metrics = none;
  running = [];
  next = 1;
}

-- `$interval` and `$interval.cancel`.
abbrev start_interval : Timers → Timers
start_interval t = record t { running = t.next ∷ t.running; next = t.next + 1 }

abbrev cancel_interval : ℕ → Timers → Timers
cancel_interval h t = record t { running = filter (λ k. not (eqb k h)) t.running }

unfoldable pub stop_auto_refresh : Timers → Timers
stop_auto_refresh t = elim t.refresh [
  | none ↦ t
  | some h ↦ record (cancel_interval h t) { refresh = none }
]

unfoldable pub start_auto_refresh : Timers → Timers
unfolding stop_auto_refresh
start_auto_refresh t =
    let stopped = stop_auto_refresh t in
    record (start_interval stopped) { refresh = some stopped.next }

unfoldable pub stop_metrics_polling : Timers → Timers
stop_metrics_polling t = elim t.metrics [
  | none ↦ t
  | some h ↦ record (cancel_interval h t) { metrics = none }
]

unfoldable pub start_metrics_polling : Timers → Timers
unfolding stop_metrics_polling
start_metrics_polling t =
    let stopped = stop_metrics_polling t in
    record (start_interval stopped) { metrics = some stopped.next }

unfoldable pub toggle_auto_refresh : Timers → Timers
unfolding start_auto_refresh stop_auto_refresh
toggle_auto_refresh t =
    let flipped = record t { auto_refresh_enabled = not t.auto_refresh_enabled } in
    if t.auto_refresh_enabled then stop_auto_refresh flipped else start_auto_refresh flipped

unfoldable pub destroy : Timers → Timers
unfolding stop_auto_refresh stop_metrics_polling
destroy t = stop_metrics_polling (stop_auto_refresh t)

-- The start of the controller.
unfoldable pub start : Timers
unfolding start_auto_refresh start_metrics_polling
start = start_auto_refresh (start_metrics_polling initial)

abbrev pub toggles : ℕ → Timers → Timers
toggles zero t = t
toggles (suc n) t = toggles n (toggle_auto_refresh t)

abbrev holds : Option ℕ → ℕ → Bool
holds none k = false
holds (some h) k = eqb k h

-- Every running timer is held, by one of the two variables, and its handle was given out.
abbrev pub IsHeld : Option ℕ → Option ℕ → ℕ → List ℕ → Type 0
IsHeld r m n [] = Unit
IsHeld r m n (k ∷ ks) = ((holds r k || holds m k) ≡ true) × (k < n) × IsHeld r m n ks

abbrev pub NoLeak : Timers → Type 0
NoLeak t = IsHeld t.refresh t.metrics t.next t.running

cancel-refresh :
    (h n : ℕ) (m : Option ℕ) (ks : List ℕ)
    → IsHeld (some h) m n ks
    → IsHeld none m n (filter (λ k. not (eqb k h)) ks)
cancel-refresh h n m [] l = tt
cancel-refresh h n m (k ∷ ks) (a, b, l) = ground (arith, cancel-refresh h n m ks l)

cancel-metrics :
    (h n : ℕ) (r : Option ℕ) (ks : List ℕ)
    → IsHeld r (some h) n ks
    → IsHeld r none n (filter (λ k. not (eqb k h)) ks)
cancel-metrics h n r [] l = tt
cancel-metrics h n r (k ∷ ks) (a, b, l) = ground (arith, cancel-metrics h n r ks l)

hold-refresh :
    (n : ℕ) (m : Option ℕ) (ks : List ℕ) → IsHeld none m n ks → IsHeld (some n) m (n + 1) ks
hold-refresh n m [] l = tt
hold-refresh n m (k ∷ ks) (a, b, l) = ground (arith, hold-refresh n m ks l)

none_held : (r m : Option ℕ) (n : ℕ) (ks : List ℕ) → r ≡ none → m ≡ none → IsHeld r m n ks → ks ≡ []
none_held r m n [] p q l = refl
none_held none none n (k ∷ ks) p q (a, b, l) = cc
none_held none (some h) n (k ∷ ks) p q l = cc
none_held (some g) m n (k ∷ ks) p q l = cc

abbrev timers : Bool → Option ℕ → Option ℕ → List ℕ → ℕ → Timers
timers b r m ks n = record {
  auto_refresh_enabled = b;
  refresh = r;
  metrics = m;
  running = ks;
  next = n;
}

stop-refresh :
    (b : Bool) (r m : Option ℕ) (ks : List ℕ) (n : ℕ)
    → IsHeld r m n ks
    → let t = stop_auto_refresh (timers b r m ks n) in
      NoLeak t × (t.refresh ≡ none) × (t.metrics ≡ m)
unfolding stop_auto_refresh
stop-refresh b none m ks n l = (l, refl, refl)
stop-refresh b (some h) m ks n l = (cancel-refresh h n m ks l, refl, refl)

stop_auto_refresh-NoLeak :
    (t : Timers)
    → NoLeak t
    → NoLeak (stop_auto_refresh t)
      × ((stop_auto_refresh t).refresh ≡ none)
      × ((stop_auto_refresh t).metrics ≡ t.metrics)
stop_auto_refresh-NoLeak t l =
    stop-refresh t.auto_refresh_enabled t.refresh t.metrics t.running t.next l

stop-metrics :
    (b : Bool) (r m : Option ℕ) (ks : List ℕ) (n : ℕ)
    → IsHeld r m n ks
    → let t = stop_metrics_polling (timers b r m ks n) in
      NoLeak t × (t.refresh ≡ r) × (t.metrics ≡ none)
unfolding stop_metrics_polling
stop-metrics b r none ks n l = (l, refl, refl)
stop-metrics b r (some h) ks n l = (cancel-metrics h n r ks l, refl, refl)

start_auto_refresh-NoLeak : (t : Timers) → NoLeak t → NoLeak (start_auto_refresh t)
unfolding start_auto_refresh
start_auto_refresh-NoLeak t l =
    let (kept, off, _) = stop_auto_refresh-NoLeak t l in
    let s = stop_auto_refresh t in
    ground (arith, hold-refresh s.next s.metrics s.running (rw off at kept))

toggle-at :
    (b : Bool) (r m : Option ℕ) (ks : List ℕ) (n : ℕ)
    → IsHeld r m n ks
    → NoLeak (toggle_auto_refresh (timers b r m ks n))
unfolding toggle_auto_refresh
toggle-at true r m ks n l = (stop-refresh false r m ks n l).0
toggle-at false r m ks n l = start_auto_refresh-NoLeak (timers true r m ks n) l

toggle_auto_refresh-NoLeak : (t : Timers) → NoLeak t → NoLeak (toggle_auto_refresh t)
toggle_auto_refresh-NoLeak t l =
    toggle-at t.auto_refresh_enabled t.refresh t.metrics t.running t.next l

toggles-NoLeak : (n : ℕ) (t : Timers) → NoLeak t → NoLeak (toggles n t)
toggles-NoLeak zero t l = l
toggles-NoLeak (suc n) t l =
    toggles-NoLeak n (toggle_auto_refresh t) (toggle_auto_refresh-NoLeak t l)

start-NoLeak : NoLeak start
unfolding start
start-NoLeak = ground arith

destroy-NoLeak : (t : Timers) → NoLeak t → (destroy t).running ≡ []
unfolding destroy
destroy-NoLeak t l =
    let (kept, off, _) = stop_auto_refresh-NoLeak t l in
    let s = stop_auto_refresh t in
    let (left, off', off_m) =
      stop-metrics s.auto_refresh_enabled s.refresh s.metrics s.running s.next kept in
    none_held _ _ _ _ (off' ∙ off) off_m left

-- However often the user switches the automatic refresh on and off, every running timer is held by
-- the controller, and leaving the page stops them all.
pub toggles-NoLeak-destroy :
    (n : ℕ) → NoLeak (toggles n start) × ((destroy (toggles n start)).running ≡ [])
toggles-NoLeak-destroy n =
    let l = toggles-NoLeak n start start-NoLeak in (l, destroy-NoLeak (toggles n start) l)
