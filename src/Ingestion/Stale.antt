-- ===== src/Ingestion/Stale.antt =====
-- The statistics of the sources in nvIngestionControlController.js, which a refused switch leaves as
-- they are.
use neural_vyuha_prime.Common.{
  ℕ, Bool, true, false, not, List, [], ◌∷◌, filter, length, ◌+◌, eqb, ◌≡◌, refl, ap, arith,
}
use neural_vyuha_prime.Ingestion.{
  Policy, Stats, IngestionPage, count_policy, count_policies, update_stats,
}
use neural_vyuha_prime.Ingestion.Sources.{
  set_enabled, toggle_source, on_source_updated, on_source_error,
}

abbrev active : List Policy → ℕ
active ps = length (filter (λ (p : Policy). p.enabled) ps)

abbrev objects : ℕ → List Policy → List Policy
objects r ps = filter (λ (p : Policy). eqb p.ref r) ps

-- The count of `updateStats` is the number of sources that are switched on.
active-count :
    (n : Stats) (ps : List Policy)
    → (count_policies n ps).active_sources ≡ n.active_sources + active ps
active-count n [] = omega arith
active-count n (p ∷ ps) = ground (arith, active-count (count_policy n p) ps)

active-set :
    (r : ℕ) (ps : List Policy)
    → active (set_enabled r true ps) ≡ active (set_enabled r false ps) + length (objects r ps)
active-set r [] = omega arith
active-set r (p ∷ ps) = ground (arith, active-set r ps)

set-set-set :
    (r s : ℕ) (on : Bool) (ps : List Policy)
    → eqb r s ≡ false
    → set_enabled r true (set_enabled s on (set_enabled r true ps))
      ≡ set_enabled s on (set_enabled r true ps)
set-set-set r s on [] other = refl
set-set-set r s on (p ∷ ps) other = ground (arith, set-set-set r s on ps other)

objects-set :
    (r s : ℕ) (on : Bool) (ps : List Policy)
    → length (objects r (set_enabled s on ps)) ≡ length (objects r ps)
objects-set r s on [] = refl
objects-set r s on (p ∷ ps) = ground (arith, objects-set r s on ps)

-- Two sources are switched, the server accepts the second and then refuses the first, which was to be
-- switched on: the page shows it as switched off, and its statistics count it as active.
pub on_source_error-stale :
    (p q : Policy) (vm : IngestionPage)
    → eqb p.ref q.ref ≡ false
    → p.enabled ≡ false
    → length (objects p.ref vm.policies) ≡ 1
    → let both = (toggle_source q (toggle_source p vm).0).0 in
      let answered = on_source_error p.ref p.enabled (on_source_updated both) in
      answered.stats.active_sources ≡ (update_stats answered).stats.active_sources + 1
unfolding toggle_source on_source_updated on_source_error update_stats
on_source_error-stale p q vm other off one =
    let zero_stats : Stats = record { total_eps = 0; active_sources = 0 } in
    let on = set_enabled p.ref true vm.policies in
    let both = set_enabled q.ref (not q.enabled) on in
    rw off (
      omega (
        arith,
        active-count zero_stats both,
        active-count zero_stats (set_enabled p.ref false both),
        active-set p.ref both,
        ap active (set-set-set p.ref q.ref (not q.enabled) vm.policies other),
        objects-set p.ref q.ref (not q.enabled) on,
        objects-set p.ref p.ref true vm.policies,
        one,
      ))
