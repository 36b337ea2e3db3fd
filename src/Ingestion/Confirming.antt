-- ===== src/Ingestion/Confirming.antt =====
-- What is dangerous in nvIngestionControlController.js is asked for first: halting the engine,
-- tripping the circuit breaker, and the deletions.
use neural_vyuha_prime.Common.{
  String, Bool, true, false, Option, none, some, List, [], ◌∷◌, any, ◌≡◌, refl, arith,
  if◌then◌else◌, Bool-cases, inl, inr,
}
use neural_vyuha_prime.Ingestion.{
  EngineStatus, Policy, Rule, Action, halt, trip, delete_rule, delete_dedup, delete_correlation,
  Prompt, halt_all, trip_breaker, delete_rule_of, stop_dedup, delete_correlation_of, Call,
  pause_engine, break_circuit, delete_drop_rule, delete_dedup_config, delete_correlation_rule,
  IngestionPage, initial, on_engine_status, on_policies, execute_confirm, cancel_confirm,
  toggle_master_switch, on_paused, toggle_circuit_breaker, on_circuit, toggle_dry_run, on_dry_run,
  change_log_level, on_log_level, delete_drop_rule_click, delete_dedup_click,
  delete_correlation_click, on_rule_deleted, on_dedup_deleted, on_correlation_deleted, calls_of,
}
use neural_vyuha_prime.Ingestion.Rules.{
  toggle_drop_rule, on_drop_rule, toggle_correlation_rule, on_correlation_rule,
}

-- What the user does, and the answers that may come at any time.
pub data Event : Type 0 where
  confirm cancel switch_engine switch_circuit switch_dry_run : Event
  choose_level : String → Event
  click_rule : Rule → Event
  click_dedup click_correlation : String → Event
  switch_rule switch_correlation : Rule → Event
  told : Option EngineStatus → Event
  listed : List Policy → Event
  paused_is circuit_is dry_run_is : Bool → Event
  level_is rule_turned : String → Event
  correlation_is : String → Bool → Event
  rule_deleted dedup_deleted correlation_deleted : Event

unfoldable pub handle : Event → IngestionPage → IngestionPage × List Call
handle confirm vm = execute_confirm vm
handle cancel vm = (cancel_confirm vm, [])
handle switch_engine vm = toggle_master_switch vm
handle switch_circuit vm = toggle_circuit_breaker vm
handle switch_dry_run vm = toggle_dry_run vm
handle (choose_level l) vm = change_log_level l vm
handle (click_rule r) vm = (delete_drop_rule_click r vm, [])
handle (click_dedup id) vm = (delete_dedup_click id vm, [])
handle (click_correlation id) vm = (delete_correlation_click id vm, [])
handle (switch_rule r) vm = toggle_drop_rule r vm
handle (switch_correlation r) vm = toggle_correlation_rule r vm
handle (told status) vm = (on_engine_status status vm, [])
handle (listed ps) vm = (on_policies ps vm, [])
handle (paused_is b) vm = (on_paused b vm, [])
handle (circuit_is b) vm = (on_circuit b vm, [])
handle (dry_run_is b) vm = (on_dry_run b vm, [])
handle (level_is l) vm = (on_log_level l vm, [])
handle (rule_turned id) vm = (on_drop_rule id vm, [])
handle (correlation_is id b) vm = (on_correlation_rule id b vm, [])
handle rule_deleted vm = on_rule_deleted vm
handle dedup_deleted vm = on_dedup_deleted vm
handle correlation_deleted vm = on_correlation_deleted vm

-- The page has the buttons of the dialog only while it is shown.
abbrev pub offered : Event → IngestionPage → Bool
offered confirm vm = vm.show_confirm
offered cancel vm = vm.show_confirm
offered _ vm = true

unfoldable pub happens : Event → IngestionPage → IngestionPage × List Call
happens e vm = if offered e vm then handle e vm else (vm, [])

unfoldable pub run : List Event → IngestionPage → IngestionPage
run [] vm = vm
run (e ∷ es) vm = run es (happens e vm).0

-- What the dialog of an action says.
abbrev pub asks : Action → Prompt
asks halt = halt_all
asks trip = trip_breaker
asks (delete_rule id) = delete_rule_of id
asks (delete_dedup id) = stop_dedup
asks (delete_correlation id) = delete_correlation_of id

abbrev pub is_dangerous : Call → Bool
is_dangerous pause_engine = true
is_dangerous (break_circuit tripped) = tripped
is_dangerous (delete_drop_rule id) = true
is_dangerous (delete_dedup_config id) = true
is_dangerous (delete_correlation_rule id) = true
is_dangerous _ = false

-- A dialog that is shown says what its confirmation does.
abbrev pub IsArmed : IngestionPage → Type 0
IsArmed vm =
    vm.show_confirm ≡ true
    → (a : Action) × (vm.confirm_action ≡ some a) × (vm.confirm_prompt ≡ asks a)

switch-IsArmed : (vm : IngestionPage) → IsArmed vm → IsArmed (toggle_master_switch vm).0
unfolding toggle_master_switch
switch-IsArmed vm h = elim (Bool-cases vm.engine.paused) [
  | inl e ↦ rw e h
  | inr e ↦ rw e (λ _. (halt, refl, refl))
]

circuit-IsArmed : (vm : IngestionPage) → IsArmed vm → IsArmed (toggle_circuit_breaker vm).0
unfolding toggle_circuit_breaker
circuit-IsArmed vm h = elim (Bool-cases vm.engine.circuit_breaker) [
  | inl e ↦ rw e h
  | inr e ↦ rw e (λ _. (trip, refl, refl))
]

status-IsArmed :
    (o : Option EngineStatus) (vm : IngestionPage) → IsArmed vm → IsArmed (on_engine_status o vm)
unfolding on_engine_status
status-IsArmed none vm h = h
status-IsArmed (some t) vm h = h

handle-IsArmed : (e : Event) (vm : IngestionPage) → IsArmed vm → IsArmed (handle e vm).0
unfolding handle execute_confirm cancel_confirm toggle_dry_run change_log_level
    delete_drop_rule_click delete_dedup_click delete_correlation_click toggle_drop_rule
    toggle_correlation_rule on_policies on_paused on_circuit on_dry_run on_log_level on_drop_rule
    on_correlation_rule on_rule_deleted on_dedup_deleted on_correlation_deleted
handle-IsArmed confirm vm h = λ s. cc
handle-IsArmed cancel vm h = λ s. cc
handle-IsArmed switch_engine vm h = switch-IsArmed vm h
handle-IsArmed switch_circuit vm h = circuit-IsArmed vm h
handle-IsArmed switch_dry_run vm h = h
handle-IsArmed (choose_level l) vm h = h
handle-IsArmed (click_rule r) vm h = λ _. (delete_rule r.id, refl, refl)
handle-IsArmed (click_dedup id) vm h = λ _. (delete_dedup id, refl, refl)
handle-IsArmed (click_correlation id) vm h = λ _. (delete_correlation id, refl, refl)
handle-IsArmed (switch_rule r) vm h = h
handle-IsArmed (switch_correlation r) vm h = h
handle-IsArmed (told status) vm h = status-IsArmed status vm h
handle-IsArmed (listed ps) vm h = h
handle-IsArmed (paused_is b) vm h = h
handle-IsArmed (circuit_is b) vm h = h
handle-IsArmed (dry_run_is b) vm h = h
handle-IsArmed (level_is l) vm h = h
handle-IsArmed (rule_turned id) vm h = h
handle-IsArmed (correlation_is id b) vm h = h
handle-IsArmed rule_deleted vm h = h
handle-IsArmed dedup_deleted vm h = λ s. cc
handle-IsArmed correlation_deleted vm h = λ s. cc

happens-IsArmed : (e : Event) (vm : IngestionPage) → IsArmed vm → IsArmed (happens e vm).0
unfolding happens
happens-IsArmed e vm h = elim (Bool-cases (offered e vm)) [
  | inl yes_it_is ↦ rw yes_it_is (handle-IsArmed e vm h)
  | inr no_it_is ↦ rw no_it_is h
]

run-IsArmed : (es : List Event) (vm : IngestionPage) → IsArmed vm → IsArmed (run es vm)
unfolding run
run-IsArmed [] vm h = h
run-IsArmed (e ∷ es) vm h = run-IsArmed es (happens e vm).0 (happens-IsArmed e vm h)

-- Only the confirmation of a dialog sends something dangerous, and of a dialog that is shown.
dangerous_by_confirm :
    (e : Event) (vm : IngestionPage)
    → any is_dangerous (happens e vm).1 ≡ true
    → (e ≡ confirm) × (vm.show_confirm ≡ true)
unfolding happens handle toggle_master_switch toggle_circuit_breaker toggle_dry_run change_log_level
    toggle_drop_rule toggle_correlation_rule on_rule_deleted on_dedup_deleted on_correlation_deleted
dangerous_by_confirm confirm vm h = elim (Bool-cases vm.show_confirm) [
  | inl shown ↦ (refl, shown)
  | inr hidden ↦ let nothing : false ≡ true = rw hidden at h in cc
]
dangerous_by_confirm cancel vm h = ground arith
dangerous_by_confirm switch_engine vm h = ground arith
dangerous_by_confirm switch_circuit vm h = ground arith
dangerous_by_confirm _ vm h = ground arith

-- Whatever happened on the page before: where something dangerous is sent, this is the answer to a
-- dialog that is shown, and what is sent is what its text asks for.
pub dangerous-confirmed :
    (es : List Event) (e : Event)
    → any is_dangerous (happens e (run es initial)).1 ≡ true
    → let vm = run es initial in
      (e ≡ confirm)
      × (vm.show_confirm ≡ true)
      × ((a : Action) × (vm.confirm_prompt ≡ asks a) × ((happens e vm).1 ≡ calls_of a))
unfolding happens handle execute_confirm
dangerous-confirmed es e h =
    let vm = run es initial in
    let (is_confirm, shown) = dangerous_by_confirm e vm h in
    let (a, held, says) = run-IsArmed es initial (λ s. cc) shown in
    (is_confirm, shown, (a, says, rw (is_confirm, shown, held) refl))
