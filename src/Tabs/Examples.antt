-- ===== src/Tabs/Examples.antt =====
-- The tabs of a case with one task open.
use neural_vyuha_prime.Common.{String, false, ◌≡◌, ◌≢◌, refl, sym, eq_iff, ok}
use mathlib.Core.Bool.{true≢false}
use neural_vyuha_prime.Tabs.{Tab, CaseTabs, initial, activate_tab}
use neural_vyuha_prime.Tabs.Lookup.{IsValid}
use neural_vyuha_prime.Tabs.Activation.{IsActive, chosen, activate_tab-IsActive}
use neural_vyuha_prime.Tabs.Validity.{add, step, step-IsValid}

abbrev task_tab : Tab
task_tab = record {
  name = "task";
  active = false;
  closable = false;
  label = "Contain the host";
  state = "app.case.tasks-item";
}

initial-IsValid : IsValid initial
initial-IsValid = (refl, refl)

activate_tab-IsActive_example :
    (t : CaseTabs) × (activate_tab "tasks" initial ≡ ok t) × IsActive (chosen "tasks" initial) t
activate_tab-IsActive_example = activate_tab-IsActive "tasks" initial initial-IsValid

task_ne_details : ◌≢◌ {A = String} "task" "details"
task_ne_details h = true≢false (sym ((eq_iff "task" "details").1 h))

tabs-step-IsValid_example : (t : CaseTabs) × (step (add "task" task_tab) initial ≡ ok t) × IsValid t
tabs-step-IsValid_example =
    step-IsValid (add "task" task_tab) initial task_ne_details initial-IsValid
