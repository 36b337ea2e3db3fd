-- ===== src/Ingestion.antt =====
-- nv-ui/app/scripts/controllers/nv/nvIngestionControlController.js: the switches of the ingestion
-- engine, the sources with their limits, the rules, and the dialog that asks before what is
-- dangerous.
--
-- `confirmAction` is a function in the source; here it is a datum that says which one, and
-- `confirm_prompt` says what the text of the dialog asks. A policy of a source is an object: `ref`
-- tells objects apart.
pub mod Confirming
pub mod Rules
pub mod Sources
pub mod Sharing
pub mod Stale
pub mod Forms
mod Examples
use neural_vyuha_prime.Common.{
  ℕ, String, Bool, true, false, not, Option, none, some, List, [], ◌∷◌, ◌+◌, map, eqb, ◌==◌,
  if◌then◌else◌,
}

pub record Engine : Type 0 where
  pub paused : Bool
  pub dry_run : Bool
  pub log_level : String
  pub circuit_breaker : Bool
  pub uptime_human : String

-- What the server tells of the engine: `angular.extend` takes the properties that are there.
pub record EngineStatus : Type 0 where
  pub paused : Option Bool
  pub dry_run : Option Bool
  pub log_level : Option String
  pub circuit_breaker : Option Bool
  pub uptime_human : Option String

pub record Policy : Type 0 where
  pub ref : ℕ
  pub source : String
  pub enabled : Bool
  pub eps : Option ℕ
  pub max_payload : Option ℕ

pub record Stats : Type 0 where
  pub total_eps : ℕ
  pub active_sources : ℕ

-- A drop rule or a correlation rule, with what the page reads of it.
pub record Rule : Type 0 where
  pub id : String
  pub active : Bool

pub data Action : Type 0 where
  halt : Action
  trip : Action
  delete_rule : String → Action
  delete_dedup : String → Action
  delete_correlation : String → Action

pub data Prompt : Type 0 where
  no_prompt : Prompt
  halt_all : Prompt
  trip_breaker : Prompt
  delete_rule_of : String → Prompt
  stop_dedup : Prompt
  delete_correlation_of : String → Prompt

pub data Call : Type 0 where
  pause_engine resume_engine : Call
  break_circuit : Bool → Call
  set_dry_run : Bool → Call
  set_log_level : String → Call
  update_policy : String → Bool → Call
  limit_policy : String → Option ℕ → Option ℕ → Call
  delete_drop_rule : String → Call
  toggle_rule : String → Bool → Call
  delete_dedup_config : String → Call
  delete_correlation_rule : String → Call
  toggle_correlation : String → Bool → Call
  get_drop_rules get_dedup_configs get_correlation_rules get_correlation_incidents : Call

pub record IngestionPage : Type 0 where
  pub engine : Engine
  pub policies : List Policy
  pub stats : Stats
  pub drop_rules : List Rule
  pub corr_rules : List Rule
  pub confirm_action : Option Action
  pub confirm_prompt : Prompt
  pub show_confirm : Bool

abbrev pub initial : IngestionPage
initial = record {
  engine = record {
    paused = false;
    dry_run = false;
    log_level = "INFO";
    circuit_breaker = false;
    uptime_human = "0h 0m";
  };
  policies = [];
  stats = record { total_eps = 0; active_sources = 0 };
  drop_rules = [];
  corr_rules = [];
  confirm_action = none;
  confirm_prompt = no_prompt;
  show_confirm = false;
}

abbrev pub or_kept : {A : Type 0} → Option A → A → A
or_kept none old = old
or_kept (some new) old = new

-- The answer to `getEngineStatus`.
unfoldable pub on_engine_status : Option EngineStatus → IngestionPage → IngestionPage
on_engine_status none vm = vm
on_engine_status (some told) vm = record vm {
  engine = record {
    paused = or_kept told.paused vm.engine.paused;
    dry_run = or_kept told.dry_run vm.engine.dry_run;
    log_level = or_kept told.log_level vm.engine.log_level;
    circuit_breaker = or_kept told.circuit_breaker vm.engine.circuit_breaker;
    uptime_human = or_kept told.uptime_human vm.engine.uptime_human;
  };
}

-- One round of the loop of `updateStats`.
abbrev pub count_policy : Stats → Policy → Stats
count_policy n p =
    if p.enabled
    then record { total_eps = n.total_eps + or_kept p.eps 0; active_sources = n.active_sources + 1 }
    else n

abbrev pub count_policies : Stats → List Policy → Stats
count_policies n [] = n
count_policies n (p ∷ ps) = count_policies (count_policy n p) ps

unfoldable pub update_stats : IngestionPage → IngestionPage
update_stats vm = record vm {
  stats = count_policies (record { total_eps = 0; active_sources = 0 }) vm.policies;
}

-- The answer to `getIngestionPolicies`.
unfoldable pub on_policies : List Policy → IngestionPage → IngestionPage
unfolding update_stats
on_policies found vm = update_stats (record vm { policies = found })

unfoldable pub request_confirm : Prompt → Action → IngestionPage → IngestionPage
request_confirm prompt action vm = record vm {
  confirm_prompt = prompt;
  confirm_action = some action;
  show_confirm = true;
}

-- The request of the function that `confirmAction` holds.
abbrev pub calls_of : Action → List Call
calls_of halt = pause_engine ∷ []
calls_of trip = break_circuit true ∷ []
calls_of (delete_rule id) = delete_drop_rule id ∷ []
calls_of (delete_dedup id) = delete_dedup_config id ∷ []
calls_of (delete_correlation id) = delete_correlation_rule id ∷ []

unfoldable pub execute_confirm : IngestionPage → IngestionPage × List Call
execute_confirm vm = (
  record vm { show_confirm = false; confirm_action = none },
  elim vm.confirm_action [ none ↦ [] | some action ↦ calls_of action ],
)

unfoldable pub cancel_confirm : IngestionPage → IngestionPage
cancel_confirm vm = record vm { show_confirm = false; confirm_action = none }

-- The master switch: halting is asked for first, resuming is not.
unfoldable pub toggle_master_switch : IngestionPage → IngestionPage × List Call
unfolding request_confirm
toggle_master_switch vm =
    if vm.engine.paused then (vm, resume_engine ∷ []) else (request_confirm halt_all halt vm, [])

-- The answers to `pauseEngine` and `resumeEngine`.
unfoldable pub on_paused : Bool → IngestionPage → IngestionPage
on_paused paused vm = record vm { engine = record (vm.engine) { paused = paused } }

unfoldable pub toggle_circuit_breaker : IngestionPage → IngestionPage × List Call
unfolding request_confirm
toggle_circuit_breaker vm =
    if vm.engine.circuit_breaker
    then (vm, break_circuit false ∷ [])
    else (request_confirm trip_breaker trip vm, [])

unfoldable pub on_circuit : Bool → IngestionPage → IngestionPage
on_circuit tripped vm = record vm { engine = record (vm.engine) { circuit_breaker = tripped } }

-- `toggleDryRun` and its answer, which sets the state that was asked for.
unfoldable pub toggle_dry_run : IngestionPage → IngestionPage × List Call
toggle_dry_run vm = (vm, set_dry_run (not vm.engine.dry_run) ∷ [])

unfoldable pub on_dry_run : Bool → IngestionPage → IngestionPage
on_dry_run asked vm = record vm { engine = record (vm.engine) { dry_run = asked } }

unfoldable pub change_log_level : String → IngestionPage → IngestionPage × List Call
change_log_level level vm = (vm, set_log_level level ∷ [])

unfoldable pub on_log_level : String → IngestionPage → IngestionPage
on_log_level level vm = record vm { engine = record (vm.engine) { log_level = level } }

unfoldable pub delete_drop_rule_click : Rule → IngestionPage → IngestionPage
unfolding request_confirm
delete_drop_rule_click rule vm = request_confirm (delete_rule_of rule.id) (delete_rule rule.id) vm

unfoldable pub delete_dedup_click : String → IngestionPage → IngestionPage
unfolding request_confirm
delete_dedup_click id vm = request_confirm stop_dedup (delete_dedup id) vm

unfoldable pub delete_correlation_click : String → IngestionPage → IngestionPage
unfolding request_confirm
delete_correlation_click id vm =
    request_confirm (delete_correlation_of id) (delete_correlation id) vm

-- The answers to the three deletions. Those of the last two close the dialog.
unfoldable pub on_rule_deleted : IngestionPage → IngestionPage × List Call
on_rule_deleted vm = (vm, get_drop_rules ∷ get_dedup_configs ∷ [])

unfoldable pub on_dedup_deleted : IngestionPage → IngestionPage × List Call
on_dedup_deleted vm = (record vm { show_confirm = false }, get_dedup_configs ∷ [])

unfoldable pub on_correlation_deleted : IngestionPage → IngestionPage × List Call
on_correlation_deleted vm =
    (record vm { show_confirm = false }, get_correlation_rules ∷ get_correlation_incidents ∷ [])
