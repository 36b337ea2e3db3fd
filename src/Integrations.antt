-- ===== src/Integrations.antt =====
-- nv-ui/app/scripts/controllers/nv/nvIntegrationsCtrl.js: the nodes of the integration hub, which are
-- kept on the server and in the browser's local storage.
--
-- A field that a node lacks is its empty text here, which is what the source puts in its place. The
-- texts under the key `nv_integration_nodes` are the list `stored`: an unreadable one is the empty
-- list. Objects are told apart by their ids, and times are numbers. The tests of connections and the
-- search of the page are left out.
pub mod Saving
pub mod Importing
pub mod Syncing
pub mod Distinct
mod Examples
use neural_vyuha_prime.Common.{
  ℕ, String, Bool, true, false, not, ◌&&◌, ◌||◌, Option, none, some, List, [], ◌∷◌, ◌++◌, map,
  filter, any, length, ◌==◌, eqb, ltb, if◌then◌else◌,
}

pub data Source : Type 0 where
  backend local : Source

pub record Node : Type 0 where
  pub id : String
  pub node_type : String
  pub name : String
  pub url : String
  pub api_key : String
  pub api_key_masked : String
  pub description : String
  pub tls_verify : Bool
  pub status : String
  pub latency_ms : Option ℕ
  pub probe_count : ℕ
  pub last_error : Option String
  pub last_checked : Option ℕ
  pub created_at : ℕ
  pub source : Source

pub record Form : Type 0 where
  pub node_type : String
  pub name : String
  pub url : String
  pub api_key : String
  pub description : String
  pub tls_verify : Bool

pub data BackendStatus : Type 0 where
  checking online offline : BackendStatus

pub data ToastType : Type 0 where
  success info error warning : ToastType

-- What goes to the server: the requests, with the ids and objects in them.
pub record Patch : Type 0 where
  pub name : String
  pub url : String
  pub description : String
  pub tls_verify : Bool
  pub api_key : Option String

-- The description of a new node is not sent.
pub record NewNode : Type 0 where
  pub node_type : String
  pub name : String
  pub url : String
  pub api_key : String
  pub tls_verify : Bool

pub data NodeRequest : Type 0 where
  healthz get_nodes : NodeRequest
  patch_node : String → Patch → NodeRequest
  post_node : NewNode → NodeRequest
  delete_node : String → NodeRequest

pub record Hub : Type 0 where
  pub nodes : List Node
  pub loading : Bool
  pub saving : Bool
  pub show_modal : Bool
  pub show_catalog : Bool
  pub editing_node : Option String
  pub form : Form
  pub toasts : List (String × ToastType)
  pub backend_status : BackendStatus
  pub stored : List Node

abbrev pub empty_form : Form
empty_form = record {
  node_type = "cortex";
  name = "";
  url = "";
  api_key = "";
  description = "";
  tls_verify = true;
}

-- The hub before its first requests; what local storage holds is from earlier visits.
abbrev pub initial : List Node → Hub
initial stored = record {
  nodes = [];
  loading = false;
  saving = false;
  show_modal = false;
  show_catalog = false;
  editing_node = none;
  form = empty_form;
  toasts = [];
  backend_status = checking;
  stored = stored;
}

abbrev pub is_online : BackendStatus → Bool
is_online online = true
is_online _ = false

abbrev pub is_backend : Source → Bool
is_backend backend = true
is_backend local = false

abbrev pub has_id : String → List Node → Bool
has_id i ns = any (λ (n : Node). n.id == i) ns

abbrev pub set_source : Source → List Node → List Node
set_source s ns = map (λ (n : Node). record n { source = s }) ns

unfoldable pub probe_backend : Hub → List NodeRequest
probe_backend vm = healthz ∷ []

unfoldable pub on_probe : Bool → Hub → Hub
on_probe reached vm = record vm { backend_status = if reached then online else offline }

-- `_writeLocal(vm.nodes)`
unfoldable pub write_local : Hub → Hub
write_local vm = record vm { stored = vm.nodes }

unfoldable pub load_nodes : Hub → Hub × List NodeRequest
load_nodes vm = (record vm { loading = true }, get_nodes ∷ [])

-- The stored nodes that the server does not have are added to those it has.
abbrev pub merged : List Node → List Node → List Node
merged found stored =
    set_source backend found
    ++ set_source local (filter (λ (n : Node). not (has_id n.id found)) stored)

unfoldable pub on_nodes : List Node → Hub → Hub
unfolding write_local
on_nodes found vm =
    record (write_local (record vm { backend_status = online; nodes = merged found vm.stored })) {
      loading = false;
    }

unfoldable pub on_nodes_error : Hub → Hub
on_nodes_error vm = record vm {
  backend_status = offline;
  nodes = set_source local vm.stored;
  loading = false;
}

-- The poll, every 30 seconds.
unfoldable pub on_poll : Hub → Hub × List NodeRequest
unfolding load_nodes
on_poll vm = if vm.show_modal then (vm, []) else load_nodes vm

unfoldable pub toggle_catalog : Hub → Hub
toggle_catalog vm = record vm { show_catalog = not vm.show_catalog }

unfoldable pub get_registered_count : String → Hub → ℕ
get_registered_count t vm = length (filter (λ (n : Node). n.node_type == t) vm.nodes)

abbrev pub count_status : String → Hub → ℕ
count_status s vm = length (filter (λ (n : Node). n.status == s) vm.nodes)

unfoldable pub get_up_count : Hub → ℕ
get_up_count vm = count_status "UP" vm

unfoldable pub get_down_count : Hub → ℕ
get_down_count vm = count_status "DOWN" vm

unfoldable pub get_degraded_count : Hub → ℕ
get_degraded_count vm = count_status "DEGRADED" vm

-- `_toast`, and the timer that takes a toast away; toasts go in the order in which they came.
unfoldable pub toast : String → ToastType → Hub → Hub
toast message type vm = record vm { toasts = vm.toasts ++ (message, type) ∷ [] }

unfoldable pub on_toast_timer : Hub → Hub
on_toast_timer vm = elim vm.toasts [ [] ↦ vm | t ∷ ts ↦ record vm { toasts = ts } ]

-- The first node of an id is changed.
abbrev pub change_first : String → (Node → Node) → List Node → List Node
change_first i f [] = []
change_first i f (n ∷ ns) =
    let rest = change_first i f ns in if n.id == i then f n ∷ ns else n ∷ rest

unfoldable pub on_status_changed : String → String → Option ℕ → ℕ → Hub → Hub
on_status_changed id status latency now vm = record vm {
  nodes =
      change_first id
        (λ n. record n { status = status; latency_ms = latency; last_checked = some now }) vm.nodes;
}
