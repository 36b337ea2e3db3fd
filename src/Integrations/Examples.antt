-- ===== src/Integrations/Examples.antt =====
-- A hub with a node on the server and one in the storage of the browser.
use neural_vyuha_prime.Common.{ℕ, zero, suc, String, true, none, some, [], ◌∷◌, ◌≡◌, refl, map}
use neural_vyuha_prime.Integrations.{Node, Hub, local, initial, on_nodes}
use neural_vyuha_prime.Integrations.Saving.{delete_from_hub}
use neural_vyuha_prime.Integrations.Distinct.{NoTwice, here, next, loaded, deletes, Reach-NoTwice}
use neural_vyuha_prime.Integrations.Importing.{entries, export_node, export_config, import_config}
use neural_vyuha_prime.Integrations.Importing.RoundTrip.{export-import_config}

abbrev node_of : String → String → Node
node_of id url = record {
  id = id;
  node_type = "cortex";
  name = "Cortex";
  url = url;
  api_key = "";
  api_key_masked = "";
  description = "";
  tls_verify = true;
  status = "UNKNOWN";
  latency_ms = none;
  probe_count = 0;
  last_error = none;
  last_checked = none;
  created_at = 1;
  source = local;
}

abbrev first : Node
first = node_of "n1" "https://a"

abbrev second : Node
second = node_of "n2" "https://b"

abbrev two_nodes : Hub
two_nodes = record (initial (second ∷ [])) { nodes = first ∷ second ∷ [] }

abbrev new_id : ℕ → String
new_id zero = "x0"
new_id (suc k) = "x1"

abbrev digit : ℕ → String
digit n = "2"

Reach-NoTwice_example :
    NoTwice (delete_from_hub true second (on_nodes (first ∷ []) (initial (second ∷ [])))).0
Reach-NoTwice_example =
    Reach-NoTwice (second ∷ [])
      (delete_from_hub true second (on_nodes (first ∷ []) (initial (second ∷ [])))).0 (refl, tt)
      (next (next here (loaded (first ∷ []) (refl, tt))) (deletes true second))

two_exported : (export_config digit two_nodes).1 ≡ some (map export_node (first ∷ second ∷ []))
unfolding export_config
two_exported = refl

export-import_config_example :
    (export_config digit (
      import_config new_id 2 digit
        (entries (map export_node (first ∷ second ∷ [])))
        (initial []))).1
    ≡ some (map export_node (first ∷ second ∷ []))
export-import_config_example =
    export-import_config new_id 2 digit two_nodes (initial [])
      (map export_node (first ∷ second ∷ [])) (refl, (refl, tt)) (refl, (refl, tt)) two_exported
      refl
