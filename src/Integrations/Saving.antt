-- ===== src/Integrations/Saving.antt =====
-- Adding, changing and removing nodes in nvIntegrationsCtrl.js.
use neural_vyuha_prime.Common.{
  ℕ, String, Bool, true, false, not, ◌&&◌, ◌||◌, Option, none, some, List, [], ◌∷◌, ◌++◌, filter,
  ◌==◌, eqb, ltb, leb, if◌then◌else◌, Result, ok, type_error,
}
use Prim.Native.Char.{code}
use Prim.Native.String
use Prim.Native.String.{count}
use neural_vyuha_prime.Integrations.{
  Node, local, backend, Form, empty_form, Patch, NewNode, NodeRequest, patch_node, post_node,
  delete_node, Hub, is_online, is_backend, write_local, toast, success, info, change_first,
}

-- `slice(-4)`, counted in characters.
abbrev pub last_four : String → String
last_four String.[] = ""
last_four (String.◌∷◌ c s) =
    let rest = last_four s in if ltb (count s) 4 then String.◌∷◌ c s else rest

abbrev pub is_space : ℕ → Bool
is_space c = leb 9 c && leb c 13 || eqb c 32 || eqb c 160

-- `trim()`, for the white space of ASCII and the non-breaking space.
abbrev pub trim_end : String → String
trim_end String.[] = ""
trim_end (String.◌∷◌ c s) =
    let rest = trim_end s in if rest == "" && is_space (code c) then "" else String.◌∷◌ c rest

abbrev pub trim_start : String → String
trim_start String.[] = ""
trim_start (String.◌∷◌ c s) =
    let rest = trim_start s in if is_space (code c) then rest else String.◌∷◌ c s

abbrev pub trim : String → String
trim s = trim_start (trim_end s)

abbrev pub masked : String → String
masked key = if key == "" then "" else String.◌++◌ "••••" (last_four key)

-- `openAddModal`, with the type of the catalog item, if there is one.
unfoldable pub open_add_modal : Option String → Hub → Hub
open_add_modal item vm = record vm {
  editing_node = none;
  form = elim item [ none ↦ empty_form | some t ↦ record empty_form { node_type = t } ];
  show_modal = true;
}

unfoldable pub open_edit_modal : Node → Hub → Hub
open_edit_modal n vm = record vm {
  editing_node = some n.id;
  form = record {
    node_type = n.node_type;
    name = n.name;
    url = n.url;
    api_key = "";
    description = n.description;
    tls_verify = n.tls_verify;
  };
  show_modal = true;
}

unfoldable pub close_modal : Hub → Hub
close_modal vm = record vm { show_modal = false; editing_node = none; saving = false }

unfoldable pub after_save : String → Hub → Hub
unfolding toast close_modal
after_save message vm = close_modal (toast message success vm)

abbrev pub apply_patch : Patch → Node → Node
apply_patch p n =
    let changed = record n {
      name = p.name;
      url = p.url;
      description = p.description;
      tls_verify = p.tls_verify;
    } in
    elim p.api_key [
      | none ↦ changed
      | some key ↦ record changed { api_key = key; api_key_masked = masked key }
    ]

unfoldable pub update_local : String → Patch → Hub → Hub
unfolding write_local
update_local id p vm = write_local (record vm { nodes = change_first id (apply_patch p) vm.nodes })

abbrev pub form_patch : Form → Patch
form_patch f = record {
  name = f.name;
  url = f.url;
  description = f.description;
  tls_verify = f.tls_verify;
  api_key = if trim f.api_key == "" then none else some (trim f.api_key);
}

-- `_genId()` gives `id`, and `new Date()` gives `now`.
abbrev pub form_node : String → ℕ → Form → Node
form_node id now f = record {
  id = id;
  node_type = f.node_type;
  name = f.name;
  url = f.url;
  api_key = f.api_key;
  api_key_masked = masked f.api_key;
  description = f.description;
  tls_verify = f.tls_verify;
  status = "UNKNOWN";
  latency_ms = none;
  probe_count = 0;
  last_error = none;
  last_checked = none;
  created_at = now;
  source = local;
}

abbrev pub sent_node : Node → NewNode
sent_node n = record {
  node_type = n.node_type;
  name = n.name;
  url = n.url;
  api_key = n.api_key;
  tls_verify = n.tls_verify;
}

abbrev pub push_node : Node → Hub → Hub
push_node n vm = record vm { nodes = vm.nodes ++ n ∷ []; stored = vm.nodes ++ n ∷ [] }

abbrev pub is_complete : Form → Bool
is_complete f = not (f.node_type == "" || f.name == "" || f.url == "")

-- `saveNode`, up to its request.
unfoldable pub save_node : String → ℕ → Hub → Hub × List NodeRequest
unfolding update_local after_save
save_node id now vm =
    let busy = record vm { saving = true } in
    if is_complete vm.form
    then elim vm.editing_node [
      | some edited ↦
          if is_online vm.backend_status
          then (busy, patch_node edited (form_patch vm.form) ∷ [])
          else (
            after_save "Updated in local storage" (update_local edited (form_patch vm.form) busy),
            [],
          )
      | none ↦
          if is_online vm.backend_status
          then (busy, post_node (sent_node (form_node id now vm.form)) ∷ [])
          else (after_save "Saved to local storage" (push_node (form_node id now vm.form) busy), [])
    ]
    else (vm, [])

-- The answers to the PATCH. A failed one reads `vm.editingNode.id` when it arrives.
unfoldable pub on_updated : Hub → Hub
unfolding after_save
on_updated vm = after_save "Node updated successfully" vm

unfoldable pub on_update_error : Patch → Hub → Result Hub
unfolding update_local after_save
on_update_error p vm = elim vm.editing_node [
  | none ↦ type_error
  | some edited ↦ ok (after_save "Updated locally (backend offline)" (update_local edited p vm))
]

abbrev pub with_given : Option String → Node → Node
with_given none n = n
with_given (some i) n = if i == "" then n else record n { id = i }

-- The answers to the POST of a new node; the server may give an id.
unfoldable pub on_created : Option String → Node → Hub → Hub
unfolding after_save
on_created given n vm =
    after_save "Node registered — first probe within 60s"
      (push_node (record (with_given given n) { source = backend }) vm)

unfoldable pub on_create_error : Node → Hub → Hub
unfolding after_save
on_create_error n vm = after_save "Saved locally (backend offline)" (push_node n vm)

unfoldable pub remove_local : String → Hub → Hub
unfolding write_local
remove_local id vm =
    write_local (record vm { nodes = filter (λ (n : Node). not (n.id == id)) vm.nodes })

abbrev pub removed_text : Node → String
removed_text n = String.◌++◌ "\"" (String.◌++◌ n.name "\" removed")

-- `deleteNode`, up to its request.
unfoldable pub delete_from_hub : Bool → Node → Hub → Hub × List NodeRequest
unfolding remove_local toast
delete_from_hub confirmed n vm =
    if confirmed
    then (if is_online vm.backend_status && is_backend n.source
        then (vm, delete_node n.id ∷ [])
        else (toast (removed_text n) success (remove_local n.id vm), []))
    else (vm, [])

-- The answer to the DELETE; the node goes in either case.
unfoldable pub on_deleted : Bool → Node → Hub → Hub
unfolding remove_local toast
on_deleted accepted n vm =
    if accepted
    then toast (removed_text n) success (remove_local n.id vm)
    else toast "Removed locally" info (remove_local n.id vm)
