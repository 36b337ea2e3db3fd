-- ===== src/Integrations/Importing.antt =====
-- The export and the import of nodes in nvIntegrationsCtrl.js.
pub mod RoundTrip
use neural_vyuha_prime.Common.{
  ℕ, suc, ◌+◌, ◌≤◌, String, Bool, true, false, not, ◌&&◌, ◌||◌, Option, none, some, List, [], ◌∷◌,
  ◌++◌, map, any, length, ◌==◌, ◌≡◌, refl, sym, ap, ◌∙◌, any-append, any-append_cons, or-false,
  arith, eq_iff, eq_refl, if◌then◌else◌, Bool-cases, inl, inr, append_assoc, append-nil, filter,
}
use Prim.Native.String
use mathlib.Core.List.{map-append}
use neural_vyuha_prime.Integrations.{Node, local, Hub, write_local, toast, success, error}
use neural_vyuha_prime.Integrations.Saving.{masked}

-- An entry of an exported file; `tls_verify` is `none` where it is missing.
pub record Entry : Type 0 where
  pub node_type : String
  pub name : String
  pub url : String
  pub api_key : String
  pub description : String
  pub tls_verify : Option Bool

abbrev pub export_node : Node → Entry
export_node n = record {
  node_type = n.node_type;
  name = n.name;
  url = n.url;
  api_key = "";
  description = n.description;
  tls_verify = some n.tls_verify;
}

-- The nodes of the exported file; without nodes nothing is exported.
abbrev pub exported : List Node → Option (List Entry)
exported [] = none
exported (n ∷ ns) = some (map export_node (n ∷ ns))

-- `show` writes a number.
unfoldable pub export_config : (ℕ → String) → Hub → Hub × Option (List Entry)
unfolding toast
export_config show vm = (
  elim vm.nodes [
    | [] ↦ vm
    | n ∷ ns ↦
        toast (String.◌++◌ "Exported " (String.◌++◌ (show (length vm.nodes)) " nodes")) success vm
  ],
  exported vm.nodes,
)

abbrev pub is_not_false : Option Bool → Bool
is_not_false none = true
is_not_false (some b) = b

abbrev pub imported_node : String → ℕ → Entry → Node
imported_node id now e = record {
  id = id;
  node_type = e.node_type;
  name = e.name;
  url = e.url;
  api_key = e.api_key;
  api_key_masked = masked e.api_key;
  description = e.description;
  tls_verify = is_not_false e.tls_verify;
  status = "UNKNOWN";
  latency_ms = none;
  probe_count = 0;
  last_error = none;
  last_checked = none;
  created_at = now;
  source = local;
}

abbrev pub is_entry : Entry → Bool
is_entry e = not (e.node_type == "" || e.name == "" || e.url == "")

-- There is a node of this address and type.
abbrev pub has_key : String → String → List Node → Bool
has_key u t ns = any (λ (n : Node). n.url == u && n.node_type == t) ns

-- What an import reads: no JSON, something else than an array of nodes, or the nodes.
pub data ImportFile : Type 0 where
  invalid no_array : ImportFile
  entries : List Entry → ImportFile

-- `_genId()` gives `ids k` for the node that is added as the k-th; `show` writes a number.
module _ (ids : ℕ → String) (now : ℕ) where
  -- The round of the loop for one entry, with the number of nodes added so far.
  unfoldable pub import_entry : Entry → List Node × ℕ → List Node × ℕ
  import_entry e (ns, k) =
      if is_entry e && not (has_key e.url e.node_type ns)
      then (ns ++ imported_node (ids k) now e ∷ [], suc k)
      else (ns, k)

  unfoldable pub import_all : List Entry → List Node × ℕ → List Node × ℕ
  unfolding import_entry
  import_all [] s = s
  import_all (e ∷ es) s = import_all es (import_entry e s)

  unfoldable pub import_config : (ℕ → String) → ImportFile → Hub → Hub
  unfolding import_all write_local toast
  import_config show invalid vm = toast "Import failed — invalid JSON" error vm
  import_config show no_array vm = toast "Invalid format — expected a nodes array" error vm
  import_config show (entries es) vm =
      let done = import_all es (vm.nodes, 0) in
      toast (String.◌++◌ "Imported " (String.◌++◌ (show done.1) " new nodes (skipped duplicates)"))
        success (write_local (record vm { nodes = done.0 }))

  abbrev names_key : String → String → Entry → Bool
  names_key u t e = is_entry e && (e.url == u && e.node_type == t)

  has_key-entry :
      (u t : String) (e : Entry) (ns : List Node) (k : ℕ)
      → has_key u t (import_entry e (ns, k)).0 ≡ (has_key u t ns || names_key u t e)
  unfolding import_entry
  has_key-entry u t e ns k = ground (
    arith,
    eq_iff e.url u,
    eq_iff e.node_type t,
    any-append (λ (n : Node). n.url == u && n.node_type == t) ns (imported_node (ids k) now e ∷ []),
  )

  -- After an import there is a node of an address and type exactly if there was one or a complete
  -- entry names it.
  pub has_key-import_all :
      (u t : String) (es : List Entry) (s : List Node × ℕ)
      → has_key u t (import_all es s).0 ≡ (has_key u t s.0 || any (names_key u t) es)
  unfolding import_all
  has_key-import_all u t [] s = sym (or-false _)
  has_key-import_all u t (e ∷ es) s =
      ground (arith, has_key-import_all u t es (import_entry e s), has_key-entry u t e s.0 s.1)

  -- Every complete entry is there already.
  abbrev AllThere : List Node → List Entry → Type 0
  AllThere ns [] = Unit
  AllThere ns (e ∷ es) =
      ((not (is_entry e) || has_key e.url e.node_type ns) ≡ true) × AllThere ns es

  import_all-AllThere :
      (es : List Entry) (s : List Node × ℕ) → AllThere s.0 es → import_all es s ≡ s
  unfolding import_all import_entry
  import_all-AllThere [] s h = refl
  import_all-AllThere (e ∷ es) s (here, h) =
      let same : import_entry e s ≡ s = ground arith in rw same (import_all-AllThere es s h)

  AllThere-import_all :
      (fs es : List Entry) (s : List Node × ℕ) → AllThere (import_all (fs ++ es) s).0 es
  AllThere-import_all fs [] s = tt
  AllThere-import_all fs (e ∷ es) s = (
    elim (Bool-cases (is_entry e)) [
      | inl complete ↦ ground (
        arith,
        complete,
        has_key-import_all e.url e.node_type (fs ++ e ∷ es) s,
        any-append_cons (names_key e.url e.node_type) fs es e
            (rw (complete, eq_refl e.url, eq_refl e.node_type)),
      )
      | inr partial ↦ rw partial
    ],
    rw (append_assoc fs (e ∷ []) es) at (AllThere-import_all (fs ++ e ∷ []) es s),
  )

  -- Importing a file again adds nothing.
  pub import_all_twice :
      (es : List Entry) (ns : List Node)
      → import_all es ((import_all es (ns, 0)).0, 0) ≡ ((import_all es (ns, 0)).0, 0)
  import_all_twice es ns =
      import_all-AllThere es ((import_all es (ns, 0)).0, 0) (AllThere-import_all [] es (ns, 0))
