-- ===== src/Integrations/Importing/RoundTrip.antt =====
-- Exported nodes come back, and no two nodes become the same, in nvIntegrationsCtrl.js.
use neural_vyuha_prime.Common.{
  ℕ, suc, String, true, false, ◌&&◌, some, List, [], ◌∷◌, ◌++◌, map, ◌==◌, ◌≡◌, refl, sym, ap, ◌∙◌,
  any-append, arith, eq_iff, Bool-cases, inl, inr, append_assoc, append-nil,
}
use mathlib.Core.List.{map-append}
use neural_vyuha_prime.Integrations.{Node, Hub}
use neural_vyuha_prime.Integrations.Importing.{
  Entry, entries, export_node, exported, export_config, imported_node, is_entry, has_key,
  import_entry, import_all, import_config,
}

-- No two nodes have the same address and type.
abbrev pub KeysDiffer : List Node → Type 0
KeysDiffer [] = Unit
KeysDiffer (n ∷ ns) = (has_key n.url n.node_type ns ≡ false) × KeysDiffer ns

abbrev Apart : List Node → List Node → Type 0
Apart ns [] = Unit
Apart ns (m ∷ ms) = (has_key m.url m.node_type ns ≡ false) × Apart ns ms

abbrev pub AllComplete : List Node → Type 0
AllComplete [] = Unit
AllComplete (n ∷ ns) = (is_entry (export_node n) ≡ true) × AllComplete ns

Apart-nil : (ms : List Node) → Apart [] ms
Apart-nil [] = tt
Apart-nil (m ∷ ms) = (refl, Apart-nil ms)

Apart-snoc :
    (ns ms : List Node) (n x : Node)
    → x.url ≡ n.url
    → x.node_type ≡ n.node_type
    → has_key n.url n.node_type ms ≡ false
    → Apart ns ms
    → Apart (ns ++ x ∷ []) ms
Apart-snoc ns [] n x p q h a = tt
Apart-snoc ns (m ∷ ms) n x p q h (here, a) = (
  ground (
    arith,
    eq_iff x.url m.url,
    eq_iff x.node_type m.node_type,
    eq_iff m.url n.url,
    eq_iff m.node_type n.node_type,
    any-append (λ (y : Node). y.url == m.url && y.node_type == m.node_type) ns (x ∷ []),
  ),
  Apart-snoc ns ms n x p q (ground arith) a,
)

exported-map :
    (ns ms : List Node) → map export_node ns ≡ map export_node ms → exported ns ≡ exported ms
exported-map [] [] e = refl
exported-map [] (m ∷ ms) e = cc
exported-map (n ∷ ns) [] e = cc
exported-map (n ∷ ns) (m ∷ ms) e = ap some e

KeysDiffer-snoc :
    (ns : List Node) (x : Node)
    → KeysDiffer ns
    → has_key x.url x.node_type ns ≡ false
    → KeysDiffer (ns ++ x ∷ [])
KeysDiffer-snoc [] x d h = (refl, tt)
KeysDiffer-snoc (n ∷ ns) x (here, d) h = (
  ground (
    arith,
    here,
    h,
    eq_iff x.url n.url,
    eq_iff x.node_type n.node_type,
    eq_iff n.url x.url,
    eq_iff n.node_type x.node_type,
    any-append (λ (y : Node). y.url == n.url && y.node_type == n.node_type) ns (x ∷ []),
  ),
  KeysDiffer-snoc ns x d (ground arith),
)

module _ (ids : ℕ → String) (now : ℕ) where
  export-import_from :
      (ms ns : List Node) (k : ℕ)
      → AllComplete ms
      → KeysDiffer ms
      → Apart ns ms
      → map export_node (import_all ids now (map export_node ms) (ns, k)).0
        ≡ map export_node ns ++ map export_node ms
  unfolding import_all import_entry
  export-import_from [] ns k c d a = sym (append-nil _)
  export-import_from (m ∷ ms) ns k (c, cs) (d, ds) (a, as') =
      let x = imported_node (ids k) now (export_node m) in
      let added : import_entry ids now (export_node m) (ns, k) ≡ (ns ++ x ∷ [], suc k) =
        rw (c, a) in
      ap (λ r. map export_node (import_all ids now (map export_node ms) r).0) added
      ∙ export-import_from ms (ns ++ x ∷ []) (suc k) cs ds (Apart-snoc ns ms m x refl refl d as')
      ∙ rw map-append (append_assoc (map export_node ns) (export_node m ∷ []) _)

  -- Importing into a hub without nodes what another one has exported gives a hub that exports the
  -- same again, if no two of the exported nodes have the same address and type and each has an
  -- address, a type and a name.
  pub export-import_config :
      (show : ℕ → String) (vm hub : Hub) (es : List Entry)
      → AllComplete vm.nodes
      → KeysDiffer vm.nodes
      → (export_config show vm).1 ≡ some es
      → hub.nodes ≡ []
      → (export_config show (import_config ids now show (entries es) hub)).1 ≡ some es
  unfolding export_config import_config
  export-import_config show vm hub es c d out empty = rw empty (go vm.nodes c d out)
    where
      go :
          (ns : List Node)
          → AllComplete ns
          → KeysDiffer ns
          → exported ns ≡ some es
          → exported (import_all ids now es ([], 0)).0 ≡ some es
      go [] c d out = cc
      go (n ∷ ns) c d out =
          let same : map export_node (n ∷ ns) ≡ es = cc in
          rw (← same)
            (exported-map _ (n ∷ ns) (export-import_from (n ∷ ns) [] 0 c d (Apart-nil (n ∷ ns))))

  KeysDiffer-entry :
      (e : Entry) (ns : List Node) (k : ℕ)
      → KeysDiffer ns
      → KeysDiffer (import_entry ids now e (ns, k)).0
  unfolding import_entry
  KeysDiffer-entry e ns k d = elim (Bool-cases (is_entry e)) [
    | inl complete ↦ elim (Bool-cases (has_key e.url e.node_type ns)) [
      | inl there ↦ rw (complete, there) d
      | inr new ↦ rw (complete, new) (KeysDiffer-snoc ns (imported_node (ids k) now e) d new)
    ]
    | inr partial ↦ rw partial d
  ]

  -- An import keeps the nodes different in their address or type.
  pub KeysDiffer-import_all :
      (es : List Entry) (s : List Node × ℕ)
      → KeysDiffer s.0
      → KeysDiffer (import_all ids now es s).0
  unfolding import_all
  KeysDiffer-import_all [] s d = d
  KeysDiffer-import_all (e ∷ es) s d =
      KeysDiffer-import_all es (import_entry ids now e s) (KeysDiffer-entry e s.0 s.1 d)
