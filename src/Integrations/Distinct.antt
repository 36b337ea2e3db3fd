-- ===== src/Integrations/Distinct.antt =====
-- No id stands twice on the page or in the storage of nvIntegrationsCtrl.js.
use mathlib.Core.Path.{subst}
use neural_vyuha_prime.Common.{
  ℕ, suc, ◌≤◌, ◌||◌, String, Bool, true, false, not, ◌&&◌, Option, none, some, List, [], ◌∷◌, ◌++◌,
  filter, ◌==◌, ◌≡◌, refl, ◌∙◌, arith, eq_iff, eq_refl, any-append, Bool-cases, inl, inr, ok,
  ok-injective,
}
use neural_vyuha_prime.Integrations.{
  Node, Hub, Source, Patch, backend, local, has_id, set_source, merged, initial, on_nodes,
  on_nodes_error, write_local, change_first, on_status_changed, on_poll, load_nodes, toast,
  is_online, is_backend, on_toast_timer, ToastType,
}
use neural_vyuha_prime.Integrations.Saving.{
  apply_patch, update_local, on_update_error, on_updated, on_created, on_create_error, on_deleted,
  remove_local, push_node, with_given, after_save, close_modal, open_add_modal, open_edit_modal,
  save_node, delete_from_hub, is_complete, form_node, form_patch,
}
use neural_vyuha_prime.Integrations.Importing.{
  Entry, ImportFile, invalid, no_array, entries, import_entry, import_all, import_config,
  imported_node, is_entry, has_key,
}
use neural_vyuha_prime.Integrations.Syncing.{has_id-set_source, has_id-filter}

abbrev pub IsDistinct : List Node → Type 0
IsDistinct [] = Unit
IsDistinct (n ∷ ns) = (has_id n.id ns ≡ false) × IsDistinct ns

IsDistinct-set_source : (s : Source) (ns : List Node) → IsDistinct ns → IsDistinct (set_source s ns)
IsDistinct-set_source s [] d = tt
IsDistinct-set_source s (n ∷ ns) (here, d) =
    (has_id-set_source n.id s ns ∙ here, IsDistinct-set_source s ns d)

IsDistinct-filter :
    (p : String → Bool) (ns : List Node)
    → IsDistinct ns
    → IsDistinct (filter (λ (n : Node). p n.id) ns)
IsDistinct-filter p [] d = tt
IsDistinct-filter p (n ∷ ns) (here, d) = elim (Bool-cases (p n.id)) [
  | inl kept ↦ rw kept (ground (arith, has_id-filter n.id p ns), IsDistinct-filter p ns d)
  | inr gone ↦ rw gone (IsDistinct-filter p ns d)
]

IsDistinct-append :
    (xs ys : List Node)
    → IsDistinct xs
    → IsDistinct ys
    → ((i : String) → (has_id i xs && has_id i ys) ≡ false)
    → IsDistinct (xs ++ ys)
IsDistinct-append [] ys d e apart = e
IsDistinct-append (x ∷ xs) ys (here, d) e apart = (
  ground (arith, here, apart x.id, eq_refl x.id, any-append (λ (n : Node). n.id == x.id) xs ys),
  IsDistinct-append xs ys d e (λ i. ground (arith, apart i)),
)

IsDistinct-merged :
    (found stored : List Node)
    → IsDistinct found
    → IsDistinct stored
    → IsDistinct (merged found stored)
IsDistinct-merged found stored d e =
    let rest = filter (λ (n : Node). not (has_id n.id found)) stored in
    IsDistinct-append (set_source backend found) (set_source local rest)
      (IsDistinct-set_source backend found d)
      (IsDistinct-set_source local rest (IsDistinct-filter (λ j. not (has_id j found)) stored e))
      (λ i. ground (
        arith,
        has_id-set_source i backend found,
        has_id-set_source i local rest,
        has_id-filter i (λ j. not (has_id j found)) stored,
      ))

IsDistinct-push :
    (ns : List Node) (n : Node) → IsDistinct ns → has_id n.id ns ≡ false → IsDistinct (ns ++ n ∷ [])
IsDistinct-push ns n d h =
    IsDistinct-append ns (n ∷ []) d (refl, tt) (λ i. ground (arith, eq_iff n.id i))

has_id-change_first :
    (i j : String) (f : Node → Node) (ns : List Node)
    → ((n : Node) → (f n).id ≡ n.id)
    → has_id j (change_first i f ns) ≡ has_id j ns
has_id-change_first i j f [] same = refl
has_id-change_first i j f (n ∷ ns) same = ground (arith, same n, has_id-change_first i j f ns same)

IsDistinct-change_first :
    (i : String) (f : Node → Node) (ns : List Node)
    → ((n : Node) → (f n).id ≡ n.id)
    → IsDistinct ns
    → IsDistinct (change_first i f ns)
IsDistinct-change_first i f [] same d = tt
IsDistinct-change_first i f (n ∷ ns) same (here, d) = elim (Bool-cases (n.id == i)) [
  | inl this ↦ rw (this, same n) (here, d)
  | inr other ↦
      rw other (has_id-change_first i n.id f ns same ∙ here, IsDistinct-change_first i f ns same d)
]

patch_id : (p : Patch) (n : Node) → (apply_patch p n).id ≡ n.id
patch_id p n = ground arith

-- New ids, one for each node that an import may add: none is on the page, and no two are the same.
abbrev pub AreNew : (ℕ → String) → Hub → Type 0
AreNew ids vm = ((k : ℕ) → has_id (ids k) vm.nodes ≡ false) × ((j k : ℕ) → ids j ≡ ids k → j ≡ k)

module _ (ids : ℕ → String) (now : ℕ) (apart : (j k : ℕ) → ids j ≡ ids k → j ≡ k) where
  -- From the k-th on the ids are not among the nodes.
  abbrev AreLeft : List Node × ℕ → Type 0
  AreLeft (ns, k) = (j : ℕ) → k ≤ j → has_id (ids j) ns ≡ false

  has_id-imported_node :
      (j : ℕ) (e : Entry) (ns : List Node) (k : ℕ)
      → has_id (ids j) (ns ++ imported_node (ids k) now e ∷ [])
        ≡ (has_id (ids j) ns || ids k == ids j)
  has_id-imported_node j e ns k =
      ground (arith, any-append (λ (n : Node). n.id == ids j) ns (imported_node (ids k) now e ∷ []))

  other_id : (j k : ℕ) → suc k ≤ j → (ids k == ids j) ≡ false
  other_id j k later = elim (Bool-cases (ids k == ids j)) [
    | inr other ↦ other
    | inl same ↦
        let equal = apart k j ((eq_iff (ids k) (ids j)).0 same) in absurd (omega (arith, equal))
  ]

  IsDistinct-import_entry :
      (e : Entry) (ns : List Node) (k : ℕ)
      → IsDistinct ns × AreLeft (ns, k)
      → IsDistinct (import_entry ids now e (ns, k)).0 × AreLeft (import_entry ids now e (ns, k))
  unfolding import_entry
  IsDistinct-import_entry e ns k (d, left) =
      elim (Bool-cases (is_entry e && not (has_key e.url e.node_type ns))) [
        | inr skipped ↦ rw skipped (d, left)
        | inl added ↦ rw added (
          IsDistinct-push ns (imported_node (ids k) now e) d (left k (omega arith)),
          λ j later. ground (
            arith,
            has_id-imported_node j e ns k,
            left j (omega (arith, later)),
            other_id j k later,
          ),
        )
      ]

  IsDistinct-import_all :
      (es : List Entry) (s : List Node × ℕ)
      → IsDistinct s.0 × AreLeft s
      → IsDistinct (import_all ids now es s).0
  unfolding import_all
  IsDistinct-import_all [] s (d, left) = d
  IsDistinct-import_all (e ∷ es) s h =
      IsDistinct-import_all es (import_entry ids now e s) (IsDistinct-import_entry e s.0 s.1 h)

-- What happens on the page: the answers of the server and what the user does. The server lists no id
-- twice, and new nodes have ids that are not on the page.
pub data Step (vm : Hub) : Hub → Type 0 where
  loads : Step vm (load_nodes vm).0
  loaded : (found : List Node) → IsDistinct found → Step vm (on_nodes found vm)
  load_failed : Step vm (on_nodes_error vm)
  polls : Step vm (on_poll vm).0
  adds : (item : Option String) → Step vm (open_add_modal item vm)
  edits : (n : Node) → Step vm (open_edit_modal n vm)
  closes : Step vm (close_modal vm)
  saves : (id : String) (now : ℕ) → has_id id vm.nodes ≡ false → Step vm (save_node id now vm).0
  updated : Step vm (on_updated vm)
  update_failed : (p : Patch) {w : Hub} → on_update_error p vm ≡ ok w → Step vm w
  created :
      (given : Option String) (n : Node)
      → has_id (with_given given n).id vm.nodes ≡ false
      → Step vm (on_created given n vm)
  create_failed : (n : Node) → has_id n.id vm.nodes ≡ false → Step vm (on_create_error n vm)
  deletes : (confirmed : Bool) (n : Node) → Step vm (delete_from_hub confirmed n vm).0
  deleted : (accepted : Bool) (n : Node) → Step vm (on_deleted accepted n vm)
  changed :
      (i status : String) (latency : Option ℕ) (now : ℕ)
      → Step vm (on_status_changed i status latency now vm)
  imports :
      (ids : ℕ → String) (now : ℕ) (write : ℕ → String) (file : ImportFile)
      → AreNew ids vm
      → Step vm (import_config ids now write file vm)
  toast_ends : Step vm (on_toast_timer vm)

pub data Reach (vm : Hub) : Hub → Type 0 where
  here : Reach vm vm
  next : {u w : Hub} → Reach vm u → Step u w → Reach vm w

abbrev pub NoTwice : Hub → Type 0
NoTwice vm = IsDistinct vm.nodes × IsDistinct vm.stored

NoTwice-push_node :
    (n : Node) (vm : Hub) → has_id n.id vm.nodes ≡ false → NoTwice vm → NoTwice (push_node n vm)
NoTwice-push_node n vm new (d, e) = let p = IsDistinct-push vm.nodes n d new in (p, p)

NoTwice-update_local :
    (i : String) (p : Patch) (vm : Hub) → NoTwice vm → NoTwice (update_local i p vm)
unfolding update_local write_local
NoTwice-update_local i p vm (d, e) =
    let c = IsDistinct-change_first i (apply_patch p) vm.nodes (patch_id p) d in (c, c)

NoTwice-remove_local : (i : String) (vm : Hub) → NoTwice vm → NoTwice (remove_local i vm)
unfolding remove_local write_local
NoTwice-remove_local i vm (d, e) =
    let f = IsDistinct-filter (λ j. not (j == i)) vm.nodes d in (f, f)

NoTwice-save_node :
    (id : String) (now : ℕ) (vm : Hub) (edited : Option String)
    → vm.editing_node ≡ edited
    → has_id id vm.nodes ≡ false
    → NoTwice vm
    → NoTwice (save_node id now vm).0
unfolding save_node after_save close_modal toast
NoTwice-save_node id now vm none e new h = elim (Bool-cases (is_complete vm.form)) [
  | inr lacks ↦ rw lacks h
  | inl full ↦ elim (Bool-cases (is_online vm.backend_status)) [
    | inl on ↦ rw (full, e, on) h
    | inr off ↦ rw (full, e, off) (NoTwice-push_node (form_node id now vm.form) vm new h)
  ]
]
NoTwice-save_node id now vm (some i) e new h = elim (Bool-cases (is_complete vm.form)) [
  | inr lacks ↦ rw lacks h
  | inl full ↦ elim (Bool-cases (is_online vm.backend_status)) [
    | inl on ↦ rw (full, e, on) h
    | inr off ↦ rw (full, e, off) (NoTwice-update_local i (form_patch vm.form) vm h)
  ]
]

NoTwice-delete_from_hub :
    (confirmed : Bool) (n : Node) (vm : Hub)
    → NoTwice vm
    → NoTwice (delete_from_hub confirmed n vm).0
unfolding delete_from_hub toast
NoTwice-delete_from_hub false n vm h = h
NoTwice-delete_from_hub true n vm h =
    elim (Bool-cases (is_online vm.backend_status && is_backend n.source)) [
      | inl sent ↦ rw sent h
      | inr not_sent ↦ rw not_sent (NoTwice-remove_local n.id vm h)
    ]

NoTwice-on_update_error :
    (p : Patch) (vm : Hub) {w : Hub} (edited : Option String)
    → vm.editing_node ≡ edited
    → on_update_error p vm ≡ ok w
    → NoTwice vm
    → NoTwice w
unfolding on_update_error after_save close_modal toast
NoTwice-on_update_error p vm none e thrown h = let impossible = rw e at thrown in cc
NoTwice-on_update_error p vm (some i) e done h =
    subst NoTwice (ok-injective (rw e at done)) (NoTwice-update_local i p vm h)

NoTwice-import_config :
    (ids : ℕ → String) (now : ℕ) (write : ℕ → String) (file : ImportFile) (vm : Hub)
    → AreNew ids vm
    → NoTwice vm
    → NoTwice (import_config ids now write file vm)
unfolding import_config write_local toast
NoTwice-import_config ids now write invalid vm new h = h
NoTwice-import_config ids now write no_array vm new h = h
NoTwice-import_config ids now write (entries es) vm (new, apart) (d, e) =
    let p = IsDistinct-import_all ids now apart es (vm.nodes, 0) (d, λ j later. new j) in (p, p)

NoTwice-on_toast_timer :
    (vm : Hub) (ts : List (String × ToastType))
    → vm.toasts ≡ ts
    → NoTwice vm
    → NoTwice (on_toast_timer vm)
unfolding on_toast_timer
NoTwice-on_toast_timer vm [] e h = rw e h
NoTwice-on_toast_timer vm (t ∷ ts) e h = rw e h

Step-NoTwice : {vm w : Hub} → Step vm w → NoTwice vm → NoTwice w
unfolding on_nodes on_nodes_error load_nodes on_poll on_status_changed after_save on_updated
    on_created on_create_error on_deleted open_add_modal open_edit_modal close_modal write_local
    toast on_toast_timer
Step-NoTwice loads h = h
Step-NoTwice {vm} (loaded found f) (d, e) = let m = IsDistinct-merged found vm.stored f e in (m, m)
Step-NoTwice {vm} load_failed (d, e) = (IsDistinct-set_source local vm.stored e, e)
Step-NoTwice {vm} polls h = elim (Bool-cases vm.show_modal) [ inl m ↦ rw m h | inr m ↦ rw m h ]
Step-NoTwice (adds item) h = h
Step-NoTwice (edits n) h = h
Step-NoTwice closes h = h
Step-NoTwice {vm} (saves id now new) h = NoTwice-save_node id now vm vm.editing_node refl new h
Step-NoTwice updated h = h
Step-NoTwice {vm} (update_failed p e) h = NoTwice-on_update_error p vm vm.editing_node refl e h
Step-NoTwice {vm} (created given n new) h =
    NoTwice-push_node (record (with_given given n) { source = backend }) vm new h
Step-NoTwice {vm} (create_failed n new) h = NoTwice-push_node n vm new h
Step-NoTwice {vm} (deletes confirmed n) h = NoTwice-delete_from_hub confirmed n vm h
Step-NoTwice {vm} (deleted true n) h = NoTwice-remove_local n.id vm h
Step-NoTwice {vm} (deleted false n) h = NoTwice-remove_local n.id vm h
Step-NoTwice {vm} (changed i status latency now) (d, e) =
    (IsDistinct-change_first i _ vm.nodes (λ n. refl) d, e)
Step-NoTwice {vm} (imports ids now write file new) h =
    NoTwice-import_config ids now write file vm new h
Step-NoTwice {vm} toast_ends h = NoTwice-on_toast_timer vm vm.toasts refl h

-- From a storage in which no id stands twice, by any sequence of clicks, imports, answers and timers:
-- no id stands twice on the page or in the storage, as long as the server lists none twice and every
-- node, when it is added, has an id that is not on the page.
pub Reach-NoTwice :
    (stored : List Node) (vm : Hub) → IsDistinct stored → Reach (initial stored) vm → NoTwice vm
Reach-NoTwice stored vm d here = (tt, d)
Reach-NoTwice stored vm d (next {u = u} r st) = Step-NoTwice st (Reach-NoTwice stored u d r)
