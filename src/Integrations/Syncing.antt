-- ===== src/Integrations/Syncing.antt =====
-- Which nodes a load of nvIntegrationsCtrl.js leaves.
use neural_vyuha_prime.Common.{
  String, Bool, true, false, not, ◌&&◌, ◌||◌, List, [], ◌∷◌, filter, any, ◌==◌, ◌≡◌, refl, arith,
  eq_iff, eq_refl, any-append,
}
use neural_vyuha_prime.Integrations.{
  Node, Hub, Source, backend, local, has_id, set_source, merged, on_nodes, write_local,
}
use neural_vyuha_prime.Integrations.Saving.{on_deleted, remove_local}

pub has_id-set_source :
    (i : String) (s : Source) (ns : List Node) → has_id i (set_source s ns) ≡ has_id i ns
has_id-set_source i s [] = refl
has_id-set_source i s (n ∷ ns) = ground (arith, has_id-set_source i s ns)

pub has_id-filter :
    (i : String) (p : String → Bool) (ns : List Node)
    → has_id i (filter (λ (n : Node). p n.id) ns) ≡ (p i && has_id i ns)
has_id-filter i p [] = ground arith
has_id-filter i p (n ∷ ns) = ground (arith, has_id-filter i p ns, eq_iff n.id i)

pub has_id-merged :
    (i : String) (found stored : List Node)
    → has_id i (merged found stored) ≡ (has_id i found || has_id i stored)
has_id-merged i found stored = ground (
  arith,
  has_id-set_source i backend found,
  any-append (λ (n : Node). n.id == i) (set_source backend found)
      (set_source local (filter (λ (n : Node). not (has_id n.id found)) stored)),
  has_id-set_source i local (filter (λ (n : Node). not (has_id n.id found)) stored),
  has_id-filter i (λ j. not (has_id j found)) stored,
)

-- After a load the hub has the nodes of the server and the stored ones, and no others; and the
-- storage has the same.
pub has_id-on_nodes :
    (i : String) (found : List Node) (vm : Hub)
    → (has_id i (on_nodes found vm).nodes ≡ (has_id i found || has_id i vm.stored))
      × (has_id i (on_nodes found vm).stored ≡ (has_id i found || has_id i vm.stored))
unfolding on_nodes write_local
has_id-on_nodes i found vm = (has_id-merged i found vm.stored, has_id-merged i found vm.stored)

-- The answers of one poll after the other.
abbrev pub loads : List (List Node) → Hub → Hub
loads [] vm = vm
loads (found ∷ more) vm = loads more (on_nodes found vm)

loads-stored :
    (i : String) (answers : List (List Node)) (vm : Hub)
    → (has_id i vm.nodes && has_id i vm.stored) ≡ true
    → (has_id i (loads answers vm).nodes && has_id i (loads answers vm).stored) ≡ true
loads-stored i [] vm h = h
loads-stored i (found ∷ more) vm h =
    loads-stored i more (on_nodes found vm) (ground (arith, has_id-on_nodes i found vm))

-- Once the server has listed a node, no later answer takes it off the page: not even answers that
-- do not list it any more.
pub loads-keeps :
    (i : String) (found : List Node) (answers : List (List Node)) (vm : Hub)
    → has_id i found ≡ true
    → has_id i (loads answers (on_nodes found vm)).nodes ≡ true
loads-keeps i found answers vm h =
    ground (arith, has_id-on_nodes i found vm, loads-stored i answers (on_nodes found vm))

loads-missing :
    (i : String) (answers : List (List Node)) (vm : Hub)
    → has_id i vm.nodes ≡ false
    → has_id i vm.stored ≡ false
    → any (has_id i) answers ≡ false
    → has_id i (loads answers vm).nodes ≡ false
loads-missing i [] vm h s a = h
loads-missing i (found ∷ more) vm h s a =
    loads-missing i more (on_nodes found vm) (ground (arith, has_id-on_nodes i found vm))
      (ground (arith, has_id-on_nodes i found vm)) (ground arith)

removed-missing :
    (accepted : Bool) (n : Node) (vm : Hub)
    → (has_id n.id (on_deleted accepted n vm).nodes ≡ false)
      × (has_id n.id (on_deleted accepted n vm).stored ≡ false)
unfolding on_deleted remove_local write_local
removed-missing accepted n vm =
    ground (arith, has_id-filter n.id (λ j. not (j == n.id)) vm.nodes, eq_refl n.id)

-- A node that is deleted here, whatever the server answers, is gone from the page and the storage,
-- and comes back with no later answer that does not list it.
pub loads-on_deleted :
    (accepted : Bool) (n : Node) (answers : List (List Node)) (vm : Hub)
    → any (has_id n.id) answers ≡ false
    → has_id n.id (loads answers (on_deleted accepted n vm)).nodes ≡ false
loads-on_deleted accepted n answers vm h =
    let (page, kept) = removed-missing accepted n vm in
    loads-missing n.id answers (on_deleted accepted n vm) page kept h
