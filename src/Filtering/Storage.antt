-- ===== src/Filtering/Storage.antt =====
-- What local storage gives back when a list page is opened again.
use neural_vyuha_prime.Common.{ℕ, ℤ, String, true, some, List, ◌≡◌, ◌≢◌, arith, eq_iff, sym, ◌∙◌}
use neural_vyuha_prime.Query.{FieldDef}
use neural_vyuha_prime.Filtering.{
  Filtering, Snapshot, snapshot, contents, json_filters, init_context, has_stored, toggle_stats,
  toggle_filters, toggle_advanced, set_page_size, set_sort, reset_context,
}

-- The operations that store the context at once.
pub data DisplayOp : Type 0 where
  stats filters advanced reset : DisplayOp
  page_size : ℕ → DisplayOp
  sort : List String → DisplayOp

unfoldable pub display : DisplayOp → Filtering → Filtering
display stats s = toggle_stats s
display filters s = toggle_filters s
display advanced s = toggle_advanced s
display reset s = reset_context s
display (page_size n) s = set_page_size n s
display (sort sorts) s = set_sort sorts s

-- A stored context is in use where it is the one of the page's state.
abbrev pub IsStored : Filtering → Type 0
IsStored s = (s.stored ≡ some (snapshot s)) × (s.context.state ≡ s.state)

display-IsStored :
    (op : DisplayOp) (s : Filtering) → s.context.state ≡ s.state → IsStored (display op s)
unfolding display toggle_stats toggle_filters toggle_advanced reset_context set_page_size set_sort
display-IsStored op s h = ground arith

has_stored_self :
    (state : String) (d : Snapshot)
    → state ≢ ""
    → d.state ≡ state
    → has_stored state (some d) ≡ true
unfolding has_stored
has_stored_self state d named same = ground (arith, eq_iff d.state "", eq_iff d.state state)

snapshot-init_stored :
    (to_iso : ℤ → String) (metadata : List (String × FieldDef)) (excludes : List String)
    (state : String) (s : Filtering) (d : Snapshot)
    → s.stored ≡ some d
    → has_stored state (some d) ≡ true
    → snapshot (init_context to_iso metadata excludes state s)
      ≡ record d { filters = json_filters to_iso d.filters }
unfolding init_context snapshot
snapshot-init_stored to_iso metadata excludes state s d h found = rw (h, init_context) (rw found)

display-state : (op : DisplayOp) (s : Filtering) → (display op s).state ≡ s.state
unfolding display toggle_stats toggle_filters toggle_advanced reset_context set_page_size set_sort
display-state op s = ground arith

-- For a context of the page's state, which has a name that is not empty, every operation on the
-- display stores what it leaves: opening the page again, for the same state, gives the same sort,
-- page size and display options, and the filters as JSON gives them back, their dates as texts.
pub snapshot-init-display :
    (to_iso : ℤ → String) (metadata : List (String × FieldDef)) (excludes : List String)
    (op : DisplayOp) (s : Filtering)
    → s.state ≢ ""
    → s.context.state ≡ s.state
    → snapshot (init_context to_iso metadata excludes (display op s).state (display op s))
      ≡ record (snapshot (display op s)) { filters = json_filters to_iso (contents (display op s)) }
unfolding snapshot
snapshot-init-display to_iso metadata excludes op s named same =
    let (stored, here) = display-IsStored op s same in
    snapshot-init_stored to_iso metadata excludes (display op s).state (display op s) _ stored
      (has_stored_self (display op s).state _ (λ e. named (sym (display-state op s) ∙ e)) here)
