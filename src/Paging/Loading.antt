-- ===== src/Paging/Loading.antt =====
-- The filter and the count requests of PaginatedQuerySrv.js.
use neural_vyuha_prime.Common.{
  ℕ, Bool, true, false, ◌&&◌, String, Option, none, some, [], ◌∷◌, ◌≡◌, refl, sym, ◌↔◌, ◌≢◌, length,
  arith, eq_iff, and-true, Bool-cases, inl, inr,
}
use neural_vyuha_prime.Query.{Query, everything}
use neural_vyuha_prime.Query.Meaning.{Server, selects}
use neural_vyuha_prime.Paging.{Settings, PagedQuery, get_filter, is_empty, update}

pub holds_of_is_empty :
    (s : Server) (x : Server.Entity s) (q : Query)
    → is_empty (some q) ≡ true
    → Server.holds s q x ≡ true
holds_of_is_empty s x everything h = Server.holds-everything s x
holds_of_is_empty s x _ h = cc

-- The filter that is sent selects what both the base filter and the filter select.
pub selects-get_filter :
    (s : Server) (x : Server.Entity s) (base filter : Option Query)
    → selects s (get_filter base filter) x ≡ (selects s base x && selects s filter x)
unfolding get_filter
selects-get_filter s x none none = refl
selects-get_filter s x none (some f) = elim (Bool-cases (is_empty (some f))) [
  | inl empty ↦ rw (empty, holds_of_is_empty s x f empty) (Server.holds-everything s x)
  | inr full ↦ rw full
]
selects-get_filter s x (some b) none = elim (Bool-cases (is_empty (some b))) [
  | inl empty ↦ rw (empty, holds_of_is_empty s x b empty) (Server.holds-everything s x)
  | inr full ↦ rw (full, and-true)
]
selects-get_filter s x (some b) (some f) = elim (Bool-cases (is_empty (some b))) [
  | inl no_base ↦ elim (Bool-cases (is_empty (some f))) [
    | inl empty ↦
        rw (no_base, empty, holds_of_is_empty s x b no_base, holds_of_is_empty s x f empty)
          (Server.holds-everything s x)
    | inr full ↦ rw (no_base, full, holds_of_is_empty s x b no_base)
  ]
  | inr base ↦ elim (Bool-cases (is_empty (some f))) [
    | inl empty ↦ rw (base, empty, holds_of_is_empty s x f empty) (sym (and-true _))
    | inr full ↦
        rw (base, full, ← and-true (Server.holds s f x)) (Server.holds-conjunction s (b ∷ f ∷ []) x)
  ]
]

module _ {A : Type 0} (s : Settings) (hash : Option Query → String) where
  filter_hash-update :
      (force : Bool) (p : PagedQuery A)
      → s.load_all ≡ false
      → (update s hash force p).0.filter_hash ≡ some (hash p.filter)
  unfolding update
  filter_hash-update force p by_page = go p.filter_hash refl
    where
      go :
          (h : Option String)
          → p.filter_hash ≡ h
          → (update s hash force p).0.filter_hash ≡ some (hash p.filter)
      go none e = ground arith
      go (some g) e = ground (arith, eq_iff g (hash p.filter))

  length-update_iff :
      (p : PagedQuery A) (g : String)
      → s.load_all ≡ false
      → p.filter_hash ≡ some g
      → (length (update s hash false p).1 ≡ 2) ↔ (g ≢ hash p.filter)
  unfolding update
  length-update_iff p g by_page known = ground (arith, eq_iff g (hash p.filter))

  -- Where pages are requested one by one, a later update that is not forced asks for the total again
  -- exactly if the filter's hash has changed, whatever became of the page and of the base filter.
  pub recount_iff :
      (force : Bool) (p : PagedQuery A) (page size : ℕ) (base next : Option Query)
      → s.load_all ≡ false
      → (length
            (update s hash false (record (update s hash force p).0 {
              current_page = page;
              page_size = size;
              base_filter = base;
              filter = next;
            })).1
          ≡ 2)
        ↔ (hash p.filter ≢ hash next)
  recount_iff force p page size base next by_page =
      length-update_iff _ (hash p.filter) by_page (filter_hash-update force p by_page)
