-- ===== src/Paging/Pages.antt =====
-- The pages of a list together are the list, in both ways of loading.
use neural_vyuha_prime.Common.{
  ℕ, suc, ◌*◌, ◌-◌, ◌≤◌, String, true, false, Option, none, some, List, ◌≡◌, ◌∙◌, length, arith,
  pos, negsuc, ℤ, leb, ltb, eqb, Bool, not, ◌&&◌, ◌<◌, ◌+◌, ◌⊎◌, inl, inr, Bool-cases,
}
use native.Mathlib.Nat.{mul-le-mul_right}
use neural_vyuha_prime.Query.{Query}
use neural_vyuha_prime.Query.Pipeline.{Page}
use neural_vyuha_prime.Paging.{
  Settings, PagedQuery, slice, get_page, list_options, change_page, on_list,
}
use neural_vyuha_prime.Paging.Slices.{first_pages, first_pages_all, first_pages-ext}

-- Whether a bound of a page is at most i.
abbrev pub is_up_to : ℤ → ℕ → Bool
is_up_to (pos a) i = leb a i
is_up_to (negsuc a) i = true

-- Whether a request asks for the i-th element of its list, the first being 0.
abbrev pub asks_for : Option Page → ℕ → Bool
asks_for none i = true
asks_for (some pg) i = is_up_to pg.from i && not (is_up_to pg.to i)

compare-cases : (n m : ℕ) → (suc n ≤ m) ⊎ ((n ≡ m) ⊎ (suc m ≤ n))
compare-cases n m = elim (Bool-cases (ltb n m)) [
  | inl below ↦ inl (ground arith)
  | inr other ↦ elim (Bool-cases (eqb n m)) [
    | inl same ↦ inr (inl (ground arith))
    | inr apart ↦ inr (inr (ground arith))
  ]
]

within-page :
    (size n m r : ℕ)
    → r < size
    → (leb (suc n * size - size) (m * size + r) && not (leb (suc n * size) (m * size + r)))
      ≡ eqb n m
within-page size n m r small = elim (compare-cases n m) [
  | inl below ↦ let far : suc n * size ≤ m * size = mul-le-mul_right size below in ground arith
  | inr (inl same) ↦ rw same (ground arith)
  | inr (inr above) ↦
      let far : suc m * size ≤ n * size = mul-le-mul_right size above in ground arith
]

module _ {A : Type 0} (s : Settings) (hash : Option Query → String) where
  -- What is shown when the user turns to page n.
  abbrev pub page_shown : PagedQuery A → ℕ → List A
  page_shown p n = (change_page s hash (record p { current_page = n })).0.values

  page_shown-slice :
      (p : PagedQuery A) (n : ℕ)
      → s.load_all ≡ true
      → page_shown p n ≡ slice (n * p.page_size - p.page_size) (n * p.page_size) p.all_values
  unfolding change_page
  page_shown-slice p n whole = rw whole

  on_list_whole :
      (p : PagedQuery A) (found : List A)
      → s.load_all ≡ true
      → ((on_list s hash found p).0.all_values ≡ found)
        × ((on_list s hash found p).0.page_size ≡ p.page_size)
  unfolding on_list
  on_list_whole p found whole = ground arith

  get_page-suc :
      (p : PagedQuery A) (n : ℕ)
      → s.load_all ≡ false
      → get_page s (record p { current_page = suc n })
        ≡ some (record {
          from = pos (suc n * p.page_size - p.page_size);
          to = pos (suc n * p.page_size);
          extra_data = s.extra_data;
        })
  unfolding get_page
  get_page-suc p n by_page =
      let inside : leb p.page_size (suc n * p.page_size) ≡ true = grind arith in
      rw (by_page, inside)

  -- Where everything is loaded at once: after the answer, the pages from 1 on, if they are enough
  -- to hold the answer, show it whole, each element once and in the order of the answer.
  pub load_all-pages :
      (p : PagedQuery A) (found : List A) (k : ℕ)
      → s.load_all ≡ true
      → length found ≤ k * p.page_size
      → first_pages (page_shown (on_list s hash found p).0) k ≡ found
  load_all-pages p found k whole enough =
      let (same, size) = on_list_whole p found whole in
      first_pages-ext (page_shown (on_list s hash found p).0)
        (λ n. slice (n * p.page_size - p.page_size) (n * p.page_size) found) k
        (λ n. page_shown-slice (on_list s hash found p).0 (suc n) whole ∙ rw (size, same))
      ∙ first_pages_all p.page_size k found enough

  -- Where the pages are requested one by one: the request for page n + 1 asks for the r-th element
  -- of the page m + 1 of the list, the r-th being on the page as r is less than the page's size,
  -- exactly if n is m. So every element is asked for by the request for its own page alone.
  pub requested_page :
      (p : PagedQuery A) (n m r : ℕ)
      → s.load_all ≡ false
      → r < p.page_size
      → asks_for (list_options s (record p { current_page = suc n })).page (m * p.page_size + r)
        ≡ eqb n m
  unfolding list_options
  requested_page p n m r by_page small =
      rw (get_page-suc p n by_page) (within-page p.page_size n m r small)
