-- ===== src/Incidents/Paging.antt =====
-- Turning the pages of the incidents.
use neural_vyuha_prime.Common.{
  ℕ, zero, suc, ◌+◌, ◌*◌, ◌-◌, ◌≤◌, ◌<◌, ◌≡◌, refl, arith, Bool-cases, false, ltb, ◌⊎◌, inl, inr,
}
use neural_vyuha_prime.Common.{ceil, lt-ceil, mul-lt_of_lt-ceil, ltb→lt, lt→ltb, sym, ◌∙◌}
use mathlib.Core.Bool.{true≢false}
use native.Mathlib.Decide.{dec_lt}
use native.Mathlib.Nat.{mul-le-mul_right}
use Prim.Native.Nat.{max, min}
use neural_vyuha_prime.Incidents.{
  IncidentList, next_page, prev_page, get_current_page, get_total_pages,
}

inr_or_first : (p d n : ℕ) → (p ≡ 0) ⊎ (p * d < n) → (p - 1 ≡ 0) ⊎ ((p - 1) * d < n)
inr_or_first p d n (inl first) = inl (omega arith)
inr_or_first p d n (inr inside) =
    let less : p - 1 ≤ p = omega arith in
    let under : (p - 1) * d ≤ p * d = mul-le-mul_right d less in inr (omega arith)

last_page :
    (p n d : ℕ)
    → 0 < d
    → (p ≡ 0) ⊎ (p * d < n)
    → ltb ((p + 1) * d) n ≡ false
    → p + 1 ≡ min (p + 1 + 1) (max 1 (ceil n d))
last_page p n d pos h last = elim (dec_lt (p + 1) (ceil n d)) [
  | yes more ↦
      absurd (true≢false (sym (lt→ltb _ _ (mul-lt_of_lt-ceil (p + 1) n d pos more)) ∙ last))
  | no here ↦ elim h [
    | inl first ↦ omega arith
    | inr inside ↦ omega (arith, lt-ceil p n d pos inside)
  ]
]

module _ {A : Type 0} where
  -- The page exists: it is the first one, or it starts before the end of the list.
  abbrev pub InRange : IncidentList A → Type 0
  InRange vm = (vm.current_page ≡ 0) ⊎ (vm.current_page * vm.page_size < vm.total_groups)

  -- For a positive page size and in range, the page number that is shown lies between 1 and the
  -- number of pages.
  pub current_page-le-total :
      (vm : IncidentList A)
      → 0 < vm.page_size
      → InRange vm
      → (1 ≤ get_current_page vm) × (get_current_page vm ≤ get_total_pages vm)
  unfolding get_current_page get_total_pages
  current_page-le-total vm pos h = elim h [
    | inl first ↦ omega arith
    | inr inside ↦ omega (arith, lt-ceil vm.current_page vm.total_groups vm.page_size pos inside)
  ]

  abbrev pub next_pages : ℕ → IncidentList A → IncidentList A
  next_pages zero vm = vm
  next_pages (suc n) vm = next_pages n (next_page vm).0

  next_page-InRange : (vm : IncidentList A) → InRange vm → InRange (next_page vm).0
  unfolding next_page
  next_page-InRange vm h = ground arith

  prev_page-InRange : (vm : IncidentList A) → InRange vm → InRange (prev_page vm).0
  unfolding prev_page
  prev_page-InRange vm h = elim (Bool-cases (ltb 0 vm.current_page)) [
    | inl more ↦ rw more (inr_or_first vm.current_page vm.page_size vm.total_groups h)
    | inr first ↦ rw first h
  ]

  next_page_once :
      (vm : IncidentList A)
      → 0 < vm.page_size
      → InRange vm
      → (get_current_page (next_page vm).0 ≡ min (get_current_page vm + 1) (get_total_pages vm))
        × (get_total_pages (next_page vm).0 ≡ get_total_pages vm)
        × ((next_page vm).0.page_size ≡ vm.page_size)
  unfolding next_page get_current_page get_total_pages
  next_page_once vm pos h =
      elim (Bool-cases (ltb ((vm.current_page + 1) * vm.page_size) vm.total_groups)) [
        | inl more ↦ rw more (
          omega (
            arith,
            lt-ceil (vm.current_page + 1) vm.total_groups vm.page_size pos (ltb→lt _ _ more),
          ),
          refl,
          refl,
        )
        | inr last ↦
            rw last
              (last_page (vm.current_page) vm.total_groups vm.page_size pos h last, refl, refl)
      ]

  -- For a positive page size and from a page in range, clicking `n` times on "next" turns `n`
  -- pages, but stops on the last one.
  pub current_page-next_pages :
      (n : ℕ) (vm : IncidentList A)
      → 0 < vm.page_size
      → InRange vm
      → get_current_page (next_pages n vm) ≡ min (get_current_page vm + n) (get_total_pages vm)
  current_page-next_pages zero vm pos h = omega (arith, current_page-le-total vm pos h)
  current_page-next_pages (suc n) vm pos h =
      let (once, same, size) = next_page_once vm pos h in
      let ih = current_page-next_pages n (next_page vm).0 (rw size pos) (next_page-InRange vm h) in
      omega arith
