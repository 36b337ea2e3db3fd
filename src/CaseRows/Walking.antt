-- ===== src/CaseRows/Walking.antt =====
-- Going on from page to page in nvCaseListController.js ends at the last page.
use neural_vyuha_prime.Common.{
  ℕ, zero, suc, String, true, false, some, List, [], ◌∷◌, ◌+◌, ◌*◌, ◌-◌, ◌<◌, ◌≤◌, ◌≡◌, refl, sym,
  ◌∙◌, arith, ltb, leb, ceil, lt-ceil, mul-lt_of_lt-ceil, length, if◌then◌else◌, Bool-cases, inl,
  inr, ltb→lt,
}
use native.Mathlib.Nat.{mul-div_cancel}
use neural_vyuha_prime.CaseRows.{
  CaseList, ListRequest, array, object, load_list, on_answer, next_cases, current_page, total_pages,
}

-- The answer of a server that has `total` cases, if something was asked.
abbrev pub answered : (ℕ → List String) → ℕ → CaseList × List ListRequest → CaseList
answered rows total (vm, []) = vm
answered rows total (vm, r ∷ rs) = on_answer (object (some (rows r.offset)) (some total)) vm

-- A click on "next", and its answer.
unfoldable pub press : (ℕ → List String) → CaseList → CaseList
unfolding next_cases load_list on_answer
press rows vm = answered rows vm.total (next_cases vm)

unfoldable pub presses : (ℕ → List String) → ℕ → CaseList → CaseList
presses rows zero vm = vm
presses rows (suc n) vm = presses rows n (press rows vm)

-- The list shows the page behind k others, of N cases with d to a page.
pub record IsAt (N d k : ℕ) (vm : CaseList) : Type 0 where
  pub total : vm.total ≡ N
  pub limit : vm.params.limit ≡ d
  pub offset : vm.params.offset ≡ k * d

abbrev pages_of : ℕ → ℕ → ℕ
pages_of N d = let pages = ceil N d in if leb pages 1 then 1 else pages

more-cases : (N d k : ℕ) → 0 < d → ltb (k * d + d) N ≡ ltb (suc k) (pages_of N d)
more-cases N d k pos = elim (Bool-cases (ltb (k * d + d) N)) [
  | inl more ↦
      let below : suc k < ceil N d =
        lt-ceil (suc k) N d pos (let l = ltb→lt (k * d + d) N more in grind arith) in
      rw more (ground arith)
  | inr last ↦ elim (Bool-cases (ltb (suc k) (ceil N d))) [
    | inl below ↦
        let l = mul-lt_of_lt-ceil (suc k) N d pos (ltb→lt _ _ below) in
        let m : k * d + d < N = grind arith in absurd (ground arith)
    | inr none_left ↦ rw last (ground arith)
  ]
]

next-more :
    (vm : CaseList)
    → ltb (vm.params.offset + vm.params.limit) vm.total ≡ true
    → next_cases vm
      ≡ load_list (record vm {
        params = record (vm.params) { offset = vm.params.offset + vm.params.limit };
      })
unfolding next_cases
next-more vm h = rw h refl

next-last :
    (vm : CaseList)
    → ltb (vm.params.offset + vm.params.limit) vm.total ≡ false
    → next_cases vm ≡ (vm, [])
unfolding next_cases
next-last vm h = rw h refl

press-on :
    (rows : ℕ → List String) (N d k : ℕ) (vm : CaseList)
    → IsAt N d k vm
    → ltb (k * d + d) N ≡ true
    → IsAt N d (suc k) (press rows vm)
unfolding press load_list on_answer
press-on rows N d k vm h more =
    let go : ltb (vm.params.offset + vm.params.limit) vm.total ≡ true =
      rw (h.offset, h.limit, h.total) more in
    rw (next-more vm go, press)
      (record { total = h.total; limit = h.limit; offset = rw (h.offset, h.limit) (grind arith) })

press-stop :
    (rows : ℕ → List String) (N d k : ℕ) (vm : CaseList)
    → IsAt N d k vm
    → ltb (k * d + d) N ≡ false
    → press rows vm ≡ vm
unfolding press
press-stop rows N d k vm h last =
    let go : ltb (vm.params.offset + vm.params.limit) vm.total ≡ false =
      rw (h.offset, h.limit, h.total) last in
    rw (next-last vm go, press) refl

-- The page that n clicks lead to.
abbrev after : ℕ → ℕ → ℕ → ℕ
after p n k = if ltb (k + n) p then k + n else p - 1

presses-IsAt :
    (rows : ℕ → List String) (N d n k : ℕ) (vm : CaseList)
    → 0 < d
    → k < pages_of N d
    → IsAt N d k vm
    → IsAt N d (after (pages_of N d) n k) (presses rows n vm)
unfolding presses
presses-IsAt rows N d zero k vm pos below h =
    let stays : after (pages_of N d) 0 k ≡ k = ground arith in rw stays h
presses-IsAt rows N d (suc n) k vm pos below h = elim (Bool-cases (ltb (k * d + d) N)) [
  | inl more ↦
      let there = more-cases N d k pos in
      let same : after (pages_of N d) (suc n) k ≡ after (pages_of N d) n (suc k) = ground arith in
      rw same (
        presses-IsAt rows N d n (suc k) (press rows vm) pos (ltb→lt _ _ (sym there ∙ more))
          (press-on rows N d k vm h more))
  | inr last ↦
      let there = more-cases N d k pos in
      let end : suc k ≡ pages_of N d = ground arith in
      let same : after (pages_of N d) (suc n) k ≡ after (pages_of N d) n k = ground arith in
      rw (same, press-stop rows N d k vm h last) (presses-IsAt rows N d n k vm pos below h)
]

-- From the first page, n clicks on "next" lead n pages on, or to the last page where there are not so
-- many: going on ends there, whatever the server lists, as long as it has the same number of cases.
pub current_page-presses :
    (rows : ℕ → List String) (n : ℕ) (vm : CaseList)
    → 0 < vm.params.limit
    → vm.params.offset ≡ 0
    → current_page (presses rows n vm) ≡ (if ltb n (total_pages vm) then n + 1 else total_pages vm)
unfolding current_page total_pages
current_page-presses rows n vm pos first =
    let p = pages_of vm.total vm.params.limit in
    let at =
      presses-IsAt rows vm.total vm.params.limit n 0 vm pos (ground arith)
        (record { total = refl; limit = refl; offset = rw first (omega arith) }) in
    rw (at.limit, at.offset, mul-div_cancel (after p n 0) pos) (ground arith)

-- After an answer that is an array of no more cases than a page has, "next" does nothing: the cases
-- behind this page are out of reach.
pub next_cases-array :
    (cs : List String) (vm : CaseList)
    → length cs ≤ vm.params.limit
    → next_cases (on_answer (array cs) vm) ≡ (on_answer (array cs) vm, [])
unfolding next_cases on_answer
next_cases-array cs vm small =
    let last : ltb (vm.params.offset + vm.params.limit) (length cs) ≡ false = ground arith in
    rw last refl
