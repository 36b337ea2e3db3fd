-- ===== src/CaseView/Flag.antt =====
-- The flag of a case in CaseMainCtrl.js, which is turned before the server is asked.
use neural_vyuha_prime.Common.{
  ℕ, zero, suc, Bool, true, false, not, List, [], ◌∷◌, ◌≡◌, refl, ◌∙◌, ap,
}
use neural_vyuha_prime.CaseView.{Case, switch_flag, on_flag_error}

-- So many clicks before the first answer: the case, and what the requests ask for.
unfoldable pub clicks : ℕ → Case → Case × List Bool
clicks zero c = (c, [])
clicks (suc n) c =
    let first = switch_flag c in let later = clicks n first.0 in (later.0, first.1 ∷ later.1)

-- The server refuses them, in their order.
unfoldable pub refusals : List Bool → Case → Case
refusals [] c = c
refusals (asked ∷ rest) c = refusals rest (on_flag_error asked c)

abbrev pub turned : ℕ → Bool → Bool
turned zero b = b
turned (suc n) b = not (turned n b)

turned-not : (n : ℕ) (b : Bool) → turned n (not b) ≡ not (turned n b)
turned-not zero b = refl
turned-not (suc n) b = ap not (turned-not n b)

refusals-clicks :
    (n : ℕ) (c d : Case) → (refusals (clicks (suc n) c).1 d).flag ≡ not (turned (suc n) c.flag)
unfolding refusals clicks switch_flag on_flag_error
refusals-clicks zero c d = refl
refusals-clicks (suc n) c d =
    refusals-clicks n (record c { flag = not c.flag }) (record d { flag = not (not c.flag) })
    ∙ ap (λ b. not (not b)) (turned-not n c.flag)

not-not : (b : Bool) → not (not b) ≡ b
not-not true = refl
not-not false = refl

-- n + 1 clicks before the first answer, all of them refused in the order of the clicks, leave the flag
-- turned n times, so that after an even number of clicks the page shows a flag that the server never
-- had.
pub flag-refusals :
    (n : ℕ) (c : Case)
    → let clicked = clicks (suc n) c in (refusals clicked.1 clicked.0).flag ≡ turned n c.flag
flag-refusals n c = refusals-clicks n c (clicks (suc n) c).0 ∙ not-not (turned n c.flag)
