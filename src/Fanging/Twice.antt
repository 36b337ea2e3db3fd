-- ===== src/Fanging/Twice.antt =====
-- `fangValue` applied to what it gave, and what it leaves of the links.
use neural_vyuha_prime.Common.{
  ℕ, zero, suc, Bool, false, not, ◌&&◌, ◌||◌, [], ◌∷◌, eqb, ◌≡◌, refl, ◌∙◌, ap, arith, Bool-cases,
  inl, inr,
}
use neural_vyuha_prime.Fanging.{Text, starts_with, is_t, is_p, http, bracket, unbracket, fang_value}
use neural_vyuha_prime.Fanging.Replacing.{starts_with-bracket, unbracket-bracket}
use neural_vyuha_prime.Fanging.Defused.{
  either, defused, defused-hit, defused-miss, either-defused, defused-end, defused-skip,
  defused-twice, fang_value-parts,
}

-- A text that was made safe once is not changed by making it safe again.
pub fang_value-fang_value : (s : Text) → fang_value (fang_value s) ≡ fang_value s
fang_value-fang_value s =
    let t = defused 0 (unbracket 0 s) in
    rw (fang_value-parts s, fang_value-parts (bracket 0 t), unbracket-bracket t)
      (ap (bracket 0) (defused-twice 0 (unbracket 0 s)))

-- Somewhere in the text stands "http", in whatever case.
abbrev pub has_http : Text → Bool
has_http [] = false
has_http (c ∷ s) = starts_with http (c ∷ s) || has_http s

has_http-defused : (k : ℕ) (s : Text) → has_http (defused k s) ≡ false
has_http-defused k [] = rw (defused-end k) refl
has_http-defused (suc k) (c ∷ s) = rw (defused-skip k c s) (has_http-defused k s)
has_http-defused zero (c ∷ s) = elim (Bool-cases (either (c ∷ s))) [
  | inl found ↦ rw (defused-hit c s found) (has_http-defused 3 s)
  | inr missed ↦
      rw (defused-miss c s missed)
        (ground (arith, either-defused c s, has_http-defused 0 s, missed))
]

has_http-bracket : (s : Text) → has_http (bracket 0 s) ≡ has_http s
unfolding bracket
has_http-bracket [] = refl
has_http-bracket (c ∷ s) = elim (Bool-cases (eqb c 46)) [
  | inl is_dot ↦ let at : c ≡ 46 = ground arith in rw at (has_http-bracket s)
  | inr other ↦
      rw
        (
          other,
          starts_with-bracket (is_t ∷ is_t ∷ is_p ∷ []) s (refl, (refl, (refl, tt)))
              (refl, (refl, (refl, tt))),
          has_http-bracket s,
        )
        refl
]

-- Somewhere stands a dot without its brackets; `opened` says whether a bracket stands before.
abbrev pub has_bare_dot : Bool → Text → Bool
has_bare_dot opened [] = false
has_bare_dot opened (c ∷ s) =
    eqb c 46 && not (opened && starts_with ((λ d. eqb d 93) ∷ []) s) || has_bare_dot (eqb c 91) s

bare_dot-bracket : (opened : Bool) (s : Text) → has_bare_dot opened (bracket 0 s) ≡ false
unfolding bracket
bare_dot-bracket opened [] = refl
bare_dot-bracket opened (c ∷ s) = elim (Bool-cases (eqb c 46)) [
  | inl is_dot ↦ let at : c ≡ 46 = ground arith in rw at (bare_dot-bracket false s)
  | inr other ↦ rw (other, other) (bare_dot-bracket (eqb c 91) s)
]

-- In a text that was made safe stands no "http", in whatever case, and no dot without brackets.
pub fang_value-safe :
    (s : Text) → (has_http (fang_value s) ≡ false) × (has_bare_dot false (fang_value s) ≡ false)
fang_value-safe s =
    let t = defused 0 (unbracket 0 s) in
    rw (fang_value-parts s)
      (has_http-bracket t ∙ has_http-defused 0 (unbracket 0 s), bare_dot-bracket false t)
