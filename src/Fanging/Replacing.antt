-- ===== src/Fanging/Replacing.antt =====
-- The replacements of `fangValue` one by one, and how they pass one another.
use neural_vyuha_prime.Common.{
  ℕ, zero, suc, Bool, true, false, ◌&&◌, List, [], ◌∷◌, ◌++◌, eqb, ◌≡◌, refl, ◌∙◌, ap, arith,
  Bool-cases, inl, inr, and-false,
}
use neural_vyuha_prime.Fanging.{
  Text, starts_with, replace_from, is_h, is_t, is_p, bracketed, hxxp, http, hxxp_text, http_text,
  unbracket, bracket, to_http, to_hxxp,
}

-- None of these tests takes the character.
abbrev pub Refuse : ℕ → List (ℕ → Bool) → Type 0
Refuse c [] = Unit
Refuse c (p ∷ ps) = (p c ≡ false) × Refuse c ps

-- Brackets round the dots do not matter to a pattern without them.
pub starts_with-bracket :
    (ps : List (ℕ → Bool)) (s : Text)
    → Refuse 46 ps
    → Refuse 91 ps
    → starts_with ps (bracket 0 s) ≡ starts_with ps s
unfolding bracket
starts_with-bracket [] s h k = refl
starts_with-bracket (p ∷ ps) [] h k = refl
starts_with-bracket (p ∷ ps) (c ∷ s) (h, hs) (k, ks) = elim (Bool-cases (eqb c 46)) [
  | inl is_dot ↦ let at : c ≡ 46 = ground arith in rw at (ground arith)
  | inr other ↦ rw other (ap (λ b. p c && b) (starts_with-bracket ps s hs ks))
]

-- The first k characters are no dots.
abbrev pub NoDots : ℕ → Text → Type 0
NoDots zero s = Unit
NoDots (suc k) [] = Unit
NoDots (suc k) (c ∷ s) = (eqb c 46 ≡ false) × NoDots k s

http-NoDots : (c : ℕ) (s : Text) → starts_with http (c ∷ s) ≡ true → NoDots 3 s
http-NoDots c [] h = tt
http-NoDots c (d ∷ []) h = (ground arith, tt)
http-NoDots c (d ∷ e ∷ []) h = (ground arith, (ground arith, tt))
http-NoDots c (d ∷ e ∷ f ∷ s) h = (ground arith, (ground arith, (ground arith, tt)))

module _ (hit : Text → Bool) (replacement : Text) (more : ℕ) (c : ℕ) (s : Text) where
  pub replace-hit :
      hit (c ∷ s) ≡ true
      → replace_from hit replacement more 0 (c ∷ s)
        ≡ replacement ++ replace_from hit replacement more more s
  replace-hit h = rw h refl

  pub replace-miss :
      hit (c ∷ s) ≡ false
      → replace_from hit replacement more 0 (c ∷ s) ≡ c ∷ replace_from hit replacement more 0 s
  replace-miss h = rw h refl

pub to_hxxp-hit :
    (c : ℕ) (s : Text)
    → starts_with http (c ∷ s) ≡ true
    → to_hxxp 0 (c ∷ s) ≡ hxxp_text ++ to_hxxp 3 s
unfolding to_hxxp
to_hxxp-hit c s h = replace-hit (starts_with http) hxxp_text 3 c s h

pub to_hxxp-miss :
    (c : ℕ) (s : Text) → starts_with http (c ∷ s) ≡ false → to_hxxp 0 (c ∷ s) ≡ c ∷ to_hxxp 0 s
unfolding to_hxxp
to_hxxp-miss c s h = replace-miss (starts_with http) hxxp_text 3 c s h

pub to_http-hit :
    (c : ℕ) (s : Text)
    → starts_with hxxp (c ∷ s) ≡ true
    → to_http 0 (c ∷ s) ≡ http_text ++ to_http 3 s
unfolding to_http
to_http-hit c s h = replace-hit (starts_with hxxp) http_text 3 c s h

pub to_http-miss :
    (c : ℕ) (s : Text) → starts_with hxxp (c ∷ s) ≡ false → to_http 0 (c ∷ s) ≡ c ∷ to_http 0 s
unfolding to_http
to_http-miss c s h = replace-miss (starts_with hxxp) http_text 3 c s h

bracket-dot : (s : Text) → bracket 0 (46 ∷ s) ≡ 91 ∷ 46 ∷ 93 ∷ bracket 0 s
unfolding bracket
bracket-dot s = refl

bracket-plain : (c : ℕ) (s : Text) → eqb c 46 ≡ false → bracket 0 (c ∷ s) ≡ c ∷ bracket 0 s
unfolding bracket
bracket-plain c s h = rw h refl

-- Behind a skipped part, and at a character that no match begins with.
to_hxxp-skip : (k c : ℕ) (s : Text) → to_hxxp (suc k) (c ∷ s) ≡ to_hxxp k s
unfolding to_hxxp
to_hxxp-skip k c s = refl

to_hxxp-brackets : (s : Text) → to_hxxp 0 (91 ∷ 46 ∷ 93 ∷ s) ≡ 91 ∷ 46 ∷ 93 ∷ to_hxxp 0 s
unfolding to_hxxp
to_hxxp-brackets s = refl

-- Brackets round the dots, and the replacement of `http`, pass one another.
pub to_hxxp-bracket :
    (k : ℕ) (s : Text) → NoDots k s → to_hxxp k (bracket 0 s) ≡ bracket 0 (to_hxxp k s)
to_hxxp-bracket zero [] h = unfold to_hxxp in unfold bracket in refl
to_hxxp-bracket (suc k) [] h = unfold to_hxxp in unfold bracket in refl
to_hxxp-bracket (suc k) (c ∷ s) (here, rest) =
    rw (bracket-plain c s here, to_hxxp-skip k c (bracket 0 s), to_hxxp-skip k c s)
      (to_hxxp-bracket k s rest)
to_hxxp-bracket zero (c ∷ s) h = elim (Bool-cases (eqb c 46)) [
  | inl is_dot ↦
      let at : c ≡ 46 = ground arith in
      rw (at, bracket-dot s, to_hxxp-brackets, to_hxxp-miss 46 s refl, bracket-dot)
        (ap (λ t. 91 ∷ 46 ∷ 93 ∷ t) (to_hxxp-bracket 0 s tt))
  | inr other ↦ elim (Bool-cases (starts_with http (c ∷ s))) [
    | inl hit ↦
        rw
          (
            bracket-plain c s other,
            to_hxxp-hit c (bracket 0 s) (at_http c s ∙ hit),
            to_hxxp-hit c s hit,
            bracket-hxxp (to_hxxp 3 s),
          )
          (ap (λ t. hxxp_text ++ t) (to_hxxp-bracket 3 s (http-NoDots c s hit)))
    | inr miss ↦
        rw
          (
            bracket-plain c s other,
            to_hxxp-miss c (bracket 0 s) (at_http c s ∙ miss),
            to_hxxp-miss c s miss,
            bracket-plain c (to_hxxp 0 s) other,
          )
          (ap (λ t. c ∷ t) (to_hxxp-bracket 0 s tt))
  ]
]
  where
    at_http : (c : ℕ) (s : Text) → starts_with http (c ∷ bracket 0 s) ≡ starts_with http (c ∷ s)
    at_http c s =
        ap (λ b. is_h c && b)
          (starts_with-bracket (is_t ∷ is_t ∷ is_p ∷ []) s (refl, (refl, (refl, tt)))
            (refl, (refl, (refl, tt))))

    bracket-hxxp : (s : Text) → bracket 0 (hxxp_text ++ s) ≡ hxxp_text ++ bracket 0 s
    bracket-hxxp s = unfold bracket in refl

-- Brackets that are put round the dots are taken away again.
no_dot_first :
    (ps : List (ℕ → Bool)) (s : Text) → starts_with ((λ c. eqb c 46) ∷ ps) (bracket 0 s) ≡ false
unfolding bracket
no_dot_first ps [] = refl
no_dot_first ps (c ∷ s) = elim (Bool-cases (eqb c 46)) [
  | inl is_dot ↦ rw is_dot refl
  | inr other ↦ rw (other, other) refl
]

pub unbracket-bracket : (s : Text) → unbracket 0 (bracket 0 s) ≡ s
unfolding unbracket
unbracket-bracket [] = unfold bracket in refl
unbracket-bracket (c ∷ s) = elim (Bool-cases (eqb c 46)) [
  | inl is_dot ↦
      let at : c ≡ 46 = ground arith in
      rw (at, bracket-dot s) (ap (λ t. 46 ∷ t) (unbracket-bracket s))
  | inr other ↦
      rw
        (
          bracket-plain c s other,
          replace-miss (starts_with bracketed) (46 ∷ []) 2 c (bracket 0 s) (
              ap (λ b. eqb c 91 && b) (no_dot_first ((λ d. eqb d 93) ∷ []) s)
              ∙ and-false (eqb c 91)),
        )
        (ap (λ t. c ∷ t) (unbracket-bracket s))
]
