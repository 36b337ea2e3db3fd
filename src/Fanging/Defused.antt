-- ===== src/Fanging/Defused.antt =====
-- The two replacements of `http` and `hxxp` in `fangValue` are one.
use neural_vyuha_prime.Common.{
  ℕ, zero, suc, Bool, true, false, ◌&&◌, ◌||◌, List, [], ◌∷◌, ◌++◌, eqb, ◌≡◌, refl, ◌∙◌, ap, arith,
  Bool-cases, ◌⊎◌, inl, inr,
}
use neural_vyuha_prime.Fanging.{
  Text, starts_with, replace_from, is_h, is_x, is_t, is_p, hxxp, http, hxxp_text, http_text,
  bracket, unbracket, to_http, to_hxxp, fang_value,
}
use neural_vyuha_prime.Fanging.Replacing.{
  Refuse, to_hxxp-bracket, to_hxxp-hit, to_hxxp-miss, to_http-hit, to_http-miss, replace-hit,
  replace-miss,
}

abbrev pub either : Text → Bool
either s = starts_with http s || starts_with hxxp s

-- Both replacements of `http` and `hxxp` in one.
pub defused : ℕ → Text → Text
defused k s = replace_from either hxxp_text 3 k s

pub defused-hit :
    (c : ℕ) (s : Text) → either (c ∷ s) ≡ true → defused 0 (c ∷ s) ≡ hxxp_text ++ defused 3 s
unfolding defused
defused-hit c s h = replace-hit either hxxp_text 3 c s h

pub defused-miss : (c : ℕ) (s : Text) → either (c ∷ s) ≡ false → defused 0 (c ∷ s) ≡ c ∷ defused 0 s
unfolding defused
defused-miss c s h = replace-miss either hxxp_text 3 c s h

h-cases : (c : ℕ) → is_h c ≡ true → (c ≡ 104) ⊎ (c ≡ 72)
h-cases c h = elim (Bool-cases (eqb c 104)) [
  | inl small ↦ inl (ground arith)
  | inr other ↦ inr (ground arith)
]

-- A pattern that no `h` begins does not see what a replacement of `http` or `hxxp` does behind it.
module _ (hit : Text → Bool) (at_h : (c : ℕ) (s : Text) → hit (c ∷ s) ≡ true → is_h c ≡ true)
    (rest : Text) (more : ℕ) where
  starts_with-replaced :
      (ps : List (ℕ → Bool)) (s : Text)
      → Refuse 104 ps
      → Refuse 72 ps
      → starts_with ps (replace_from hit (104 ∷ rest) more 0 s) ≡ starts_with ps s
  starts_with-replaced [] s h k = refl
  starts_with-replaced (p ∷ ps) [] h k = refl
  starts_with-replaced (p ∷ ps) (c ∷ s) (h, hs) (k, ks) = elim (Bool-cases (hit (c ∷ s))) [
    | inl found ↦ elim (h-cases c (at_h c s found)) [
      | inl small ↦ rw (replace-hit hit (104 ∷ rest) more c s found, small, h) refl
      | inr big ↦ rw (replace-hit hit (104 ∷ rest) more c s found, big, h, k) refl
    ]
    | inr missed ↦
        rw (replace-miss hit (104 ∷ rest) more c s missed)
          (ap (λ b. p c && b) (starts_with-replaced ps s hs ks))
  ]

and-first : (a b : Bool) → (a && b) ≡ true → a ≡ true
and-first a b h = ground arith

hxxp-h : (c : ℕ) (s : Text) → starts_with hxxp (c ∷ s) ≡ true → is_h c ≡ true
hxxp-h c s h = and-first (is_h c) (starts_with (is_x ∷ is_x ∷ is_p ∷ []) s) h

either-first : (a b c : Bool) → (a && b || a && c) ≡ true → a ≡ true
either-first a b c h = ground arith

either-h : (c : ℕ) (s : Text) → either (c ∷ s) ≡ true → is_h c ≡ true
either-h c s h =
    either-first (is_h c) (starts_with (is_t ∷ is_t ∷ is_p ∷ []) s)
      (starts_with (is_x ∷ is_x ∷ is_p ∷ []) s) h

http-to_http : (c : ℕ) (s : Text) → starts_with http (c ∷ to_http 0 s) ≡ starts_with http (c ∷ s)
unfolding to_http
http-to_http c s =
    ap (λ b. is_h c && b)
      (starts_with-replaced (starts_with hxxp) hxxp-h (116 ∷ 116 ∷ 112 ∷ []) 3
        (is_t ∷ is_t ∷ is_p ∷ []) s (refl, (refl, (refl, tt))) (refl, (refl, (refl, tt))))

pub either-defused : (c : ℕ) (s : Text) → either (c ∷ defused 0 s) ≡ either (c ∷ s)
unfolding defused
either-defused c s =
    let tail = starts_with-replaced either either-h (120 ∷ 120 ∷ 112 ∷ []) 3 in
    rw
      (
        tail (is_t ∷ is_t ∷ is_p ∷ []) s (refl, (refl, (refl, tt))) (refl, (refl, (refl, tt))),
        tail (is_x ∷ is_x ∷ is_p ∷ []) s (refl, (refl, (refl, tt))) (refl, (refl, (refl, tt))),
      )
      refl

-- The first k characters are no `h`.
abbrev NoH : ℕ → Text → Type 0
NoH zero s = Unit
NoH (suc k) [] = Unit
NoH (suc k) (c ∷ s) = (is_h c ≡ false) × NoH k s

http-NoH : (c : ℕ) (s : Text) → starts_with http (c ∷ s) ≡ true → NoH 3 s
http-NoH c [] h = tt
http-NoH c (d ∷ []) h = (ground arith, tt)
http-NoH c (d ∷ e ∷ []) h = (ground arith, (ground arith, tt))
http-NoH c (d ∷ e ∷ f ∷ s) h = (ground arith, (ground arith, (ground arith, tt)))

to_http-end : (k : ℕ) → to_http k [] ≡ []
unfolding to_http
to_http-end zero = refl
to_http-end (suc k) = refl

to_hxxp-end : (k : ℕ) → to_hxxp k [] ≡ []
unfolding to_hxxp
to_hxxp-end zero = refl
to_hxxp-end (suc k) = refl

pub defused-end : (k : ℕ) → defused k [] ≡ []
unfolding defused
defused-end zero = refl
defused-end (suc k) = refl

to_http-skip : (k c : ℕ) (s : Text) → to_http (suc k) (c ∷ s) ≡ to_http k s
unfolding to_http
to_http-skip k c s = refl

to_hxxp-skip : (k c : ℕ) (s : Text) → to_hxxp (suc k) (c ∷ s) ≡ to_hxxp k s
unfolding to_hxxp
to_hxxp-skip k c s = refl

pub defused-skip : (k c : ℕ) (s : Text) → defused (suc k) (c ∷ s) ≡ defused k s
unfolding defused
defused-skip k c s = refl

to_hxxp-http_text : (s : Text) → to_hxxp 0 (http_text ++ s) ≡ hxxp_text ++ to_hxxp 0 s
unfolding to_hxxp
to_hxxp-http_text s = refl

defused-hxxp_text : (s : Text) → defused 0 (hxxp_text ++ s) ≡ hxxp_text ++ defused 0 s
unfolding defused
defused-hxxp_text s = refl

-- The two replacements are the one, and what is skipped by either is skipped by both.
abbrev AsOne : Text → Type 0
AsOne s =
    ((k : ℕ) → to_hxxp 0 (to_http k s) ≡ defused k s)
    × ((k : ℕ) → NoH k s → to_hxxp k (to_http 0 s) ≡ defused k s)

one-step : (c : ℕ) (s : Text) → AsOne s → to_hxxp 0 (to_http 0 (c ∷ s)) ≡ defused 0 (c ∷ s)
one-step c s (skipped, kept) = elim (Bool-cases (starts_with hxxp (c ∷ s))) [
  | inl found ↦
      rw
        (
          to_http-hit c s found,
          to_hxxp-http_text (to_http 3 s),
          defused-hit c s (ground arith),
          skipped 3,
        )
        refl
  | inr no_hxxp ↦ elim (Bool-cases (starts_with http (c ∷ s))) [
    | inl found ↦
        rw
          (
            to_http-miss c s no_hxxp,
            to_hxxp-hit c (to_http 0 s) (http-to_http c s ∙ found),
            defused-hit c s (ground arith),
            kept 3 (http-NoH c s found),
          )
          refl
    | inr no_http ↦
        rw
          (
            to_http-miss c s no_hxxp,
            to_hxxp-miss c (to_http 0 s) (http-to_http c s ∙ no_http),
            defused-miss c s (ground arith),
            kept 0 tt,
          )
          refl
  ]
]

as_one : (s : Text) → AsOne s
as_one [] = (
  λ k. rw (to_http-end k, to_hxxp-end 0, defused-end k) refl,
  λ k _. rw (to_http-end 0, to_hxxp-end k, defused-end k) refl,
)
as_one (c ∷ s) = (first (as_one s), second (as_one s))
  where
    first : AsOne s → (k : ℕ) → to_hxxp 0 (to_http k (c ∷ s)) ≡ defused k (c ∷ s)
    first rest zero = one-step c s rest
    first rest (suc k) = rw (to_http-skip k c s, defused-skip k c s) (rest.0 k)

    second : AsOne s → (k : ℕ) → NoH k (c ∷ s) → to_hxxp k (to_http 0 (c ∷ s)) ≡ defused k (c ∷ s)
    second rest zero h = one-step c s rest
    second rest (suc k) (no_h, h) =
        rw (to_http-miss c s (rw no_h refl), to_hxxp-skip k c (to_http 0 s), defused-skip k c s)
          (rest.1 k h)

pub defused-twice : (k : ℕ) (s : Text) → defused 0 (defused k s) ≡ defused k s
defused-twice k [] = rw (defused-end k) (defused-end 0)
defused-twice (suc k) (c ∷ s) = rw (defused-skip k c s) (defused-twice k s)
defused-twice zero (c ∷ s) = elim (Bool-cases (either (c ∷ s))) [
  | inl found ↦ rw (defused-hit c s found, defused-hxxp_text (defused 3 s), defused-twice 3 s) refl
  | inr missed ↦
      rw
        (
          defused-miss c s missed,
          defused-miss c (defused 0 s) (either-defused c s ∙ missed),
          defused-twice 0 s,
        )
        refl
]

-- What the function does: brackets round the dots of a text without links.
pub fang_value-parts : (s : Text) → fang_value s ≡ bracket 0 (defused 0 (unbracket 0 s))
unfolding fang_value
fang_value-parts s =
    to_hxxp-bracket 0 (to_http 0 (unbracket 0 s)) tt ∙ ap (bracket 0) ((as_one (unbracket 0 s)).0 0)
