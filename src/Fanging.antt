-- ===== src/Fanging.antt =====
-- `fangValue`, `fang` and `unfang` of nv-ui/app/scripts/services/common/UtilsSrv.js: addresses are
-- written so that they are no links. A text is the list of the codes of its characters.
pub mod Replacing
pub mod Defused
pub mod Twice
mod Examples
use neural_vyuha_prime.Common.{
  ℕ, zero, suc, String, Bool, true, false, ◌&&◌, ◌||◌, List, [], ◌∷◌, ◌++◌, ◌+◌, eqb, if◌then◌else◌,
}
use neural_vyuha_prime.Common.{◌==◌}
use neural_vyuha_prime.Uniq.{elem}

abbrev pub Text : Type 0
Text = List ℕ

-- A pattern is a list of tests, one for each of its characters.
abbrev pub starts_with : List (ℕ → Bool) → Text → Bool
starts_with [] s = true
starts_with (p ∷ ps) [] = false
starts_with (p ∷ ps) (c ∷ s) = p c && starts_with ps s

-- `replace(/pattern/g, replacement)`: `more` is what a match has behind its first character, and
-- `skip` what is left of a match that was found.
module _ (hit : Text → Bool) (replacement : Text) (more : ℕ) where
  abbrev pub replace_from : ℕ → Text → Text
  replace_from skip [] = []
  replace_from (suc skip) (c ∷ s) = replace_from skip s
  replace_from zero (c ∷ s) =
      (if hit (c ∷ s) then replacement else c ∷ [])
      ++ replace_from (if hit (c ∷ s) then more else 0) s

-- A letter of either case, by the code of the small one.
abbrev pub is_letter : ℕ → ℕ → Bool
is_letter l c = eqb c l || eqb (c + 32) l

abbrev pub is_h : ℕ → Bool
is_h c = is_letter 104 c

abbrev pub is_x : ℕ → Bool
is_x c = is_letter 120 c

abbrev pub is_t : ℕ → Bool
is_t c = is_letter 116 c

abbrev pub is_p : ℕ → Bool
is_p c = is_letter 112 c

-- `/\[\.\]/`, `/\./`, `/hxxp/i` and `/http/i`
abbrev pub bracketed : List (ℕ → Bool)
bracketed = (λ c. eqb c 91) ∷ (λ c. eqb c 46) ∷ (λ c. eqb c 93) ∷ []

abbrev pub dot : List (ℕ → Bool)
dot = (λ c. eqb c 46) ∷ []

abbrev pub hxxp : List (ℕ → Bool)
hxxp = is_h ∷ is_x ∷ is_x ∷ is_p ∷ []

abbrev pub http : List (ℕ → Bool)
http = is_h ∷ is_t ∷ is_t ∷ is_p ∷ []

abbrev pub hxxp_text : Text
hxxp_text = 104 ∷ 120 ∷ 120 ∷ 112 ∷ []

abbrev pub http_text : Text
http_text = 104 ∷ 116 ∷ 116 ∷ 112 ∷ []

unfoldable pub unbracket : ℕ → Text → Text
unbracket k s = replace_from (starts_with bracketed) (46 ∷ []) 2 k s

unfoldable pub bracket : ℕ → Text → Text
bracket k s = replace_from (starts_with dot) (91 ∷ 46 ∷ 93 ∷ []) 0 k s

unfoldable pub to_http : ℕ → Text → Text
to_http k s = replace_from (starts_with hxxp) http_text 3 k s

unfoldable pub to_hxxp : ℕ → Text → Text
to_hxxp k s = replace_from (starts_with http) hxxp_text 3 k s

unfoldable pub fang_value : Text → Text
unfolding unbracket bracket to_http to_hxxp
fang_value s = to_hxxp 0 (bracket 0 (to_http 0 (unbracket 0 s)))

pub record Sighted : Type 0 where
  pub data_type : String
  pub content : Text

abbrev pub sensitive_types : List String
sensitive_types = "url" ∷ "ip" ∷ "mail" ∷ "domain" ∷ "filename" ∷ []

unfoldable pub fang : Sighted → Text
unfolding fang_value
fang o = if elem ◌==◌ o.data_type sensitive_types then fang_value o.content else o.content

unfoldable pub unfang : Sighted → Text
unfolding unbracket to_http
unfang o = to_http 0 (unbracket 0 o.content)
