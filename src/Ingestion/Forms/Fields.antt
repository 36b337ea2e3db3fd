-- ===== src/Ingestion/Forms/Fields.antt =====
-- The list of fields that a text gives, written out again.
use neural_vyuha_prime.Common.{
  ℕ, Bool, true, false, not, ◌&&◌, List, [], ◌∷◌, ◌++◌, map, eqb, any, ◌≡◌, refl, ◌∙◌, ap, arith,
}
use neural_vyuha_prime.Ingestion.Forms.{
  Text, trim_text_start, trim_text_end, push_unless_blank, trim_text, is_white, comma, split,
  field_paths,
}

-- The texts with commas between them.
abbrev pub with_commas : List Text → Text
with_commas [] = []
with_commas (t ∷ []) = t
with_commas (t ∷ u ∷ ts) = t ++ (comma ∷ with_commas (u ∷ ts))

abbrev has_comma : Text → Bool
has_comma t = any (λ c. eqb c comma) t

abbrev NoCommas : List Text → Type 0
NoCommas [] = Unit
NoCommas (t ∷ ts) = (has_comma t ≡ false) × NoCommas ts

split-plain : (t : Text) → has_comma t ≡ false → split t ≡ t ∷ []
split-plain [] h = refl
split-plain (c ∷ cs) h = ground (arith, split-plain cs)

split-append : (t s : Text) → has_comma t ≡ false → split (t ++ (comma ∷ s)) ≡ t ∷ split s
split-append [] s h = refl
split-append (c ∷ cs) s h = ground (arith, split-append cs s)

split-with_commas :
    (t : Text) (ts : List Text) → NoCommas (t ∷ ts) → split (with_commas (t ∷ ts)) ≡ t ∷ ts
split-with_commas t [] (here, _) = split-plain t here
split-with_commas t (u ∷ ts) (here, rest) =
    split-append t (with_commas (u ∷ ts)) here ∙ ap (λ us. t ∷ us) (split-with_commas u ts rest)

-- A text whose first and last characters are not white; it may be empty.
abbrev pub all_white : Text → Bool
all_white [] = true
all_white (c ∷ cs) = is_white c && all_white cs

abbrev pub ends_solid : Text → Bool
ends_solid [] = false
ends_solid (c ∷ []) = not (is_white c)
ends_solid (c ∷ d ∷ ds) = ends_solid (d ∷ ds)

abbrev pub is_bare : Text → Bool
is_bare [] = true
is_bare (c ∷ cs) = not (is_white c) && ends_solid (c ∷ cs)

both : (a b : Bool) → (a && b) ≡ true → (a ≡ true) × (b ≡ true)
both a b h = (ground arith, ground arith)

not-true : (a : Bool) → not a ≡ true → a ≡ false
not-true a h = ground arith

-- A field with the white space around it.
pub record Padded : Type 0 where
  pub before : Text
  pub field : Text
  pub behind : Text

abbrev pub padded : Padded → Text
padded p = p.before ++ (p.field ++ p.behind)

abbrev pub IsPadded : Padded → Type 0
IsPadded p =
    (all_white p.before ≡ true)
    × (is_bare p.field ≡ true)
    × (has_comma p.field ≡ false)
    × (all_white p.behind ≡ true)

abbrev pub ArePadded : List Padded → Type 0
ArePadded [] = Unit
ArePadded (p ∷ ps) = IsPadded p × ArePadded ps

white-start :
    (b t : Text)
    → all_white b ≡ true
    → trim_text_start is_white (b ++ t) ≡ trim_text_start is_white t
white-start [] t h = refl
white-start (c ∷ cs) t h =
    let (white, rest) = both (is_white c) (all_white cs) h in rw white (white-start cs t rest)

white-end : (b : Text) → all_white b ≡ true → trim_text_end is_white b ≡ []
white-end [] h = refl
white-end (c ∷ cs) h =
    let (white, rest) = both (is_white c) (all_white cs) h in rw (white-end cs rest, white) refl

end-behind :
    (t b : Text) → all_white b ≡ true → trim_text_end is_white (t ++ b) ≡ trim_text_end is_white t
end-behind [] b h = white-end b h
end-behind (c ∷ cs) b h = ap (push_unless_blank is_white c) (end-behind cs b h)

end-solid :
    (c : ℕ) (cs : Text) → ends_solid (c ∷ cs) ≡ true → trim_text_end is_white (c ∷ cs) ≡ c ∷ cs
end-solid c [] h = let solid : is_white c ≡ false = not-true (is_white c) h in rw solid refl
end-solid c (d ∷ ds) h = rw (end-solid d ds h) refl

trim_text-padded :
    (b t u : Text)
    → all_white b ≡ true
    → is_bare t ≡ true
    → all_white u ≡ true
    → trim_text (b ++ (t ++ u)) ≡ t
trim_text-padded b [] u hb _ hu = ap (trim_text_end is_white) (white-start b u hb) ∙ white-trim u hu
  where
    white-trim : (v : Text) → all_white v ≡ true → trim_text v ≡ []
    white-trim [] h = refl
    white-trim (c ∷ cs) h =
        let (white, rest) = both (is_white c) (all_white cs) h in rw white (white-trim cs rest)
trim_text-padded b (c ∷ cs) u hb ht hu =
    let (first, last) = both (not (is_white c)) (ends_solid (c ∷ cs)) ht in
    let solid : is_white c ≡ false = not-true (is_white c) first in
    let started : trim_text_start is_white (b ++ (c ∷ (cs ++ u))) ≡ c ∷ (cs ++ u) =
      white-start b (c ∷ (cs ++ u)) hb ∙ rw solid refl in
    ap (trim_text_end is_white) started ∙ end-behind (c ∷ cs) u hu ∙ end-solid c cs last

white-NoComma : (c : ℕ) → is_white c ≡ true → eqb c comma ≡ false
white-NoComma c h = ground arith

all_white-NoComma : (b : Text) → all_white b ≡ true → has_comma b ≡ false
all_white-NoComma [] h = refl
all_white-NoComma (c ∷ cs) h =
    let (white, rest) = both (is_white c) (all_white cs) h in
    rw (white-NoComma c white, all_white-NoComma cs rest) refl

append-NoComma :
    (t u : Text) → has_comma t ≡ false → has_comma u ≡ false → has_comma (t ++ u) ≡ false
append-NoComma [] u ht hu = hu
append-NoComma (c ∷ cs) u ht hu = ground (arith, append-NoComma cs u)

padded-NoCommas : (ps : List Padded) → ArePadded ps → NoCommas (map padded ps)
padded-NoCommas [] h = tt
padded-NoCommas (p ∷ ps) ((hb, _, hc, hu), rest) = (
  append-NoComma p.before (p.field ++ p.behind) (all_white-NoComma p.before hb)
      (append-NoComma p.field p.behind hc (all_white-NoComma p.behind hu)),
  padded-NoCommas ps rest,
)

trim_text-all :
    (ps : List Padded)
    → ArePadded ps
    → map trim_text (map padded ps) ≡ map (λ (p : Padded). p.field) ps
trim_text-all [] h = refl
trim_text-all (p ∷ ps) ((hb, ht, _, hu), rest) =
    rw (trim_text-padded p.before p.field p.behind hb ht hu, trim_text-all ps rest) refl

-- Of at least one field, written with commas between them and any white space around each, the
-- field paths are exactly these fields in their order, without the white space. A field has no
-- comma, and its first and last characters are not white; it may be empty.
pub field_paths-padded :
    (p : Padded) (ps : List Padded)
    → ArePadded (p ∷ ps)
    → field_paths (with_commas (map padded (p ∷ ps))) ≡ map (λ (q : Padded). q.field) (p ∷ ps)
unfolding field_paths
field_paths-padded p ps h =
    ap (map trim_text) (split-with_commas (padded p) (map padded ps) (padded-NoCommas (p ∷ ps) h))
    ∙ trim_text-all (p ∷ ps) h
