-- ===== src/Ingestion/Forms.antt =====
-- The forms of nvIngestionControlController.js: the fingerprint of a source, the correlation rules,
-- and the text of the uptime. A text is the list of the codes of its characters.
pub mod Fields
use neural_vyuha_prime.Common.{
  ℕ, zero, suc, String, Bool, true, false, not, ◌&&◌, ◌||◌, Option, none, some, List, [], ◌∷◌, map,
  eqb, leb, ltb, ◌+◌, ◌*◌, ◌/◌, ◌%◌, ◌<◌, ◌≡◌, arith, Bool-cases, inl, inr, ltb→lt, if◌then◌else◌,
  ℤ, pos, negsuc, Number, nan, whole,
}

abbrev pub Text : Type 0
Text = List ℕ

-- What `trim` takes away: the white space and the line ends of the language.
abbrev pub is_white : ℕ → Bool
is_white c =
    (leb 9 c && leb c 13)
    || eqb c 32
    || eqb c 160
    || eqb c 5760
    || (leb 8192 c && leb c 8202)
    || eqb c 8232
    || eqb c 8233
    || eqb c 8239
    || eqb c 8287
    || eqb c 12288
    || eqb c 65279

module _ (is_blank : ℕ → Bool) where
  abbrev pub trim_text_start : Text → Text
  trim_text_start [] = []
  trim_text_start (c ∷ cs) = if is_blank c then trim_text_start cs else c ∷ cs

  abbrev pub push_unless_blank : ℕ → Text → Text
  push_unless_blank c [] = if is_blank c then [] else c ∷ []
  push_unless_blank c (d ∷ ds) = c ∷ d ∷ ds

  abbrev pub trim_text_end : Text → Text
  trim_text_end [] = []
  trim_text_end (c ∷ cs) = push_unless_blank c (trim_text_end cs)

  abbrev pub trim_by : Text → Text
  trim_by cs = trim_text_end (trim_text_start cs)

-- `trim()`
abbrev pub trim_text : Text → Text
trim_text cs = trim_by is_white cs

abbrev pub comma : ℕ
comma = 44

abbrev pub put_first : ℕ → List Text → List Text
put_first c [] = (c ∷ []) ∷ []
put_first c (t ∷ ts) = (c ∷ t) ∷ ts

-- `split(',')`: at least one part.
abbrev pub split : Text → List Text
split [] = [] ∷ []
split (c ∷ cs) = if eqb c comma then [] ∷ split cs else put_first c (split cs)

-- `fields_str.split(',')` with `trim` of each part
unfoldable pub field_paths : Text → List Text
field_paths s = map trim_text (split s)

pub record DedupForm : Type 0 where
  pub source : Text
  pub fields_str : Text
  pub window : Option ℕ

pub record DedupConfig : Type 0 where
  pub source : Text
  pub field_paths : List Text
  pub window_seconds : ℕ

abbrev pub is_filled : Text → Bool
is_filled [] = false
is_filled (c ∷ cs) = true

-- A number of a form, or the default where it is missing or zero.
abbrev pub given_or : Option ℕ → ℕ → ℕ
given_or none d = d
given_or (some n) d = if eqb n 0 then d else n

-- `addDedupConfig`, up to its request: `none` where the form is refused. `lower` is `toLowerCase`.
unfoldable pub add_dedup_config : (Text → Text) → DedupForm → Option DedupConfig
unfolding field_paths
add_dedup_config lower form =
    if is_filled form.source && is_filled form.fields_str
    then some (record {
      source = lower form.source;
      field_paths = field_paths form.fields_str;
      window_seconds = given_or form.window 3600;
    })
    else none

abbrev pub new_dedup : DedupForm
new_dedup = record { source = []; fields_str = []; window = some 3600 }

pub record CorrelationForm : Type 0 where
  pub name : Text
  pub description : Text
  pub source_a : Text
  pub source_b : Text
  pub match_field : Text
  pub time_window : Number
  pub min_count_a : Number
  pub min_count_b : Number
  pub action_type : Text
  pub severity_override : Number
  pub mitre_tactic : Text

pub record CorrelationRule : Type 0 where
  pub name : Text
  pub description : Text
  pub source_a : Text
  pub source_b : Text
  pub match_field : Text
  pub time_window : ℤ
  pub min_count_a : ℤ
  pub min_count_b : ℤ
  pub action_type : Option Text
  pub severity_override : ℤ
  pub mitre_tactic : Option Text

-- `parseInt(entry) || d`, of what `parseInt` gives.
abbrev pub number_or : Number → ℕ → ℤ
number_or nan d = pos d
number_or (whole (pos zero)) d = pos d
number_or (whole z) d = z

-- `entry || 'CREATE_CASE'`, `entry || 'Unknown'`: `none` stands for that text.
abbrev pub text_or : Text → Option Text
text_or [] = none
text_or (c ∷ cs) = some (c ∷ cs)

-- `addCorrelationRule`, up to its request.
unfoldable pub add_correlation_rule : (Text → Text) → CorrelationForm → Option CorrelationRule
add_correlation_rule lower form =
    if is_filled form.name
      && is_filled form.source_a
      && is_filled form.source_b
      && is_filled form.match_field
    then some (record {
      name = form.name;
      description = form.description;
      source_a = lower form.source_a;
      source_b = lower form.source_b;
      match_field = form.match_field;
      time_window = number_or form.time_window 300;
      min_count_a = number_or form.min_count_a 1;
      min_count_b = number_or form.min_count_b 1;
      action_type = text_or form.action_type;
      severity_override = number_or form.severity_override 3;
      mitre_tactic = text_or form.mitre_tactic;
    })
    else none

-- The two shapes of the text of an uptime: `7m` and `2h 7m`.
pub data Uptime : Type 0 where
  in_minutes : ℕ → Uptime
  in_hours : ℕ → ℕ → Uptime

unfoldable pub format_uptime : ℕ → Uptime
format_uptime seconds =
    if eqb seconds 0
    then in_minutes 0
    else let h = seconds / 3600 in
      let m = seconds % 3600 / 60 in if ltb 0 h then in_hours h m else in_minutes m

abbrev pub minutes_of : Uptime → ℕ
minutes_of (in_minutes m) = m
minutes_of (in_hours h m) = h * 60 + m

-- It is as the clock has it: less than sixty minutes beside hours, of which there is one at least.
abbrev pub IsClock : Uptime → Type 0
IsClock (in_minutes m) = m < 60
IsClock (in_hours h m) = (0 < h) × (m < 60)

-- The text of an uptime says its whole minutes, as a clock does.
pub format_uptime_lem :
    (seconds : ℕ)
    → (minutes_of (format_uptime seconds) ≡ seconds / 60) × IsClock (format_uptime seconds)
unfolding format_uptime
format_uptime_lem seconds = elim (Bool-cases (eqb seconds 0)) [
  | inl no_time ↦ let e : seconds ≡ 0 = ground arith in rw no_time (omega arith, omega arith)
  | inr some_time ↦ elim (Bool-cases (ltb 0 (seconds / 3600))) [
    | inl long ↦ rw (some_time, long) (omega arith, (ltb→lt _ _ long, omega arith))
    | inr short ↦ rw (some_time, short) (ground arith, ground arith)
  ]
]
