-- ===== src/Query/Dates.antt =====
-- The date filter of QueryBuilderSrv.js.
use neural_vyuha_prime.Common.{
  String, Bool, true, false, ◌&&◌, Option, none, ◌==◌, ◌≡◌, refl, ◌↔◌, ◌≢◌, arith, if◌then◌else◌,
  ok, Number, eq_iff, ok-injective, ap, Bool-cases, inl, inr,
}
use neural_vyuha_prime.Query.{
  DateValue, missing, iso, date, FilterObject, null, object, lt, compares, key_of, or_default,
}
use neural_vyuha_prime.Query.Builder.{
  Engine, build_query_from_date_filter, range_query, date_bounds, custom_start, custom_end,
  empty_query,
}

-- A bound that the user left open.
abbrev pub is_open : DateValue → Bool
is_open missing = true
is_open (iso s) = s == ""
is_open (date t) = false

abbrev pub is_custom : FilterObject → Bool
is_custom o = or_default o.operator "custom" == "custom"

custom_start-none_iff :
    (e : Engine) (v : DateValue) → (custom_start e v ≡ none) ↔ (is_open v ≡ true)
unfolding custom_start
custom_start-none_iff e v = ground arith

custom_end-none_iff : (e : Engine) (v : DateValue) → (custom_end e v ≡ none) ↔ (is_open v ≡ true)
unfolding custom_end
custom_end-none_iff e v = ground arith

range_query-null_iff :
    (field : Option String) (a b : Option Number)
    → (range_query field a b ≡ compares lt (key_of field) null) ↔ ((a ≡ none) × (b ≡ none))
unfolding range_query
range_query-null_iff field a b = ground arith

-- The bounds of an object are open together in a custom range only.
bounds-none_iff :
    (e : Engine) (operator : String) (o : FilterObject)
    → ((date_bounds e operator (object o)).0 ≡ none)
        × ((date_bounds e operator (object o)).1 ≡ none)
      ↔ (((operator == "custom") && is_open o.from && is_open o.to) ≡ true)
unfolding date_bounds
bounds-none_iff e operator o = elim (Bool-cases (operator == "custom")) [
  | inl h ↦ rw h (ground (arith, custom_start-none_iff e o.from, custom_end-none_iff e o.to))
  | inr h ↦ rw h (ground arith)
]

date_filter-object :
    (e : Engine) (field type : Option String) (o : FilterObject)
    → let operator = or_default o.operator "custom" in
      let bounds = date_bounds e operator (object o) in
      build_query_from_date_filter e (record { field = field; type = type; value = object o }) ≡ (
        if operator == "empty"
        then ok (empty_query field)
        else ok (range_query field bounds.0 bounds.1))
unfolding build_query_from_date_filter
date_filter-object e field type o = refl

custom-ne-empty : (s : String) → (s == "empty") ≡ true → (s == "custom") ≡ false
custom-ne-empty s h = rw ((eq_iff s "empty").0 h)

empty_query-ne :
    (field : Option String) → ok (empty_query field) ≢ ok (compares lt (key_of field) null)
unfolding empty_query
empty_query-ne field h = cc

-- A date filter whose value is an object asks for what lies before `null` exactly if it is a custom
-- range with both bounds open.
pub date_filter-null_iff :
    (e : Engine) (field type : Option String) (o : FilterObject)
    → (build_query_from_date_filter e (record { field = field; type = type; value = object o })
        ≡ ok (compares lt (key_of field) null))
      ↔ ((is_custom o && is_open o.from && is_open o.to) ≡ true)
date_filter-null_iff e field type o =
    let operator = or_default o.operator "custom" in
    rw date_filter-object (elim (Bool-cases (operator == "empty")) [
      | inl h ↦ rw (h, custom-ne-empty operator h) (λ p. absurd (empty_query-ne field p), λ p. cc)
      | inr h ↦
          let to_null = range_query-null_iff field _ _ in
          let to_open = bounds-none_iff e operator o in
          rw h (λ p. to_open.0 (to_null.0 (ok-injective p)), λ p. ap ok (to_null.1 (to_open.1 p)))
    ])
