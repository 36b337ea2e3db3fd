-- ===== src/Query/Builder.antt =====
-- nv-ui/app/scripts/services/common/QueryBuilderSrv.js, and `getDateRange` of UtilsSrv.js in the
-- same folder. What the browser and moment.js compute with dates is the parameter `Engine`.
use neural_vyuha_prime.Common.{
  ℕ, String, Option, none, some, List, [], ◌∷◌, map, ◌==◌, ltb, if◌then◌else◌, length, Result, ok,
  type_error, Number,
}
use neural_vyuha_prime.Query.{
  Scalar, number, Item, DateValue, missing, iso, date, Value, undefined, null, scalar, object,
  Filter, lt, lte, gt, gte, Query, field_is, keyed, compares, contains, like, between, negation,
  conjunction, disjunction, Queries, of_list, is_truthy, or_default, key_of,
}

pub data DateUnit : Type 0 where
  days months years : DateUnit

-- Dates by their time in milliseconds: `new Date(s).getTime()`, `d.setHours(23, 59, 59, 999)`,
-- moment's clock, `subtract`, and the first and last second of a day; `show` is the engine's
-- conversion of a value to text.
pub record Engine : Type 0 where
  pub parse : String → Number
  pub last_ms_of_day : Number → Number
  pub now : Number
  pub subtract : Number → ℕ → DateUnit → Number
  pub first_second : Number → Number
  pub last_second : Number → Number
  pub show : Value → String

-- `getDateRange`: where the range starts, before it is moved to the first second of that day.
range_start : Engine → String → Number
range_start e operator =
    if operator == "last7days"
    then e.subtract e.now 7 days
    else if operator == "last30days"
    then e.subtract e.now 30 days
    else if operator == "last3months"
    then e.subtract e.now 3 months
    else if operator == "last6months"
    then e.subtract e.now 6 months
    else if operator == "lastyear"
    then e.subtract e.now 1 years
    else e.now

unfoldable pub get_date_range : Engine → String → Number × Number
unfolding range_start
get_date_range e operator = (e.first_second (range_start e operator), e.last_second e.now)

-- `filter.value.operator` of a truthy value, with its default.
abbrev pub operator_of : Value → String → String
operator_of (object o) d = or_default o.operator d
operator_of _ d = d

-- `_.pluck(filter.value.list, 'text')`; a list that is missing is empty.
abbrev pub texts_of : Option (List Item) → List Scalar
texts_of none = []
texts_of (some items) = map (λ (i : Item). i.text) items

abbrev pub texts : Value → List Scalar
texts (object o) = texts_of o.list
texts _ = []

abbrev pub number_value : Value → Value
number_value (object o) = elim o.value [ none ↦ undefined | some v ↦ scalar v ]
number_value _ = undefined

unfoldable pub empty_query : Option String → Query
empty_query field = negation (contains field)

-- One criterion stands for itself, several are joined.
unfoldable pub join : (Queries → Query) → List Query → Query
join op (q ∷ []) = q
join op qs = op (of_list qs)

-- The `switch (operator)` of the three list builders.
unfoldable pub combine : String → List Query → Query
unfolding join
combine operator qs =
    if operator == "all"
    then join conjunction qs
    else if operator == "none"
    then negation (join disjunction qs)
    else join disjunction qs

-- What the three list builders share; `criterion` is the criterion for one selected value.
unfoldable pub build_listed : (Option String → Scalar → Query) → Filter → Option Query
unfolding empty_query combine
build_listed criterion f =
    if is_truthy f.value
    then (if operator_of f.value "any" == "empty"
        then some (empty_query f.field)
        else if ltb 0 (length (texts f.value))
        then some (combine (operator_of f.value "any") (map (criterion f.field) (texts f.value)))
        else none)
    else none

abbrev pub field_criterion : Option String → Scalar → Query
field_criterion f v = field_is f (scalar v)

unfoldable pub build_query_from_list_filter : Filter → Option Query
unfolding build_listed
build_query_from_list_filter = build_listed field_criterion

unfoldable pub build_query_from_tags_filter : Filter → Option Query
unfolding build_listed
build_query_from_tags_filter = build_listed like

unfoldable pub build_query_from_free_text_filter : Filter → Option Query
unfolding build_listed
build_query_from_free_text_filter = build_listed like

unfoldable pub build_query_from_boolean_filter : Filter → Option Query
build_query_from_boolean_filter f = elim f.value [
  | null ↦ none
  | undefined ↦ some (field_is f.field undefined)
  | scalar s ↦ some (field_is f.field (scalar s))
  | object o ↦ some (field_is f.field (object o))
]

unfoldable pub number_criterion : String → Option String → Value → Query
number_criterion operator field v =
    if operator == "<"
    then compares lt (key_of field) v
    else if operator == "<="
    then compares lte (key_of field) v
    else if operator == ">"
    then compares gt (key_of field) v
    else if operator == ">="
    then compares gte (key_of field) v
    else if operator == "!="
    then negation (keyed (key_of field) v)
    else field_is field v

unfoldable pub build_query_from_number_filter : Filter → Option Query
unfolding empty_query number_criterion
build_query_from_number_filter f =
    if is_truthy f.value
    then (if operator_of f.value "eq" == "empty"
        then some (empty_query f.field)
        else some (number_criterion (operator_of f.value "eq") f.field (number_value f.value)))
    else none

-- The start and the end of a custom range; the empty text is no bound.
unfoldable pub custom_start : Engine → DateValue → Option Number
custom_start e missing = none
custom_start e (iso s) = if s == "" then none else some (e.parse s)
custom_start e (date t) = some t

unfoldable pub custom_end : Engine → DateValue → Option Number
custom_end e missing = none
custom_end e (iso s) = if s == "" then none else some (e.last_ms_of_day (e.parse s))
custom_end e (date t) = some (e.last_ms_of_day t)

-- The last `if` of the date builder: a missing end is written as `null`.
unfoldable pub range_query : Option String → Option Number → Option Number → Query
range_query field (some a) (some b) = between field a b
range_query field (some a) none = compares gt (key_of field) (scalar (number a))
range_query field none (some b) = compares lt (key_of field) (scalar (number b))
range_query field none none = compares lt (key_of field) null

-- The bounds of a value that is an object, and of one that is not.
unfoldable pub custom_bounds : Engine → Value → Option Number × Option Number
unfolding custom_start custom_end
custom_bounds e (object o) = (custom_start e o.from, custom_end e o.to)
custom_bounds e _ = (none, none)

unfoldable pub date_bounds : Engine → String → Value → Option Number × Option Number
unfolding custom_bounds get_date_range
date_bounds e operator v =
    let range = get_date_range e operator in
    if operator == "custom" then custom_bounds e v else (some range.0, some range.1)

-- Reading `operator` of `null` or `undefined` throws.
unfoldable pub build_query_from_date_filter : Engine → Filter → Result Query
unfolding empty_query date_bounds range_query
build_query_from_date_filter e f = elim f.value [
  | undefined ↦ type_error
  | null ↦ type_error
  | v ↦
      let operator = operator_of v "custom" in
      let bounds = date_bounds e operator v in
      if operator == "empty"
      then ok (empty_query f.field)
      else ok (range_query f.field bounds.0 bounds.1)
]
