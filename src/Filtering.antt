-- ===== src/Filtering.antt =====
-- nv-ui/app/scripts/services/common/ui/FilteringSrv.js: the filters, sort and display options of a
-- list page, kept in the browser's local storage.
--
-- The array of default filters is an object that the context may share: `shared` is that array, and
-- `own` one that belongs to the context. The contents are `none` where the source has `{}` in place
-- of an array, as it does when no default filter is configured.
pub mod Values
pub mod Sharing
pub mod Storage
pub mod Adding
pub mod Examples
use neural_vyuha_prime.Common.{
  ℕ, zero, suc, String, Bool, true, false, not, ◌&&◌, Option, none, some, List, [], ◌∷◌, ◌++◌, ◌==◌,
  if◌then◌else◌, Result, ok, type_error, ◌>>=◌, filter, eqb, length, map, Number, nan, whole, ℤ,
}
use neural_vyuha_prime.Query.{
  Filter, FieldDef, Fields, Query, Value, undefined, null, object, scalar, missing, iso, date,
  is_text, Scalar, boolean, number, text, DateValue,
}
use neural_vyuha_prime.Query.Builder.{Engine}
use neural_vyuha_prime.Query.Dispatch.{build_filters_query}

pub data FilterArray : Type 0 where
  shared : FilterArray
  own : Option (List Filter) → FilterArray

-- `show_advanced` is absent from a context that was reset.
pub record Context : Type 0 where
  pub state : String
  pub show_filters : Bool
  pub show_stats : Bool
  pub show_advanced : Option Bool
  pub page_size : ℕ
  pub sort : List String
  pub filters : FilterArray

-- What is handed to local storage of a context: its fields and the filters as they are then. It is
-- written there as JSON; `init_context` is the only one that reads it, and `json_filter` is what
-- becomes of a filter on this way.
pub record Snapshot : Type 0 where
  pub state : String
  pub show_filters : Bool
  pub show_stats : Bool
  pub show_advanced : Option Bool
  pub page_size : ℕ
  pub sort : List String
  pub filters : Option (List Filter)

pub record Defaults : Type 0 where
  pub show_filters : Bool
  pub show_stats : Bool
  pub page_size : Option ℕ
  pub sort : List String

pub record Filtering : Type 0 where
  pub state : String
  pub defaults : Defaults
  pub default_filter : Option (List Filter)
  pub attributes : List (String × FieldDef)
  pub context : Context
  pub stored : Option Snapshot

abbrev pub lookup : {A : Type 0} → List (String × A) → String → Option A
lookup [] k = none
lookup ((j, a) ∷ m) k = if j == k then some a else lookup m k

abbrev pub fields_of : Filtering → Fields
fields_of s = lookup s.attributes

-- The filters that the context shows.
unfoldable pub contents : Filtering → Option (List Filter)
contents s = elim s.context.filters [ shared ↦ s.default_filter | own xs ↦ xs ]

-- A change of the array in place: it reaches whoever shares the array.
unfoldable pub write : List Filter → Filtering → Filtering
write xs s = elim s.context.filters [
  | shared ↦ record s { default_filter = some xs }
  | own old ↦ record s { context = record (s.context) { filters = own (some xs) } }
]

-- A method of the array; `{}` has none.
unfoldable pub change : (List Filter → List Filter) → Filtering → Result Filtering
unfolding contents write
change f s = elim (contents s) [ none ↦ type_error | some xs ↦ ok (write (f xs) s) ]

unfoldable pub snapshot : Filtering → Snapshot
unfolding contents
snapshot s = record {
  state = s.context.state;
  show_filters = s.context.show_filters;
  show_stats = s.context.show_stats;
  show_advanced = s.context.show_advanced;
  page_size = s.context.page_size;
  sort = s.context.sort;
  filters = contents s;
}

unfoldable pub store_context : Filtering → Filtering
unfolding snapshot
store_context s = record s { stored = some (snapshot s) }

-- JSON has no dates and no NaN: a Date becomes the text that `to_iso` writes, an invalid one and NaN
-- become null, and what is undefined is left out. The items of a list hold no NaN.
abbrev pub json_date : (ℤ → String) → DateValue → DateValue
json_date to_iso missing = missing
json_date to_iso (iso t) = iso t
json_date to_iso (date nan) = missing
json_date to_iso (date (whole n)) = iso (to_iso n)

abbrev pub json_scalar : Scalar → Option Scalar
json_scalar (boolean b) = some (boolean b)
json_scalar (number nan) = none
json_scalar (number (whole n)) = some (number (whole n))
json_scalar (text t) = some (text t)

abbrev pub json_field : Option Scalar → Option Scalar
json_field none = none
json_field (some v) = json_scalar v

abbrev pub json_value : (ℤ → String) → Value → Value
json_value to_iso undefined = undefined
json_value to_iso null = null
json_value to_iso (scalar v) = elim (json_scalar v) [ none ↦ null | some w ↦ scalar w ]
json_value to_iso (object o) = object (record o {
  value = json_field o.value;
  from = json_date to_iso o.from;
  to = json_date to_iso o.to;
})

abbrev pub json_filter : (ℤ → String) → Filter → Filter
json_filter to_iso f = record f { value = json_value to_iso f.value }

abbrev pub json_filters : (ℤ → String) → Option (List Filter) → Option (List Filter)
json_filters to_iso none = none
json_filters to_iso (some fs) = some (map (json_filter to_iso) fs)

-- What is read of a context that was written.
abbrev pub restored : (ℤ → String) → Snapshot → Context
restored to_iso d = record {
  state = d.state;
  show_filters = d.show_filters;
  show_stats = d.show_stats;
  show_advanced = d.show_advanced;
  page_size = d.page_size;
  sort = d.sort;
  filters = own (json_filters to_iso d.filters);
}

abbrev pub default_page_size : Defaults → ℕ
default_page_size d = elim d.page_size [ none ↦ 15 | some n ↦ if eqb n 0 then 15 else n ]

abbrev pub default_context : Option Bool → Filtering → Context
default_context advanced s = record {
  state = s.state;
  show_filters = s.defaults.show_filters;
  show_stats = s.defaults.show_stats;
  show_advanced = advanced;
  page_size = default_page_size s.defaults;
  sort = s.defaults.sort;
  filters = shared;
}

-- `delete self.attributes[exclude]` for each of the excluded names.
unfoldable pub without_excluded : List String → List (String × FieldDef) → List (String × FieldDef)
without_excluded [] m = m
without_excluded (e ∷ es) m = without_excluded es (filter (λ a. not (a.0 == e)) m)

-- Whether local storage has a context of this state; the empty text does not count as one.
unfoldable pub has_stored : String → Option Snapshot → Bool
has_stored state none = false
has_stored state (some d) = not (d.state == "") && d.state == state

-- `initContext`, with the attributes that the metadata has for the entity. A default for
-- `showAdvanced` is not read: `x || true` is true.
unfoldable pub init_context :
    (ℤ → String) → List (String × FieldDef) → List String → String → Filtering → Filtering
unfolding without_excluded has_stored store_context
init_context to_iso metadata excludes state s =
    let ready = record s { state = state; attributes = without_excluded excludes metadata } in
    elim s.stored [
      | none ↦ store_context (record ready { context = default_context (some true) ready })
      | some d ↦
          if has_stored state (some d)
          then record ready { context = restored to_iso d }
          else store_context (record ready { context = default_context (some true) ready })
    ]

unfoldable pub build_query : Engine → Filtering → Result Query
unfolding contents
build_query e s = elim (contents s) [
  | none ↦ build_filters_query e (fields_of s) []
  | some xs ↦ build_filters_query e (fields_of s) xs
]

unfoldable pub add_filter : Filter → Filtering → Result Filtering
unfolding change
add_filter f s = change (λ xs. xs ++ f ∷ []) s

unfoldable pub clear_filters : Filtering → Filtering
clear_filters s = record s { context = record (s.context) { filters = own (some []) } }

-- `splice(index, 1)`
abbrev pub erase_idx {ℓ} : {A : Type ℓ} → ℕ → List A → List A
erase_idx i [] = []
erase_idx zero (x ∷ xs) = xs
erase_idx (suc i) (x ∷ xs) = x ∷ erase_idx i xs

unfoldable pub remove_filter : ℕ → Filtering → Result Filtering
unfolding change
remove_filter i s = change (erase_idx i) s

-- `setFilterField`, as the filter that it leaves.
unfoldable pub set_filter_field : Filtering → Filter → Filter
set_filter_field s f = elim f.field [
  | none ↦ f
  | some k ↦ elim (fields_of s k) [
    | none ↦ f
    | some d ↦
        if d.type == "date"
        then record f {
          type = some d.type;
          value =
              object (record {
                operator = none;
                value = none;
                list = none;
                from = missing;
                to = missing;
              });
        }
        else record f { type = some d.type; value = null }
  ]
]

unfoldable pub count_sorts : Filtering → ℕ
count_sorts s = length s.context.sort

unfoldable pub toggle_stats : Filtering → Filtering
unfolding store_context
toggle_stats s =
    store_context
      (record s { context = record (s.context) { show_stats = not s.context.show_stats } })

unfoldable pub toggle_filters : Filtering → Filtering
unfolding store_context
toggle_filters s =
    store_context
      (record s { context = record (s.context) { show_filters = not s.context.show_filters } })

abbrev pub is_shown : Option Bool → Bool
is_shown none = false
is_shown (some b) = b

unfoldable pub toggle_advanced : Filtering → Filtering
unfolding store_context
toggle_advanced s = store_context (record s {
  context = record (s.context) { show_advanced = some (not (is_shown s.context.show_advanced)) };
})

unfoldable pub set_page_size : ℕ → Filtering → Filtering
unfolding store_context
set_page_size n s = store_context (record s { context = record (s.context) { page_size = n } })

unfoldable pub set_sort : List String → Filtering → Filtering
unfolding store_context
set_sort sorts s = store_context (record s { context = record (s.context) { sort = sorts } })

unfoldable pub reset_context : Filtering → Filtering
unfolding store_context
reset_context s = store_context (record s { context = default_context none s })
