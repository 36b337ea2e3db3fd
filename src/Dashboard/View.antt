-- ===== src/Dashboard/View.antt =====
-- nv-ui/app/scripts/controllers/dashboard/DashboardViewCtrl.js: the rows and widgets of a dashboard,
-- its period and its automatic refresh.
use neural_vyuha_prime.Common.{
  ℕ, zero, suc, String, Bool, true, false, not, ◌&&◌, ◌||◌, Option, none, some, List, [], ◌∷◌,
  filter, any, ◌==◌, eqb, if◌then◌else◌, Result, ok, type_error, ◌>>=◌, Number,
}
use neural_vyuha_prime.Query.{Scalar}
use neural_vyuha_prime.Query.Builder.{Engine}
use neural_vyuha_prime.Filtering.{erase_idx}
use neural_vyuha_prime.Dashboard.{PeriodQuery, build_period_query}

pub record Widget : Type 0 where
  pub id : String
  pub type : String
  pub entity : String

-- `items` of the definition: the rows, each with its widgets. `custom_period` is missing where none
-- was ever chosen.
pub record Definition : Type 0 where
  pub period : String
  pub custom_period : Option (Option Scalar × Option Scalar)
  pub items : List (List Widget)

-- `refresher` is the last interval that was started, `running` those that run.
pub record View : Type 0 where
  pub definition : Definition
  pub period_filter : Option PeriodQuery
  pub edit_layout : Bool
  pub created_by : String
  pub login : String
  pub status : String
  pub refresher : Option ℕ
  pub running : List ℕ

abbrev pub is_stream : Widget → Bool
is_stream w = w.type == "liveStream"

-- The last of the elements that pass a test, by its index.
abbrev pub last_index {ℓ} : {A : Type ℓ} → (A → Bool) → List A → Option ℕ
last_index p [] = none
last_index p (x ∷ xs) = elim (last_index p xs) [
  | some i ↦ some (suc i)
  | none ↦ if p x then some 0 else none
]

-- The search of `toggleLiveStream`: each stream that is found replaces the one before.
abbrev pub find_stream : List (List Widget) → Option (ℕ × ℕ)
find_stream [] = none
find_stream (row ∷ rows) = elim (find_stream rows) [
  | some (i, j) ↦ some (suc i, j)
  | none ↦ elim (last_index is_stream row) [ none ↦ none | some j ↦ some (0, j) ]
]

-- A change of the i-th element in place.
abbrev pub change_at {ℓ} : {A : Type ℓ} → ℕ → (A → A) → List A → List A
change_at i f [] = []
change_at zero f (x ∷ xs) = f x ∷ xs
change_at (suc i) f (x ∷ xs) = x ∷ change_at i f xs

abbrev pub live_stream : String → Widget
live_stream id = record { id = id; type = "liveStream"; entity = "" }

abbrev pub add_stream : String → List (List Widget) → List (List Widget)
add_stream id [] = (live_stream id ∷ []) ∷ []
add_stream id (row ∷ rows) = (live_stream id ∷ row) ∷ rows

abbrev pub toggle_items : String → List (List Widget) → List (List Widget)
toggle_items id rows = elim (find_stream rows) [
  | some (i, j) ↦ change_at i (erase_idx j) rows
  | none ↦ add_stream id rows
]

abbrev pub with_items : List (List Widget) → View → View
with_items rows v = record v { definition = record (v.definition) { items = rows } }

-- `UtilsSrv.guid()` gives `id`.
unfoldable pub toggle_live_stream : String → View → View
toggle_live_stream id v = with_items (toggle_items id v.definition.items) v

abbrev pub is_filled : List Widget → Bool
is_filled [] = false
is_filled (w ∷ row) = true

unfoldable pub can_edit_dashboard : View → Bool
can_edit_dashboard v = v.created_by == v.login || v.status == "Shared"

-- Whether the page starts in edit mode: it does where no row has a widget and the user may edit.
unfoldable pub starts_in_edit_mode : View → Bool
unfolding can_edit_dashboard
starts_in_edit_mode v = not (any is_filled v.definition.items) && can_edit_dashboard v

abbrev pub row_at : ℕ → List (List Widget) → Option (List Widget)
row_at i [] = none
row_at zero (row ∷ rows) = some row
row_at (suc i) (row ∷ rows) = row_at i rows

-- `removeContainer` and `removeItem`, with the answer to the question; an empty row goes without one.
-- A row that is not there has no items to read.
unfoldable pub remove_container : Bool → ℕ → View → Result View
remove_container confirmed i v = elim (row_at i v.definition.items) [
  | none ↦ type_error
  | some row ↦
      if not (is_filled row) || confirmed
      then ok (with_items (erase_idx i v.definition.items) v)
      else ok v
]

unfoldable pub remove_item : Bool → ℕ → ℕ → View → Result View
remove_item confirmed i j v =
    if confirmed
    then elim (row_at i v.definition.items) [
      | none ↦ type_error
      | some row ↦ ok (with_items (change_at i (erase_idx j) v.definition.items) v)
    ]
    else ok v

-- The period filter of the page.
module _ (e : Engine) (moment : Scalar → Number) (today : Number) where
  unfoldable pub build_dashboard_period_filter : String → Definition → Result (Option PeriodQuery)
  unfolding build_period_query
  build_dashboard_period_filter period d =
      if period == "custom"
      then (elim d.custom_period [
        | none ↦ type_error
        | some (from, to) ↦ build_period_query e moment today period "createdAt" from to
      ])
      else build_period_query e moment today period "createdAt" none none

  -- `loadDashboard`, with the parsed definition. The charts are not told.
  unfoldable pub load_dashboard : Option Definition → View → Result View
  unfolding build_dashboard_period_filter
  load_dashboard parsed v =
      let d = definition_or_default parsed in
      build_dashboard_period_filter d.period d >>= λ p.
      ok (record v { definition = d; period_filter = p })
    where
      definition_or_default : Option Definition → Definition
      definition_or_default (some d) = d
      definition_or_default none = record { period = "all"; custom_period = none; items = [] ∷ [] }

  -- `applyPeriod`, with the filter that the charts are told.
  unfoldable pub apply_period : String → View → Result (View × Option PeriodQuery)
  unfolding build_dashboard_period_filter
  apply_period period v =
      let d = record (v.definition) { period = period } in
      build_dashboard_period_filter period d >>= λ p.
      ok (record v { definition = d; period_filter = p }, p)

-- The watch of `autoRefresh`: `value` is the chosen number of seconds, `id` the new interval.
unfoldable pub cancel_refresh : View → View
cancel_refresh v = elim v.refresher [
  | none ↦ v
  | some i ↦ record v { running = filter (λ j. not (eqb j i)) v.running }
]

abbrev pub is_none {ℓ} : {A : Type ℓ} → Option A → Bool
is_none none = true
is_none (some a) = false

unfoldable pub on_auto_refresh : ℕ → Option ℕ → View → View
unfolding cancel_refresh
on_auto_refresh id value v =
    if (is_none value && is_none v.refresher) || v.edit_layout
    then v
    else elim value [ none ↦ cancel_refresh v | some seconds ↦ start id (cancel_refresh v) ]
  where
    start : ℕ → View → View
    start id v = record v { refresher = some id; running = id ∷ v.running }

unfoldable pub enable_edit_mode : View → View
enable_edit_mode v = record v { edit_layout = true }

-- The answer to `update` and `get`: the page goes back to view mode.
unfoldable pub on_saved : View → View
on_saved v = record v { edit_layout = false }
