-- ===== src/Tabs.antt =====
-- nv-ui/app/scripts/services/ui/CaseTabsSrv.js: the tabs of a case. The object of tabs is a list of
-- its properties in their order, which is the order of insertion for names that are no numbers.
pub mod Lookup
pub mod Activation
pub mod Validity
mod Examples
use neural_vyuha_prime.Common.{
  ℕ, suc, String, Bool, true, false, not, Option, none, some, List, [], ◌∷◌, ◌++◌, ◌-◌, map, ◌==◌,
  if◌then◌else◌, Result, ok, type_error, length, filter,
}

pub record Tab : Type 0 where
  pub name : String
  pub active : Bool
  pub closable : Bool
  pub label : String
  pub state : String

pub record CaseTabs : Type 0 where
  pub tabs : List (String × Tab)
  pub active_index : ℕ

abbrev pub fixed_tab : String → Bool → String → String → String × Tab
fixed_tab name active label state =
    (name, record { name = name; active = active; closable = false; label = label; state = state })

abbrev pub initial : CaseTabs
initial = record {
  tabs =
      fixed_tab "details" true "Details" "app.case.details"
      ∷ fixed_tab "pages" false "Pages" "app.case.pages"
      ∷ fixed_tab "tasks" false "Tasks" "app.case.tasks"
      ∷ fixed_tab "observables" false "Observables" "app.case.observables"
      ∷ fixed_tab "procedures" false "TTPs" "app.case.procedures"
      ∷ fixed_tab "ai-investigation" false "AI Investigation" "app.case.ai-investigation"
      ∷ fixed_tab "ai-chat" false "AI Chat" "app.case.ai-chat"
      ∷ [];
  active_index = 0;
}

unfoldable pub init_tabs : CaseTabs → CaseTabs
init_tabs s = record s { tabs = filter (λ t. not t.1.closable) s.tabs }

unfoldable pub get_tabs : CaseTabs → List (String × Tab)
get_tabs s = s.tabs

abbrev pub find_tab : String → List (String × Tab) → Option Tab
find_tab name [] = none
find_tab name ((k, t) ∷ ts) = if k == name then some t else find_tab name ts

unfoldable pub get_tab : String → CaseTabs → Option Tab
get_tab name s = find_tab name s.tabs

-- `Object.keys(tabs).indexOf(name)` of a name that is there.
abbrev pub index_of : String → List (String × Tab) → ℕ
index_of name [] = 0
index_of name ((k, t) ∷ ts) = let rest = index_of name ts in if k == name then 0 else suc rest

abbrev pub all_inactive : List (String × Tab) → List (String × Tab)
all_inactive [] = []
all_inactive ((k, t) ∷ ts) = (k, record t { active = false }) ∷ all_inactive ts

abbrev pub set_active : String → List (String × Tab) → List (String × Tab)
set_active name [] = []
set_active name ((k, t) ∷ ts) =
    if k == name then (k, record t { active = true }) ∷ ts else (k, t) ∷ set_active name ts

-- Where the tab is unknown, "details" is activated; without it the assignment throws.
unfoldable pub activate_tab : String → CaseTabs → Result CaseTabs
activate_tab name s =
    let ts = all_inactive s.tabs in
    elim (find_tab name ts) [
      | some t ↦ ok (record { tabs = set_active name ts; active_index = index_of name ts })
      | none ↦ elim (find_tab "details" ts) [
        | some t ↦ ok (record { tabs = set_active "details" ts; active_index = 0 })
        | none ↦ type_error
      ]
    ]

-- An assignment to a property: in its place if it is there, at the end if it is new.
abbrev pub put_tab : String → Tab → List (String × Tab) → List (String × Tab)
put_tab name t [] = (name, t) ∷ []
put_tab name t ((k, u) ∷ ts) = if k == name then (k, t) ∷ ts else (k, u) ∷ put_tab name t ts

unfoldable pub add_tab : String → Tab → CaseTabs → CaseTabs
add_tab name options s =
    let ts = put_tab name (record options { closable = true }) s.tabs in
    record { tabs = ts; active_index = length ts - 1 }

-- The result is that of the source: nothing where the tab is unknown, and else whether it was
-- active.
unfoldable pub remove_tab : String → CaseTabs → CaseTabs × Option Bool
remove_tab name s = elim (find_tab name s.tabs) [
  | none ↦ (s, none)
  | some t ↦ (record s { tabs = filter (λ u. not (u.0 == name)) s.tabs }, some t.active)
]
