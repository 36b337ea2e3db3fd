-- ===== src/Tabs/Activation.antt =====
-- What activating a tab leaves.
use neural_vyuha_prime.Common.{
  ℕ, String, true, none, some, [], ◌∷◌, ◌≡◌, refl, arith, eq_iff, ok, Option-cases, inl, inr,
}
use neural_vyuha_prime.Tabs.{
  Tab, CaseTabs, find_tab, index_of, all_inactive, set_active, activate_tab,
}
use neural_vyuha_prime.Tabs.Lookup.{
  Tabs, HasDetails, IsValid, count_active, name_at, count-set_active, find-set_active,
  name-index_of, find-all_inactive, find-all_inactive-some,
}

pub activate_tab-known :
    (name : String) (s : CaseTabs) (u : Tab)
    → find_tab name s.tabs ≡ some u
    → activate_tab name s
      ≡ ok (record {
        tabs = set_active name (all_inactive s.tabs);
        active_index = index_of name (all_inactive s.tabs);
      })
unfolding activate_tab
activate_tab-known name s u found = rw (find-all_inactive-some name s.tabs u found, activate_tab)

find-details : (ts : Tabs) → HasDetails ts → (u : Tab) × (find_tab "details" ts ≡ some u)
find-details [] h = absurd h
find-details ((k, t) ∷ ts) h = (t, ground (arith, eq_iff k "details"))

pub activate_tab-unknown :
    (name : String) (s : CaseTabs)
    → IsValid s
    → find_tab name s.tabs ≡ none
    → activate_tab name s
      ≡ ok (record { tabs = set_active "details" (all_inactive s.tabs); active_index = 0 })
unfolding activate_tab
activate_tab-unknown name s h missing =
    let (u, first) = find-details s.tabs h in
    rw (
      find-all_inactive name s.tabs missing,
      find-all_inactive-some "details" s.tabs u first,
      activate_tab,
    )

-- The tab that is asked for, or "details" where it is unknown.
abbrev pub chosen : String → CaseTabs → String
chosen name s = elim (find_tab name s.tabs) [ none ↦ "details" | some t ↦ name ]

-- One tab is active, and it is the one that the index points at.
pub record IsActive (name : String) (s : CaseTabs) : Type 0 where
  pub one : count_active s.tabs ≡ 1
  pub here : (t : Tab) × (find_tab name s.tabs ≡ some t) × (t.active ≡ true)
  pub index : name_at s.active_index s.tabs ≡ some name

set_active-IsActive :
    (name : String) (ts : Tabs) (u : Tab) (i : ℕ)
    → find_tab name ts ≡ some u
    → name_at i (set_active name (all_inactive ts)) ≡ some name
    → IsActive name (record { tabs = set_active name (all_inactive ts); active_index = i })
set_active-IsActive name ts u i found at =
    let off = find-all_inactive-some name ts u found in
    record {
      one = count-set_active name ts (rw off (λ e. cc));
      here = (_, find-set_active name (all_inactive ts) _ off, refl);
      index = at;
    }

name-zero :
    (ts : Tabs)
    → HasDetails ts
    → name_at 0 (set_active "details" (all_inactive ts)) ≡ some "details"
name-zero [] h = absurd h
name-zero ((k, t) ∷ ts) h = ground (arith, eq_iff k "details")

-- From a valid state `activateTab` returns, and then exactly one tab is active: the one that was
-- asked for, or "details" where it is unknown; and the active index is its position.
pub activate_tab-IsActive :
    (name : String) (s : CaseTabs)
    → IsValid s
    → (t : CaseTabs) × (activate_tab name s ≡ ok t) × IsActive (chosen name s) t
activate_tab-IsActive name s h = elim (Option-cases (find_tab name s.tabs)) [
  | inl missing ↦
      let (u, first) = find-details s.tabs h in
      (
        _,
        activate_tab-unknown name s h missing,
        rw (missing, chosen) (set_active-IsActive "details" s.tabs u 0 first (name-zero s.tabs h)),
      )
  | inr (u, found) ↦ (
    _,
    activate_tab-known name s u found,
    rw (found, chosen)
        (set_active-IsActive name s.tabs u _ found (
          name-index_of name (all_inactive s.tabs)
            (rw (find-all_inactive-some name s.tabs u found) (λ e. cc)))),
  )
]
