-- ===== src/Tabs/Lookup.antt =====
-- Properties of the object of tabs: names and the number of active tabs.
use neural_vyuha_prime.Common.{
  ℕ, suc, String, true, false, Option, none, some, List, [], ◌∷◌, ◌≡◌, ◌≢◌, refl, arith, eq_iff,
  length, filter,
}
use neural_vyuha_prime.Tabs.{Tab, CaseTabs, find_tab, index_of, all_inactive, set_active}

abbrev pub Tabs : Type 0
Tabs = List (String × Tab)

-- The first property is "details", and its tab is not closable.
abbrev pub HasDetails : Tabs → Type 0
HasDetails [] = ⊥
HasDetails ((k, t) ∷ ts) = (k ≡ "details") × (t.closable ≡ false)

abbrev pub IsValid : CaseTabs → Type 0
IsValid s = HasDetails s.tabs

abbrev pub count_active : Tabs → ℕ
count_active ts = length (filter (λ t. t.1.active) ts)

abbrev pub name_at : ℕ → Tabs → Option String
name_at i [] = none
name_at ℕ.zero ((k, t) ∷ ts) = some k
name_at (suc i) ((k, t) ∷ ts) = name_at i ts

pub count-all_inactive : (ts : Tabs) → count_active (all_inactive ts) ≡ 0
count-all_inactive [] = refl
count-all_inactive ((k, t) ∷ ts) = count-all_inactive ts

pub count-set_active :
    (name : String) (ts : Tabs)
    → find_tab name (all_inactive ts) ≢ none
    → count_active (set_active name (all_inactive ts)) ≡ 1
count-set_active name [] h = absurd (h refl)
count-set_active name ((k, t) ∷ ts) h =
    ground (arith, count-all_inactive ts, count-set_active name ts)

pub find-set_active :
    (name : String) (ts : Tabs) (t : Tab)
    → find_tab name ts ≡ some t
    → find_tab name (set_active name ts) ≡ some (record t { active = true })
find-set_active name [] t h = cc
find-set_active name ((k, u) ∷ ts) t h = ground (arith, find-set_active name ts t)

pub name-index_of :
    (name : String) (ts : Tabs)
    → find_tab name ts ≢ none
    → name_at (index_of name ts) (set_active name ts) ≡ some name
name-index_of name [] h = absurd (h refl)
name-index_of name ((k, t) ∷ ts) h = ground (arith, eq_iff k name, name-index_of name ts)

pub find-all_inactive :
    (name : String) (ts : Tabs) → find_tab name ts ≡ none → find_tab name (all_inactive ts) ≡ none
find-all_inactive name [] h = refl
find-all_inactive name ((k, t) ∷ ts) h = ground (arith, find-all_inactive name ts)

pub find-all_inactive-some :
    (name : String) (ts : Tabs) (t : Tab)
    → find_tab name ts ≡ some t
    → find_tab name (all_inactive ts) ≡ some (record t { active = false })
find-all_inactive-some name [] t h = cc
find-all_inactive-some name ((k, u) ∷ ts) t h = ground (arith, find-all_inactive-some name ts t)
