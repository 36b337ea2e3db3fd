-- ===== src/Tabs/Validity.antt =====
-- The tab "details" stays the first tab, and stays one that is not closable.
use neural_vyuha_prime.Common.{
  String, not, [], ◌∷◌, ◌==◌, ◌≡◌, ◌≢◌, refl, arith, eq_iff, filter, Option-cases, inl, inr, Result,
  ok,
}
use neural_vyuha_prime.Tabs.{
  Tab, CaseTabs, find_tab, all_inactive, set_active, put_tab, init_tabs, activate_tab, add_tab,
  remove_tab,
}
use neural_vyuha_prime.Tabs.Lookup.{Tabs, HasDetails, IsValid}
use neural_vyuha_prime.Tabs.Activation.{activate_tab-known, activate_tab-unknown}

HasDetails-set_active :
    (name : String) (ts : Tabs) → HasDetails ts → HasDetails (set_active name (all_inactive ts))
HasDetails-set_active name [] h = h
HasDetails-set_active name ((k, t) ∷ ts) h = ground arith

HasDetails-put_tab :
    (name : String) (t : Tab) (ts : Tabs)
    → name ≢ "details"
    → HasDetails ts
    → HasDetails (put_tab name t ts)
HasDetails-put_tab name t [] n h = absurd h
HasDetails-put_tab name t ((k, u) ∷ ts) n h = ground (arith, eq_iff k name)

HasDetails-remove :
    (name : String) (ts : Tabs)
    → name ≢ "details"
    → HasDetails ts
    → HasDetails (filter (λ u. not (u.0 == name)) ts)
HasDetails-remove name [] n h = h
HasDetails-remove name ((k, t) ∷ ts) n h = ground (arith, eq_iff k name)

activate_tab-IsValid :
    (name : String) (s : CaseTabs)
    → IsValid s
    → (t : CaseTabs) × (activate_tab name s ≡ ok t) × IsValid t
activate_tab-IsValid name s h = elim (Option-cases (find_tab name s.tabs)) [
  | inl missing ↦
      (_, activate_tab-unknown name s h missing, HasDetails-set_active "details" s.tabs h)
  | inr (u, found) ↦ (_, activate_tab-known name s u found, HasDetails-set_active name s.tabs h)
]

pub remove_tab-IsValid :
    (name : String) (s : CaseTabs) → name ≢ "details" → IsValid s → IsValid (remove_tab name s).0
unfolding remove_tab
remove_tab-IsValid name s n h = elim (Option-cases (find_tab name s.tabs)) [
  | inl missing ↦ rw (missing, remove_tab) h
  | inr (u, found) ↦ rw (found, remove_tab) (HasDetails-remove name s.tabs n h)
]

HasDetails-init : (ts : Tabs) → HasDetails ts → HasDetails (filter (λ t. not t.1.closable) ts)
HasDetails-init [] h = h
HasDetails-init ((k, t) ∷ ts) h = ground arith

-- The calls that other parts of the client make.
pub data TabOp : Type 0 where
  init : TabOp
  activate : String → TabOp
  add : String → Tab → TabOp
  remove : String → TabOp

unfoldable pub step : TabOp → CaseTabs → Result CaseTabs
step init s = ok (init_tabs s)
step (activate name) s = activate_tab name s
step (add name t) s = ok (add_tab name t s)
step (remove name) s = ok (remove_tab name s).0

-- The call does not replace or remove the tab "details".
abbrev pub SparesDetails : TabOp → Type 0
SparesDetails init = Unit
SparesDetails (activate name) = Unit
SparesDetails (add name t) = name ≢ "details"
SparesDetails (remove name) = name ≢ "details"

-- From a valid state every call that spares "details" returns, and leaves a valid state.
pub step-IsValid :
    (op : TabOp) (s : CaseTabs)
    → SparesDetails op
    → IsValid s
    → (t : CaseTabs) × (step op s ≡ ok t) × IsValid t
unfolding step
step-IsValid init s spares h = (init_tabs s, refl, unfold init_tabs in HasDetails-init s.tabs h)
step-IsValid (activate name) s spares h = activate_tab-IsValid name s h
step-IsValid (add name t) s spares h =
    (add_tab name t s, refl, unfold add_tab in HasDetails-put_tab name _ s.tabs spares h)
step-IsValid (remove name) s spares h =
    ((remove_tab name s).0, refl, remove_tab-IsValid name s spares h)
