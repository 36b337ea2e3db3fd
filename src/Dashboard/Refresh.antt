-- ===== src/Dashboard/Refresh.antt =====
-- The intervals that DashboardViewCtrl.js starts.
use neural_vyuha_prime.Common.{
  ℕ, false, ◌||◌, Option, none, some, List, [], ◌∷◌, ◌≡◌, ◌⊎◌, refl, sym, ◌∙◌, ap, arith,
  Bool-cases, Option-cases, inl, inr,
}
use neural_vyuha_prime.Dashboard.View.{
  View, on_auto_refresh, cancel_refresh, enable_edit_mode, on_saved, is_none,
}

-- What a user does on the page of a dashboard.
pub data Action : Type 0 where
  refreshes : ℕ → Option ℕ → Action
  edits views : Action

unfoldable pub act : Action → View → View
unfolding on_auto_refresh enable_edit_mode on_saved
act (refreshes id value) v = on_auto_refresh id value v
act edits v = enable_edit_mode v
act views v = on_saved v

unfoldable pub acts : List Action → View → View
unfolding act
acts [] v = v
acts (a ∷ as') v = acts as' (act a v)

-- No interval runs, or just the one that was started last.
abbrev pub OneInterval : View → Type 0
OneInterval v = (v.running ≡ []) ⊎ ((i : ℕ) × (v.refresher ≡ some i) × (v.running ≡ i ∷ []))

cancel_refresh-none : (v : View) → OneInterval v → (cancel_refresh v).running ≡ []
unfolding cancel_refresh
cancel_refresh-none v h = elim (Option-cases v.refresher) [
  | inl e ↦ elim h [
    | inl stopped ↦ rw (cancel_refresh, e) stopped
    | inr (i, r, one) ↦ let impossible = sym e ∙ r in cc
  ]
  | inr (j, e) ↦ elim h [
    | inl stopped ↦ rw (cancel_refresh, e, stopped) refl
    | inr (i, r, one) ↦
        let same : i ≡ j = let both = sym r ∙ e in cc in
        rw (cancel_refresh, e, one, same) (ground arith)
  ]
]

act-OneInterval : (a : Action) (v : View) → OneInterval v → OneInterval (act a v)
unfolding act
act-OneInterval edits v h = h
act-OneInterval views v h = h
act-OneInterval (refreshes id none) v h = elim (Bool-cases (is_none v.refresher || v.edit_layout)) [
  | inl kept ↦ rw (on_auto_refresh, kept) h
  | inr stops ↦ rw (on_auto_refresh, stops) (inl (cancel_refresh-none v h))
]
act-OneInterval (refreshes id (some seconds)) v h = elim (Bool-cases v.edit_layout) [
  | inl kept ↦ rw (on_auto_refresh, kept) h
  | inr starts ↦
      rw (on_auto_refresh, starts)
        (inr
          (id, refl, ap (λ r. id ∷ r) (cancel_refresh-none (record v { edit_layout = false }) h)))
]

-- Whatever is chosen in whatever mode, at most one interval runs, and it is the one that was started
-- last.
pub acts-OneInterval : (as' : List Action) (v : View) → OneInterval v → OneInterval (acts as' v)
unfolding acts
acts-OneInterval [] v h = h
acts-OneInterval (a ∷ as') v h = acts-OneInterval as' (act a v) (act-OneInterval a v h)
