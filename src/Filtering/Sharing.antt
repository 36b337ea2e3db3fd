-- ===== src/Filtering/Sharing.antt =====
-- What resetting a context does to filters that it shares with the defaults.
use neural_vyuha_prime.Common.{
  ℕ, String, Option, none, some, List, [], ◌∷◌, ◌≡◌, refl, arith, Result, ok, ◌>>=◌,
}
use neural_vyuha_prime.Query.{Scalar, Filter, FieldDef}
use neural_vyuha_prime.Query.Builder.{Engine}
use neural_vyuha_prime.Common.{Number, ok-injective, >>=-steps, ◌≢◌, ◌∙◌}
use mathlib.Core.Path.{subst}
use neural_vyuha_prime.Filtering.{
  shared, Filtering, contents, change, add_filter, remove_filter, clear_filters, reset_context,
  fields_of,
}
use neural_vyuha_prime.Filtering.Values.{add_filter_value, filter_value, put_filter}

-- The changes that a user makes to the filters one by one.
pub data Edit : Type 0 where
  add : Filter → Edit
  add_value : String → Scalar → Edit
  remove : ℕ → Edit

module _ (e : Engine) (moment : Scalar → Number) where
  unfoldable pub edit : Edit → Filtering → Result Filtering
  edit (add f) s = add_filter f s
  edit (add_value k v) s = add_filter_value e moment k v s
  edit (remove i) s = remove_filter i s

  unfoldable pub edit_all : List Edit → Filtering → Result Filtering
  edit_all [] s = ok s
  edit_all (a ∷ as') s = edit a s >>= edit_all as'

  -- What every change of the array keeps, every edit keeps.
  module _ (Inv : Filtering → Type 0)
      (change-Inv : (f : List Filter → List Filter) (s t : Filtering)
        → Inv s
        → change f s ≡ ok t
        → Inv t) where
    add_filter_value-Inv :
        (k : String) (v : Scalar) (s t : Filtering)
        → Inv s
        → add_filter_value e moment k v s ≡ ok t
        → Inv t
    unfolding add_filter_value
    add_filter_value-Inv k v s t h r = go (fields_of s k) r
      where
        go :
            (d : Option FieldDef)
            → (elim d [
              | none ↦ ok s
              | some d ↦ filter_value e moment d v >>= λ w.
                  change (put_filter k (record { field = some k; type = some d.type; value = w })) s
            ])
              ≡ ok t
            → Inv t
        go none same = subst Inv (ok-injective same) h
        go (some d) same =
            let (w, _, changed) = >>=-steps (filter_value e moment d v) _ same in
            change-Inv _ s t h changed

    edit-Inv : (a : Edit) (s t : Filtering) → Inv s → edit a s ≡ ok t → Inv t
    unfolding edit add_filter remove_filter
    edit-Inv (add f) s t h r = change-Inv _ s t h r
    edit-Inv (add_value k v) s t h r = add_filter_value-Inv k v s t h r
    edit-Inv (remove i) s t h r = change-Inv _ s t h r

    edit_all-Inv : (edits : List Edit) (s t : Filtering) → Inv s → edit_all edits s ≡ ok t → Inv t
    unfolding edit_all
    edit_all-Inv [] s t h r = subst Inv (ok-injective r) h
    edit_all-Inv (a ∷ edits) s t h r =
        let (m, first, rest) = >>=-steps (edit a s) (edit_all edits) r in
        edit_all-Inv edits m t (edit-Inv a s m h first) rest

  abbrev IsShared : Filtering → Type 0
  IsShared s = s.context.filters ≡ shared

  -- The context has an array of its own, and the defaults are these.
  abbrev IsApart : Option (List Filter) → Filtering → Type 0
  IsApart ds s = (s.context.filters ≢ shared) × (s.default_filter ≡ ds)

  change-IsApart :
      (ds : Option (List Filter)) (f : List Filter → List Filter) (s t : Filtering)
      → IsApart ds s
      → change f s ≡ ok t
      → IsApart ds t
  unfolding change
  change-IsApart ds f s t h r = ground arith

  contents-reset : (s : Filtering) → contents (reset_context s) ≡ s.default_filter
  unfolding contents reset_context
  contents-reset s = refl

  clear-IsApart : (s : Filtering) → IsApart s.default_filter (clear_filters s)
  unfolding clear_filters
  clear-IsApart s = (λ h. cc, refl)

  -- After `clearFilters`, and whatever is then added or removed without an exception,
  -- `resetContext` does bring back the default filters.
  pub reset-edit_all-clear :
      (edits : List Edit) (s t : Filtering)
      → edit_all edits (clear_filters s) ≡ ok t
      → contents (reset_context t) ≡ s.default_filter
  reset-edit_all-clear edits s t r =
      contents-reset t
      ∙ (edit_all-Inv (IsApart s.default_filter) (change-IsApart s.default_filter) edits
          (clear_filters s) t (clear-IsApart s) r).1
