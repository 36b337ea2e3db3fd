-- ===== src/Dashboard/Streams.antt =====
-- How many live streams a dashboard shows.
use neural_vyuha_prime.Common.{
  ℕ, zero, suc, ◌+◌, ◌-◌, String, none, some, List, [], ◌∷◌, filter, length, eqb, if◌then◌else◌,
  ◌≡◌, refl, sym, ◌∙◌, ap, arith, inl, inr, Option-cases,
}
use neural_vyuha_prime.Filtering.{erase_idx}
use neural_vyuha_prime.Dashboard.View.{
  Widget, View, is_stream, last_index, find_stream, change_at, live_stream, add_stream,
  toggle_items, toggle_live_stream, with_items,
}

abbrev pub count_row : List Widget → ℕ
count_row row = length (filter is_stream row)

abbrev pub count_streams : List (List Widget) → ℕ
count_streams [] = 0
count_streams (row ∷ rows) = count_row row + count_streams rows

last_index-none : (row : List Widget) → last_index is_stream row ≡ none → count_row row ≡ 0
last_index-none [] h = refl
last_index-none (w ∷ row) h = elim (Option-cases (last_index is_stream row)) [
  | inl e ↦ ground (arith, e, last_index-none row e)
  | inr (i, e) ↦ let impossible = rw e at h in cc
]

last_index-some :
    (row : List Widget) (j : ℕ)
    → last_index is_stream row ≡ some j
    → count_row row ≡ suc (count_row (erase_idx j row))
last_index-some [] j h = cc
last_index-some (w ∷ row) zero h = elim (Option-cases (last_index is_stream row)) [
  | inl e ↦ let g = rw e at h in ground (arith, g, e)
  | inr (i, e) ↦ let g = rw e at h in ground (arith, g)
]
last_index-some (w ∷ row) (suc j) h = elim (Option-cases (last_index is_stream row)) [
  | inl e ↦ let g = rw e at h in ground (arith, g)
  | inr (i, e) ↦ let g = rw e at h in ground (arith, g, e, last_index-some row j)
]

count-add_stream :
    (id : String) (rows : List (List Widget))
    → count_streams rows ≡ 0
    → count_streams (add_stream id rows) ≡ 1
count-add_stream id [] h = refl
count-add_stream id (row ∷ rows) h = omega arith

find_stream-none : (rows : List (List Widget)) → find_stream rows ≡ none → count_streams rows ≡ 0
find_stream-none [] h = refl
find_stream-none (row ∷ rows) h = elim (Option-cases (find_stream rows)) [
  | inl e ↦ elim (Option-cases (last_index is_stream row)) [
    | inl f ↦ omega (arith, find_stream-none rows e, last_index-none row f)
    | inr (j, f) ↦ let impossible = rw (e, f) at h in cc
  ]
  | inr (i, e) ↦ let impossible = rw e at h in cc
]

find_stream-some :
    (rows : List (List Widget)) (i j : ℕ)
    → find_stream rows ≡ some (i, j)
    → count_streams rows ≡ suc (count_streams (change_at i (erase_idx j) rows))
find_stream-some [] i j h = cc
find_stream-some (row ∷ rows) zero j h = elim (Option-cases (find_stream rows)) [
  | inl e ↦ elim (Option-cases (last_index is_stream row)) [
    | inl f ↦ let impossible = rw (e, f) at h in cc
    | inr (k, f) ↦
        let g = rw (e, f) at h in
        let same : k ≡ j = cc in omega (arith, last_index-some row j (f ∙ ap some same))
  ]
  | inr (q, e) ↦ let impossible = rw e at h in cc
]
find_stream-some (row ∷ rows) (suc i) j h = elim (Option-cases (find_stream rows)) [
  | inl e ↦ elim (Option-cases (last_index is_stream row)) [
    | inl f ↦ let impossible = rw (e, f) at h in cc
    | inr (k, f) ↦ let impossible = rw (e, f) at h in cc
  ]
  | inr ((k, l), e) ↦
      let g = rw e at h in
      let same_row : k ≡ i = cc in
      let same_place : l ≡ j = cc in
      omega (arith, find_stream-some rows i j (e ∙ rw (same_row, same_place) refl))
]

count-toggle_items :
    (id : String) (rows : List (List Widget))
    → count_streams (toggle_items id rows)
      ≡ (if eqb (count_streams rows) 0 then 1 else count_streams rows - 1)
count-toggle_items id rows = elim (Option-cases (find_stream rows)) [
  | inl e ↦
      let none_there = find_stream-none rows e in
      rw (toggle_items, e, none_there) (count-add_stream id rows none_there)
  | inr ((i, j), e) ↦ rw (toggle_items, e) (ground (arith, find_stream-some rows i j e))
]

-- The button of the live stream takes away one stream where there are some, and adds one where there
-- is none.
pub count-toggle_live_stream :
    (id : String) (v : View)
    → count_streams (toggle_live_stream id v).definition.items ≡ (
        if eqb (count_streams v.definition.items) 0
        then 1
        else count_streams v.definition.items - 1)
unfolding toggle_live_stream
count-toggle_live_stream id v = count-toggle_items id v.definition.items

no_stream_found : (rows : List (List Widget)) → count_streams rows ≡ 0 → find_stream rows ≡ none
no_stream_found rows h = elim (Option-cases (find_stream rows)) [
  | inl e ↦ e
  | inr ((i, j), e) ↦ let some_there = find_stream-some rows i j e in ground arith
]

no_stream_in_row : (row : List Widget) → count_row row ≡ 0 → last_index is_stream row ≡ none
no_stream_in_row row h = elim (Option-cases (last_index is_stream row)) [
  | inl e ↦ e
  | inr (j, e) ↦ let some_there = last_index-some row j e in ground arith
]

toggle_items-twice :
    (id other : String) (row : List Widget) (rows : List (List Widget))
    → count_streams (row ∷ rows) ≡ 0
    → toggle_items other (toggle_items id (row ∷ rows)) ≡ row ∷ rows
toggle_items-twice id other row rows h =
    let before = no_stream_found (row ∷ rows) h in
    let after = no_stream_found rows (omega arith) in
    let in_row = no_stream_in_row row (omega arith) in
    let added : toggle_items id (row ∷ rows) ≡ (live_stream id ∷ row) ∷ rows =
      rw (toggle_items, before) refl in
    let removed : toggle_items other ((live_stream id ∷ row) ∷ rows) ≡ row ∷ rows =
      rw (toggle_items, after, in_row) refl in
    ap (toggle_items other) added ∙ removed

-- Where there are rows but no stream, the button pressed twice leaves the dashboard as it was.
pub toggle_live_stream-twice :
    (id other : String) (row : List Widget) (rows : List (List Widget)) (v : View)
    → v.definition.items ≡ row ∷ rows
    → count_streams (row ∷ rows) ≡ 0
    → toggle_live_stream other (toggle_live_stream id v) ≡ v
unfolding toggle_live_stream
toggle_live_stream-twice id other row rows v items none_there =
    ap (λ r. with_items r v)
      (ap (λ r. toggle_items other (toggle_items id r)) items
        ∙ toggle_items-twice id other row rows none_there
        ∙ sym items)
