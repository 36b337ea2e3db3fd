-- ===== src/Alerts/Search.antt =====
-- The search of nvAlertListController.js, which waits until the text was not changed for 400 ms.
use neural_vyuha_prime.Common.{
  ℕ, ◌+◌, String, not, Option, none, some, List, [], ◌∷◌, filter, eqb, ◌≡◌, ◌⊎◌, inl, inr, refl,
  sym, ◌∙◌, ap, arith,
}
use neural_vyuha_prime.Alerts.{AlertList, AlertRequest, get_alerts, load_alerts, unless_empty}

-- The page with the timers of the browser: `search_timeout` is the last one that was set, `pending`
-- those that have neither fired nor been cancelled.
pub record SearchPage : Type 0 where
  pub list : AlertList
  pub search_timeout : Option ℕ
  pub pending : List ℕ
  pub next : ℕ

abbrev pub cancelled : Option ℕ → List ℕ → List ℕ
cancelled none ts = ts
cancelled (some t) ts = filter (λ u. not (eqb u t)) ts

-- `onSearchChange`, which the field calls after it has set the text to `q`.
unfoldable pub on_search_change : String → SearchPage → SearchPage
on_search_change q s = record s {
  list = record (s.list) { filter_params = record (s.list.filter_params) { q = q } };
  search_timeout = some s.next;
  pending = s.next ∷ cancelled s.search_timeout s.pending;
  next = s.next + 1;
}

-- The timer t fires.
unfoldable pub on_search_timer : ℕ → SearchPage → SearchPage × List AlertRequest
unfolding load_alerts
on_search_timer t s =
    let loaded = load_alerts (record (s.list) { page = 1 }) in
    (record s { pending = cancelled (some t) s.pending; list = loaded.0 }, loaded.1)

-- What happens: the text is changed, or a pending timer fires.
pub data Typing : Type 0 where
  changes : String → Typing
  waits : Typing

abbrev pub first_timer : SearchPage → List ℕ → SearchPage
first_timer s [] = s
first_timer s (t ∷ ts) = (on_search_timer t s).0

unfoldable pub types : List Typing → SearchPage → SearchPage
types [] s = s
types (changes q ∷ es) s = types es (on_search_change q s)
types (waits ∷ es) s = types es (first_timer s s.pending)

-- No timer is pending, or just the last one.
abbrev pub OneTimer : SearchPage → Type 0
OneTimer s = (s.pending ≡ []) ⊎ ((t : ℕ) × (s.search_timeout ≡ some t) × (s.pending ≡ t ∷ []))

cancelled-OneTimer : (s : SearchPage) → OneTimer s → cancelled s.search_timeout s.pending ≡ []
cancelled-OneTimer s (inl idle) = go s.search_timeout
  where
    go : (o : Option ℕ) → cancelled o s.pending ≡ []
    go none = idle
    go (some t) = rw idle refl
cancelled-OneTimer s (inr (t, last, one)) = rw (last, one) (ground arith)

change-OneTimer : (q : String) (s : SearchPage) → OneTimer s → OneTimer (on_search_change q s)
unfolding on_search_change
change-OneTimer q s h = inr (s.next, refl, ap (λ ts. s.next ∷ ts) (cancelled-OneTimer s h))

timer-OneTimer :
    (s : SearchPage) (ts : List ℕ) → s.pending ≡ ts → OneTimer s → OneTimer (first_timer s ts)
unfolding on_search_timer
timer-OneTimer s [] e h = h
timer-OneTimer s (t ∷ ts) e (inl idle) = let impossible = sym e ∙ idle in cc
timer-OneTimer s (t ∷ ts) e (inr (u, last, one)) =
    let same : t ≡ u = let both = sym e ∙ one in cc in inl (rw (one, same) (ground arith))

types-OneTimer : (es : List Typing) (s : SearchPage) → OneTimer s → OneTimer (types es s)
unfolding types
types-OneTimer [] s h = h
types-OneTimer (changes q ∷ es) s h =
    types-OneTimer es (on_search_change q s) (change-OneTimer q s h)
types-OneTimer (waits ∷ es) s h =
    types-OneTimer es (first_timer s s.pending) (timer-OneTimer s s.pending refl h)

-- The first alert and the text that the requests for alerts ask for.
abbrev pub asked : List AlertRequest → List (ℕ × Option String)
asked [] = []
asked (get_alerts p ∷ rs) = (p.from, p.q) ∷ asked rs
asked (_ ∷ rs) = asked rs

cancelled-first : (t : ℕ) {ts : List ℕ} → ts ≡ [] → cancelled (some t) (t ∷ ts) ≡ []
cancelled-first t e = rw e (ground arith)

-- Whatever was typed and however long the user waited between: after a change of the text exactly one
-- timer is pending, and when it fires, the alerts for this text are asked for once, from the first
-- one on.
pub on_search_change-settles :
    (es : List Typing) (q : String) (s : SearchPage)
    → OneTimer s
    → let typed = on_search_change q (types es s) in
      (t : ℕ) × (typed.pending ≡ t ∷ [])
      × (asked (on_search_timer t typed).1 ≡ (0, unless_empty q) ∷ [])
      × ((on_search_timer t typed).0.pending ≡ [])
unfolding on_search_change on_search_timer load_alerts
on_search_change-settles es q s h =
    let before = types es s in
    let none_left = cancelled-OneTimer before (types-OneTimer es s h) in
    (
      before.next,
      ap (λ ts. before.next ∷ ts) none_left,
      ap (λ n. (n, unless_empty q) ∷ []) (omega arith),
      cancelled-first before.next none_left,
    )
