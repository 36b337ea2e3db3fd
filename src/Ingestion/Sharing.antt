-- ===== src/Ingestion/Sharing.antt =====
-- The switches of the sources as the page shows them, and as the server has them.
use neural_vyuha_prime.Common.{
  ℕ, suc, Bool, true, false, not, Option, none, some, List, [], ◌∷◌, ◌++◌, eqb, ◌≡◌, refl, sym, ◌∙◌,
  ap, arith, if◌then◌else◌, Bool-cases, Option-cases, ◌⊎◌, inl, inr,
}
use neural_vyuha_prime.Ingestion.{Policy, IngestionPage, update_stats}
use neural_vyuha_prime.Ingestion.Sources.{
  set_enabled, toggle_source, on_source_updated, on_source_error,
}

-- The page with the server, and for each object the states that its unanswered requests remember,
-- the oldest first. A change of the server is seen when its answer comes.
pub record World : Type 0 where
  pub page : IngestionPage
  pub server : ℕ → Bool
  pub pending : ℕ → List Bool

pub data Event : Type 0 where
  toggled : ℕ → Event
  accepted refused : ℕ → ℕ → Event

abbrev pub set_at : {A : Type 0} → ℕ → A → (ℕ → A) → ℕ → A
set_at r a f n = if eqb n r then a else f n

abbrev pub find_policy : ℕ → List Policy → Option Policy
find_policy r [] = none
find_policy r (p ∷ ps) = if eqb p.ref r then some p else find_policy r ps

abbrev pub nth_pending : ℕ → List Bool → Option Bool
nth_pending n [] = none
nth_pending ℕ.zero (b ∷ bs) = some b
nth_pending (suc n) (b ∷ bs) = nth_pending n bs

abbrev pub without_nth : ℕ → List Bool → List Bool
without_nth n [] = []
without_nth ℕ.zero (b ∷ bs) = bs
without_nth (suc n) (b ∷ bs) = b ∷ without_nth n bs

-- A click on a switch, and the answer to the n-th request of an object that is not answered yet.
unfoldable pub step : Event → World → World
unfolding toggle_source on_source_updated on_source_error
step (toggled r) w = elim (find_policy r w.page.policies) [
  | none ↦ w
  | some p ↦ record w {
    page = (toggle_source p w.page).0;
    pending = set_at p.ref (w.pending p.ref ++ p.enabled ∷ []) w.pending;
  }
]
step (accepted r n) w = elim (nth_pending n (w.pending r)) [
  | none ↦ w
  | some original ↦ record {
    page = on_source_updated w.page;
    server = set_at r (not original) w.server;
    pending = set_at r (without_nth n (w.pending r)) w.pending;
  }
]
step (refused r n) w = elim (nth_pending n (w.pending r)) [
  | none ↦ w
  | some original ↦ record w {
    page = on_source_error r original w.page;
    pending = set_at r (without_nth n (w.pending r)) w.pending;
  }
]

unfoldable pub run : List Event → World → World
run [] w = w
run (e ∷ es) w = run es (step e w)

-- No switch is clicked while a request of its object is unanswered.
abbrev pub IsAnswered : Event → World → Type 0
IsAnswered (toggled r) w = w.pending r ≡ []
IsAnswered _ w = Unit

abbrev pub Orderly : List Event → World → Type 0
unfolding step
Orderly [] w = Unit
Orderly (e ∷ es) w = IsAnswered e w × Orderly es (step e w)

-- What the page shows of an object that the server has so, with these requests unanswered.
abbrev pub shown : Bool → List Bool → Bool
shown at_server [] = at_server
shown at_server (_ ∷ _) = not at_server

-- What the page has to show of each object.
abbrev pub expected : World → ℕ → Bool
expected w r = shown (w.server r) (w.pending r)

abbrev pub AllAs : (ℕ → Bool) → List Policy → Type 0
AllAs f [] = Unit
AllAs f (p ∷ ps) = (p.enabled ≡ f p.ref) × AllAs f ps

-- The switches are those of the server, turned where a request is unanswered; and of each object at
-- most one request is, which remembers what the server has.
pub record IsConsistent (w : World) : Type 0 where
  pub switches : AllAs (expected w) w.page.policies
  pub remembered :
      (r : ℕ) (b : Bool) (bs : List Bool) → w.pending r ≡ b ∷ bs → (b ≡ w.server r) × (bs ≡ [])

AllAs-set :
    (f g : ℕ → Bool) (r : ℕ) (on : Bool) (ps : List Policy)
    → on ≡ g r
    → ((n : ℕ) → eqb n r ≡ false → f n ≡ g n)
    → AllAs f ps
    → AllAs g (set_enabled r on ps)
AllAs-set f g r on [] e same h = tt
AllAs-set f g r on (p ∷ ps) e same (here, rest) = elim (Bool-cases (eqb p.ref r)) [
  | inl is_it ↦
      let at : p.ref ≡ r = ground arith in rw (is_it, at) (e, AllAs-set f g r on ps e same rest)
  | inr other ↦ rw other (here ∙ same p.ref other, AllAs-set f g r on ps e same rest)
]

AllAs-ext : (f g : ℕ → Bool) (ps : List Policy) → ((n : ℕ) → f n ≡ g n) → AllAs f ps → AllAs g ps
AllAs-ext f g [] same h = tt
AllAs-ext f g (p ∷ ps) same (here, rest) = (here ∙ same p.ref, AllAs-ext f g ps same rest)

find-AllAs :
    (f : ℕ → Bool) (r : ℕ) (ps : List Policy) (p : Policy)
    → find_policy r ps ≡ some p
    → AllAs f ps
    → (p.ref ≡ r) × (p.enabled ≡ f r)
find-AllAs f r [] p found h = cc
find-AllAs f r (q ∷ ps) p found (here, rest) = elim (Bool-cases (eqb q.ref r)) [
  | inl is_it ↦
      let at : q.ref ≡ r = ground arith in
      let same : q ≡ p = ground arith in
      (
        sym (ap (λ (u : Policy). u.ref) same) ∙ at,
        sym (ap (λ (u : Policy). u.enabled) same) ∙ here ∙ ap f at,
      )
  | inr other ↦ find-AllAs f r ps p (rw other at found) rest
]

alone :
    (b : Bool) (bs : List Bool) (c : Bool) {a : Bool}
    → a ≡ c
    → (◌≡◌ {A = List Bool} (a ∷ []) (b ∷ bs))
    → (b ≡ c) × (bs ≡ [])
alone b bs c is_c e = (ground arith, ground arith)

toggled-IsConsistent :
    (r : ℕ) (p : Policy) (w : World)
    → w.pending r ≡ []
    → find_policy r w.page.policies ≡ some p
    → IsConsistent w
    → IsConsistent (record w {
      page = (toggle_source p w.page).0;
      pending = set_at p.ref (w.pending p.ref ++ p.enabled ∷ []) w.pending;
    })
unfolding toggle_source
toggled-IsConsistent r p w free found h =
    let (at, as_is) = find-AllAs (expected w) r w.page.policies p found h.switches in
    let now : p.enabled ≡ w.server p.ref = as_is ∙ rw (free, at) refl in
    let none_yet : w.pending p.ref ≡ [] = ap w.pending at ∙ free in
    rw none_yet record {
      switches =
          AllAs-set (expected w)
            (λ n. shown (w.server n) (set_at p.ref (p.enabled ∷ []) w.pending n)) p.ref
            (not p.enabled) w.page.policies (ground (arith, now)) (λ n other. rw other refl)
            h.switches;
      remembered = λ n b bs e. elim (Bool-cases (eqb n p.ref)) [
        | inl is_it ↦
            let n_is : n ≡ p.ref = ground arith in
            alone b bs (w.server n) (now ∙ sym (ap w.server n_is)) (rw is_it at e)
        | inr other ↦ h.remembered n b bs (rw other at e)
      ];
    }

accepted-IsConsistent :
    (r : ℕ) (b : Bool) (w : World)
    → w.pending r ≡ b ∷ []
    → IsConsistent w
    → IsConsistent (record {
      page = on_source_updated w.page;
      server = set_at r (not b) w.server;
      pending = set_at r [] w.pending;
    })
unfolding on_source_updated update_stats
accepted-IsConsistent r b w waits h =
    let was : b ≡ w.server r = (h.remembered r b [] waits).0 in
    record {
      switches =
          AllAs-ext (expected w)
            (λ n. shown (set_at r (not b) w.server n) (set_at r [] w.pending n)) w.page.policies
            (λ n. elim (Bool-cases (eqb n r)) [
              | inl is_it ↦
                  let n_is : n ≡ r = ground arith in
                  rw is_it (ground (arith, ap w.server n_is, ap w.pending n_is, waits, was))
              | inr other ↦ rw other refl
            ])
            h.switches;
      remembered = λ n c cs e. elim (Bool-cases (eqb n r)) [
        | inl is_it ↦ let impossible : ◌≡◌ {A = List Bool} [] (c ∷ cs) = rw is_it at e in cc
        | inr other ↦ rw other (h.remembered n c cs (rw other at e))
      ];
    }

refused-IsConsistent :
    (r : ℕ) (b : Bool) (w : World)
    → w.pending r ≡ b ∷ []
    → IsConsistent w
    → IsConsistent (record w { page = on_source_error r b w.page; pending = set_at r [] w.pending })
unfolding on_source_error
refused-IsConsistent r b w waits h = record {
  switches =
      AllAs-set (expected w) (λ n. shown (w.server n) (set_at r [] w.pending n)) r b w.page.policies
        ((h.remembered r b [] waits).0 ∙ ground (arith, eqb_refl r)) (λ n other. rw other refl)
        h.switches;
  remembered = λ n c cs e. elim (Bool-cases (eqb n r)) [
    | inl is_it ↦ let impossible : ◌≡◌ {A = List Bool} [] (c ∷ cs) = rw is_it at e in cc
    | inr other ↦ h.remembered n c cs (rw other at e)
  ];
}
  where
    eqb_refl : (n : ℕ) → eqb n n ≡ true
    eqb_refl n = ground arith

pending_cases : (bs : List Bool) → (bs ≡ []) ⊎ ((b : Bool) × (cs : List Bool) × (bs ≡ b ∷ cs))
pending_cases [] = inl refl
pending_cases (b ∷ cs) = inr (b, cs, refl)

-- The answers to an object that waits for none, or for one.
nth_pending-cases :
    (n : ℕ) (r : ℕ) (w : World)
    → IsConsistent w
    → (nth_pending n (w.pending r) ≡ none)
      ⊎ ((b : Bool) × (w.pending r ≡ b ∷ [])
          × (nth_pending n (w.pending r) ≡ some b)
          × (without_nth n (w.pending r) ≡ []))
nth_pending-cases n r w h = elim (pending_cases (w.pending r)) [
  | inl free ↦ inl (rw free refl)
  | inr (b, cs, waits) ↦
      let waits_one : w.pending r ≡ b ∷ [] =
        waits ∙ ap (λ us. b ∷ us) (h.remembered r b cs waits).1 in
      one n b waits_one
]
  where
    one :
        (n : ℕ) (b : Bool)
        → w.pending r ≡ b ∷ []
        → (nth_pending n (w.pending r) ≡ none)
          ⊎ ((b : Bool) × (w.pending r ≡ b ∷ [])
              × (nth_pending n (w.pending r) ≡ some b)
              × (without_nth n (w.pending r) ≡ []))
    one ℕ.zero b waits = inr (b, waits, rw waits refl, rw waits refl)
    one (suc n) b waits = inl (rw waits refl)

step-IsConsistent :
    (e : Event) (w : World) → IsAnswered e w → IsConsistent w → IsConsistent (step e w)
unfolding step
step-IsConsistent (toggled r) w free h = elim (Option-cases (find_policy r w.page.policies)) [
  | inl unknown ↦ rw (unknown, step) h
  | inr (p, found) ↦ rw (found, step) (toggled-IsConsistent r p w free found h)
]
step-IsConsistent (accepted r n) w _ h = elim (nth_pending-cases n r w h) [
  | inl free ↦ rw (free, step) h
  | inr (b, waits, that, left) ↦ rw (that, left, step) (accepted-IsConsistent r b w waits h)
]
step-IsConsistent (refused r n) w _ h = elim (nth_pending-cases n r w h) [
  | inl free ↦ rw (free, step) h
  | inr (b, waits, that, left) ↦ rw (that, left, step) (refused-IsConsistent r b w waits h)
]

run-IsConsistent :
    (es : List Event) (w : World) → Orderly es w → IsConsistent w → IsConsistent (run es w)
unfolding run step
run-IsConsistent [] w _ h = h
run-IsConsistent (e ∷ es) w (turn, rest) h =
    run-IsConsistent es (step e w) rest (step-IsConsistent e w turn h)

-- Whatever is switched, accepted and refused, where the page and the server agreed at the start and
-- no switch is clicked while a request of its source is unanswered: a source without an unanswered
-- request is shown as the server has it.
pub run-shows :
    (es : List Event) (r : ℕ) (p : Policy) (w : World)
    → Orderly es w
    → IsConsistent w
    → find_policy r (run es w).page.policies ≡ some p
    → (run es w).pending r ≡ []
    → p.enabled ≡ (run es w).server r
unfolding step
run-shows es r p w orderly h found free =
    let v = run es w in
    (find-AllAs (expected v) r v.page.policies p found (run-IsConsistent es w orderly h).switches).1
    ∙ rw free refl
