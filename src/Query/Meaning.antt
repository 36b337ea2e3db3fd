-- ===== src/Query/Meaning.antt =====
-- What the criteria of QueryBuilderSrv.js select, over any server that reads `_and`, `_or`, `_not`
-- and `{}` as its documentation says.
use neural_vyuha_prime.Common.{
  String, Bool, true, false, not, ◌&&◌, Option, none, some, List, [], ◌∷◌, map, inl, inr, or-false,
  and-true, ◌==◌, ◌≡◌, refl, ap, ◌∙◌, sym, arith, if◌then◌else◌, length, all, any, Result, ok,
  type_error, ◌>>=◌, Bool-cases, ltb, ok-injective,
}
use neural_vyuha_prime.Query.{
  Scalar, FilterObject, object, Filter, Fields, Query, everything, negation, conjunction,
  disjunction, contains, like, of_list, or_default, key_of,
}
use neural_vyuha_prime.Query.Builder.{
  Engine, empty_query, join, combine, build_listed, field_criterion, texts_of,
  build_query_from_list_filter, build_query_from_tags_filter, build_query_from_free_text_filter,
}
use neural_vyuha_prime.Query.Dispatch.{
  criteria, all_of, build_filters_query, build_query_from_filter,
}

-- A server's reading of criteria. Only the connectives are fixed.
pub record Server : Type 1 where
  pub Entity : Type 0
  pub holds : Query → Entity → Bool
  pub holds-everything : (x : Entity) → holds everything x ≡ true
  pub holds-negation : (q : Query) (x : Entity) → holds (negation q) x ≡ not (holds q x)
  pub holds-conjunction :
      (qs : List Query) (x : Entity) → holds (conjunction (of_list qs)) x ≡ all (λ q. holds q x) qs
  pub holds-disjunction :
      (qs : List Query) (x : Entity) → holds (disjunction (of_list qs)) x ≡ any (λ q. holds q x) qs

-- What a criterion that may be missing selects: a missing one selects everything.
abbrev pub selects : (s : Server) → Option Query → Server.Entity s → Bool
selects s none x = true
selects s (some q) x = Server.holds s q x

-- What the operator of a list filter means: `all`, `none`, and any other is `any`.
abbrev pub choose : String → List Bool → Bool
choose operator bs =
    if operator == "all"
    then all (λ b. b) bs
    else if operator == "none"
    then not (any (λ b. b) bs)
    else any (λ b. b) bs

module _ (s : Server) (x : Server.Entity s) where
  open s use {holds, holds-everything, holds-negation, holds-conjunction, holds-disjunction}

  all-map : (qs : List Query) → all (λ b. b) (map (λ q. holds q x) qs) ≡ all (λ q. holds q x) qs
  all-map [] = refl
  all-map (q ∷ qs) = rw (all-map qs)

  any-map : (qs : List Query) → any (λ b. b) (map (λ q. holds q x) qs) ≡ any (λ q. holds q x) qs
  any-map [] = refl
  any-map (q ∷ qs) = rw (any-map qs)

  holds-join_conjunction :
      (qs : List Query) → holds (join conjunction qs) x ≡ all (λ q. holds q x) qs
  unfolding join
  holds-join_conjunction [] = holds-conjunction [] x
  holds-join_conjunction (q ∷ []) = sym (and-true _)
  holds-join_conjunction (q ∷ r ∷ qs) = holds-conjunction (q ∷ r ∷ qs) x

  holds-join_disjunction :
      (qs : List Query) → holds (join disjunction qs) x ≡ any (λ q. holds q x) qs
  unfolding join
  holds-join_disjunction [] = holds-disjunction [] x
  holds-join_disjunction (q ∷ []) = sym (or-false _)
  holds-join_disjunction (q ∷ r ∷ qs) = holds-disjunction (q ∷ r ∷ qs) x

  pub holds-combine :
      (operator : String) (qs : List Query)
      → holds (combine operator qs) x ≡ choose operator (map (λ q. holds q x) qs)
  unfolding combine
  holds-combine operator qs = elim (Bool-cases (operator == "all")) [
    | inl yes_all ↦ rw (yes_all, all-map) (holds-join_conjunction qs)
    | inr not_all ↦ elim (Bool-cases (operator == "none")) [
      | inl yes_none ↦
          rw (not_all, yes_none, any-map, holds-negation) (ap not (holds-join_disjunction qs))
      | inr not_none ↦ rw (not_all, not_none, any-map) (holds-join_disjunction qs)
    ]
  ]

  pub holds-all_of : (qs : List Query) → holds (all_of qs) x ≡ all (λ q. holds q x) qs
  unfolding all_of
  holds-all_of [] = holds-everything x
  holds-all_of (q ∷ []) = sym (and-true _)
  holds-all_of (q ∷ r ∷ qs) = holds-conjunction (q ∷ r ∷ qs) x

  -- What a list filter should select: no value at all, everything where nothing is listed, and else
  -- what the operator makes of the listed values.
  abbrev pub wanted : (Option String → Scalar → Query) → Option String → FilterObject → Bool
  wanted criterion field o =
      if or_default o.operator "any" == "empty"
      then not (holds (contains field) x)
      else if ltb 0 (length (texts_of o.list))
      then choose (or_default o.operator "any")
          (map (λ v. holds (criterion field v) x) (texts_of o.list))
      else true

  map-holds :
      (criterion : Scalar → Query) (vs : List Scalar)
      → map (λ q. holds q x) (map criterion vs) ≡ map (λ v. holds (criterion v) x) vs
  map-holds criterion [] = refl
  map-holds criterion (v ∷ vs) = rw (map-holds criterion vs)

  select-build_listed :
      (criterion : Option String → Scalar → Query) (field type : Option String) (o : FilterObject)
      → selects s
          (build_listed criterion (record { field = field; type = type; value = object o }))
          x
        ≡ wanted criterion field o
  unfolding build_listed empty_query
  select-build_listed criterion field type o =
      elim (Bool-cases (or_default o.operator "any" == "empty")) [
        | inl e ↦ rw (e) (holds-negation (contains field) x)
        | inr n ↦ elim (Bool-cases (ltb 0 (length (texts_of o.list)))) [
          | inl listed ↦
              rw (n, listed)
                (holds-combine (or_default o.operator "any")
                    (map (criterion field) (texts_of o.list))
                  ∙ ap (choose (or_default o.operator "any")) (map-holds (criterion field) _))
          | inr nothing ↦ rw (n, nothing)
        ]
      ]

  -- Each of the three list builders, for a value that is an object, selects what its filter asks
  -- for, under every operator (also unknown ones, and "empty"), whatever is listed.
  pub select-list_filters :
      (field type : Option String) (o : FilterObject)
      → let f : Filter = record { field = field; type = type; value = object o } in
        (selects s (build_query_from_list_filter f) x ≡ wanted field_criterion field o)
        × (selects s (build_query_from_tags_filter f) x ≡ wanted like field o)
        × (selects s (build_query_from_free_text_filter f) x ≡ wanted like field o)
  unfolding build_query_from_list_filter build_query_from_tags_filter
      build_query_from_free_text_filter
  select-list_filters field type o = (
    select-build_listed field_criterion field type o,
    select-build_listed like field type o,
    select-build_listed like field type o,
  )

  -- What one filter selects; a filter that throws selects nothing.
  abbrev pub filter_selects : Engine → Fields → Filter → Bool
  filter_selects e fields f = elim (build_query_from_filter e (fields (key_of f.field)) f) [
    | ok c ↦ selects s c x
    | type_error ↦ false
  ]

  all-criteria :
      (e : Engine) (fields : Fields) (filters : List Filter) (qs : List Query)
      → criteria e fields filters ≡ ok qs
      → all (λ q. holds q x) qs ≡ all (filter_selects e fields) filters
  unfolding criteria
  all-criteria e fields [] qs h = ground arith
  all-criteria e fields (f ∷ fs) qs h =
      go (build_query_from_filter e (fields (key_of f.field)) f) (criteria e fields fs)
        (all-criteria e fields fs) h
    where
      go :
          (c : Result (Option Query)) (rest : Result (List Query))
          → ((rs : List Query)
              → rest ≡ ok rs
              → all (λ q. holds q x) rs ≡ all (filter_selects e fields) fs)
          → (c >>= λ c. rest >>= λ rs. elim c [ none ↦ ok rs | some q ↦ ok (q ∷ rs) ]) ≡ ok qs
          → all (λ q. holds q x) qs ≡ (
              (elim c [ ok c ↦ selects s c x | type_error ↦ false ])
              && all (filter_selects e fields) fs)
      go (ok none) (ok rs) ih same = ground (arith, ih rs refl)
      go (ok (some q)) (ok rs) ih same = ground (arith, ih rs refl)
      go (ok c) type_error ih same = cc
      go type_error rest ih same = cc

  -- Whenever a query is built, a server that reads the connectives as documented selects an entity
  -- by it exactly if every filter selects it; a filter without a criterion selects everything.
  pub holds-build_filters_query :
      (e : Engine) (fields : Fields) (filters : List Filter) (q : Query)
      → build_filters_query e fields filters ≡ ok q
      → holds q x ≡ all (filter_selects e fields) filters
  unfolding build_filters_query
  holds-build_filters_query e fields filters q h =
      go (criteria e fields filters) (all-criteria e fields filters) h
    where
      go :
          (r : Result (List Query))
          → ((rs : List Query)
              → r ≡ ok rs
              → all (λ q. holds q x) rs ≡ all (filter_selects e fields) filters)
          → (r >>= λ rs. ok (all_of rs)) ≡ ok q
          → holds q x ≡ all (filter_selects e fields) filters
      go (ok rs) ih same = rw (← ok-injective same) (holds-all_of rs ∙ ih rs refl)
      go type_error ih same = cc
