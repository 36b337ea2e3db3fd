-- ===== src/CasePage/Presets.antt =====
-- The named filters of CaseListCtrl.js, and what they select.
pub mod Meaning
use neural_vyuha_prime.Common.{
  ℕ, String, Bool, true, false, not, ◌&&◌, ◌||◌, Option, none, some, List, [], ◌∷◌, ◌++◌, map, all,
  ◌==◌, eqb, if◌then◌else◌, Result, ok, type_error, ◌>>=◌, length, Number, ◌≡◌, refl, sym, ◌∙◌, ap,
  arith, eq_iff, Bool-cases, inl, inr, and-true,
}
use neural_vyuha_prime.Query.{
  Query, Scalar, text, Filter, FieldDef, Value, scalar, object, missing, field_is, like, negation,
  conjunction, of_list,
}
use neural_vyuha_prime.Query.Builder.{
  Engine, build_listed, combine, join, build_query_from_list_filter,
  build_query_from_free_text_filter,
}
use neural_vyuha_prime.Query.Meaning.{Server}
use neural_vyuha_prime.Query.Dispatch.{
  build_filters_query, criteria, all_of, build_query_from_filter, build_by_value, is_free_text,
  values_length, has_list,
}
use neural_vyuha_prime.Filtering.{
  Filtering, Defaults, own, contents, change, write, fields_of, build_query, clear_filters,
  add_filter,
}
use neural_vyuha_prime.Filtering.Values.{
  add_filter_value, filter_value, labelled_item, label_at, label_or, put_filter, find_index,
  listing,
}
use neural_vyuha_prime.CasePage.{CasePage, CaseCall}
use neural_vyuha_prime.CasePage.Feeds.{search_cases}

-- `AuthenticationSrv.currentUser`
pub record User : Type 0 where
  pub login : String
  pub name : String
  pub organisation : String

abbrev pub assignee_filter : User → Filter
assignee_filter u = record {
  field = some "assignee";
  type = some "user";
  value = listing (record { text = text u.login; label = text u.name });
}

abbrev pub organisation_filter : String → User → Filter
organisation_filter operator u = record {
  field = some "owningOrganisation";
  type = some "string";
  value = object (record {
    operator = some operator;
    value = none;
    list = some (record { text = text u.organisation; label = text u.organisation } ∷ []);
    from = missing;
    to = missing;
  });
}

-- The one filter in place of all others.
unfoldable pub only_filter : Filter → Filtering → Result Filtering
unfolding add_filter clear_filters
only_filter f s = add_filter f (clear_filters s)

module _ (e : Engine) (moment : Scalar → Number) where
  unfoldable pub my_open_filters : User → Filtering → Result Filtering
  unfolding only_filter add_filter_value
  my_open_filters u s =
      only_filter (assignee_filter u) s >>= λ t. add_filter_value e moment "status" (text "Open") t

  unfoldable pub status_filters : String → Filtering → Result Filtering
  unfolding add_filter_value clear_filters
  status_filters status s = add_filter_value e moment "status" (text status) (clear_filters s)

  unfoldable pub resolution_filters : String → Filtering → Result Filtering
  unfolding add_filter_value clear_filters
  resolution_filters status s =
      add_filter_value e moment "resolutionStatus" (text status) (clear_filters s) >>= λ t.
      add_filter_value e moment "status" (text "Resolved") t

  module _ (hash : Option Query → String) (nv : Bool) where
    -- A change of the filters, then `search`.
    unfoldable pub search_with :
        (Filtering → Result Filtering) → CasePage → Result (CasePage × List CaseCall)
    unfolding search_cases
    search_with change vm =
        change vm.filtering >>= λ s. search_cases e hash nv (record vm { filtering = s })

    -- Reading `login` or `organisation` of a user who is `null` throws.
    unfoldable pub as_user :
        (User → Filtering → Result Filtering)
        → Option User
        → CasePage
        → Result (CasePage × List CaseCall)
    unfolding search_with
    as_user change none vm = type_error
    as_user change (some u) vm = search_with (change u) vm

    unfoldable pub filter_my_cases : Option User → CasePage → Result (CasePage × List CaseCall)
    unfolding as_user only_filter
    filter_my_cases = as_user (λ u. only_filter (assignee_filter u))

    unfoldable pub filter_my_org_cases : Option User → CasePage → Result (CasePage × List CaseCall)
    unfolding as_user only_filter
    filter_my_org_cases = as_user (λ u. only_filter (organisation_filter "all" u))

    unfoldable pub filter_shared_with_my_org :
        Option User → CasePage → Result (CasePage × List CaseCall)
    unfolding as_user only_filter
    filter_shared_with_my_org = as_user (λ u. only_filter (organisation_filter "none" u))

    unfoldable pub filter_my_open_cases : Option User → CasePage → Result (CasePage × List CaseCall)
    unfolding as_user my_open_filters
    filter_my_open_cases = as_user my_open_filters

    unfoldable pub filter_by_status : String → CasePage → Result (CasePage × List CaseCall)
    unfolding search_with status_filters
    filter_by_status status = search_with (status_filters status)

    unfoldable pub filter_by_resolution_status :
        String → CasePage → Result (CasePage × List CaseCall)
    unfolding search_with resolution_filters
    filter_by_resolution_status status = search_with (resolution_filters status)
