-- ===== src/CasePage/Service.antt =====
-- nv-ui/app/scripts/services/api/CaseSrv.js: the names of statuses here and at the nv-query service,
-- and the list of cases from that service.
use neural_vyuha_prime.Common.{
  ℕ, String, true, false, ◌||◌, Option, none, some, List, [], ◌∷◌, ◌==◌, ◌*◌, ◌-◌, eqb, ltb,
  if◌then◌else◌, ◌≡◌, refl, arith, eq_iff, Bool-cases, inl, inr,
}
use neural_vyuha_prime.Query.{Scalar, text, Filter, Value, object, is_text, scalar_eq}
use neural_vyuha_prime.CasePage.{CaseRow, CaseConfig, CaseAdapter, CasesParams, CaseCall, get_cases}

-- The status in an update, and that of a case of the service.
unfoldable pub to_service_status : String → String
to_service_status s =
    if s == "Resolved" || s == "Closed"
    then "CLOSED"
    else if s == "InProgress"
    then "IN_PROGRESS"
    else if s == "Open"
    then "OPEN"
    else s

unfoldable pub from_service_status : String → String
from_service_status s =
    if s == "CLOSED"
    then "Resolved"
    else if s == "IN_PROGRESS"
    then "InProgress"
    else if s == "OPEN"
    then "Open"
    else s

-- A status that is set comes back as it was set, unless it is "Closed" or a word of the service.
pub from_service_status-to_service_status :
    (s : String)
    → (s == "Closed" || s == "CLOSED" || s == "IN_PROGRESS" || s == "OPEN") ≡ false
    → from_service_status (to_service_status s) ≡ s
unfolding to_service_status from_service_status
from_service_status-to_service_status s h = elim (Bool-cases (s == "Resolved")) [
  | inl r ↦ let e = (eq_iff s "Resolved").0 r in rw e refl
  | inr not_r ↦ elim (Bool-cases (s == "InProgress")) [
    | inl p ↦ let e = (eq_iff s "InProgress").0 p in rw e refl
    | inr not_p ↦ elim (Bool-cases (s == "Open")) [
      | inl o ↦ let e = (eq_iff s "Open").0 o in rw e refl
      | inr not_o ↦ ground arith
    ]
  ]
]

-- `_.find(filters, {field: 'status'})`
abbrev pub status_filter_of : List Filter → Option Filter
status_filter_of [] = none
status_filter_of (f ∷ fs) =
    let rest = status_filter_of fs in if is_text f.field "status" then some f else rest

abbrev pub first_text : Value → Option Scalar
first_text (object o) = elim o.list [ none ↦ none | some [] ↦ none | some (i ∷ is') ↦ some i.text ]
first_text _ = none

abbrev pub status_of_text : Option Scalar → Option String
status_of_text none = none
status_of_text (some s) =
    if scalar_eq s (text "Resolved") || scalar_eq s (text "Closed")
    then some "CLOSED"
    else if scalar_eq s (text "Open") || scalar_eq s (text "InProgress")
    then some "OPEN"
    else none

abbrev pub requested_status : Option (List Filter) → Option String
requested_status none = none
requested_status (some fs) = elim (status_filter_of fs) [
  | none ↦ none
  | some f ↦ status_of_text (first_text f.value)
]

abbrev pub size_or_15 : ℕ → ℕ
size_or_15 n = if eqb n 0 then 15 else n

abbrev pub offset_of : CaseConfig → ℕ
offset_of c = elim c.current_page [
  | none ↦ 0
  | some p ↦ if ltb 1 p then (p - 1) * size_or_15 c.page_size else 0
]

unfoldable pub case_params : CaseConfig → CasesParams
case_params c = record {
  limit = size_or_15 c.page_size;
  offset = offset_of c;
  status = requested_status c.filters;
}

-- `update` of the adapter, up to its request.
unfoldable pub update_case_adapter : CaseAdapter → CaseAdapter × List CaseCall
unfolding case_params
update_case_adapter a = (record a { loading = true }, get_cases (case_params a.config) ∷ [])

-- A case of the service, and the row that the adapter makes of it: without a flag and `extraData`.
pub record ServiceCase : Type 0 where
  pub case_id : String
  pub title : String
  pub status : String

unfoldable pub row_of : ServiceCase → CaseRow
unfolding from_service_status
row_of c = record {
  id = c.case_id;
  title = c.title;
  status = from_service_status c.status;
  flag = none;
  permissions = none;
  selected = false;
}
