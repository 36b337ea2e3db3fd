-- ===== src/Observables/Dialog.antt =====
-- nv-ui/app/scripts/controllers/case/ObservableUpdateCtrl.js: the dialog that changes the selected
-- observables, and the requests that come of it.
pub mod Patches
use neural_vyuha_prime.Common.{
  ℕ, String, Bool, true, false, not, ◌&&◌, Option, none, some, List, [], ◌∷◌, ◌++◌, map, ◌==◌,
  if◌then◌else◌, length, filter, ltb,
}
use neural_vyuha_prime.Uniq.{elem, uniq}
use neural_vyuha_prime.Observables.{Observable}

-- `state` without `all`.
pub record Enabled : Type 0 where
  pub data_type : Bool
  pub tlp : Bool
  pub pap : Bool
  pub ioc : Bool
  pub sighted : Bool
  pub ignore_similarity : Bool
  pub add_tags : Bool
  pub remove_tags : Bool

-- The tags are the texts of those that the fields hold: none where a field was never touched.
pub record EditParams : Type 0 where
  pub data_type : Option String
  pub ioc : Bool
  pub sighted : Bool
  pub ignore_similarity : Bool
  pub tlp : ℕ
  pub pap : ℕ
  pub add_tags : List String
  pub remove_tags : List String

pub record Dialog : Type 0 where
  pub selection : List Observable
  pub data_types : List String
  pub all : Bool
  pub enabled : Enabled
  pub params : EditParams
  pub can_update_data_type : Bool

-- Which properties the object of `save` has, and their values.
pub record PostData : Type 0 where
  pub data_type : Option (Option String)
  pub ioc : Option Bool
  pub sighted : Option Bool
  pub ignore_similarity : Option Bool
  pub tlp : Option ℕ
  pub pap : Option ℕ
  pub add_tags : Option (List String)
  pub remove_tags : Option (List String)

pub record ObservablePatch : Type 0 where
  pub data_type : Option (Option String)
  pub ioc : Option Bool
  pub sighted : Option Bool
  pub ignore_similarity : Option Bool
  pub tlp : Option ℕ
  pub pap : Option ℕ
  pub tags : Option (List String)

-- The request that changes the observables of these ids.
pub record PatchRequest : Type 0 where
  pub ids : List String
  pub patch : ObservablePatch

abbrev pub enabled_everywhere : Bool → Bool → Enabled
enabled_everywhere on data_type = record {
  data_type = data_type;
  tlp = on;
  pap = on;
  ioc = on;
  sighted = on;
  ignore_similarity = on;
  add_tags = on;
  remove_tags = on;
}

-- The type can be changed where all have the same, and it is one that the dialog lists.
abbrev pub is_one_type : List String → List String → Bool
is_one_type (t ∷ []) listed = elem ◌==◌ t listed
is_one_type _ listed = false

unfoldable pub open_dialog : List Observable → List String → Dialog
open_dialog chosen listed = record {
  selection = chosen;
  data_types = listed;
  all = false;
  enabled = enabled_everywhere false false;
  params = record {
    data_type = none;
    ioc = false;
    sighted = false;
    ignore_similarity = false;
    tlp = 2;
    pap = 2;
    add_tags = [];
    remove_tags = [];
  };
  can_update_data_type =
      is_one_type (uniq ◌==◌ (map (λ (o : Observable). o.data_type) chosen)) listed;
}

unfoldable pub toggle_all : Dialog → Dialog
toggle_all d =
    let on = not d.all in
    record d {
      all = on;
      enabled = enabled_everywhere on (if d.can_update_data_type then on else d.enabled.data_type);
    }

unfoldable pub toggle_ioc : Dialog → Dialog
toggle_ioc d = record d {
  params = record (d.params) { ioc = not d.params.ioc };
  enabled = record (d.enabled) { ioc = true };
}

unfoldable pub toggle_sighted : Dialog → Dialog
toggle_sighted d = record d {
  params = record (d.params) { sighted = not d.params.sighted };
  enabled = record (d.enabled) { sighted = true };
}

unfoldable pub toggle_ignore_similarity : Dialog → Dialog
toggle_ignore_similarity d = record d {
  params = record (d.params) { ignore_similarity = not d.params.ignore_similarity };
  enabled = record (d.enabled) { ignore_similarity = true };
}

unfoldable pub toggle_pap : ℕ → Dialog → Dialog
toggle_pap value d = record d {
  params = record (d.params) { pap = value };
  enabled = record (d.enabled) { pap = true };
}

unfoldable pub toggle_tlp : ℕ → Dialog → Dialog
toggle_tlp value d = record d {
  params = record (d.params) { tlp = value };
  enabled = record (d.enabled) { tlp = true };
}

-- `toggleDataType`, which the list calls after it has set the type.
unfoldable pub toggle_data_type : Option String → Dialog → Dialog
toggle_data_type none d = record d {
  params = record (d.params) { data_type = none };
  enabled = record (d.enabled) { data_type = false };
}
toggle_data_type (some t) d =
    if t == ""
    then record d {
      params = record (d.params) { data_type = none };
      enabled = record (d.enabled) { data_type = false };
    }
    else record d {
      params = record (d.params) { data_type = some t };
      enabled = record (d.enabled) { data_type = true };
    }

-- `fromTagLibrary`, with the tags that were chosen there.
unfoldable pub add_from_library : List String → Dialog → Dialog
add_from_library tags d = record d {
  params = record (d.params) { add_tags = d.params.add_tags ++ tags };
  enabled = record (d.enabled) { add_tags = true };
}

unfoldable pub remove_from_library : List String → Dialog → Dialog
remove_from_library tags d = record d {
  params = record (d.params) { remove_tags = d.params.remove_tags ++ tags };
  enabled = record (d.enabled) { remove_tags = true };
}

abbrev pub if_enabled : {A : Type 0} → Bool → A → Option A
if_enabled on a = if on then some a else none

abbrev pub or_empty : Option (List String) → List String
or_empty none = []
or_empty (some ts) = ts

-- The flags of a patch that leaves the tags alone.
abbrev pub pick_flags : Bool → PostData → ObservablePatch
pick_flags can_update p = record {
  data_type = if can_update then p.data_type else none;
  ioc = p.ioc;
  sighted = p.sighted;
  ignore_similarity = p.ignore_similarity;
  tlp = p.tlp;
  pap = p.pap;
  tags = none;
}

-- The tags `ts` without those to remove, each once.
abbrev pub kept_tags : PostData → List String → List String
kept_tags p ts = uniq ◌==◌ (filter (λ t. not (elem ◌==◌ t (or_empty p.remove_tags))) ts)

abbrev pub has_tags : Observable → Bool
has_tags o = ltb 0 (length o.tags)

-- `categorizeObservables`: those with tags, and those without.
abbrev pub categorize : List Observable → List Observable × List Observable
categorize os = (filter has_tags os, filter (λ o. not (has_tags o)) os)

abbrev pub untagged_operation : ObservablePatch → PostData → List Observable → List PatchRequest
untagged_operation flags p [] = []
untagged_operation flags p (o ∷ os) =
    record {
      ids = map (λ (u : Observable). u.id) (o ∷ os);
      patch = record flags { tags = some (kept_tags p (or_empty p.add_tags)) };
    }
    ∷ []

abbrev pub tagged_operation : ObservablePatch → PostData → Observable → PatchRequest
tagged_operation flags p o = record {
  ids = o.id ∷ [];
  patch = record flags { tags = some (kept_tags p (o.tags ++ or_empty p.add_tags)) };
}

-- Tags are changed where the object has one of the two lists, also an empty one.
abbrev pub changes_tags : PostData → Bool
changes_tags p = elim p.add_tags [
  | some _ ↦ true
  | none ↦ elim p.remove_tags [ some _ ↦ true | none ↦ false ]
]

unfoldable pub build_operations : PostData → Dialog → List PatchRequest
build_operations p d =
    let flags = pick_flags d.can_update_data_type p in
    let parts = categorize d.selection in
    if changes_tags p
    then untagged_operation flags p parts.1 ++ map (tagged_operation flags p) parts.0
    else record { ids = map (λ (o : Observable). o.id) d.selection; patch = flags } ∷ []

abbrev pub post_data : Dialog → PostData
post_data d = record {
  data_type = if_enabled (d.enabled.data_type && d.can_update_data_type) d.params.data_type;
  ioc = if_enabled d.enabled.ioc d.params.ioc;
  sighted = if_enabled d.enabled.sighted d.params.sighted;
  ignore_similarity = if_enabled d.enabled.ignore_similarity d.params.ignore_similarity;
  tlp = if_enabled d.enabled.tlp d.params.tlp;
  pap = if_enabled d.enabled.pap d.params.pap;
  add_tags = if_enabled d.enabled.add_tags d.params.add_tags;
  remove_tags = if_enabled d.enabled.remove_tags d.params.remove_tags;
}

unfoldable pub save : Dialog → List PatchRequest
unfolding build_operations
save d = build_operations (post_data d) d
