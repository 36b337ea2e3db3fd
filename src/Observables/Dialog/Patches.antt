-- ===== src/Observables/Dialog/Patches.antt =====
-- What the requests of the dialog ask for, observable by observable.
use neural_vyuha_prime.Common.{
  String, Bool, false, not, ◌&&◌, ◌||◌, ◌∙◌, none, some, List, [], ◌∷◌, ◌++◌, map, ◌==◌, ◌≡◌, refl,
  arith, if◌then◌else◌, length, filter, ltb, ◌≤◌,
}
use neural_vyuha_prime.Uniq.{elem, uniq}
use neural_vyuha_prime.Observables.{Observable}
use neural_vyuha_prime.Observables.Dialog.{
  Dialog, PostData, ObservablePatch, PatchRequest, pick_flags, kept_tags, has_tags,
  untagged_operation, tagged_operation, changes_tags, build_operations, post_data, save, or_empty,
}

-- The observables of an id among these.
abbrev pub of_id : String → List Observable → List Observable
of_id id os = filter (λ (o : Observable). o.id == id) os

-- The patches that the requests send for an id, in their order.
abbrev pub patches_for : String → List PatchRequest → List ObservablePatch
patches_for id [] = []
patches_for id (r ∷ rs) =
    if elem ◌==◌ id r.ids then r.patch ∷ patches_for id rs else patches_for id rs

-- The patch that one observable needs.
abbrev pub patch_of : Dialog → PostData → Observable → ObservablePatch
patch_of d p o =
    let flags = pick_flags d.can_update_data_type p in
    if changes_tags p
    then record flags { tags = some (kept_tags p (o.tags ++ or_empty p.add_tags)) }
    else flags

-- What the user asked for one observable, read off the dialog: each enabled value, the type only where
-- it can be changed; and where tags are to be added or removed, those that it has and the added
-- ones, without the removed ones, each once.
abbrev pub wanted_patch : Dialog → Observable → ObservablePatch
wanted_patch d o =
    let added = if d.enabled.add_tags then d.params.add_tags else [] in
    let removed = if d.enabled.remove_tags then d.params.remove_tags else [] in
    record {
      data_type =
          if d.can_update_data_type && d.enabled.data_type then some d.params.data_type else none;
      ioc = if d.enabled.ioc then some d.params.ioc else none;
      sighted = if d.enabled.sighted then some d.params.sighted else none;
      ignore_similarity =
          if d.enabled.ignore_similarity then some d.params.ignore_similarity else none;
      tlp = if d.enabled.tlp then some d.params.tlp else none;
      pap = if d.enabled.pap then some d.params.pap else none;
      tags =
          if d.enabled.add_tags || d.enabled.remove_tags
          then some (uniq ◌==◌ (filter (λ t. not (elem ◌==◌ t removed)) (o.tags ++ added)))
          else none;
    }

patch_of-wanted_patch :
    (d : Dialog) (o : Observable) → patch_of d (post_data d) o ≡ wanted_patch d o
patch_of-wanted_patch d o = ground arith

patches_for-append :
    (id : String) (rs ts : List PatchRequest)
    → patches_for id (rs ++ ts) ≡ patches_for id rs ++ patches_for id ts
patches_for-append id [] ts = refl
patches_for-append id (r ∷ rs) ts = ground (arith, patches_for-append id rs ts)

patches_for-tagged :
    (id : String) (f : ObservablePatch) (p : PostData) (os : List Observable)
    → patches_for id (map (tagged_operation f p) os)
      ≡ map (λ o. (tagged_operation f p o).patch) (of_id id os)
patches_for-tagged id f p [] = refl
patches_for-tagged id f p (o ∷ os) = ground (arith, patches_for-tagged id f p os)

elem-ids :
    (id : String) (os : List Observable)
    → elem ◌==◌ id (map (λ (o : Observable). o.id) os) ≡ ltb 0 (length (of_id id os))
elem-ids id [] = refl
elem-ids id (o ∷ os) = ground (arith, elem-ids id os)

of_id-filter :
    (id : String) (p : Observable → Bool) (os : List Observable)
    → of_id id (filter p os) ≡ filter p (of_id id os)
of_id-filter id p [] = refl
of_id-filter id p (o ∷ os) = ground (arith, of_id-filter id p os)

patches_for-untagged :
    (id : String) (f : ObservablePatch) (p : PostData) (os : List Observable)
    → patches_for id (untagged_operation f p os) ≡ (
        if ltb 0 (length (of_id id os))
        then record f { tags = some (kept_tags p (or_empty p.add_tags)) } ∷ []
        else [])
patches_for-untagged id f p [] = refl
patches_for-untagged id f p (o ∷ os) = rw (elem-ids id (o ∷ os)) refl

patches-one :
    (id : String) (d : Dialog) (p : PostData) (o : Observable)
    → of_id id d.selection ≡ o ∷ []
    → patches_for id (build_operations p d) ≡ patch_of d p o ∷ []
unfolding build_operations
patches-one id d p o one =
    let flags = pick_flags d.can_update_data_type p in
    let without = filter (λ (u : Observable). not (has_tags u)) d.selection in
    let with_tags = filter has_tags d.selection in
    ground (
      arith,
      patches_for-append id (untagged_operation flags p without)
          (map (tagged_operation flags p) with_tags),
      patches_for-untagged id flags p without,
      patches_for-tagged id flags p with_tags,
      of_id-filter id has_tags d.selection,
      of_id-filter id (λ (u : Observable). not (has_tags u)) d.selection,
      elem-ids id d.selection,
      no_tags o.tags,
    )
  where
    no_tags : (ts : List String) → ltb 0 (length ts) ≡ false → ts ≡ []
    no_tags [] h = refl
    no_tags (t ∷ ts) h = ground arith

patches-nobody :
    (id : String) (d : Dialog) (p : PostData)
    → of_id id d.selection ≡ []
    → patches_for id (build_operations p d) ≡ []
unfolding build_operations
patches-nobody id d p nobody =
    let flags = pick_flags d.can_update_data_type p in
    let without = filter (λ (u : Observable). not (has_tags u)) d.selection in
    let with_tags = filter has_tags d.selection in
    ground (
      arith,
      patches_for-append id (untagged_operation flags p without)
          (map (tagged_operation flags p) with_tags),
      patches_for-untagged id flags p without,
      patches_for-tagged id flags p with_tags,
      of_id-filter id has_tags d.selection,
      of_id-filter id (λ (u : Observable). not (has_tags u)) d.selection,
      elem-ids id d.selection,
    )

-- The requests of the dialog send, for an id that at most one of the selected observables has,
-- exactly one patch where one has it, what the user asked for this observable, and none otherwise.
pub patches_for-save :
    (id : String) (d : Dialog)
    → length (of_id id d.selection) ≤ 1
    → patches_for id (save d) ≡ map (wanted_patch d) (of_id id d.selection)
unfolding save
patches_for-save id d h = go (of_id id d.selection) refl h
  where
    go :
        (os : List Observable)
        → of_id id d.selection ≡ os
        → length os ≤ 1
        → patches_for id (build_operations (post_data d) d) ≡ map (wanted_patch d) os
    go [] e small = patches-nobody id d (post_data d) e
    go (o ∷ []) e small = patches-one id d (post_data d) o e ∙ rw (patch_of-wanted_patch d o) refl
    go (o ∷ u ∷ os) e small = absurd (omega arith)

-- The tags of an observable once a patch was applied to it.
abbrev pub tags_after : ObservablePatch → Observable → List String
tags_after p o = elim p.tags [ none ↦ o.tags | some ts ↦ ts ]
