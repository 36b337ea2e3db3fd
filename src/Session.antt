-- ===== src/Session.antt =====
-- nv-ui/app/scripts/services/api/AuthenticationSrv.js, nv-ui/app/scripts/services/common/SecuritySrv.js
-- and the cache of nv-ui/app/scripts/services/api/UserSrv.js: who is logged in.
--
-- What a page does between a request and its answer can change the state, so that an answer comes with
-- the token that was read when its request was sent.
pub mod Tokens
mod Examples
use neural_vyuha_prime.Common.{
  ℕ, String, Bool, true, false, not, Option, none, some, List, [], ◌∷◌, filter, ◌==◌, if◌then◌else◌,
}
use neural_vyuha_prime.Filtering.{lookup}

pub record Account : Type 0 where
  pub login : String
  pub organisation : String
  pub permissions : List String
  pub token : Option String
  pub home_state : Option String

-- `token` is `nv_token` of local storage.
pub record Session : Type 0 where
  pub token : Option String
  pub current_user : Option Account
  pub user_cache : List (String × Account)

-- The request for the current user: its headers.
pub record CurrentRequest : Type 0 where
  pub organisation : Option String
  pub authorization : Option String

abbrev pub given : Option String → Option String
given none = none
given (some t) = if t == "" then none else some t

-- The answer to `login`, with the token that it has.
unfoldable pub on_login : Option String → Session → Session
on_login answered s = elim (given answered) [ none ↦ s | some t ↦ record s { token = some t } ]

-- `logout`, up to its request, and the good and the failed answer.
unfoldable pub logout : Session → Session
logout s = record s { token = none }

unfoldable pub on_logout : Session → Session
on_logout s = record s { current_user = none }

unfoldable pub on_logout_error : Session → Session
on_logout_error s = s

unfoldable pub current : Option String → Session → CurrentRequest
current organisation s = record { organisation = given organisation; authorization = given s.token }

-- `checkPermissions` of SecuritySrv.
unfoldable pub check_permissions : List String → List String → Bool
check_permissions allowed permissions = true

unfoldable pub has_permission : String → Session → Bool
unfolding check_permissions
has_permission permission s = elim s.current_user [
  | none ↦ false
  | some u ↦ check_permissions u.permissions (permission ∷ [])
]

unfoldable pub is_super_admin : Session → Bool
is_super_admin s = elim s.current_user [ none ↦ false | some u ↦ u.organisation == "admin" ]

-- The pages of the administration that an administrator may see, in the order of the tests.
abbrev pub first_permitted : Session → List (String × String) → Option String
first_permitted s [] = none
first_permitted s ((permission, page) ∷ pages) =
    let rest = first_permitted s pages in if has_permission permission s then some page else rest

abbrev pub administration : List (String × String)
administration =
    ("manageOrganisation", "app.administration.organisations")
    ∷ ("manageProfile", "app.administration.profiles")
    ∷ ("manageCustomField", "app.administration.custom-fields")
    ∷ ("manageAnalyzerTemplate", "app.administration.analyzer-templates")
    ∷ ("manageObservableTemplate", "app.administration.observables")
    ∷ ("managePlatform", "app.administration.platform")
    ∷ ("manageTaxonomy", "app.administration.taxonomies")
    ∷ ("managePattern", "app.administration.attackPatterns")
    ∷ []

unfoldable pub get_home_page : Session → Option String
unfolding is_super_admin has_permission
get_home_page s = if is_super_admin s then first_permitted s administration else some "app.index"

-- `updateCache`, `removeCache` and `clearCache` of UserSrv.
unfoldable pub remove_cache : String → Session → Session
remove_cache login s = record s {
  user_cache = filter (λ (c : String × Account). not (c.0 == login)) s.user_cache;
}

unfoldable pub update_cache : String → Account → Session → Session
update_cache login u s = record s {
  user_cache = (login, u) ∷ filter (λ (c : String × Account). not (c.0 == login)) s.user_cache;
}

unfoldable pub clear_cache : Session → Session
clear_cache s = record s { user_cache = [] }

-- `getCache`: the cached user, or a request for that user.
pub data CacheAnswer : Type 0 where
  resolved : Account → CacheAnswer
  get_user_info : String → CacheAnswer

unfoldable pub get_cache : String → Session → CacheAnswer
get_cache login s = elim (lookup s.user_cache login) [
  | none ↦ get_user_info login
  | some u ↦ resolved u
]

-- The answer to `loadCache`.
unfoldable pub on_users : List Account → Session → Session
unfolding update_cache
on_users [] s = s
on_users (u ∷ us) s = on_users us (update_cache u.login u s)

abbrev pub with_token : Option String → Account → Account
with_token none u = u
with_token (some t) u = record u { token = some t }

abbrev pub with_home : Account → Session → Session
with_home u s = record s { current_user = some (record u { home_state = get_home_page s }) }

-- The good answer to the request of `current`, and a failed one.
unfoldable pub on_current : CurrentRequest → Account → Session → Session
unfolding update_cache get_home_page
on_current r u s =
    let named = with_token r.authorization u in
    let signed_in = with_home named (record s { current_user = some named }) in
    update_cache u.login
      (record named { home_state = get_home_page (record s { current_user = some named }) })
      signed_in

unfoldable pub on_current_error : Session → Session
on_current_error s = record s { current_user = none }
