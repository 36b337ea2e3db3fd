-- ===== src/Session/Tokens.antt =====
-- Whose token is used, and where a user starts.
use neural_vyuha_prime.Common.{
  String, Bool, true, false, not, Option, none, some, List, [], ◌∷◌, filter, ◌==◌, if◌then◌else◌,
  ◌≡◌, refl, ◌∙◌, ap, arith, eq_iff, Bool-cases, inl, inr,
}
use neural_vyuha_prime.Filtering.{lookup}
use neural_vyuha_prime.Session.{
  Account, Session, logout, on_logout, on_logout_error, current, check_permissions, has_permission,
  is_super_admin, get_home_page, update_cache, on_users, on_current, given, with_token,
}

-- The home page does not depend on the permissions of the user: it is that of the organisations for
-- the organisation "admin", and the index for all others.
pub get_home_page_lem :
    (s : Session) (u : Account)
    → s.current_user ≡ some u
    → get_home_page s
      ≡ some (if u.organisation == "admin" then "app.administration.organisations" else "app.index")
unfolding get_home_page is_super_admin has_permission check_permissions
get_home_page_lem s u signed_in = elim (Bool-cases (u.organisation == "admin")) [
  | inl admin ↦ rw (signed_in, admin) refl
  | inr other ↦ rw (signed_in, other) refl
]

-- The last user of a login.
abbrev pub last_of : String → List Account → Option Account
last_of login [] = none
last_of login (u ∷ us) = elim (last_of login us) [
  | some v ↦ some v
  | none ↦ if u.login == login then some u else none
]

abbrev pub or_cached : Option Account → Option Account → Option Account
or_cached (some u) c = some u
or_cached none c = c

other_way : (a b : String) → (a == b) ≡ false → (b == a) ≡ false
other_way a b h = ground (arith, eq_iff a b, eq_iff b a)

lookup-filter :
    (login other : String) (m : List (String × Account))
    → (other == login) ≡ false
    → lookup (filter (λ (c : String × Account). not (c.0 == login)) m) other ≡ lookup m other
lookup-filter login other [] h = refl
lookup-filter login other ((k, u) ∷ m) h =
    ground
      (arith, lookup-filter login other m h, eq_iff k login, eq_iff k other, eq_iff other login)

lookup-update_cache :
    (login other : String) (u : Account) (s : Session)
    → lookup (update_cache login u s).user_cache other
      ≡ (if login == other then some u else lookup s.user_cache other)
unfolding update_cache
lookup-update_cache login other u s = elim (Bool-cases (login == other)) [
  | inl same ↦ rw same
  | inr differs ↦
      rw differs (lookup-filter login other s.user_cache (other_way login other differs))
]

-- After the users were loaded, the cache has for each login the last user of that login, and what it
-- had before for the others.
pub lookup-on_users :
    (login : String) (us : List Account) (s : Session)
    → lookup (on_users us s).user_cache login
      ≡ or_cached (last_of login us) (lookup s.user_cache login)
unfolding on_users
lookup-on_users login [] s = refl
lookup-on_users login (u ∷ us) s =
    lookup-on_users login us (update_cache u.login u s) ∙ go (last_of login us) refl
  where
    go :
        (r : Option Account)
        → last_of login us ≡ r
        → or_cached (last_of login us) (lookup (update_cache u.login u s).user_cache login)
          ≡ or_cached (last_of login (u ∷ us)) (lookup s.user_cache login)
    go (some v) e = rw e
    go none e = elim (Bool-cases (u.login == login)) [
      | inl same ↦ rw (e, same)
      | inr other ↦
          rw (e, other) (lookup-filter u.login login s.user_cache (other_way u.login login other))
    ]

-- An answer that was asked for before the user logged out, and comes after that, signs the user in
-- again: with the old token, also where the server had accepted the logout.
pub on_current-after_logout :
    (organisation : Option String) (accepted : Bool) (u : Account) (t : String) (s : Session)
    → given s.token ≡ some t
    → let left = (if accepted then on_logout else on_logout_error) (logout s) in
      let back = on_current (current organisation s) u left in
      (back.token ≡ none)
      × ((v : Account) × (back.current_user ≡ some v) × (v.token ≡ some t) × (v.login ≡ u.login))
unfolding on_logout on_logout_error logout on_current current update_cache
on_current-after_logout organisation true u t s had =
    (refl, (_, refl, ap (λ r. (with_token r u).token) had, ap (λ r. (with_token r u).login) had))
on_current-after_logout organisation false u t s had =
    (refl, (_, refl, ap (λ r. (with_token r u).token) had, ap (λ r. (with_token r u).login) had))
