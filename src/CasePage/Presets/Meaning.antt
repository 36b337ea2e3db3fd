-- ===== src/CasePage/Presets/Meaning.antt =====
-- What the named filters of CaseListCtrl.js select, over any server.
use neural_vyuha_prime.Common.{
  Bool, true, false, not, ◌&&◌, ◌||◌, Option, none, some, List, sym, [], ◌∷◌, eqb, if◌then◌else◌,
  Result, ok, type_error, ◌>>=◌, length, Number, ◌≡◌, refl, ◌∙◌, ap, and-true,
}
use neural_vyuha_prime.Query.{
  Query, Scalar, text, Filter, FieldDef, scalar, field_is, like, conjunction, of_list,
}
use neural_vyuha_prime.Query.Builder.{
  Engine, build_listed, combine, join, build_query_from_list_filter,
}
use neural_vyuha_prime.Query.Meaning.{Server}
use neural_vyuha_prime.Query.Dispatch.{
  build_filters_query, criteria, all_of, build_query_from_filter,
}
use neural_vyuha_prime.Filtering.{
  Filtering, own, contents, change, write, fields_of, build_query, clear_filters, add_filter,
}
use neural_vyuha_prime.Filtering.Values.{
  add_filter_value, filter_value, labelled_item, label_at, label_or, put_filter, find_index,
  listing,
}
use neural_vyuha_prime.CasePage.Presets.{User, assignee_filter, only_filter, my_open_filters}

abbrev pub with_filters : Filtering → List Filter → Filtering
with_filters s fs = record s { context = record (s.context) { filters = own (some fs) } }

-- The criterion for an organisation: with no known values of the attribute it is a `_like`.
abbrev pub organisation_criterion : List Scalar → User → Query
organisation_criterion vs u =
    let here = text u.organisation in
    if eqb (length vs) 0
    then like (some "owningOrganisation") here
    else field_is (some "owningOrganisation") (scalar here)

-- What building a query gives, for what is known of the organisation: an exception where nothing is.
abbrev pub built_if : Option FieldDef → Query → Result Query
built_if none q = type_error
built_if (some d) q = ok q

abbrev pub HasValues : Option FieldDef → Type 0
HasValues none = Unit
HasValues (some d) = (vs : List Scalar) × (d.values ≡ some vs)

abbrev open_filter : List Scalar → List Scalar → Filter
open_filter vs ls = record {
  field = some "status";
  type = some "enumeration";
  value = listing (record {
    text = text "Open";
    label = label_or (label_at vs ls (text "Open")) (text "Open");
  });
}

module _ (e : Engine) (moment : Scalar → Number) (u : User) (s : Filtering) (d : FieldDef)
    (vs ls : List Scalar) (known : fields_of s "status" ≡ some d)
    (type : d.type ≡ "enumeration") where
  my_open :
      d.values ≡ some vs
      → d.labels ≡ some ls
      → my_open_filters e moment u s
        ≡ ok (with_filters s (assignee_filter u ∷ open_filter vs ls ∷ []))
  unfolding my_open_filters only_filter add_filter clear_filters change write contents
      add_filter_value filter_value labelled_item put_filter find_index
  my_open values labels = rw (my_open_filters, add_filter_value, known, type, labels, values) refl

  build_my_open :
      build_query e (with_filters s (assignee_filter u ∷ open_filter vs ls ∷ []))
      ≡ ok (
          conjunction (
            of_list (
              field_is (some "assignee") (scalar (text u.login))
              ∷ field_is (some "status") (scalar (text "Open"))
              ∷ [])))
  unfolding build_query contents build_filters_query criteria all_of build_query_from_filter
      build_query_from_list_filter build_listed combine join
  build_my_open = refl

my_open-known :
    (e : Engine) (moment : Scalar → Number) (server : Server) (x : Server.Entity server) (u : User)
    (s : Filtering) (d : FieldDef) (vs ls : List Scalar)
    → fields_of s "status" ≡ some d
    → d.type ≡ "enumeration"
    → d.values ≡ some vs
    → d.labels ≡ some ls
    → (q : Query) × ((my_open_filters e moment u s >>= build_query e) ≡ ok q)
      × (Server.holds server q x ≡ (
          Server.holds server (field_is (some "assignee") (scalar (text u.login))) x
          && Server.holds server (field_is (some "status") (scalar (text "Open"))) x))
my_open-known e moment server x u s d vs ls known type values labels =
    let mine = field_is (some "assignee") (scalar (text u.login)) in
    let opened = field_is (some "status") (scalar (text "Open")) in
    (
      conjunction (of_list (mine ∷ opened ∷ [])),
      rw (my_open e moment u s d vs ls known type values labels)
          (build_my_open e moment u s d vs ls known type),
      Server.holds-conjunction server (mine ∷ opened ∷ []) x
          ∙ ap (λ b. Server.holds server mine x && b) (and-true _),
    )

my_open-unknown :
    (e : Engine) (moment : Scalar → Number) (u : User) (s : Filtering)
    → fields_of s "status" ≡ none
    → my_open_filters e moment u s ≡ ok (with_filters s (assignee_filter u ∷ []))
unfolding my_open_filters only_filter add_filter clear_filters change write contents
    add_filter_value
my_open-unknown e moment u s unknown = rw (my_open_filters, add_filter_value, unknown) refl

build_mine :
    (e : Engine) (u : User) (s : Filtering)
    → build_query e (with_filters s (assignee_filter u ∷ []))
      ≡ ok (field_is (some "assignee") (scalar (text u.login)))
unfolding build_query contents build_filters_query criteria all_of build_query_from_filter
    build_query_from_list_filter build_listed combine join
build_mine e u s = refl

-- What is known of the status: nothing, or that it is an enumeration with its values and labels.
abbrev pub IsEnumeration : Option FieldDef → Type 0
IsEnumeration none = Unit
IsEnumeration (some d) =
    (d.type ≡ "enumeration")
    × ((vs : List Scalar) × (d.values ≡ some vs))
    × ((ls : List Scalar) × (d.labels ≡ some ls))

abbrev pub is_known : Option FieldDef → Bool
is_known none = false
is_known (some d) = true

-- The query built from the filters of "my open cases": building it does not throw, where the status
-- is not known or is known as an enumeration with its values and labels, and at every server it
-- selects exactly the cases that are assigned to the user and, where the status is known, open. (With
-- the status unknown it selects closed ones too.)
pub my_open_filters-selects :
    (e : Engine) (moment : Scalar → Number) (server : Server) (x : Server.Entity server) (u : User)
    (s : Filtering) (r : Option FieldDef)
    → fields_of s "status" ≡ r
    → IsEnumeration r
    → (q : Query) × ((my_open_filters e moment u s >>= build_query e) ≡ ok q)
      × (Server.holds server q x ≡ (
          Server.holds server (field_is (some "assignee") (scalar (text u.login))) x
          && (not (is_known r)
              || Server.holds server (field_is (some "status") (scalar (text "Open"))) x)))
my_open_filters-selects e moment server x u s none unknown _ =
    let mine = field_is (some "assignee") (scalar (text u.login)) in
    (
      mine,
      rw (my_open-unknown e moment u s unknown) (build_mine e u s),
      sym (and-true (Server.holds server mine x)),
    )
my_open_filters-selects e moment server x u s (some d) known (type, (vs, values), (ls, labels)) =
    my_open-known e moment server x u s d vs ls known type values labels
