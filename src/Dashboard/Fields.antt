-- ===== src/Dashboard/Fields.antt =====
-- The metadata of DashboardSrv.js: fields by their types, attributes by their names, and the cache.
use neural_vyuha_prime.Common.{
  String, Bool, not, ◌||◌, Option, none, some, List, [], ◌∷◌, filter, any, ◌==◌, if◌then◌else◌, ◌≡◌,
  refl, ◌∙◌, arith, eq_iff, Bool-cases, inl, inr,
}
use neural_vyuha_prime.Filtering.{lookup}

pub record Attribute : Type 0 where
  pub name : String
  pub type : String

abbrev pub has_type : List String → Attribute → Bool
has_type types a = any (λ t. t == a.type) types

unfoldable pub skip_fields : List Attribute → List String → List Attribute
skip_fields fields types = filter (λ (a : Attribute). not (has_type types a)) fields

unfoldable pub pick_fields : List Attribute → List String → List Attribute
pick_fields fields types = filter (has_type types) fields

unfoldable pub fields_for_aggregation : List Attribute → String → List Attribute
unfolding pick_fields
fields_for_aggregation fields agg =
    if agg == "count"
    then []
    else if agg == "sum" || agg == "avg"
    then pick_fields fields ("number" ∷ "integer" ∷ "float" ∷ [])
    else fields

-- `obj[key] = item`: a key that is there keeps its place.
abbrev pub put : {A : Type 0} → String → A → List (String × A) → List (String × A)
put k a [] = (k, a) ∷ []
put k a ((j, b) ∷ m) = let rest = put k a m in if j == k then (j, a) ∷ m else (j, b) ∷ rest

abbrev pub objectify : List Attribute → List (String × Attribute) → List (String × Attribute)
objectify [] m = m
objectify (a ∷ as') m = objectify as' (put a.name a m)

-- `_objectifyBy(attributes, 'name')`
unfoldable pub objectify_by_name : List Attribute → List (String × Attribute)
objectify_by_name attributes = objectify attributes []

-- `this.metadata` of a version, `null` until it was loaded: the cached metadata, or the request.
pub data MetadataAnswer (M : Type 0) : Type 0 where
  resolved : M → MetadataAnswer M
  describe_all : String → MetadataAnswer M

pub record MetadataCache (M : Type 0) : Type 0 where
  pub v0 : Option M
  pub v1 : Option M

abbrev pub version_of : Option String → String
version_of none = "v0"
version_of (some v) = if v == "" then "v0" else v

module _ {M : Type 0} where
  abbrev pub cached : String → MetadataCache M → Option M
  cached version c = if version == "v1" then c.v1 else c.v0

  -- The versions are "v0" and "v1".
  unfoldable pub get_metadata : Option String → MetadataCache M → MetadataAnswer M
  get_metadata version c = elim (cached (version_of version) c) [
    | none ↦ describe_all (version_of version)
    | some m ↦ resolved m
  ]

  unfoldable pub on_described : String → M → MetadataCache M → MetadataCache M
  on_described version m c =
      if version == "v1" then record c { v1 = some m } else record c { v0 = some m }

-- The last attribute of a name.
abbrev pub last_named : String → List Attribute → Option Attribute
last_named k [] = none
last_named k (a ∷ as') = elim (last_named k as') [
  | some b ↦ some b
  | none ↦ if a.name == k then some a else none
]

lookup-put :
    (k j : String) (a : Attribute) (m : List (String × Attribute))
    → lookup (put k a m) j ≡ (if k == j then some a else lookup m j)
lookup-put k j a [] = refl
lookup-put k j a ((i, b) ∷ m) =
    ground (arith, lookup-put k j a m, eq_iff i k, eq_iff i j, eq_iff k j)

abbrev or_else : Option Attribute → Option Attribute → Option Attribute
or_else (some a) b = some a
or_else none b = b

lookup-objectify :
    (k : String) (attributes : List Attribute) (m : List (String × Attribute))
    → lookup (objectify attributes m) k ≡ or_else (last_named k attributes) (lookup m k)
lookup-objectify k [] m = refl
lookup-objectify k (a ∷ as') m =
    lookup-objectify k as' (put a.name a m) ∙ go (last_named k as') refl
  where
    go :
        (r : Option Attribute)
        → last_named k as' ≡ r
        → or_else (last_named k as') (lookup (put a.name a m) k)
          ≡ or_else (last_named k (a ∷ as')) (lookup m k)
    go none e = elim (Bool-cases (a.name == k)) [
      | inl same ↦ rw (e, same, lookup-put a.name k a m) (rw same)
      | inr other ↦ rw (e, other, lookup-put a.name k a m) (rw other)
    ]
    go (some b) e = rw e

-- The object of the attributes has under each name the last attribute of that name.
pub lookup-objectify_by_name :
    (k : String) (attributes : List Attribute)
    → lookup (objectify_by_name attributes) k ≡ last_named k attributes
unfolding objectify_by_name
lookup-objectify_by_name k attributes =
    lookup-objectify k attributes [] ∙ go (last_named k attributes)
  where
    go : (r : Option Attribute) → or_else r none ≡ r
    go none = refl
    go (some b) = refl
