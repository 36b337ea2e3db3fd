-- ===== src/Query.antt =====
-- The data of the search filters: values, filters, field definitions and the criteria objects that
-- nv-ui/app/scripts/services/common/QueryBuilderSrv.js builds from them.
pub mod Builder
pub mod Dispatch
pub mod Meaning
pub mod Dates
pub mod Throwing
pub mod Pipeline
pub mod Examples
use neural_vyuha_prime.Common.{ℕ, String, Bool, Option, none, some, List, [], ◌∷◌, true, false}
use neural_vyuha_prime.Common.{◌==◌, Number, nan, whole, ℤ, pos, negsuc, if◌then◌else◌, eqb}
use mathlib.Core.Bool.{beq}

pub data Scalar : Type 0 where
  boolean : Bool → Scalar
  number : Number → Scalar
  text : String → Scalar

-- An entry of a filter's list.
pub record Item : Type 0 where
  pub text : Scalar
  pub label : Scalar

-- A bound of a date filter: missing (`null` or `undefined`), a text, or a Date by its time.
pub data DateValue : Type 0 where
  missing : DateValue
  iso : String → DateValue
  date : Number → DateValue

-- `value` of a filter where it is an object. A field that the object lacks is `none`.
pub record FilterObject : Type 0 where
  pub operator : Option String
  pub value : Option Scalar
  pub list : Option (List Item)
  pub from : DateValue
  pub to : DateValue

pub data Value : Type 0 where
  undefined null : Value
  scalar : Scalar → Value
  object : FilterObject → Value

-- `field` and `type` are `null` in a filter that was just added.
pub record Filter : Type 0 where
  pub field : Option String
  pub type : Option String
  pub value : Value

-- The metadata of an attribute; `values` is `undefined` for some.
pub record FieldDef : Type 0 where
  pub type : String
  pub values : Option (List Scalar)
  pub labels : Option (List Scalar)

-- The attributes of an entity, by name.
abbrev pub Fields : Type 0
Fields = String → Option FieldDef

pub data Comparison : Type 0 where
  lt lte gt gte : Comparison

-- The criteria. `keyed f v` is `{[f]: v}`, `compares gt f v` is `{_gt: {[f]: v}}`, and `everything`
-- is `{}`.
mutual
  pub data Query : Type 0 where
    everything : Query
    field_is : Option String → Value → Query
    keyed : String → Value → Query
    compares : Comparison → String → Value → Query
    contains : Option String → Query
    like : Option String → Scalar → Query
    between : Option String → Number → Number → Query
    string_query : String → Query
    negation : Query → Query
    conjunction : Queries → Query
    disjunction : Queries → Query

  pub data Queries : Type 0 where
    nil : Queries
    cons : Query → Queries → Queries

abbrev pub of_list : List Query → Queries
of_list [] = nil
of_list (q ∷ qs) = cons q (of_list qs)

-- `!v` is false.
abbrev pub is_truthy_scalar : Scalar → Bool
is_truthy_scalar (boolean b) = b
is_truthy_scalar (number nan) = false
is_truthy_scalar (number (whole (pos ℕ.zero))) = false
is_truthy_scalar (number _) = true
is_truthy_scalar (text s) = if s == "" then false else true

abbrev pub is_truthy : Value → Bool
is_truthy undefined = false
is_truthy null = false
is_truthy (scalar s) = is_truthy_scalar s
is_truthy (object o) = true

-- `o || d` for an optional text: the empty text counts as missing.
abbrev pub or_default : Option String → String → String
or_default none d = d
or_default (some s) d = if s == "" then d else s

-- A `null` used as a property name is the text "null".
abbrev pub key_of : Option String → String
key_of none = "null"
key_of (some s) = s

-- `x === s` for a field that may be `null`.
abbrev pub is_text : Option String → String → Bool
is_text none s = false
is_text (some t) s = t == s

-- `===` of two numbers: NaN equals nothing.
abbrev pub number_eq : Number → Number → Bool
number_eq (whole (pos m)) (whole (pos n)) = eqb m n
number_eq (whole (negsuc m)) (whole (negsuc n)) = eqb m n
number_eq _ _ = false

abbrev pub scalar_eq : Scalar → Scalar → Bool
scalar_eq (boolean a) (boolean b) = beq a b
scalar_eq (number a) (number b) = number_eq a b
scalar_eq (text a) (text b) = a == b
scalar_eq _ _ = false
