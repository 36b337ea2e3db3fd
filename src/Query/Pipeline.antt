-- ===== src/Query/Pipeline.antt =====
-- nv-ui/app/scripts/services/common/QuerySrv.js: the requests that list and count entities.
use neural_vyuha_prime.Common.{
  String, Bool, Option, none, some, List, [], ◌∷◌, ◌++◌, map, ◌==◌, eqb, if◌then◌else◌, ℤ,
}
use neural_vyuha_prime.Query.{Query, everything}
use Prim.Native.Char.{code}
use Prim.Native.String

-- An entry of `_fields`; an item with no sign becomes `{}`.
pub data SortField : Type 0 where
  desc asc : String → SortField
  unsorted : SortField

pub record Page : Type 0 where
  pub from : ℤ
  pub to : ℤ
  pub extra_data : Option (List String)

-- The operations of a query, in the order of the array. `named` is one that the caller wrote.
pub data Operation : Type 0 where
  named : String → List (String × String) → Operation
  filter_by : Query → Operation
  sort_by : List SortField → Operation
  page_of : Page → Operation

-- `options.sort` is a text or an array.
pub data SortOption : Type 0 where
  one : String → SortOption
  many : List String → SortOption

-- The part of the $http options in use: `params.name`, and what else was given.
pub record HttpConfig : Type 0 where
  pub name : Option String
  pub settings : List (String × String)

pub record Options : Type 0 where
  pub filter : Option Query
  pub sort : Option SortOption
  pub page : Option Page
  pub name : Option String
  pub config : Option HttpConfig
  pub limited_count : Bool

pub record Request : Type 0 where
  pub url : String
  pub query : List Operation
  pub config : HttpConfig

-- One item of `_buildSort`.
unfoldable pub sort_field : String → SortField
sort_field String.[] = unsorted
sort_field (String.◌∷◌ c s) =
    if eqb (code c) b'-' then desc s else if eqb (code c) b'+' then asc s else unsorted

unfoldable pub build_sort : SortOption → List SortField
unfolding sort_field
build_sort (one s) = sort_field s ∷ []
build_sort (many ss) = map sort_field ss

-- The operation that a filter adds: none for a filter that is missing or empty.
unfoldable pub filter_operations : Option Query → List Operation
filter_operations none = []
filter_operations (some everything) = []
filter_operations (some q) = filter_by q ∷ []

-- `options.sort` is falsy where it is missing or the empty text.
unfoldable pub sort_operations : Option SortOption → List Operation
unfolding build_sort
sort_operations none = []
sort_operations (some (one s)) = if s == "" then [] else sort_by (build_sort (one s)) ∷ []
sort_operations (some (many ss)) = sort_by (build_sort (many ss)) ∷ []

unfoldable pub page_operations : Option Page → List Operation
page_operations none = []
page_operations (some p) = page_of p ∷ []

-- `config.params.name`, then `_.extend` by the caller's options.
unfoldable pub http_config : Option String → String → Option HttpConfig → HttpConfig
http_config none suffix none = record { name = none; settings = [] }
http_config none suffix (some c) = c
http_config (some n) suffix none =
    if n == ""
    then record { name = none; settings = [] }
    else record { name = some (String.◌++◌ n suffix); settings = [] }
http_config (some n) suffix (some c) = elim c.name [
  | none ↦
      if n == "" then c else record { name = some (String.◌++◌ n suffix); settings = c.settings }
  | some m ↦ c
]

unfoldable pub query : String → List Operation → HttpConfig → Request
query version operations config = record {
  url = String.◌++◌ "./api/" (String.◌++◌ version "/query");
  query = operations;
  config = config;
}

-- The request of `call`; its promise gives the data of the response.
unfoldable pub call : String → List Operation → Options → Request
unfolding query filter_operations sort_operations page_operations http_config
call version selector o =
    query version
      (selector
        ++ (filter_operations o.filter ++ (sort_operations o.sort ++ page_operations o.page)))
      (http_config o.name "" o.config)

abbrev pub count_operation : Bool → Operation
count_operation limited = named (if limited then "limitedCount" else "count") []

unfoldable pub count : String → List Operation → Options → Request
unfolding query filter_operations http_config
count version selector o =
    query version (selector ++ (filter_operations o.filter ++ count_operation o.limited_count ∷ []))
      (http_config o.name ".count" o.config)
