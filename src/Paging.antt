-- ===== src/Paging.antt =====
-- nv-ui/app/scripts/services/common/data/PaginatedQuerySrv.js: a list of entities that is loaded
-- and shown page by page.
pub mod Slices
pub mod Loading
pub mod Pages
pub mod Examples
use neural_vyuha_prime.Common.{
  ℕ, String, Bool, true, false, not, ◌&&◌, ◌||◌, Option, none, some, List, [], ◌∷◌, ◌*◌, ◌-◌, ◌==◌,
  if◌then◌else◌, length, take, drop, pos, sub_ℕ, eqb,
}
use neural_vyuha_prime.Query.{Query, everything, conjunction, of_list}
use neural_vyuha_prime.Query.Pipeline.{
  Operation, SortOption, HttpConfig, Page, Options, Request, call, count,
}

-- The options that stay as they were given.
pub record Settings : Type 0 where
  pub version : String
  pub operations : List Operation
  pub load_all : Bool
  pub sort : Option SortOption
  pub name : Option String
  pub config : Option HttpConfig
  pub limited_count : Bool
  pub extra_data : Option (List String)

pub record PagedQuery (A : Type 0) : Type 0 where
  pub values : List A
  pub all_values : List A
  pub total : ℕ
  pub current_page : ℕ
  pub page_size : ℕ
  pub base_filter : Option Query
  pub filter : Option Query
  pub filter_hash : Option String
  pub loading : Bool
  pub loading_count : Bool

-- What a method does beside changing the object: requests to the server, and calls of `onUpdate`
-- and `onFailure`.
pub data Effect : Type 0 where
  list_request count_request : Request → Effect
  updated failed : Effect

abbrev pub is_empty : Option Query → Bool
is_empty none = true
is_empty (some everything) = true
is_empty (some q) = false

-- `getFilter`. Where both filters are empty the source gives `[]`, which the requests skip as they
-- skip `{}`.
unfoldable pub get_filter : Option Query → Option Query → Option Query
get_filter none none = none
get_filter none (some f) = if is_empty (some f) then some everything else some f
get_filter (some b) none = if is_empty (some b) then some everything else some b
get_filter (some b) (some f) =
    if is_empty (some b)
    then (if is_empty (some f) then some everything else some f)
    else if is_empty (some f)
    then some b
    else some (conjunction (of_list (b ∷ f ∷ [])))

-- `slice(start, end)` of an array, for the bounds that pages have.
abbrev pub slice {ℓ} : {A : Type ℓ} → ℕ → ℕ → List A → List A
slice from to xs = take (to - from) (drop from xs)

abbrev pub page_end : {A : Type 0} → PagedQuery A → ℕ
page_end p = p.current_page * p.page_size

same_hash : Option String → String → Bool
same_hash none h = false
same_hash (some g) h = g == h

module _ {A : Type 0} (s : Settings) where
  unfoldable pub get_page : PagedQuery A → Option Page
  get_page p =
      if s.load_all
      then none
      else some (record {
        from = sub_ℕ (page_end p) p.page_size;
        to = pos (page_end p);
        extra_data = s.extra_data;
      })

  unfoldable pub list_options : PagedQuery A → Options
  unfolding get_filter get_page
  list_options p = record {
    filter = get_filter p.base_filter p.filter;
    sort = s.sort;
    page = get_page p;
    name = s.name;
    config = s.config;
    limited_count = false;
  }

  unfoldable pub count_options : PagedQuery A → Options
  unfolding get_filter
  count_options p = record {
    filter = get_filter p.base_filter p.filter;
    sort = none;
    page = none;
    name = s.name;
    config = s.config;
    limited_count = s.limited_count;
  }

  -- `hash` is the MD5 text of a filter's JSON.
  module _ (hash : Option Query → String) where
    unfoldable pub needs_count : Bool → PagedQuery A → Bool
    unfolding same_hash
    needs_count force p = force || not s.load_all && not (same_hash p.filter_hash (hash p.filter))

    -- `update(updates, forceCount)`, up to its two requests.
    unfoldable pub update : Bool → PagedQuery A → PagedQuery A × List Effect
    unfolding needs_count list_options count_options
    update force p =
        let listing = list_request (call s.version s.operations (list_options p)) in
        if needs_count force p
        then (
          record p { loading = true; filter_hash = some (hash p.filter); loading_count = true },
          listing ∷ count_request (count "v1" s.operations (count_options p)) ∷ [],
        )
        else (record p { loading = true }, listing ∷ [])

    unfoldable pub change_page : PagedQuery A → PagedQuery A × List Effect
    unfolding update
    change_page p =
        if s.load_all
        then (
          record p { values = slice (page_end p - p.page_size) (page_end p) p.all_values },
          updated ∷ [],
        )
        else update false p

    -- The answer to a list request, with the `finally` that follows.
    unfoldable pub on_list : List A → PagedQuery A → PagedQuery A × List Effect
    unfolding change_page
    on_list found p =
        let shown = change_page (record p { all_values = found; total = length found }) in
        if s.load_all
        then (record (shown.0) { loading = false }, shown.1)
        else (record p { values = found; loading = false }, updated ∷ [])

  unfoldable pub on_list_error : PagedQuery A → PagedQuery A × List Effect
  on_list_error p = (record p { loading = false }, failed ∷ [])

  -- The answer to a count request, with the `finally` that follows.
  unfoldable pub on_count : ℕ → PagedQuery A → PagedQuery A
  on_count n p = record p { total = n; loading_count = false }

  unfoldable pub on_count_error : PagedQuery A → PagedQuery A
  on_count_error p = record p { loading_count = false }

  -- The callback of the stream listener.
  unfoldable pub on_stream :
      (Option Query → String) → Bool → PagedQuery A → PagedQuery A × List Effect
  unfolding update
  on_stream hash guard p = if guard then update hash true p else (p, [])

-- The object before its initial `update()`.
abbrev pub new : {A : Type 0} → Option ℕ → Option Query → Option Query → PagedQuery A
new size base filter = record {
  values = [];
  all_values = [];
  total = 0;
  current_page = 1;
  page_size = elim size [ none ↦ 10 | some n ↦ if eqb n 0 then 10 else n ];
  base_filter = base;
  filter = filter;
  filter_hash = none;
  loading = false;
  loading_count = false;
}
