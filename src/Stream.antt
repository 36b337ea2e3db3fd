-- ===== src/Stream.antt =====
-- nv-ui/app/scripts/services/common/data/StreamSrv.js: the updates of the server are grouped and
-- handed to the listeners. The long polling is disabled in the source.
--
-- The objects that group messages are lists of their properties in the order of insertion; names
-- that every object has, such as "constructor", are taken not to occur.
pub mod Grouping
mod Examples
use neural_vyuha_prime.Common.{
  ℕ, String, Bool, true, false, not, ◌&&◌, Option, none, some, List, [], ◌∷◌, ◌++◌, map, filter,
  ◌==◌, eqb, leb, if◌then◌else◌,
}
use Prim.Native.Char.{code}
use Prim.Native.String

-- `base.rootId`, `base.objectType` and the keys of `summary`, if there is one.
pub record Message : Type 0 where
  pub root_id : String
  pub object_type : String
  pub summary : Option (List String)

pub record StreamState : Type 0 where
  pub is_polling : Bool
  pub stream_id : Option String
  pub disabled : Bool
  pub retry_count : ℕ
  pub max_retries : ℕ

-- A call of `runCallbacks`.
pub record Callback : Type 0 where
  pub id : String
  pub object_type : String
  pub messages : List Message

pub record Listener : Type 0 where
  pub root_id : String
  pub object_type : String

unfoldable pub request_stream : StreamState → StreamState
request_stream s = record s { stream_id = some "dummy-stream-id" }

unfoldable pub init : StreamState → StreamState
unfolding request_stream
init s =
    if leb s.max_retries s.retry_count
    then record s { disabled = true }
    else request_stream (record s { stream_id = none; disabled = false })

unfoldable pub cancel_poll : StreamState → StreamState
cancel_poll s = record s { disabled = true }

unfoldable pub poll : StreamState → StreamState
poll s = record s { is_polling = false; disabled = true }

abbrev pub Groups : Type 0
Groups = List (String × List Message)

-- `if (k in groups) groups[k].push(message) else groups[k] = [message]`
unfoldable pub put_message : String → Message → Groups → Groups
put_message k m [] = (k, m ∷ []) ∷ []
put_message k m ((j, ms) ∷ g) =
    let rest = put_message k m g in if j == k then (j, ms ++ m ∷ []) ∷ g else (j, ms) ∷ rest

unfoldable pub put_each : List String → Message → Groups → Groups
unfolding put_message
put_each [] m g = g
put_each (k ∷ ks) m g = put_each ks m (put_message k m g)

-- One of the four groupings of the loop over the messages.
unfoldable pub group_by : (Message → List String) → List Message → Groups → Groups
unfolding put_each
group_by keys [] g = g
group_by keys (m ∷ ms) g = group_by keys ms (put_each (keys m) m g)

abbrev pub secondary_types : Message → List String
secondary_types m = elim m.summary [
  | none ↦ []
  | some types ↦ filter (λ t. not (t == m.object_type)) types
]

abbrev pub pair_key : String → String → String
pair_key root type = String.◌++◌ root (String.◌++◌ "|" type)

-- The text before the first bar, and the text behind it.
abbrev pub before_bar : String → String
before_bar String.[] = ""
before_bar (String.◌∷◌ c s) =
    let rest = before_bar s in if eqb (code c) b'|' then "" else String.◌∷◌ c rest

abbrev pub behind_bar : String → String
behind_bar String.[] = ""
behind_bar (String.◌∷◌ c s) = let rest = behind_bar s in if eqb (code c) b'|' then s else rest

-- `split('|', 2)`
unfoldable pub split_pair : String → String × String
split_pair s = (before_bar s, before_bar (behind_bar s))

abbrev pub root_callback : String × List Message → Callback
root_callback (k, ms) = record { id = k; object_type = "any"; messages = ms }

abbrev pub type_callback : String × List Message → Callback
type_callback (k, ms) = record { id = "any"; object_type = k; messages = ms }

unfoldable pub pair_callback : String × List Message → Callback
unfolding split_pair
pair_callback (k, ms) = record {
  id = (split_pair k).0;
  object_type = (split_pair k).1;
  messages = ms;
}

unfoldable pub handle_stream_response : List Message → List Callback
unfolding group_by pair_callback
handle_stream_response [] = []
handle_stream_response (d ∷ ds) =
    let data' = d ∷ ds in
    map root_callback (group_by (λ m. m.root_id ∷ []) data' [])
    ++ map type_callback (group_by (λ m. m.object_type ∷ []) data' [])
    ++ map type_callback (group_by secondary_types data' [])
    ++ map pair_callback (group_by (λ m. pair_key m.root_id m.object_type ∷ []) data' [])
    ++ record { id = "any"; object_type = "any"; messages = data' } ∷ []

abbrev pub event_name : String → String → String
event_name id type = String.◌++◌ "stream:" (String.◌++◌ id (String.◌++◌ "-" type))

-- What the callback of a listener with a scope is called with.
unfoldable pub heard : StreamState → Listener → List Callback → List (List Message)
heard s l [] = []
heard s l (c ∷ cs) =
    let rest = heard s l cs in
    if not s.disabled && event_name c.id c.object_type == event_name l.root_id l.object_type
    then c.messages ∷ rest
    else rest
