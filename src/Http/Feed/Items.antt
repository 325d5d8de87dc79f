-- ===== src/Http/Feed/Items.antt =====
-- python/src/brain_db_sdk/http/sse.py: what a `Subscription` yields, and the loop over it.
pub mod Chunks
use brain_sdk.Prelude.{
  ℕ, zero, suc, Bool, true, false, Option, none, some, List, [], ◌∷◌, ◌++◌, if◌then◌else◌,
}
use brain_sdk.Prelude.Bytes.{bytes_eq}
use brain_sdk.Http.Json.{Json, item_at, get_at}
use brain_sdk.Wire.Value.{Loaded, ok, key_error, type_error, cbor_error, overflow_error, ◌>>=◌}
use brain_sdk.Http.Feed.{Feed, Dispatched, close_feed, take_frame}

-- `SubscriptionEvent` and `SubscriptionClosed` of http/types.py; `from_dict` stores each value as it is.
pub record SubscriptionEvent (N : Type 0) : Type 0 where
  pub event_type : Json N
  pub memory_id : Json N
  pub session_id : Json N
  pub text : Json N
  pub kind : Json N
  pub salience : Json N
  pub timestamp_unix_nanos : Json N
  pub lsn : Json N
  pub graph : Json N
  pub edge : Json N
  pub stage_kind : Json N
  pub stage_outcome : Json N
  pub stage : Json N

pub record SubscriptionClosed (N : Type 0) : Type 0 where
  pub final_lsn : Json N
  pub reason : Json N

pub data FeedItem (N : Type 0) : Type 0 where
  change : SubscriptionEvent N → FeedItem N
  closing : SubscriptionClosed N → FeedItem N

-- What one `__next__` does: an item, the end of the iteration, a frame that is no JSON text, an error
-- of `from_dict`, or the error of `read`.
pub data Step (N : Type 0) : Type 0 where
  yields : FeedItem N → Step N
  stop_iteration : Step N
  undecodable : Step N
  malformed : Loaded (FeedItem N) → Step N
  read_error : Step N

pub data Read : Type 0 where
  chunk : List ℕ → Read
  failure : Read

abbrev pub closed_name : List ℕ
closed_name = b'c' ∷ b'l' ∷ b'o' ∷ b's' ∷ b'e' ∷ b'd' ∷ []

is_closed_event : Option (List ℕ) → Bool
is_closed_event none = false
is_closed_event (some name) = bytes_eq name closed_name

module _ {N : Type 0} where
  unfoldable pub event_from_dict : Json N → Loaded (FeedItem N)
  event_from_dict d = do
    event_type ← item_at "event_type" d
    memory_id ← item_at "memory_id" d
    session_id ← item_at "session_id" d
    text ← item_at "text" d
    kind ← item_at "kind" d
    salience ← item_at "salience" d
    timestamp_unix_nanos ← item_at "timestamp_unix_nanos" d
    lsn ← item_at "lsn" d
    graph ← get_at "graph" d
    edge ← get_at "edge" d
    stage_kind ← get_at "stage_kind" d
    stage_outcome ← get_at "stage_outcome" d
    stage ← get_at "stage" d
    ok (
        change (record {
          event_type = event_type;
          memory_id = memory_id;
          session_id = session_id;
          text = text;
          kind = kind;
          salience = salience;
          timestamp_unix_nanos = timestamp_unix_nanos;
          lsn = lsn;
          graph = graph;
          edge = edge;
          stage_kind = stage_kind;
          stage_outcome = stage_outcome;
          stage = stage;
        }))

  unfoldable pub closed_from_dict : Json N → Loaded (FeedItem N)
  closed_from_dict d = do
    final_lsn ← item_at "final_lsn" d
    reason ← item_at "reason" d
    ok (closing (record { final_lsn = final_lsn; reason = reason }))

  stepped : Loaded (FeedItem N) → Step N
  stepped (ok item) = yields item
  stepped (key_error k) = malformed (key_error k)
  stepped type_error = malformed type_error
  stepped cbor_error = malformed cbor_error
  stepped overflow_error = malformed overflow_error

  decode_json : Option (List ℕ) → Option (Json N) → Step N
  unfolding stepped is_closed_event
  decode_json event none = undecodable
  decode_json event (some payload) =
      if is_closed_event event
      then stepped (closed_from_dict payload)
      else stepped (event_from_dict payload)

-- `json.loads` is the library's, `none` being its `ValueError`.
module _ {N : Type 0} (loads : List ℕ → Option (Json N)) where
  unfoldable pub decode_frame_item : Dispatched → Step N
  unfolding decode_json
  decode_frame_item d = decode_json d.event (loads d.text)

module _ {N : Type 0} (decode : List ℕ → List ℕ) (loads : List ℕ → Option (Json N)) where
  abbrev pub Stepped : Type 0
  Stepped = Feed × List Read × Step N

  -- A frame that was dispatched is decoded; without one the rest of the loop is `read_on`.
  after_frame : (Feed → Stepped) → List Read → Feed × Option Dispatched → Stepped
  after_frame read_on reads (f, none) = read_on f
  after_frame read_on reads (f, some d) = (f, reads, decode_frame_item loads d)

  -- `continue` is the next round of the loop.
  after_read : (Feed → Stepped) → Read → List Read → Feed → Stepped
  after_read continue failure reads f = (f, reads, read_error)
  after_read continue (chunk []) reads f = (close_feed f, reads, stop_iteration)
  after_read continue (chunk (b ∷ bs)) reads f = continue (record f { buf = f.buf ++ b ∷ bs })

  -- `__next__`.
  unfoldable pub next_item : List Read → Feed → Stepped
  unfolding after_frame after_read close_feed
  next_item [] f = after_frame (λ g. (close_feed g, [], stop_iteration)) [] (take_frame decode f)
  next_item (r ∷ reads) f =
      after_frame (λ g. after_read (next_item reads) r reads g) (r ∷ reads) (take_frame decode f)

  abbrev unread : Bool → List Read → List Read
  unread closed reads = if closed then [] else reads

  -- `for item in sub`: the items, and the step that ended the loop, which is none if the rounds ran
  -- out.
  keep_item :
      (Feed → List Read → List (FeedItem N) × Option (Step N))
      → Stepped
      → List (FeedItem N) × Option (Step N)
  keep_item continue (f, reads, yields item) =
      let rest = continue f reads in (item ∷ rest.0, rest.1)
  keep_item continue (f, reads, stop_iteration) = ([], some stop_iteration)
  keep_item continue (f, reads, undecodable) = ([], some undecodable)
  keep_item continue (f, reads, malformed l) = ([], some (malformed l))
  keep_item continue (f, reads, read_error) = ([], some read_error)

  unfoldable pub for_each : ℕ → Feed → List Read → List (FeedItem N) × Option (Step N)
  unfolding keep_item
  for_each zero f reads = ([], none)
  for_each (suc rounds) f reads = keep_item (for_each rounds) (next_item (unread f.closed reads) f)
