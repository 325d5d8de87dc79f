-- ===== src/Wire/Payload/Subscriptions.antt =====
-- python/src/brain_db_sdk/wire/types.py: the filter of a subscription, and its events.
use Prim.Native.String.{String}
use brain_sdk.Prelude.{ℕ, Bool, Option, none, List, refl}
use brain_sdk.Wire.Payload.{Payload, read_some_payload, read_optional_payload}
use brain_sdk.Wire.Value.Entries.{entries}
use brain_sdk.Wire.Value.{
  ◌>>=◌, end, entry, entry_unless_none, read_optional_byte_strings, integer, float, text, bytes,
  boolean, object, or_null, write_list, ok, field, field_or, read_bool, read_integer, read_float,
  read_text, read_bytes, read_object, read_list, read_optional, read_optional_integer,
  read_optional_integers,
}
use brain_sdk.Wire.Payload.Events.{
  GraphEventPayload, graph_event_payload_value, read_graph_event_payload,
  read_optional_graph_event_payload, StagePayload, stage_payload_value, read_stage_payload,
  read_optional_stage_payload,
}
use brain_sdk.Wire.Payload.Feeds.{
  SimilarityFilter, similarity_filter, EdgeEventPayload, edge_event_payload,
}
use brain_sdk.Wire.Payload.Identity.{ActAs, act_as}

pub record SubscriptionFilter : Type 0 where
  pub session_filter : Option (List ℕ)
  pub kinds : Option (List ℕ)
  pub similar_to : Option SimilarityFilter
  pub spaces : Option (List (List ℕ))
  pub memory_ids : Option (List ℕ)

abbrev pub subscription_filter : Payload SubscriptionFilter
subscription_filter = record {
  plain_map = λ a. entry "session_filter" (or_null (write_list integer) a.session_filter) (
      entry "kinds" (or_null (write_list integer) a.kinds) (
        entry "similar_to" (or_null (λ x. object (similarity_filter.plain_map x)) a.similar_to) (
          entry "spaces" (or_null (write_list bytes) a.spaces)
            (entry "memory_ids" (or_null (write_list integer) a.memory_ids) (end)))));
  from_map = λ m. do
    session_filter' ← field (read_optional (read_list read_integer)) "session_filter" m
    kinds' ← field (read_optional (read_list read_integer)) "kinds" m
    similar_to' ← field (read_optional (read_object similarity_filter.from_map)) "similar_to" m
    spaces' ← field (read_optional (read_list read_bytes)) "spaces" m
    memory_ids' ← field_or (read_optional (read_list read_integer)) none "memory_ids" m
    ok (record {
      session_filter = session_filter';
      kinds = kinds';
      similar_to = similar_to';
      spaces = spaces';
      memory_ids = memory_ids';
    });
  round_trip = λ a.
      rw
        (
          read_optional_integers a.session_filter,
          read_optional_integers a.kinds,
          read_optional_payload similarity_filter a.similar_to,
          read_optional_byte_strings a.spaces,
          read_optional_integers a.memory_ids,
        )
        refl;
}

pub record SubscribeRequest : Type 0 where
  pub filter : SubscriptionFilter
  pub include_history : Bool
  pub from_lsn : Option ℕ
  pub max_inflight : ℕ
  pub act_as : Option ActAs

abbrev pub subscribe_request : Payload SubscribeRequest
subscribe_request = record {
  plain_map = λ a. entry "filter" (object (subscription_filter.plain_map a.filter)) (
      entry "include_history" (boolean a.include_history) (
        entry "from_lsn" (or_null integer a.from_lsn) (
          entry "max_inflight" (integer a.max_inflight)
            (entry_unless_none "act_as" (λ x. object (act_as.plain_map x)) a.act_as (end)))));
  from_map = λ m. do
    filter' ← field (read_object subscription_filter.from_map) "filter" m
    include_history' ← field read_bool "include_history" m
    from_lsn' ← field (read_optional read_integer) "from_lsn" m
    max_inflight' ← field read_integer "max_inflight" m
    act_as' ← field_or (read_optional (read_object act_as.from_map)) none "act_as" m
    ok (record {
      filter = filter';
      include_history = include_history';
      from_lsn = from_lsn';
      max_inflight = max_inflight';
      act_as = act_as';
    });
  round_trip = λ a.
      rw (subscription_filter.round_trip a.filter) (simp (entries, read_some_payload act_as) refl);
}

pub record SubscriptionEvent : Type 0 where
  pub event_type : ℕ
  pub memory_id : ℕ
  pub session_id : ℕ
  pub text' : String
  pub kind : ℕ
  pub salience : ℕ
  pub timestamp_unix_nanos : ℕ
  pub lsn : ℕ
  pub graph_payload : Option GraphEventPayload
  pub edge_payload : Option EdgeEventPayload
  pub stage_kind : Option ℕ
  pub stage_outcome : Option ℕ
  pub stage_payload : Option StagePayload

abbrev pub subscription_event : Payload SubscriptionEvent
subscription_event = record {
  plain_map = λ a. entry "event_type" (integer a.event_type) (
      entry "memory_id" (integer a.memory_id) (
        entry "session_id" (integer a.session_id) (
          entry "text" (text a.text') (
            entry "kind" (integer a.kind) (
              entry "salience" (float a.salience) (
                entry "timestamp_unix_nanos" (integer a.timestamp_unix_nanos) (
                  entry "lsn" (integer a.lsn) (
                    entry "graph_payload" (or_null graph_event_payload_value a.graph_payload) (
                      entry "edge_payload"
                        (or_null (λ x. object (edge_event_payload.plain_map x)) a.edge_payload)
                        (entry "stage_kind" (or_null integer a.stage_kind) (
                          entry "stage_outcome" (or_null integer a.stage_outcome) (
                            entry "stage_payload" (or_null stage_payload_value a.stage_payload)
                              (end)))))))))))));
  from_map = λ m. do
    event_type' ← field read_integer "event_type" m
    memory_id' ← field read_integer "memory_id" m
    session_id' ← field read_integer "session_id" m
    got_text ← field read_text "text" m
    kind' ← field read_integer "kind" m
    salience' ← field read_float "salience" m
    timestamp_unix_nanos' ← field read_integer "timestamp_unix_nanos" m
    lsn' ← field read_integer "lsn" m
    graph_payload' ← field (read_optional read_graph_event_payload) "graph_payload" m
    edge_payload' ← field (read_optional (read_object edge_event_payload.from_map)) "edge_payload" m
    stage_kind' ← field (read_optional read_integer) "stage_kind" m
    stage_outcome' ← field (read_optional read_integer) "stage_outcome" m
    stage_payload' ← field (read_optional read_stage_payload) "stage_payload" m
    ok (record {
      event_type = event_type';
      memory_id = memory_id';
      session_id = session_id';
      text' = got_text;
      kind = kind';
      salience = salience';
      timestamp_unix_nanos = timestamp_unix_nanos';
      lsn = lsn';
      graph_payload = graph_payload';
      edge_payload = edge_payload';
      stage_kind = stage_kind';
      stage_outcome = stage_outcome';
      stage_payload = stage_payload';
    });
  round_trip = λ a.
      rw
        (
          read_optional_graph_event_payload a.graph_payload,
          read_optional_payload edge_event_payload a.edge_payload,
          read_optional_integer a.stage_kind,
          read_optional_integer a.stage_outcome,
          read_optional_stage_payload a.stage_payload,
        )
        refl;
}
