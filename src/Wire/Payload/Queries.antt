-- ===== src/Wire/Payload/Queries.antt =====
-- python/src/brain_db_sdk/wire/types.py: credentials, the end of a stream, and the requests on queries.
use Prim.Native.String.{String}
use brain_sdk.Prelude.{ℕ, Bool, Option, none, List, refl}
use brain_sdk.Wire.Payload.{Payload, read_some_payload, read_optional_payload}
use brain_sdk.Wire.Value.Entries.{entries}
use brain_sdk.Wire.Value.{
  Value, ◌>>=◌, end, entry, entry_unless_none, integer, float, text, bytes, boolean, object,
  or_null, write_list, ok, field, field_or, read_bool, read_integer, read_float, read_text,
  read_bytes, read_object, read_list, read_optional, read_optional_integer, read_optional_bytes,
  read_optional_float, read_optional_integers, read_integers, read_texts,
}
use brain_sdk.Wire.Payload.Identity.{ActAs, act_as}
use brain_sdk.Wire.Payload.Schema.{TimeRange, time_range}
use brain_sdk.Wire.Payload.SchemaRequests.{FusionConfig, fusion_config}
use brain_sdk.Wire.Payload.Tagged.{
  AuthCredentials, auth_credentials_value, read_auth_credentials, read_auth_credentials_lem,
  RetrieverSelection, retriever_selection_value, read_retriever_selection,
  read_retriever_selection_lem,
}

pub record AuthPayload : Type 0 where
  pub method : ℕ
  pub credentials : AuthCredentials

abbrev pub auth_payload : Payload AuthPayload
auth_payload = record {
  plain_map = λ a.
      entry "method" (integer a.method)
        (entry "credentials" (auth_credentials_value a.credentials) (end));
  from_map = λ m. do
    method' ← field read_integer "method" m
    credentials' ← field read_auth_credentials "credentials" m
    ok (record { method = method'; credentials = credentials' });
  round_trip = λ a. rw (read_auth_credentials_lem a.credentials) refl;
}

pub record CancelStreamRequest : Type 0 where
  pub target_stream_id : ℕ
  pub reason : Value

abbrev pub cancel_stream_request : Payload CancelStreamRequest
cancel_stream_request = record {
  plain_map =
      λ a. entry "target_stream_id" (integer a.target_stream_id) (entry "reason" (a.reason) (end));
  from_map = λ m. do
    target_stream_id' ← field read_integer "target_stream_id" m
    reason' ← field_or ok (text "ClientUnneeded") "reason" m
    ok (record { target_stream_id = target_stream_id'; reason = reason' });
  round_trip = λ a. refl;
}

pub record QueryRequest : Type 0 where
  pub text' : String
  pub entity_anchor : Option (List ℕ)
  pub kind_filter : List ℕ
  pub predicate_filter : List String
  pub session_filter : Option (List ℕ)
  pub time_filter : Option TimeRange
  pub as_of_record_time_unix_nanos : Option ℕ
  pub confidence_min : Option ℕ
  pub include_tombstoned : Bool
  pub include_superseded : Bool
  pub limit : ℕ
  pub retrievers : RetrieverSelection
  pub fusion_config : Option FusionConfig
  pub request_id : List ℕ

abbrev pub query_request : Payload QueryRequest
query_request = record {
  plain_map = λ a. entry "text" (text a.text') (
      entry "entity_anchor" (or_null bytes a.entity_anchor) (
        entry "kind_filter" ((write_list integer) a.kind_filter) (
          entry "predicate_filter" ((write_list text) a.predicate_filter) (
            entry "session_filter" (or_null (write_list integer) a.session_filter) (
              entry "time_filter" (or_null (λ x. object (time_range.plain_map x)) a.time_filter) (
                entry "as_of_record_time_unix_nanos"
                  (or_null integer a.as_of_record_time_unix_nanos)
                  (entry "confidence_min" (or_null float a.confidence_min) (
                    entry "include_tombstoned" (boolean a.include_tombstoned) (
                      entry "include_superseded" (boolean a.include_superseded) (
                        entry "limit" (integer a.limit) (
                          entry "retrievers" (retriever_selection_value a.retrievers) (
                            entry "fusion_config"
                              (or_null (λ x. object (fusion_config.plain_map x)) a.fusion_config)
                              (entry "request_id" (bytes a.request_id) (end))))))))))))));
  from_map = λ m. do
    got_text ← field read_text "text" m
    entity_anchor' ← field (read_optional read_bytes) "entity_anchor" m
    kind_filter' ← field (read_list read_integer) "kind_filter" m
    predicate_filter' ← field (read_list read_text) "predicate_filter" m
    session_filter' ← field (read_optional (read_list read_integer)) "session_filter" m
    time_filter' ← field (read_optional (read_object time_range.from_map)) "time_filter" m
    as_of_record_time_unix_nanos' ←
        field (read_optional read_integer) "as_of_record_time_unix_nanos" m
    confidence_min' ← field (read_optional read_float) "confidence_min" m
    include_tombstoned' ← field read_bool "include_tombstoned" m
    include_superseded' ← field read_bool "include_superseded" m
    limit' ← field read_integer "limit" m
    retrievers' ← field read_retriever_selection "retrievers" m
    fusion_config' ← field (read_optional (read_object fusion_config.from_map)) "fusion_config" m
    request_id' ← field read_bytes "request_id" m
    ok (record {
      text' = got_text;
      entity_anchor = entity_anchor';
      kind_filter = kind_filter';
      predicate_filter = predicate_filter';
      session_filter = session_filter';
      time_filter = time_filter';
      as_of_record_time_unix_nanos = as_of_record_time_unix_nanos';
      confidence_min = confidence_min';
      include_tombstoned = include_tombstoned';
      include_superseded = include_superseded';
      limit = limit';
      retrievers = retrievers';
      fusion_config = fusion_config';
      request_id = request_id';
    });
  round_trip = λ a.
      rw
        (
          read_optional_bytes a.entity_anchor,
          read_integers a.kind_filter,
          read_texts a.predicate_filter,
          read_optional_integers a.session_filter,
          read_optional_payload time_range a.time_filter,
          read_optional_integer a.as_of_record_time_unix_nanos,
          read_optional_float a.confidence_min,
          read_retriever_selection_lem a.retrievers,
          read_optional_payload fusion_config a.fusion_config,
        )
        refl;
}

pub record QueryExplainRequest : Type 0 where
  pub query : QueryRequest
  pub act_as : Option ActAs

abbrev pub query_explain_request : Payload QueryExplainRequest
query_explain_request = record {
  plain_map = λ a.
      entry "query" (object (query_request.plain_map a.query))
        (entry_unless_none "act_as" (λ x. object (act_as.plain_map x)) a.act_as (end));
  from_map = λ m. do
    query' ← field (read_object query_request.from_map) "query" m
    act_as' ← field_or (read_optional (read_object act_as.from_map)) none "act_as" m
    ok (record { query = query'; act_as = act_as' });
  round_trip = λ a. simp (entries, read_some_payload act_as, query_request.round_trip) refl;
}

pub record QueryTraceRequest : Type 0 where
  pub query : QueryRequest
  pub act_as : Option ActAs

abbrev pub query_trace_request : Payload QueryTraceRequest
query_trace_request = record {
  plain_map = λ a.
      entry "query" (object (query_request.plain_map a.query))
        (entry_unless_none "act_as" (λ x. object (act_as.plain_map x)) a.act_as (end));
  from_map = λ m. do
    query' ← field (read_object query_request.from_map) "query" m
    act_as' ← field_or (read_optional (read_object act_as.from_map)) none "act_as" m
    ok (record { query = query'; act_as = act_as' });
  round_trip = λ a. simp (entries, read_some_payload act_as, query_request.round_trip) refl;
}
