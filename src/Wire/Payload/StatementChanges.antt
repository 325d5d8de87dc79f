-- ===== src/Wire/Payload/StatementChanges.antt =====
-- python/src/brain_db_sdk/wire/types.py: requests that retire statements and relations or walk them, and the reports on queries.
use Prim.Native.String.{String}
use brain_sdk.Prelude.{ℕ, Bool, Option, none, List, refl}
use brain_sdk.Wire.Payload.{Payload, read_some_payload}
use brain_sdk.Wire.Value.Entries.{entries}
use brain_sdk.Wire.Value.{
  ◌>>=◌, end, entry, entry_unless_none, integer, float, text, bytes, boolean, object, write_list,
  ok, field, field_or, read_bool, read_integer, read_float, read_text, read_bytes, read_object,
  read_list, read_optional,
}
use brain_sdk.Wire.Payload.Identity.{ActAs, act_as}

pub record StatementTombstoneRequest : Type 0 where
  pub statement_id : List ℕ
  pub reason : ℕ
  pub reason_message : String
  pub request_id : List ℕ
  pub act_as : Option ActAs

abbrev pub statement_tombstone_request : Payload StatementTombstoneRequest
statement_tombstone_request = record {
  plain_map = λ a. entry "statement_id" (bytes a.statement_id) (
      entry "reason" (integer a.reason) (
        entry "reason_message" (text a.reason_message) (
          entry "request_id" (bytes a.request_id)
            (entry_unless_none "act_as" (λ x. object (act_as.plain_map x)) a.act_as (end)))));
  from_map = λ m. do
    statement_id' ← field read_bytes "statement_id" m
    reason' ← field read_integer "reason" m
    reason_message' ← field read_text "reason_message" m
    request_id' ← field read_bytes "request_id" m
    act_as' ← field_or (read_optional (read_object act_as.from_map)) none "act_as" m
    ok (record {
      statement_id = statement_id';
      reason = reason';
      reason_message = reason_message';
      request_id = request_id';
      act_as = act_as';
    });
  round_trip = λ a. simp (entries, read_some_payload act_as) refl;
}

pub record StatementRetractRequest : Type 0 where
  pub statement_id : List ℕ
  pub reason : ℕ
  pub reason_message : String
  pub request_id : List ℕ
  pub act_as : Option ActAs

abbrev pub statement_retract_request : Payload StatementRetractRequest
statement_retract_request = record {
  plain_map = λ a. entry "statement_id" (bytes a.statement_id) (
      entry "reason" (integer a.reason) (
        entry "reason_message" (text a.reason_message) (
          entry "request_id" (bytes a.request_id)
            (entry_unless_none "act_as" (λ x. object (act_as.plain_map x)) a.act_as (end)))));
  from_map = λ m. do
    statement_id' ← field read_bytes "statement_id" m
    reason' ← field read_integer "reason" m
    reason_message' ← field read_text "reason_message" m
    request_id' ← field read_bytes "request_id" m
    act_as' ← field_or (read_optional (read_object act_as.from_map)) none "act_as" m
    ok (record {
      statement_id = statement_id';
      reason = reason';
      reason_message = reason_message';
      request_id = request_id';
      act_as = act_as';
    });
  round_trip = λ a. simp (entries, read_some_payload act_as) refl;
}

pub record StatementHistoryRequest : Type 0 where
  pub anchor_id : List ℕ
  pub include_tombstoned : Bool
  pub limit : ℕ
  pub cursor : List ℕ
  pub act_as : Option ActAs

abbrev pub statement_history_request : Payload StatementHistoryRequest
statement_history_request = record {
  plain_map = λ a. entry "anchor_id" (bytes a.anchor_id) (
      entry "include_tombstoned" (boolean a.include_tombstoned) (
        entry "limit" (integer a.limit) (
          entry "cursor" ((write_list integer) a.cursor)
            (entry_unless_none "act_as" (λ x. object (act_as.plain_map x)) a.act_as (end)))));
  from_map = λ m. do
    anchor_id' ← field read_bytes "anchor_id" m
    include_tombstoned' ← field read_bool "include_tombstoned" m
    limit' ← field read_integer "limit" m
    cursor' ← field (read_list read_integer) "cursor" m
    act_as' ← field_or (read_optional (read_object act_as.from_map)) none "act_as" m
    ok (record {
      anchor_id = anchor_id';
      include_tombstoned = include_tombstoned';
      limit = limit';
      cursor = cursor';
      act_as = act_as';
    });
  round_trip = λ a. simp (entries, read_some_payload act_as) refl;
}

pub record RelationGetRequest : Type 0 where
  pub relation_id : List ℕ
  pub follow_supersession : Bool
  pub act_as : Option ActAs

abbrev pub relation_get_request : Payload RelationGetRequest
relation_get_request = record {
  plain_map = λ a. entry "relation_id" (bytes a.relation_id) (
      entry "follow_supersession" (boolean a.follow_supersession)
        (entry_unless_none "act_as" (λ x. object (act_as.plain_map x)) a.act_as (end)));
  from_map = λ m. do
    relation_id' ← field read_bytes "relation_id" m
    follow_supersession' ← field read_bool "follow_supersession" m
    act_as' ← field_or (read_optional (read_object act_as.from_map)) none "act_as" m
    ok (record {
      relation_id = relation_id';
      follow_supersession = follow_supersession';
      act_as = act_as';
    });
  round_trip = λ a. simp (entries, read_some_payload act_as) refl;
}

pub record RelationTombstoneRequest : Type 0 where
  pub relation_id : List ℕ
  pub reason : String
  pub request_id : List ℕ
  pub act_as : Option ActAs

abbrev pub relation_tombstone_request : Payload RelationTombstoneRequest
relation_tombstone_request = record {
  plain_map = λ a. entry "relation_id" (bytes a.relation_id) (
      entry "reason" (text a.reason) (
        entry "request_id" (bytes a.request_id)
          (entry_unless_none "act_as" (λ x. object (act_as.plain_map x)) a.act_as (end))));
  from_map = λ m. do
    relation_id' ← field read_bytes "relation_id" m
    reason' ← field read_text "reason" m
    request_id' ← field read_bytes "request_id" m
    act_as' ← field_or (read_optional (read_object act_as.from_map)) none "act_as" m
    ok (record {
      relation_id = relation_id';
      reason = reason';
      request_id = request_id';
      act_as = act_as';
    });
  round_trip = λ a. simp (entries, read_some_payload act_as) refl;
}

pub record RelationTraverseRequest : Type 0 where
  pub start_entity : List ℕ
  pub relation_types : List String
  pub direction : ℕ
  pub max_depth : ℕ
  pub max_nodes : ℕ
  pub time_at_unix_nanos : ℕ
  pub include_superseded : Bool
  pub request_id : List ℕ
  pub act_as : Option ActAs

abbrev pub relation_traverse_request : Payload RelationTraverseRequest
relation_traverse_request = record {
  plain_map = λ a. entry "start_entity" (bytes a.start_entity) (
      entry "relation_types" ((write_list text) a.relation_types) (
        entry "direction" (integer a.direction) (
          entry "max_depth" (integer a.max_depth) (
            entry "max_nodes" (integer a.max_nodes) (
              entry "time_at_unix_nanos" (integer a.time_at_unix_nanos) (
                entry "include_superseded" (boolean a.include_superseded) (
                  entry "request_id" (bytes a.request_id) (
                    entry_unless_none "act_as" (λ x. object (act_as.plain_map x)) a.act_as
                      (end)))))))));
  from_map = λ m. do
    start_entity' ← field read_bytes "start_entity" m
    relation_types' ← field (read_list read_text) "relation_types" m
    direction' ← field read_integer "direction" m
    max_depth' ← field read_integer "max_depth" m
    max_nodes' ← field read_integer "max_nodes" m
    time_at_unix_nanos' ← field read_integer "time_at_unix_nanos" m
    include_superseded' ← field read_bool "include_superseded" m
    request_id' ← field read_bytes "request_id" m
    act_as' ← field_or (read_optional (read_object act_as.from_map)) none "act_as" m
    ok (record {
      start_entity = start_entity';
      relation_types = relation_types';
      direction = direction';
      max_depth = max_depth';
      max_nodes = max_nodes';
      time_at_unix_nanos = time_at_unix_nanos';
      include_superseded = include_superseded';
      request_id = request_id';
      act_as = act_as';
    });
  round_trip = λ a. simp (entries, read_some_payload act_as) refl;
}

pub record QueryExplainResponse : Type 0 where
  pub plan_text : String
  pub estimated_cost_ms : ℕ

abbrev pub query_explain_response : Payload QueryExplainResponse
query_explain_response = record {
  plain_map = λ a.
      entry "plan_text" (text a.plan_text)
        (entry "estimated_cost_ms" (float a.estimated_cost_ms) (end));
  from_map = λ m. do
    plan_text' ← field read_text "plan_text" m
    estimated_cost_ms' ← field read_float "estimated_cost_ms" m
    ok (record { plan_text = plan_text'; estimated_cost_ms = estimated_cost_ms' });
  round_trip = λ a. refl;
}

pub record QueryTraceResponse : Type 0 where
  pub trace_text : String
  pub total_latency_ms : ℕ

abbrev pub query_trace_response : Payload QueryTraceResponse
query_trace_response = record {
  plain_map = λ a.
      entry "trace_text" (text a.trace_text)
        (entry "total_latency_ms" (float a.total_latency_ms) (end));
  from_map = λ m. do
    trace_text' ← field read_text "trace_text" m
    total_latency_ms' ← field read_float "total_latency_ms" m
    ok (record { trace_text = trace_text'; total_latency_ms = total_latency_ms' });
  round_trip = λ a. refl;
}
