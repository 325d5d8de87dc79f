-- ===== src/Wire/Payload/Pages.antt =====
-- python/src/brain_db_sdk/wire/types.py: lists of memories and of the graph in pages, and an entity by its id.
use Prim.Native.String.{String}
use brain_sdk.Prelude.{ℕ, Bool, Option, none, List, refl}
use brain_sdk.Wire.Payload.{Payload, read_some_payload, read_payloads}
use brain_sdk.Wire.Value.Entries.{entries}
use brain_sdk.Wire.Value.{
  ◌>>=◌, end, entry, entry_unless_none, Octet, octet_value, read_octet, read_octets,
  read_octet_lists, integer, float, text, boolean, object, write_list, ok, field, field_or,
  read_bool, read_integer, read_float, read_text, read_object, read_list, read_optional,
}
use brain_sdk.Wire.Payload.Entities.{EntityView, entity_view}
use brain_sdk.Wire.Payload.Graph.{GraphNode, graph_node, GraphEdge, graph_edge}
use brain_sdk.Wire.Payload.Identity.{ActAs, act_as}
use brain_sdk.Wire.Payload.MemoryRequests.{MemoryListItem, memory_list_item}

pub record MemoryListRequest : Type 0 where
  pub sort : ℕ
  pub dir : ℕ
  pub limit : ℕ
  pub cursor : List Octet
  pub kinds : List ℕ
  pub include_tombstoned : Bool
  pub time_axis : ℕ
  pub from_unix_nanos : ℕ
  pub to_unix_nanos : ℕ
  pub salience_min : ℕ
  pub salience_max : ℕ
  pub text_contains : String
  pub act_as : Option ActAs

abbrev pub memory_list_request : Payload MemoryListRequest
memory_list_request = record {
  plain_map = λ a. entry "sort" (integer a.sort) (
      entry "dir" (integer a.dir) (
        entry "limit" (integer a.limit) (
          entry "cursor" ((write_list octet_value) a.cursor) (
            entry "kinds" ((write_list integer) a.kinds) (
              entry "include_tombstoned" (boolean a.include_tombstoned) (
                entry "time_axis" (integer a.time_axis) (
                  entry "from_unix_nanos" (integer a.from_unix_nanos) (
                    entry "to_unix_nanos" (integer a.to_unix_nanos) (
                      entry "salience_min" (float a.salience_min) (
                        entry "salience_max" (float a.salience_max) (
                          entry "text_contains" (text a.text_contains) (
                            entry_unless_none "act_as" (λ x. object (act_as.plain_map x)) a.act_as
                              (end)))))))))))));
  from_map = λ m. do
    sort' ← field read_integer "sort" m
    dir' ← field read_integer "dir" m
    limit' ← field read_integer "limit" m
    cursor' ← field (read_list read_octet) "cursor" m
    kinds' ← field (read_list read_integer) "kinds" m
    include_tombstoned' ← field read_bool "include_tombstoned" m
    time_axis' ← field read_integer "time_axis" m
    from_unix_nanos' ← field read_integer "from_unix_nanos" m
    to_unix_nanos' ← field read_integer "to_unix_nanos" m
    salience_min' ← field read_float "salience_min" m
    salience_max' ← field read_float "salience_max" m
    text_contains' ← field read_text "text_contains" m
    act_as' ← field_or (read_optional (read_object act_as.from_map)) none "act_as" m
    ok (record {
      sort = sort';
      dir = dir';
      limit = limit';
      cursor = cursor';
      kinds = kinds';
      include_tombstoned = include_tombstoned';
      time_axis = time_axis';
      from_unix_nanos = from_unix_nanos';
      to_unix_nanos = to_unix_nanos';
      salience_min = salience_min';
      salience_max = salience_max';
      text_contains = text_contains';
      act_as = act_as';
    });
  round_trip = λ a. simp (entries, read_some_payload act_as) refl;
}

pub record MemoryListResponseFrame : Type 0 where
  pub items : List MemoryListItem
  pub next_cursor : List Octet
  pub cumulative_count : ℕ
  pub is_final : Bool

abbrev pub memory_list_response_frame : Payload MemoryListResponseFrame
memory_list_response_frame = record {
  plain_map = λ a.
      entry "items" ((write_list (λ x. object (memory_list_item.plain_map x))) a.items) (
        entry "next_cursor" ((write_list octet_value) a.next_cursor) (
          entry "cumulative_count" (integer a.cumulative_count)
            (entry "is_final" (boolean a.is_final) (end))));
  from_map = λ m. do
    items' ← field (read_list (read_object memory_list_item.from_map)) "items" m
    next_cursor' ← field (read_list read_octet) "next_cursor" m
    cumulative_count' ← field read_integer "cumulative_count" m
    is_final' ← field read_bool "is_final" m
    ok (record {
      items = items';
      next_cursor = next_cursor';
      cumulative_count = cumulative_count';
      is_final = is_final';
    });
  round_trip = λ a. rw (read_payloads memory_list_item a.items, read_octets a.next_cursor) refl;
}

pub record GraphFetchRequest : Type 0 where
  pub limit : ℕ
  pub cursor : List Octet
  pub include_statements : Bool
  pub include_memories : Bool
  pub include_memory_edges : Bool
  pub include_tombstoned : Bool
  pub act_as : Option ActAs

abbrev pub graph_fetch_request : Payload GraphFetchRequest
graph_fetch_request = record {
  plain_map = λ a. entry "limit" (integer a.limit) (
      entry "cursor" ((write_list octet_value) a.cursor) (
        entry "include_statements" (boolean a.include_statements) (
          entry "include_memories" (boolean a.include_memories) (
            entry "include_memory_edges" (boolean a.include_memory_edges) (
              entry "include_tombstoned" (boolean a.include_tombstoned)
                (entry_unless_none "act_as" (λ x. object (act_as.plain_map x)) a.act_as (end)))))));
  from_map = λ m. do
    limit' ← field read_integer "limit" m
    cursor' ← field (read_list read_octet) "cursor" m
    include_statements' ← field read_bool "include_statements" m
    include_memories' ← field read_bool "include_memories" m
    include_memory_edges' ← field read_bool "include_memory_edges" m
    include_tombstoned' ← field read_bool "include_tombstoned" m
    act_as' ← field_or (read_optional (read_object act_as.from_map)) none "act_as" m
    ok (record {
      limit = limit';
      cursor = cursor';
      include_statements = include_statements';
      include_memories = include_memories';
      include_memory_edges = include_memory_edges';
      include_tombstoned = include_tombstoned';
      act_as = act_as';
    });
  round_trip = λ a. simp (entries, read_some_payload act_as) refl;
}

pub record GraphFetchResponseFrame : Type 0 where
  pub nodes : List GraphNode
  pub edges : List GraphEdge
  pub next_cursor : List Octet
  pub is_final : Bool

abbrev pub graph_fetch_response_frame : Payload GraphFetchResponseFrame
graph_fetch_response_frame = record {
  plain_map = λ a. entry "nodes" ((write_list (λ x. object (graph_node.plain_map x))) a.nodes) (
      entry "edges" ((write_list (λ x. object (graph_edge.plain_map x))) a.edges) (
        entry "next_cursor" ((write_list octet_value) a.next_cursor)
          (entry "is_final" (boolean a.is_final) (end))));
  from_map = λ m. do
    nodes' ← field (read_list (read_object graph_node.from_map)) "nodes" m
    edges' ← field (read_list (read_object graph_edge.from_map)) "edges" m
    next_cursor' ← field (read_list read_octet) "next_cursor" m
    is_final' ← field read_bool "is_final" m
    ok (record {
      nodes = nodes';
      edges = edges';
      next_cursor = next_cursor';
      is_final = is_final';
    });
  round_trip = λ a.
      rw
        (
          read_payloads graph_node a.nodes,
          read_payloads graph_edge a.edges,
          read_octets a.next_cursor,
        )
        refl;
}

pub record EntityGetResponse : Type 0 where
  pub entity : EntityView
  pub resolved_from : List (List Octet)

abbrev pub entity_get_response : Payload EntityGetResponse
entity_get_response = record {
  plain_map = λ a.
      entry "entity" (object (entity_view.plain_map a.entity))
        (entry "resolved_from" ((write_list (write_list octet_value)) a.resolved_from) (end));
  from_map = λ m. do
    entity' ← field (read_object entity_view.from_map) "entity" m
    resolved_from' ← field (read_list (read_list read_octet)) "resolved_from" m
    ok (record { entity = entity'; resolved_from = resolved_from' });
  round_trip = λ a. rw (entity_view.round_trip a.entity, read_octet_lists a.resolved_from) refl;
}
