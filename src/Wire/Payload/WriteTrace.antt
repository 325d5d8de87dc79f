-- ===== src/Wire/Payload/WriteTrace.antt =====
-- python/src/brain_db_sdk/wire/types.py: the trace of a write and its stages.
use Prim.Native.String.{String}
use brain_sdk.Prelude.{ℕ, Option, none, List, refl}
use brain_sdk.Wire.Payload.{Payload, read_some_payload, read_payloads}
use brain_sdk.Wire.Value.Entries.{entries}
use brain_sdk.Wire.Value.{
  ◌>>=◌, end, entry, entry_unless_none, integer, float, text, bytes, object, or_null, write_list,
  ok, field, field_or, read_integer, read_float, read_text, read_bytes, read_object, read_list,
  read_optional, read_optional_text, read_texts,
}
use brain_sdk.Wire.Payload.Identity.{ActAs, act_as}
use brain_sdk.Wire.Payload.Trace.{
  EncodeTraceEntity, encode_trace_entity, EncodeTraceRelation, encode_trace_relation,
  EncodeTraceIndex, encode_trace_index, EncodeTraceDedup, encode_trace_dedup, EncodeGraphNode,
  encode_graph_node,
}

pub record EncodeTraceStatement : Type 0 where
  pub id : List ℕ
  pub subject_name : String
  pub predicate : String
  pub object_name : String
  pub confidence : ℕ
  pub event_at_unix_nanos : Option ℕ

abbrev pub encode_trace_statement : Payload EncodeTraceStatement
encode_trace_statement = record {
  plain_map = λ a. entry "id" (bytes a.id) (
      entry "subject_name" (text a.subject_name) (
        entry "predicate" (text a.predicate) (
          entry "object_name" (text a.object_name) (
            entry "confidence" (float a.confidence)
              (entry_unless_none "event_at_unix_nanos" integer a.event_at_unix_nanos (end))))));
  from_map = λ m. do
    id' ← field read_bytes "id" m
    subject_name' ← field read_text "subject_name" m
    predicate' ← field read_text "predicate" m
    object_name' ← field read_text "object_name" m
    confidence' ← field read_float "confidence" m
    event_at_unix_nanos' ← field_or (read_optional read_integer) none "event_at_unix_nanos" m
    ok (record {
      id = id';
      subject_name = subject_name';
      predicate = predicate';
      object_name = object_name';
      confidence = confidence';
      event_at_unix_nanos = event_at_unix_nanos';
    });
  round_trip = λ a. simp (entries) refl;
}

pub record EncodeTraceArtifacts : Type 0 where
  pub entities : List EncodeTraceEntity
  pub statements : List EncodeTraceStatement
  pub relations : List EncodeTraceRelation
  pub indexes : List EncodeTraceIndex
  pub dedup : EncodeTraceDedup

abbrev pub encode_trace_artifacts : Payload EncodeTraceArtifacts
encode_trace_artifacts = record {
  plain_map = λ a.
      entry "entities" ((write_list (λ x. object (encode_trace_entity.plain_map x))) a.entities) (
        entry "statements"
          ((write_list (λ x. object (encode_trace_statement.plain_map x))) a.statements)
          (entry "relations"
            ((write_list (λ x. object (encode_trace_relation.plain_map x))) a.relations)
            (entry "indexes" ((write_list (λ x. object (encode_trace_index.plain_map x))) a.indexes)
              (entry "dedup" (object (encode_trace_dedup.plain_map a.dedup)) (end)))));
  from_map = λ m. do
    entities' ← field (read_list (read_object encode_trace_entity.from_map)) "entities" m
    statements' ← field (read_list (read_object encode_trace_statement.from_map)) "statements" m
    relations' ← field (read_list (read_object encode_trace_relation.from_map)) "relations" m
    indexes' ← field (read_list (read_object encode_trace_index.from_map)) "indexes" m
    dedup' ← field (read_object encode_trace_dedup.from_map) "dedup" m
    ok (record {
      entities = entities';
      statements = statements';
      relations = relations';
      indexes = indexes';
      dedup = dedup';
    });
  round_trip = λ a.
      rw
        (
          read_payloads encode_trace_entity a.entities,
          read_payloads encode_trace_statement a.statements,
          read_payloads encode_trace_relation a.relations,
          read_payloads encode_trace_index a.indexes,
          encode_trace_dedup.round_trip a.dedup,
        )
        refl;
}

pub record EncodeStageRecord : Type 0 where
  pub memory_id : ℕ
  pub kind : ℕ
  pub salience : ℕ
  pub created_at_unix_nanos : ℕ
  pub occurred_at_unix_nanos : ℕ
  pub vector_dim : ℕ
  pub text_len : ℕ
  pub lsn : ℕ

abbrev pub encode_stage_record : Payload EncodeStageRecord
encode_stage_record = record {
  plain_map = λ a. entry "memory_id" (integer a.memory_id) (
      entry "kind" (integer a.kind) (
        entry "salience" (float a.salience) (
          entry "created_at_unix_nanos" (integer a.created_at_unix_nanos) (
            entry "occurred_at_unix_nanos" (integer a.occurred_at_unix_nanos) (
              entry "vector_dim" (integer a.vector_dim)
                (entry "text_len" (integer a.text_len) (entry "lsn" (integer a.lsn) (end))))))));
  from_map = λ m. do
    memory_id' ← field read_integer "memory_id" m
    kind' ← field read_integer "kind" m
    salience' ← field read_float "salience" m
    created_at_unix_nanos' ← field read_integer "created_at_unix_nanos" m
    occurred_at_unix_nanos' ← field read_integer "occurred_at_unix_nanos" m
    vector_dim' ← field read_integer "vector_dim" m
    text_len' ← field read_integer "text_len" m
    lsn' ← field read_integer "lsn" m
    ok (record {
      memory_id = memory_id';
      kind = kind';
      salience = salience';
      created_at_unix_nanos = created_at_unix_nanos';
      occurred_at_unix_nanos = occurred_at_unix_nanos';
      vector_dim = vector_dim';
      text_len = text_len';
      lsn = lsn';
    });
  round_trip = λ a. refl;
}

pub record EncodeStageKeywordField : Type 0 where
  pub field' : String
  pub terms : List String

abbrev pub encode_stage_keyword_field : Payload EncodeStageKeywordField
encode_stage_keyword_field = record {
  plain_map = λ a. entry "field" (text a.field') (entry "terms" ((write_list text) a.terms) (end));
  from_map = λ m. do
    got_field ← field read_text "field" m
    terms' ← field (read_list read_text) "terms" m
    ok (record { field' = got_field; terms = terms' });
  round_trip = λ a. rw (read_texts a.terms) refl;
}

pub record EncodeGraphEdge : Type 0 where
  pub source : List ℕ
  pub target : List ℕ
  pub predicate : String
  pub kind : String
  pub confidence : ℕ
  pub event_at_unix_nanos : Option ℕ

abbrev pub encode_graph_edge : Payload EncodeGraphEdge
encode_graph_edge = record {
  plain_map = λ a. entry "source" (bytes a.source) (
      entry "target" (bytes a.target) (
        entry "predicate" (text a.predicate) (
          entry "kind" (text a.kind) (
            entry "confidence" (float a.confidence)
              (entry_unless_none "event_at_unix_nanos" integer a.event_at_unix_nanos (end))))));
  from_map = λ m. do
    source' ← field read_bytes "source" m
    target' ← field read_bytes "target" m
    predicate' ← field read_text "predicate" m
    kind' ← field read_text "kind" m
    confidence' ← field read_float "confidence" m
    event_at_unix_nanos' ← field_or (read_optional read_integer) none "event_at_unix_nanos" m
    ok (record {
      source = source';
      target = target';
      predicate = predicate';
      kind = kind';
      confidence = confidence';
      event_at_unix_nanos = event_at_unix_nanos';
    });
  round_trip = λ a. simp (entries) refl;
}

pub record EncodeStageGraph : Type 0 where
  pub nodes : List EncodeGraphNode
  pub edges : List EncodeGraphEdge

abbrev pub encode_stage_graph : Payload EncodeStageGraph
encode_stage_graph = record {
  plain_map = λ a.
      entry "nodes" ((write_list (λ x. object (encode_graph_node.plain_map x))) a.nodes)
        (entry "edges" ((write_list (λ x. object (encode_graph_edge.plain_map x))) a.edges) (end));
  from_map = λ m. do
    nodes' ← field (read_list (read_object encode_graph_node.from_map)) "nodes" m
    edges' ← field (read_list (read_object encode_graph_edge.from_map)) "edges" m
    ok (record { nodes = nodes'; edges = edges' });
  round_trip = λ a.
      rw (read_payloads encode_graph_node a.nodes, read_payloads encode_graph_edge a.edges) refl;
}

pub record MemoryInspectRequest : Type 0 where
  pub memory_id : ℕ
  pub act_as : Option ActAs

abbrev pub memory_inspect_request : Payload MemoryInspectRequest
memory_inspect_request = record {
  plain_map = λ a.
      entry "memory_id" (integer a.memory_id)
        (entry_unless_none "act_as" (λ x. object (act_as.plain_map x)) a.act_as (end));
  from_map = λ m. do
    memory_id' ← field read_integer "memory_id" m
    act_as' ← field_or (read_optional (read_object act_as.from_map)) none "act_as" m
    ok (record { memory_id = memory_id'; act_as = act_as' });
  round_trip = λ a. simp (entries, read_some_payload act_as) refl;
}

pub record MemoryEdge : Type 0 where
  pub kind : ℕ
  pub direction : ℕ
  pub peer : ℕ
  pub weight : ℕ
  pub created_at_unix_nanos : ℕ
  pub annotation : Option String

abbrev pub memory_edge : Payload MemoryEdge
memory_edge = record {
  plain_map = λ a. entry "kind" (integer a.kind) (
      entry "direction" (integer a.direction) (
        entry "peer" (integer a.peer) (
          entry "weight" (float a.weight) (
            entry "created_at_unix_nanos" (integer a.created_at_unix_nanos)
              (entry "annotation" (or_null text a.annotation) (end))))));
  from_map = λ m. do
    kind' ← field read_integer "kind" m
    direction' ← field read_integer "direction" m
    peer' ← field read_integer "peer" m
    weight' ← field read_float "weight" m
    created_at_unix_nanos' ← field read_integer "created_at_unix_nanos" m
    annotation' ← field_or (read_optional read_text) none "annotation" m
    ok (record {
      kind = kind';
      direction = direction';
      peer = peer';
      weight = weight';
      created_at_unix_nanos = created_at_unix_nanos';
      annotation = annotation';
    });
  round_trip = λ a. rw (read_optional_text a.annotation) refl;
}
