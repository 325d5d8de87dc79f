-- ===== src/Wire/Payload/StageArtifacts.antt =====
-- python/src/brain_db_sdk/wire/types.py: what a stage of a write built, and the answer to an inspection.
use Prim.Native.String.{String}
use brain_sdk.Prelude.{ℕ, Option, none, List, [], refl}
use brain_sdk.Wire.Payload.{Payload, read_payloads, read_some_payload}
use brain_sdk.Wire.Value.{
  ◌>>=◌, end, entry, entry_unless_none, entry_unless_empty, integer, float, text, object,
  write_list, ok, field, field_or, read_integer, read_float, read_text, read_object, read_list,
  read_optional, read_floats, read_texts,
}
use brain_sdk.Wire.Value.Entries.{past_none, past_empty, own_none, own_empty}
use brain_sdk.Wire.Payload.WriteTrace.{
  EncodeStageRecord, encode_stage_record, EncodeStageKeywordField, encode_stage_keyword_field,
  EncodeStageGraph, encode_stage_graph, MemoryEdge, memory_edge,
}

pub record EncodeStageArtifact : Type 0 where
  pub vector : List ℕ
  pub record' : Option EncodeStageRecord
  pub hype_questions : List String
  pub keyword_fields : List EncodeStageKeywordField
  pub graph : Option EncodeStageGraph

abbrev pub encode_stage_artifact : Payload EncodeStageArtifact
encode_stage_artifact = record {
  plain_map = λ a. entry_unless_empty "vector" float a.vector (
      entry_unless_none "record" (λ x. object (encode_stage_record.plain_map x)) a.record'
        (entry_unless_empty "hype_questions" text a.hype_questions (
          entry_unless_empty "keyword_fields" (λ x. object (encode_stage_keyword_field.plain_map x))
            a.keyword_fields
            (entry_unless_none "graph" (λ x. object (encode_stage_graph.plain_map x)) a.graph
              (end)))));
  from_map = λ m. do
    vector' ← field_or (read_list read_float) [] "vector" m
    got_record ← field_or (read_optional (read_object encode_stage_record.from_map)) none "record" m
    hype_questions' ← field_or (read_list read_text) [] "hype_questions" m
    keyword_fields' ←
        field_or (read_list (read_object encode_stage_keyword_field.from_map)) [] "keyword_fields" m
    graph' ← field_or (read_optional (read_object encode_stage_graph.from_map)) none "graph" m
    ok (record {
      vector = vector';
      record' = got_record;
      hype_questions = hype_questions';
      keyword_fields = keyword_fields';
      graph = graph';
    });
  round_trip = λ a.
      simp
        (
          past_none,
          past_empty,
          own_none,
          own_empty,
          read_floats,
          read_texts,
          read_payloads encode_stage_keyword_field,
          read_some_payload encode_stage_record,
          read_some_payload encode_stage_graph,
        )
        refl;
}

pub record MemoryInspectResponse : Type 0 where
  pub memory_id : ℕ
  pub text' : String
  pub artifact : EncodeStageArtifact
  pub edges : List MemoryEdge

abbrev pub memory_inspect_response : Payload MemoryInspectResponse
memory_inspect_response = record {
  plain_map = λ a. entry "memory_id" (integer a.memory_id) (
      entry "text" (text a.text') (
        entry "artifact" (object (encode_stage_artifact.plain_map a.artifact))
          (entry "edges" ((write_list (λ x. object (memory_edge.plain_map x))) a.edges) (end))));
  from_map = λ m. do
    memory_id' ← field read_integer "memory_id" m
    got_text ← field read_text "text" m
    artifact' ← field (read_object encode_stage_artifact.from_map) "artifact" m
    edges' ← field_or (read_list (read_object memory_edge.from_map)) [] "edges" m
    ok (record { memory_id = memory_id'; text' = got_text; artifact = artifact'; edges = edges' });
  round_trip =
      λ a. rw (encode_stage_artifact.round_trip a.artifact, read_payloads memory_edge a.edges) refl;
}
