-- ===== src/Wire/Payload/WriteAnswers.antt =====
-- python/src/brain_db_sdk/wire/types.py: the answer to a request to store a memory.
use Prim.Native.String.{String}
use brain_sdk.Prelude.{ℕ, Bool, Option, none, List, refl}
use brain_sdk.Wire.Payload.{Payload, read_some_payload, read_payloads}
use brain_sdk.Wire.Value.Entries.{entries}
use brain_sdk.Wire.Value.{
  ◌>>=◌, end, entry, entry_unless_none, integer, float, text, bytes, boolean, object, write_list,
  ok, field, field_or, read_bool, read_integer, read_float, read_text, read_bytes, read_object,
  read_list, read_optional,
}
use brain_sdk.Wire.Payload.StageArtifacts.{EncodeStageArtifact, encode_stage_artifact}
use brain_sdk.Wire.Payload.WriteTrace.{EncodeTraceArtifacts, encode_trace_artifacts}

pub record EncodeTraceStage : Type 0 where
  pub name : String
  pub status : ℕ
  pub latency_us : ℕ
  pub detail : String
  pub artifact : Option EncodeStageArtifact

abbrev pub encode_trace_stage : Payload EncodeTraceStage
encode_trace_stage = record {
  plain_map = λ a. entry "name" (text a.name) (
      entry "status" (integer a.status) (
        entry "latency_us" (integer a.latency_us) (
          entry "detail" (text a.detail) (
            entry_unless_none "artifact" (λ x. object (encode_stage_artifact.plain_map x))
              a.artifact (end)))));
  from_map = λ m. do
    name' ← field read_text "name" m
    status' ← field read_integer "status" m
    latency_us' ← field read_integer "latency_us" m
    detail' ← field read_text "detail" m
    artifact' ←
        field_or (read_optional (read_object encode_stage_artifact.from_map)) none "artifact" m
    ok (record {
      name = name';
      status = status';
      latency_us = latency_us';
      detail = detail';
      artifact = artifact';
    });
  round_trip = λ a. simp (entries, read_some_payload encode_stage_artifact) refl;
}

pub record EncodeTrace : Type 0 where
  pub stages : List EncodeTraceStage
  pub artifacts : EncodeTraceArtifacts
  pub total_latency_us : ℕ

abbrev pub encode_trace : Payload EncodeTrace
encode_trace = record {
  plain_map = λ a.
      entry "stages" ((write_list (λ x. object (encode_trace_stage.plain_map x))) a.stages) (
        entry "artifacts" (object (encode_trace_artifacts.plain_map a.artifacts))
          (entry "total_latency_us" (integer a.total_latency_us) (end)));
  from_map = λ m. do
    stages' ← field (read_list (read_object encode_trace_stage.from_map)) "stages" m
    artifacts' ← field (read_object encode_trace_artifacts.from_map) "artifacts" m
    total_latency_us' ← field read_integer "total_latency_us" m
    ok (record { stages = stages'; artifacts = artifacts'; total_latency_us = total_latency_us' });
  round_trip = λ a.
      rw (read_payloads encode_trace_stage a.stages, encode_trace_artifacts.round_trip a.artifacts)
        refl;
}

pub record EncodeResponse : Type 0 where
  pub memory_id : ℕ
  pub was_deduplicated : Bool
  pub salience : ℕ
  pub auto_edges_added : ℕ
  pub lsn : ℕ
  pub space_id : List ℕ
  pub session_id : ℕ
  pub kind : ℕ
  pub created_at_unix_nanos : ℕ
  pub edges_out_count : ℕ
  pub embedding_model_fp : List ℕ
  pub pending_stages : List ℕ
  pub has_active_schema : Bool
  pub trace : Option EncodeTrace

abbrev pub encode_response : Payload EncodeResponse
encode_response = record {
  plain_map = λ a. entry "memory_id" (integer a.memory_id) (
      entry "was_deduplicated" (boolean a.was_deduplicated) (
        entry "salience" (float a.salience) (
          entry "auto_edges_added" (integer a.auto_edges_added) (
            entry "lsn" (integer a.lsn) (
              entry "space_id" (bytes a.space_id) (
                entry "session_id" (integer a.session_id) (
                  entry "kind" (integer a.kind) (
                    entry "created_at_unix_nanos" (integer a.created_at_unix_nanos) (
                      entry "edges_out_count" (integer a.edges_out_count) (
                        entry "embedding_model_fp" (bytes a.embedding_model_fp) (
                          entry "pending_stages" ((write_list integer) a.pending_stages) (
                            entry "has_active_schema" (boolean a.has_active_schema) (
                              entry_unless_none "trace" (λ x. object (encode_trace.plain_map x))
                                a.trace (end))))))))))))));
  from_map = λ m. do
    memory_id' ← field read_integer "memory_id" m
    was_deduplicated' ← field read_bool "was_deduplicated" m
    salience' ← field read_float "salience" m
    auto_edges_added' ← field read_integer "auto_edges_added" m
    lsn' ← field read_integer "lsn" m
    space_id' ← field read_bytes "space_id" m
    session_id' ← field read_integer "session_id" m
    kind' ← field read_integer "kind" m
    created_at_unix_nanos' ← field read_integer "created_at_unix_nanos" m
    edges_out_count' ← field read_integer "edges_out_count" m
    embedding_model_fp' ← field read_bytes "embedding_model_fp" m
    pending_stages' ← field (read_list read_integer) "pending_stages" m
    has_active_schema' ← field read_bool "has_active_schema" m
    trace' ← field_or (read_optional (read_object encode_trace.from_map)) none "trace" m
    ok (record {
      memory_id = memory_id';
      was_deduplicated = was_deduplicated';
      salience = salience';
      auto_edges_added = auto_edges_added';
      lsn = lsn';
      space_id = space_id';
      session_id = session_id';
      kind = kind';
      created_at_unix_nanos = created_at_unix_nanos';
      edges_out_count = edges_out_count';
      embedding_model_fp = embedding_model_fp';
      pending_stages = pending_stages';
      has_active_schema = has_active_schema';
      trace = trace';
    });
  round_trip = λ a. simp (entries, read_some_payload encode_trace) refl;
}
