-- ===== src/Wire/Payload/Stages.antt =====
-- python/src/brain_db_sdk/wire/types.py: the events of the write pipeline.
use Prim.Native.String.{String}
use brain_sdk.Prelude.{ℕ, refl}
use brain_sdk.Wire.Payload.{Payload}
use brain_sdk.Wire.Value.{◌>>=◌, end, entry, integer, text, ok, field, read_integer, read_text}

pub record StageAutoEdgePayload : Type 0 where
  pub edges_written : ℕ

abbrev pub stage_auto_edge_payload : Payload StageAutoEdgePayload
stage_auto_edge_payload = record {
  plain_map = λ a. entry "edges_written" (integer a.edges_written) (end);
  from_map = λ m. do
    edges_written' ← field read_integer "edges_written" m
    ok (record { edges_written = edges_written' });
  round_trip = λ a. refl;
}

pub record StageTemporalEdgePayload : Type 0 where
  pub edges_written : ℕ

abbrev pub stage_temporal_edge_payload : Payload StageTemporalEdgePayload
stage_temporal_edge_payload = record {
  plain_map = λ a. entry "edges_written" (integer a.edges_written) (end);
  from_map = λ m. do
    edges_written' ← field read_integer "edges_written" m
    ok (record { edges_written = edges_written' });
  round_trip = λ a. refl;
}

pub record StageHypePayload : Type 0 where
  pub questions_written : ℕ
  pub cost_micro_usd : ℕ
  pub error_message : String

abbrev pub stage_hype_payload : Payload StageHypePayload
stage_hype_payload = record {
  plain_map = λ a. entry "questions_written" (integer a.questions_written) (
      entry "cost_micro_usd" (integer a.cost_micro_usd)
        (entry "error_message" (text a.error_message) (end)));
  from_map = λ m. do
    questions_written' ← field read_integer "questions_written" m
    cost_micro_usd' ← field read_integer "cost_micro_usd" m
    error_message' ← field read_text "error_message" m
    ok (record {
      questions_written = questions_written';
      cost_micro_usd = cost_micro_usd';
      error_message = error_message';
    });
  round_trip = λ a. refl;
}

pub record StageExtractorPayload : Type 0 where
  pub entity_count : ℕ
  pub statement_count : ℕ
  pub relation_count : ℕ
  pub audit_status : ℕ
  pub error_message : String

abbrev pub stage_extractor_payload : Payload StageExtractorPayload
stage_extractor_payload = record {
  plain_map = λ a. entry "entity_count" (integer a.entity_count) (
      entry "statement_count" (integer a.statement_count) (
        entry "relation_count" (integer a.relation_count) (
          entry "audit_status" (integer a.audit_status)
            (entry "error_message" (text a.error_message) (end)))));
  from_map = λ m. do
    entity_count' ← field read_integer "entity_count" m
    statement_count' ← field read_integer "statement_count" m
    relation_count' ← field read_integer "relation_count" m
    audit_status' ← field read_integer "audit_status" m
    error_message' ← field read_text "error_message" m
    ok (record {
      entity_count = entity_count';
      statement_count = statement_count';
      relation_count = relation_count';
      audit_status = audit_status';
      error_message = error_message';
    });
  round_trip = λ a. refl;
}
