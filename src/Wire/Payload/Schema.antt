-- ===== src/Wire/Payload/Schema.antt =====
-- python/src/brain_db_sdk/wire/types.py: the schema verbs, cancellation and materialization.
use Prim.Native.String.{String}
use brain_sdk.Prelude.{ℕ, Bool, Option, List, [], refl}
use brain_sdk.Wire.Payload.{Payload, read_payloads}
use brain_sdk.Wire.Value.{
  ◌>>=◌, end, entry, bytes, integer, text, boolean, write_list, or_null, ok, field, field_or,
  read_bool, read_integer, read_text, read_bytes, read_list, read_optional, read_object, object,
  read_integers, read_byte_strings, read_optional_integer,
}

pub record SchemaValidationError : Type 0 where
  pub code : String
  pub message : String
  pub line : ℕ
  pub column : ℕ
  pub length : ℕ
  pub severity : ℕ

abbrev pub schema_validation_error : Payload SchemaValidationError
schema_validation_error = record {
  plain_map = λ a. entry "code" (text a.code) (
      entry "message" (text a.message) (
        entry "line" (integer a.line) (
          entry "column" (integer a.column)
            (entry "length" (integer a.length) (entry "severity" (integer a.severity) (end))))));
  from_map = λ m. do
    code' ← field read_text "code" m
    message' ← field read_text "message" m
    line' ← field read_integer "line" m
    column' ← field read_integer "column" m
    length' ← field read_integer "length" m
    severity' ← field read_integer "severity" m
    ok (record {
      code = code';
      message = message';
      line = line';
      column = column';
      length = length';
      severity = severity';
    });
  round_trip = λ a. refl;
}

pub record SchemaDropResponse : Type 0 where
  pub namespace : String
  pub schema_version : ℕ
  pub target_kind : ℕ
  pub target_name : String
  pub dropped : Bool
  pub live_rows : ℕ
  pub validation_errors : List SchemaValidationError

abbrev pub schema_drop_response : Payload SchemaDropResponse
schema_drop_response = record {
  plain_map = λ a. entry "namespace" (text a.namespace) (
      entry "schema_version" (integer a.schema_version) (
        entry "target_kind" (integer a.target_kind) (
          entry "target_name" (text a.target_name) (
            entry "dropped" (boolean a.dropped) (
              entry "live_rows" (integer a.live_rows) (
                entry "validation_errors"
                  (write_list (λ x. object (schema_validation_error.plain_map x))
                    a.validation_errors)
                  (end)))))));
  from_map = λ m. do
    namespace' ← field read_text "namespace" m
    schema_version' ← field read_integer "schema_version" m
    target_kind' ← field read_integer "target_kind" m
    target_name' ← field read_text "target_name" m
    dropped' ← field read_bool "dropped" m
    live_rows' ← field read_integer "live_rows" m
    validation_errors' ←
        field_or (read_list (read_object schema_validation_error.from_map)) [] "validation_errors" m
    ok (record {
      namespace = namespace';
      schema_version = schema_version';
      target_kind = target_kind';
      target_name = target_name';
      dropped = dropped';
      live_rows = live_rows';
      validation_errors = validation_errors';
    });
  round_trip = λ a. rw (read_payloads schema_validation_error a.validation_errors) refl;
}

pub record SchemaReplaceResponse : Type 0 where
  pub namespace : String
  pub schema_version : ℕ
  pub dropped_count : ℕ
  pub validation_errors : List SchemaValidationError

abbrev pub schema_replace_response : Payload SchemaReplaceResponse
schema_replace_response = record {
  plain_map = λ a. entry "namespace" (text a.namespace) (
      entry "schema_version" (integer a.schema_version) (
        entry "dropped_count" (integer a.dropped_count) (
          entry "validation_errors"
            (write_list (λ x. object (schema_validation_error.plain_map x)) a.validation_errors)
            (end))));
  from_map = λ m. do
    namespace' ← field read_text "namespace" m
    schema_version' ← field read_integer "schema_version" m
    dropped_count' ← field read_integer "dropped_count" m
    validation_errors' ←
        field_or (read_list (read_object schema_validation_error.from_map)) [] "validation_errors" m
    ok (record {
      namespace = namespace';
      schema_version = schema_version';
      dropped_count = dropped_count';
      validation_errors = validation_errors';
    });
  round_trip = λ a. rw (read_payloads schema_validation_error a.validation_errors) refl;
}

pub record CancelStreamAck : Type 0 where
  pub target_stream_id : ℕ
  pub cancelled_at_unix_nanos : ℕ

abbrev pub cancel_stream_ack : Payload CancelStreamAck
cancel_stream_ack = record {
  plain_map = λ a.
      entry "target_stream_id" (integer a.target_stream_id)
        (entry "cancelled_at_unix_nanos" (integer a.cancelled_at_unix_nanos) (end));
  from_map = λ m. do
    target_stream_id' ← field read_integer "target_stream_id" m
    cancelled_at_unix_nanos' ← field read_integer "cancelled_at_unix_nanos" m
    ok (record {
      target_stream_id = target_stream_id';
      cancelled_at_unix_nanos = cancelled_at_unix_nanos';
    });
  round_trip = λ a. refl;
}

pub record SchemaUploadResponse : Type 0 where
  pub namespace : String
  pub schema_version : ℕ
  pub validation_errors : List SchemaValidationError
  pub backward_compatible : Bool
  pub migration_summary_blob : List ℕ

abbrev pub schema_upload_response : Payload SchemaUploadResponse
schema_upload_response = record {
  plain_map = λ a. entry "namespace" (text a.namespace) (
      entry "schema_version" (integer a.schema_version) (
        entry "validation_errors"
          (write_list (λ x. object (schema_validation_error.plain_map x)) a.validation_errors)
          (entry "backward_compatible" (boolean a.backward_compatible)
            (entry "migration_summary_blob" (write_list integer a.migration_summary_blob) (end)))));
  from_map = λ m. do
    namespace' ← field read_text "namespace" m
    schema_version' ← field read_integer "schema_version" m
    validation_errors' ←
        field (read_list (read_object schema_validation_error.from_map)) "validation_errors" m
    backward_compatible' ← field read_bool "backward_compatible" m
    migration_summary_blob' ← field (read_list read_integer) "migration_summary_blob" m
    ok (record {
      namespace = namespace';
      schema_version = schema_version';
      validation_errors = validation_errors';
      backward_compatible = backward_compatible';
      migration_summary_blob = migration_summary_blob';
    });
  round_trip = λ a.
      rw
        (
          read_payloads schema_validation_error a.validation_errors,
          read_integers a.migration_summary_blob,
        )
        refl;
}

pub record TimeRange : Type 0 where
  pub from_unix_ms : Option ℕ
  pub to_unix_ms : Option ℕ

abbrev pub time_range : Payload TimeRange
time_range = record {
  plain_map = λ a.
      entry "from_unix_ms" (or_null integer a.from_unix_ms)
        (entry "to_unix_ms" (or_null integer a.to_unix_ms) (end));
  from_map = λ m. do
    from_unix_ms' ← field (read_optional read_integer) "from_unix_ms" m
    to_unix_ms' ← field (read_optional read_integer) "to_unix_ms" m
    ok (record { from_unix_ms = from_unix_ms'; to_unix_ms = to_unix_ms' });
  round_trip =
      λ a. rw (read_optional_integer a.from_unix_ms, read_optional_integer a.to_unix_ms) refl;
}

pub record MaterializeProceduralResponse : Type 0 where
  pub system_block : String
  pub statement_ids : List (List ℕ)
  pub total_candidates : ℕ
  pub trimmed_by_budget : Bool

abbrev pub materialize_procedural_response : Payload MaterializeProceduralResponse
materialize_procedural_response = record {
  plain_map = λ a. entry "system_block" (text a.system_block) (
      entry "statement_ids" (write_list bytes a.statement_ids) (
        entry "total_candidates" (integer a.total_candidates)
          (entry "trimmed_by_budget" (boolean a.trimmed_by_budget) (end))));
  from_map = λ m. do
    system_block' ← field read_text "system_block" m
    statement_ids' ← field (read_list read_bytes) "statement_ids" m
    total_candidates' ← field read_integer "total_candidates" m
    trimmed_by_budget' ← field read_bool "trimmed_by_budget" m
    ok (record {
      system_block = system_block';
      statement_ids = statement_ids';
      total_candidates = total_candidates';
      trimmed_by_budget = trimmed_by_budget';
    });
  round_trip = λ a. rw (read_byte_strings a.statement_ids) refl;
}
