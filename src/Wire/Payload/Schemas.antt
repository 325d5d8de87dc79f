-- ===== src/Wire/Payload/Schemas.antt =====
-- python/src/brain_db_sdk/wire/types.py: the schemas that the server holds.
use Prim.Native.String.{String}
use brain_sdk.Prelude.{ℕ, Bool, List, refl}
use brain_sdk.Wire.Payload.{Payload, read_payloads}
use brain_sdk.Wire.Value.{
  ◌>>=◌, end, entry, integer, text, boolean, write_list, ok, field, read_bool, read_integer,
  read_text, read_list, read_object, object, read_integers,
}
use brain_sdk.Wire.Payload.Schema.{SchemaValidationError, schema_validation_error}

pub record SchemaGetResponse : Type 0 where
  pub namespace : String
  pub schema_version : ℕ
  pub schema_document : String
  pub source_blob : List ℕ
  pub uploaded_at_unix_nanos : ℕ
  pub validator_version : ℕ

abbrev pub schema_get_response : Payload SchemaGetResponse
schema_get_response = record {
  plain_map = λ a. entry "namespace" (text a.namespace) (
      entry "schema_version" (integer a.schema_version) (
        entry "schema_document" (text a.schema_document) (
          entry "source_blob" (write_list integer a.source_blob) (
            entry "uploaded_at_unix_nanos" (integer a.uploaded_at_unix_nanos)
              (entry "validator_version" (integer a.validator_version) (end))))));
  from_map = λ m. do
    namespace' ← field read_text "namespace" m
    schema_version' ← field read_integer "schema_version" m
    schema_document' ← field read_text "schema_document" m
    source_blob' ← field (read_list read_integer) "source_blob" m
    uploaded_at_unix_nanos' ← field read_integer "uploaded_at_unix_nanos" m
    validator_version' ← field read_integer "validator_version" m
    ok (record {
      namespace = namespace';
      schema_version = schema_version';
      schema_document = schema_document';
      source_blob = source_blob';
      uploaded_at_unix_nanos = uploaded_at_unix_nanos';
      validator_version = validator_version';
    });
  round_trip = λ a. rw (read_integers a.source_blob) refl;
}

pub record SchemaListItem : Type 0 where
  pub schema_version : ℕ
  pub uploaded_at_unix_nanos : ℕ
  pub validator_version : ℕ
  pub has_source_text : Bool

abbrev pub schema_list_item : Payload SchemaListItem
schema_list_item = record {
  plain_map = λ a. entry "schema_version" (integer a.schema_version) (
      entry "uploaded_at_unix_nanos" (integer a.uploaded_at_unix_nanos) (
        entry "validator_version" (integer a.validator_version)
          (entry "has_source_text" (boolean a.has_source_text) (end))));
  from_map = λ m. do
    schema_version' ← field read_integer "schema_version" m
    uploaded_at_unix_nanos' ← field read_integer "uploaded_at_unix_nanos" m
    validator_version' ← field read_integer "validator_version" m
    has_source_text' ← field read_bool "has_source_text" m
    ok (record {
      schema_version = schema_version';
      uploaded_at_unix_nanos = uploaded_at_unix_nanos';
      validator_version = validator_version';
      has_source_text = has_source_text';
    });
  round_trip = λ a. refl;
}

pub record SchemaListResponseFrame : Type 0 where
  pub namespace : String
  pub items : List SchemaListItem
  pub total : ℕ
  pub next_cursor : List ℕ
  pub is_final : Bool

abbrev pub schema_list_response_frame : Payload SchemaListResponseFrame
schema_list_response_frame = record {
  plain_map = λ a. entry "namespace" (text a.namespace) (
      entry "items" (write_list (λ x. object (schema_list_item.plain_map x)) a.items) (
        entry "total" (integer a.total) (
          entry "next_cursor" (write_list integer a.next_cursor)
            (entry "is_final" (boolean a.is_final) (end)))));
  from_map = λ m. do
    namespace' ← field read_text "namespace" m
    items' ← field (read_list (read_object schema_list_item.from_map)) "items" m
    total' ← field read_integer "total" m
    next_cursor' ← field (read_list read_integer) "next_cursor" m
    is_final' ← field read_bool "is_final" m
    ok (record {
      namespace = namespace';
      items = items';
      total = total';
      next_cursor = next_cursor';
      is_final = is_final';
    });
  round_trip = λ a. rw (read_payloads schema_list_item a.items, read_integers a.next_cursor) refl;
}

pub record SchemaValidateResponse : Type 0 where
  pub namespace : String
  pub would_be_version : ℕ
  pub validation_errors : List SchemaValidationError

abbrev pub schema_validate_response : Payload SchemaValidateResponse
schema_validate_response = record {
  plain_map = λ a. entry "namespace" (text a.namespace) (
      entry "would_be_version" (integer a.would_be_version) (
        entry "validation_errors"
          (write_list (λ x. object (schema_validation_error.plain_map x)) a.validation_errors)
          (end)));
  from_map = λ m. do
    namespace' ← field read_text "namespace" m
    would_be_version' ← field read_integer "would_be_version" m
    validation_errors' ←
        field (read_list (read_object schema_validation_error.from_map)) "validation_errors" m
    ok (record {
      namespace = namespace';
      would_be_version = would_be_version';
      validation_errors = validation_errors';
    });
  round_trip = λ a. rw (read_payloads schema_validation_error a.validation_errors) refl;
}
