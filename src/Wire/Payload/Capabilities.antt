-- ===== src/Wire/Payload/Capabilities.antt =====
-- python/src/brain_db_sdk/wire/types.py: capabilities and extractors.
use Prim.Native.String.{String}
use brain_sdk.Prelude.{ℕ, Bool, List, refl}
use brain_sdk.Wire.Payload.{Payload, read_payloads}
use brain_sdk.Wire.Value.{
  ◌>>=◌, end, entry, integer, text, boolean, write_list, ok, field, read_bool, read_integer,
  read_text, read_list, read_object, object, read_texts,
}

pub record UnsubscribeRequest : Type 0 where
  pub target_stream_id : ℕ

abbrev pub unsubscribe_request : Payload UnsubscribeRequest
unsubscribe_request = record {
  plain_map = λ a. entry "target_stream_id" (integer a.target_stream_id) (end);
  from_map = λ m. do
    target_stream_id' ← field read_integer "target_stream_id" m
    ok (record { target_stream_id = target_stream_id' });
  round_trip = λ a. refl;
}

pub record UnsubscribeResponse : Type 0 where
  pub target_stream_id : ℕ
  pub final_lsn : ℕ

abbrev pub unsubscribe_response : Payload UnsubscribeResponse
unsubscribe_response = record {
  plain_map = λ a.
      entry "target_stream_id" (integer a.target_stream_id)
        (entry "final_lsn" (integer a.final_lsn) (end));
  from_map = λ m. do
    target_stream_id' ← field read_integer "target_stream_id" m
    final_lsn' ← field read_integer "final_lsn" m
    ok (record { target_stream_id = target_stream_id'; final_lsn = final_lsn' });
  round_trip = λ a. refl;
}

pub record Capabilities : Type 0 where
  pub rerank : Bool
  pub llm_extractor : Bool
  pub classifier_extractor : Bool
  pub pattern_extractor : Bool
  pub schema_namespaces : List String
  pub vector_dim : ℕ

abbrev pub capabilities : Payload Capabilities
capabilities = record {
  plain_map = λ a. entry "rerank" (boolean a.rerank) (
      entry "llm_extractor" (boolean a.llm_extractor) (
        entry "classifier_extractor" (boolean a.classifier_extractor) (
          entry "pattern_extractor" (boolean a.pattern_extractor) (
            entry "schema_namespaces" (write_list text a.schema_namespaces)
              (entry "vector_dim" (integer a.vector_dim) (end))))));
  from_map = λ m. do
    rerank' ← field read_bool "rerank" m
    llm_extractor' ← field read_bool "llm_extractor" m
    classifier_extractor' ← field read_bool "classifier_extractor" m
    pattern_extractor' ← field read_bool "pattern_extractor" m
    schema_namespaces' ← field (read_list read_text) "schema_namespaces" m
    vector_dim' ← field read_integer "vector_dim" m
    ok (record {
      rerank = rerank';
      llm_extractor = llm_extractor';
      classifier_extractor = classifier_extractor';
      pattern_extractor = pattern_extractor';
      schema_namespaces = schema_namespaces';
      vector_dim = vector_dim';
    });
  round_trip = λ a. rw (read_texts a.schema_namespaces) refl;
}

pub record GetCapabilitiesResponse : Type 0 where
  pub capabilities : Capabilities

abbrev pub get_capabilities_response : Payload GetCapabilitiesResponse
get_capabilities_response = record {
  plain_map = λ a. entry "capabilities" (object (capabilities.plain_map a.capabilities)) (end);
  from_map = λ m. do
    capabilities' ← field (read_object capabilities.from_map) "capabilities" m
    ok (record { capabilities = capabilities' });
  round_trip = λ a. rw (capabilities.round_trip a.capabilities) refl;
}

pub record ExtractorListItem : Type 0 where
  pub extractor_id : ℕ
  pub namespace : String
  pub name : String
  pub kind : ℕ
  pub schema_version : ℕ
  pub created_at_unix_nanos : ℕ

abbrev pub extractor_list_item : Payload ExtractorListItem
extractor_list_item = record {
  plain_map = λ a. entry "extractor_id" (integer a.extractor_id) (
      entry "namespace" (text a.namespace) (
        entry "name" (text a.name) (
          entry "kind" (integer a.kind) (
            entry "schema_version" (integer a.schema_version)
              (entry "created_at_unix_nanos" (integer a.created_at_unix_nanos) (end))))));
  from_map = λ m. do
    extractor_id' ← field read_integer "extractor_id" m
    namespace' ← field read_text "namespace" m
    name' ← field read_text "name" m
    kind' ← field read_integer "kind" m
    schema_version' ← field read_integer "schema_version" m
    created_at_unix_nanos' ← field read_integer "created_at_unix_nanos" m
    ok (record {
      extractor_id = extractor_id';
      namespace = namespace';
      name = name';
      kind = kind';
      schema_version = schema_version';
      created_at_unix_nanos = created_at_unix_nanos';
    });
  round_trip = λ a. refl;
}

pub record ExtractorListResponseFrame : Type 0 where
  pub items : List ExtractorListItem
  pub total : ℕ
  pub is_final : Bool

abbrev pub extractor_list_response_frame : Payload ExtractorListResponseFrame
extractor_list_response_frame = record {
  plain_map = λ a.
      entry "items" (write_list (λ x. object (extractor_list_item.plain_map x)) a.items)
        (entry "total" (integer a.total) (entry "is_final" (boolean a.is_final) (end)));
  from_map = λ m. do
    items' ← field (read_list (read_object extractor_list_item.from_map)) "items" m
    total' ← field read_integer "total" m
    is_final' ← field read_bool "is_final" m
    ok (record { items = items'; total = total'; is_final = is_final' });
  round_trip = λ a. rw (read_payloads extractor_list_item a.items) refl;
}
