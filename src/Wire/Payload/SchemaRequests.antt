-- ===== src/Wire/Payload/SchemaRequests.antt =====
-- python/src/brain_db_sdk/wire/types.py: requests on entities, schemas and procedural memory, and the weights of a query.
use Prim.Native.String.{String}
use brain_sdk.Prelude.{ℕ, Bool, Option, none, List, refl}
use brain_sdk.Wire.Payload.{Payload, read_some_payload}
use brain_sdk.Wire.Value.Entries.{entries}
use brain_sdk.Wire.Value.{
  ◌>>=◌, end, entry, entry_unless_none, integer, float, text, bytes, boolean, object, or_null,
  write_list, ok, field, field_or, read_bool, read_integer, read_float, read_text, read_bytes,
  read_object, read_list, read_optional,
}
use brain_sdk.Wire.Payload.Identity.{ActAs, act_as}

pub record EntityCreateRequest : Type 0 where
  pub entity_type_id : ℕ
  pub canonical_name : String
  pub aliases : List String
  pub attributes_blob : List ℕ
  pub session_id : ℕ
  pub request_id : List ℕ
  pub act_as : Option ActAs

abbrev pub entity_create_request : Payload EntityCreateRequest
entity_create_request = record {
  plain_map = λ a. entry "entity_type_id" (integer a.entity_type_id) (
      entry "canonical_name" (text a.canonical_name) (
        entry "aliases" ((write_list text) a.aliases) (
          entry "attributes_blob" ((write_list integer) a.attributes_blob) (
            entry "session_id" (integer a.session_id) (
              entry "request_id" (bytes a.request_id)
                (entry_unless_none "act_as" (λ x. object (act_as.plain_map x)) a.act_as (end)))))));
  from_map = λ m. do
    entity_type_id' ← field read_integer "entity_type_id" m
    canonical_name' ← field read_text "canonical_name" m
    aliases' ← field (read_list read_text) "aliases" m
    attributes_blob' ← field (read_list read_integer) "attributes_blob" m
    session_id' ← field read_integer "session_id" m
    request_id' ← field read_bytes "request_id" m
    act_as' ← field_or (read_optional (read_object act_as.from_map)) none "act_as" m
    ok (record {
      entity_type_id = entity_type_id';
      canonical_name = canonical_name';
      aliases = aliases';
      attributes_blob = attributes_blob';
      session_id = session_id';
      request_id = request_id';
      act_as = act_as';
    });
  round_trip = λ a. simp (entries, read_some_payload act_as) refl;
}

pub record SchemaUploadRequest : Type 0 where
  pub schema_document : String
  pub dry_run : Bool
  pub allow_breaking : Bool
  pub request_id : List ℕ
  pub act_as : Option ActAs

abbrev pub schema_upload_request : Payload SchemaUploadRequest
schema_upload_request = record {
  plain_map = λ a. entry "schema_document" (text a.schema_document) (
      entry "dry_run" (boolean a.dry_run) (
        entry "allow_breaking" (boolean a.allow_breaking) (
          entry "request_id" (bytes a.request_id)
            (entry_unless_none "act_as" (λ x. object (act_as.plain_map x)) a.act_as (end)))));
  from_map = λ m. do
    schema_document' ← field read_text "schema_document" m
    dry_run' ← field read_bool "dry_run" m
    allow_breaking' ← field read_bool "allow_breaking" m
    request_id' ← field read_bytes "request_id" m
    act_as' ← field_or (read_optional (read_object act_as.from_map)) none "act_as" m
    ok (record {
      schema_document = schema_document';
      dry_run = dry_run';
      allow_breaking = allow_breaking';
      request_id = request_id';
      act_as = act_as';
    });
  round_trip = λ a. simp (entries, read_some_payload act_as) refl;
}

pub record SchemaDropRequest : Type 0 where
  pub namespace : String
  pub target_kind : ℕ
  pub target_name : String
  pub force : Bool
  pub request_id : List ℕ
  pub act_as : Option ActAs

abbrev pub schema_drop_request : Payload SchemaDropRequest
schema_drop_request = record {
  plain_map = λ a. entry "namespace" (text a.namespace) (
      entry "target_kind" (integer a.target_kind) (
        entry "target_name" (text a.target_name) (
          entry "force" (boolean a.force) (
            entry "request_id" (bytes a.request_id)
              (entry_unless_none "act_as" (λ x. object (act_as.plain_map x)) a.act_as (end))))));
  from_map = λ m. do
    namespace' ← field read_text "namespace" m
    target_kind' ← field read_integer "target_kind" m
    target_name' ← field read_text "target_name" m
    force' ← field read_bool "force" m
    request_id' ← field read_bytes "request_id" m
    act_as' ← field_or (read_optional (read_object act_as.from_map)) none "act_as" m
    ok (record {
      namespace = namespace';
      target_kind = target_kind';
      target_name = target_name';
      force = force';
      request_id = request_id';
      act_as = act_as';
    });
  round_trip = λ a. simp (entries, read_some_payload act_as) refl;
}

pub record SchemaReplaceRequest : Type 0 where
  pub schema_document : String
  pub force_drop_existing : Bool
  pub request_id : List ℕ
  pub act_as : Option ActAs

abbrev pub schema_replace_request : Payload SchemaReplaceRequest
schema_replace_request = record {
  plain_map = λ a. entry "schema_document" (text a.schema_document) (
      entry "force_drop_existing" (boolean a.force_drop_existing) (
        entry "request_id" (bytes a.request_id)
          (entry_unless_none "act_as" (λ x. object (act_as.plain_map x)) a.act_as (end))));
  from_map = λ m. do
    schema_document' ← field read_text "schema_document" m
    force_drop_existing' ← field read_bool "force_drop_existing" m
    request_id' ← field read_bytes "request_id" m
    act_as' ← field_or (read_optional (read_object act_as.from_map)) none "act_as" m
    ok (record {
      schema_document = schema_document';
      force_drop_existing = force_drop_existing';
      request_id = request_id';
      act_as = act_as';
    });
  round_trip = λ a. simp (entries, read_some_payload act_as) refl;
}

pub record FusionConfig : Type 0 where
  pub k : ℕ
  pub semantic_weight : ℕ
  pub lexical_weight : ℕ
  pub graph_weight : ℕ

abbrev pub fusion_config : Payload FusionConfig
fusion_config = record {
  plain_map = λ a. entry "k" (integer a.k) (
      entry "semantic_weight" (float a.semantic_weight) (
        entry "lexical_weight" (float a.lexical_weight)
          (entry "graph_weight" (float a.graph_weight) (end))));
  from_map = λ m. do
    k' ← field read_integer "k" m
    semantic_weight' ← field read_float "semantic_weight" m
    lexical_weight' ← field read_float "lexical_weight" m
    graph_weight' ← field read_float "graph_weight" m
    ok (record {
      k = k';
      semantic_weight = semantic_weight';
      lexical_weight = lexical_weight';
      graph_weight = graph_weight';
    });
  round_trip = λ a. refl;
}

pub record MaterializeProceduralRequest : Type 0 where
  pub space_id : List ℕ
  pub session_filter : Option (List ℕ)
  pub top_k : ℕ
  pub min_confidence : ℕ
  pub categories : List String
  pub request_id : List ℕ
  pub act_as : Option ActAs

abbrev pub materialize_procedural_request : Payload MaterializeProceduralRequest
materialize_procedural_request = record {
  plain_map = λ a. entry "space_id" (bytes a.space_id) (
      entry "session_filter" (or_null (write_list integer) a.session_filter) (
        entry "top_k" (integer a.top_k) (
          entry "min_confidence" (float a.min_confidence) (
            entry "categories" ((write_list text) a.categories) (
              entry "request_id" (bytes a.request_id)
                (entry_unless_none "act_as" (λ x. object (act_as.plain_map x)) a.act_as (end)))))));
  from_map = λ m. do
    space_id' ← field read_bytes "space_id" m
    session_filter' ← field (read_optional (read_list read_integer)) "session_filter" m
    top_k' ← field read_integer "top_k" m
    min_confidence' ← field read_float "min_confidence" m
    categories' ← field (read_list read_text) "categories" m
    request_id' ← field read_bytes "request_id" m
    act_as' ← field_or (read_optional (read_object act_as.from_map)) none "act_as" m
    ok (record {
      space_id = space_id';
      session_filter = session_filter';
      top_k = top_k';
      min_confidence = min_confidence';
      categories = categories';
      request_id = request_id';
      act_as = act_as';
    });
  round_trip = λ a. simp (entries, read_some_payload act_as) refl;
}
