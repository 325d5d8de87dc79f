-- ===== src/Wire/Payload/Listings.antt =====
-- python/src/brain_db_sdk/wire/types.py: requests for lists of relations and schemas.
use Prim.Native.String.{String}
use brain_sdk.Prelude.{ℕ, Bool, Option, none, List, refl}
use brain_sdk.Wire.Payload.{Payload, read_some_payload}
use brain_sdk.Wire.Value.Entries.{entries}
use brain_sdk.Wire.Value.{
  ◌>>=◌, end, entry, entry_unless_none, integer, text, bytes, boolean, object, write_list, ok,
  field, field_or, read_bool, read_integer, read_text, read_bytes, read_object, read_list,
  read_optional,
}
use brain_sdk.Wire.Payload.Identity.{ActAs, act_as}

pub record RelationListFromRequest : Type 0 where
  pub from_entity : List ℕ
  pub relation_type_filter : String
  pub time_range_start_unix_nanos : ℕ
  pub time_range_end_unix_nanos : ℕ
  pub include_superseded : Bool
  pub include_tombstoned : Bool
  pub limit : ℕ
  pub cursor : List ℕ
  pub act_as : Option ActAs

abbrev pub relation_list_from_request : Payload RelationListFromRequest
relation_list_from_request = record {
  plain_map = λ a. entry "from_entity" (bytes a.from_entity) (
      entry "relation_type_filter" (text a.relation_type_filter) (
        entry "time_range_start_unix_nanos" (integer a.time_range_start_unix_nanos) (
          entry "time_range_end_unix_nanos" (integer a.time_range_end_unix_nanos) (
            entry "include_superseded" (boolean a.include_superseded) (
              entry "include_tombstoned" (boolean a.include_tombstoned) (
                entry "limit" (integer a.limit) (
                  entry "cursor" ((write_list integer) a.cursor) (
                    entry_unless_none "act_as" (λ x. object (act_as.plain_map x)) a.act_as
                      (end)))))))));
  from_map = λ m. do
    from_entity' ← field read_bytes "from_entity" m
    relation_type_filter' ← field read_text "relation_type_filter" m
    time_range_start_unix_nanos' ← field read_integer "time_range_start_unix_nanos" m
    time_range_end_unix_nanos' ← field read_integer "time_range_end_unix_nanos" m
    include_superseded' ← field read_bool "include_superseded" m
    include_tombstoned' ← field read_bool "include_tombstoned" m
    limit' ← field read_integer "limit" m
    cursor' ← field (read_list read_integer) "cursor" m
    act_as' ← field_or (read_optional (read_object act_as.from_map)) none "act_as" m
    ok (record {
      from_entity = from_entity';
      relation_type_filter = relation_type_filter';
      time_range_start_unix_nanos = time_range_start_unix_nanos';
      time_range_end_unix_nanos = time_range_end_unix_nanos';
      include_superseded = include_superseded';
      include_tombstoned = include_tombstoned';
      limit = limit';
      cursor = cursor';
      act_as = act_as';
    });
  round_trip = λ a. simp (entries, read_some_payload act_as) refl;
}

pub record RelationListToRequest : Type 0 where
  pub to_entity : List ℕ
  pub relation_type_filter : String
  pub time_range_start_unix_nanos : ℕ
  pub time_range_end_unix_nanos : ℕ
  pub include_superseded : Bool
  pub include_tombstoned : Bool
  pub limit : ℕ
  pub cursor : List ℕ
  pub act_as : Option ActAs

abbrev pub relation_list_to_request : Payload RelationListToRequest
relation_list_to_request = record {
  plain_map = λ a. entry "to_entity" (bytes a.to_entity) (
      entry "relation_type_filter" (text a.relation_type_filter) (
        entry "time_range_start_unix_nanos" (integer a.time_range_start_unix_nanos) (
          entry "time_range_end_unix_nanos" (integer a.time_range_end_unix_nanos) (
            entry "include_superseded" (boolean a.include_superseded) (
              entry "include_tombstoned" (boolean a.include_tombstoned) (
                entry "limit" (integer a.limit) (
                  entry "cursor" ((write_list integer) a.cursor) (
                    entry_unless_none "act_as" (λ x. object (act_as.plain_map x)) a.act_as
                      (end)))))))));
  from_map = λ m. do
    to_entity' ← field read_bytes "to_entity" m
    relation_type_filter' ← field read_text "relation_type_filter" m
    time_range_start_unix_nanos' ← field read_integer "time_range_start_unix_nanos" m
    time_range_end_unix_nanos' ← field read_integer "time_range_end_unix_nanos" m
    include_superseded' ← field read_bool "include_superseded" m
    include_tombstoned' ← field read_bool "include_tombstoned" m
    limit' ← field read_integer "limit" m
    cursor' ← field (read_list read_integer) "cursor" m
    act_as' ← field_or (read_optional (read_object act_as.from_map)) none "act_as" m
    ok (record {
      to_entity = to_entity';
      relation_type_filter = relation_type_filter';
      time_range_start_unix_nanos = time_range_start_unix_nanos';
      time_range_end_unix_nanos = time_range_end_unix_nanos';
      include_superseded = include_superseded';
      include_tombstoned = include_tombstoned';
      limit = limit';
      cursor = cursor';
      act_as = act_as';
    });
  round_trip = λ a. simp (entries, read_some_payload act_as) refl;
}

pub record SchemaGetRequest : Type 0 where
  pub namespace : String
  pub version : ℕ
  pub act_as : Option ActAs

abbrev pub schema_get_request : Payload SchemaGetRequest
schema_get_request = record {
  plain_map = λ a. entry "namespace" (text a.namespace) (
      entry "version" (integer a.version)
        (entry_unless_none "act_as" (λ x. object (act_as.plain_map x)) a.act_as (end)));
  from_map = λ m. do
    namespace' ← field read_text "namespace" m
    version' ← field read_integer "version" m
    act_as' ← field_or (read_optional (read_object act_as.from_map)) none "act_as" m
    ok (record { namespace = namespace'; version = version'; act_as = act_as' });
  round_trip = λ a. simp (entries, read_some_payload act_as) refl;
}

pub record SchemaListRequest : Type 0 where
  pub namespace : String
  pub limit : ℕ
  pub cursor : List ℕ
  pub act_as : Option ActAs

abbrev pub schema_list_request : Payload SchemaListRequest
schema_list_request = record {
  plain_map = λ a. entry "namespace" (text a.namespace) (
      entry "limit" (integer a.limit) (
        entry "cursor" ((write_list integer) a.cursor)
          (entry_unless_none "act_as" (λ x. object (act_as.plain_map x)) a.act_as (end))));
  from_map = λ m. do
    namespace' ← field read_text "namespace" m
    limit' ← field read_integer "limit" m
    cursor' ← field (read_list read_integer) "cursor" m
    act_as' ← field_or (read_optional (read_object act_as.from_map)) none "act_as" m
    ok (record { namespace = namespace'; limit = limit'; cursor = cursor'; act_as = act_as' });
  round_trip = λ a. simp (entries, read_some_payload act_as) refl;
}

pub record SchemaValidateRequest : Type 0 where
  pub schema_document : String
  pub act_as : Option ActAs

abbrev pub schema_validate_request : Payload SchemaValidateRequest
schema_validate_request = record {
  plain_map = λ a.
      entry "schema_document" (text a.schema_document)
        (entry_unless_none "act_as" (λ x. object (act_as.plain_map x)) a.act_as (end));
  from_map = λ m. do
    schema_document' ← field read_text "schema_document" m
    act_as' ← field_or (read_optional (read_object act_as.from_map)) none "act_as" m
    ok (record { schema_document = schema_document'; act_as = act_as' });
  round_trip = λ a. simp (entries, read_some_payload act_as) refl;
}
