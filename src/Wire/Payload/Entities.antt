-- ===== src/Wire/Payload/Entities.antt =====
-- python/src/brain_db_sdk/wire/types.py: entities and their lists.
use Prim.Native.String.{String}
use brain_sdk.Prelude.{ℕ, Bool, List, refl}
use brain_sdk.Wire.Payload.{Payload, read_payloads}
use brain_sdk.Wire.Value.{
  ◌>>=◌, end, entry, bytes, integer, text, boolean, write_list, ok, field, read_bool, read_integer,
  read_text, read_bytes, read_list, read_object, object, read_integers, read_texts,
}

pub record EntityView : Type 0 where
  pub entity_id : List ℕ
  pub entity_type_id : ℕ
  pub canonical_name : String
  pub normalized_name : String
  pub aliases : List String
  pub attributes_blob : List ℕ
  pub mention_count : ℕ
  pub created_at_unix_nanos : ℕ
  pub updated_at_unix_nanos : ℕ
  pub merged_into : List ℕ
  pub embedding_version : ℕ
  pub flags : ℕ

abbrev pub entity_view : Payload EntityView
entity_view = record {
  plain_map = λ a. entry "entity_id" (bytes a.entity_id) (
      entry "entity_type_id" (integer a.entity_type_id) (
        entry "canonical_name" (text a.canonical_name) (
          entry "normalized_name" (text a.normalized_name) (
            entry "aliases" (write_list text a.aliases) (
              entry "attributes_blob" (write_list integer a.attributes_blob) (
                entry "mention_count" (integer a.mention_count) (
                  entry "created_at_unix_nanos" (integer a.created_at_unix_nanos) (
                    entry "updated_at_unix_nanos" (integer a.updated_at_unix_nanos) (
                      entry "merged_into" (bytes a.merged_into) (
                        entry "embedding_version" (integer a.embedding_version)
                          (entry "flags" (integer a.flags) (end))))))))))));
  from_map = λ m. do
    entity_id' ← field read_bytes "entity_id" m
    entity_type_id' ← field read_integer "entity_type_id" m
    canonical_name' ← field read_text "canonical_name" m
    normalized_name' ← field read_text "normalized_name" m
    aliases' ← field (read_list read_text) "aliases" m
    attributes_blob' ← field (read_list read_integer) "attributes_blob" m
    mention_count' ← field read_integer "mention_count" m
    created_at_unix_nanos' ← field read_integer "created_at_unix_nanos" m
    updated_at_unix_nanos' ← field read_integer "updated_at_unix_nanos" m
    merged_into' ← field read_bytes "merged_into" m
    embedding_version' ← field read_integer "embedding_version" m
    flags' ← field read_integer "flags" m
    ok (record {
      entity_id = entity_id';
      entity_type_id = entity_type_id';
      canonical_name = canonical_name';
      normalized_name = normalized_name';
      aliases = aliases';
      attributes_blob = attributes_blob';
      mention_count = mention_count';
      created_at_unix_nanos = created_at_unix_nanos';
      updated_at_unix_nanos = updated_at_unix_nanos';
      merged_into = merged_into';
      embedding_version = embedding_version';
      flags = flags';
    });
  round_trip = λ a. rw (read_texts a.aliases, read_integers a.attributes_blob) refl;
}

pub record EntityListItem : Type 0 where
  pub entity : EntityView

abbrev pub entity_list_item : Payload EntityListItem
entity_list_item = record {
  plain_map = λ a. entry "entity" (object (entity_view.plain_map a.entity)) (end);
  from_map = λ m. do
    entity' ← field (read_object entity_view.from_map) "entity" m
    ok (record { entity = entity' });
  round_trip = λ a. rw (entity_view.round_trip a.entity) refl;
}

pub record EntityListResponseFrame : Type 0 where
  pub items : List EntityListItem
  pub next_cursor : List ℕ
  pub cumulative_count : ℕ
  pub is_final : Bool

abbrev pub entity_list_response_frame : Payload EntityListResponseFrame
entity_list_response_frame = record {
  plain_map = λ a. entry "items" (write_list (λ x. object (entity_list_item.plain_map x)) a.items) (
      entry "next_cursor" (write_list integer a.next_cursor) (
        entry "cumulative_count" (integer a.cumulative_count)
          (entry "is_final" (boolean a.is_final) (end))));
  from_map = λ m. do
    items' ← field (read_list (read_object entity_list_item.from_map)) "items" m
    next_cursor' ← field (read_list read_integer) "next_cursor" m
    cumulative_count' ← field read_integer "cumulative_count" m
    is_final' ← field read_bool "is_final" m
    ok (record {
      items = items';
      next_cursor = next_cursor';
      cumulative_count = cumulative_count';
      is_final = is_final';
    });
  round_trip = λ a. rw (read_payloads entity_list_item a.items, read_integers a.next_cursor) refl;
}
