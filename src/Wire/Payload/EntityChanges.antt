-- ===== src/Wire/Payload/EntityChanges.antt =====
-- python/src/brain_db_sdk/wire/types.py: requests that change an entity.
use Prim.Native.String.{String}
use brain_sdk.Prelude.{ℕ, Bool, Option, none, List, refl}
use brain_sdk.Wire.Payload.{Payload, read_some_payload}
use brain_sdk.Wire.Value.Entries.{entries}
use brain_sdk.Wire.Value.{
  ◌>>=◌, end, entry, entry_unless_none, integer, float, text, bytes, boolean, object, write_list,
  ok, field, field_or, read_bool, read_integer, read_float, read_text, read_bytes, read_object,
  read_list, read_optional,
}
use brain_sdk.Wire.Payload.Identity.{ActAs, act_as}

pub record EntityUpdateRequest : Type 0 where
  pub entity_id : List ℕ
  pub canonical_name : String
  pub aliases : List String
  pub attributes_blob : List ℕ
  pub request_id : List ℕ
  pub act_as : Option ActAs

abbrev pub entity_update_request : Payload EntityUpdateRequest
entity_update_request = record {
  plain_map = λ a. entry "entity_id" (bytes a.entity_id) (
      entry "canonical_name" (text a.canonical_name) (
        entry "aliases" ((write_list text) a.aliases) (
          entry "attributes_blob" ((write_list integer) a.attributes_blob) (
            entry "request_id" (bytes a.request_id)
              (entry_unless_none "act_as" (λ x. object (act_as.plain_map x)) a.act_as (end))))));
  from_map = λ m. do
    entity_id' ← field read_bytes "entity_id" m
    canonical_name' ← field read_text "canonical_name" m
    aliases' ← field (read_list read_text) "aliases" m
    attributes_blob' ← field (read_list read_integer) "attributes_blob" m
    request_id' ← field read_bytes "request_id" m
    act_as' ← field_or (read_optional (read_object act_as.from_map)) none "act_as" m
    ok (record {
      entity_id = entity_id';
      canonical_name = canonical_name';
      aliases = aliases';
      attributes_blob = attributes_blob';
      request_id = request_id';
      act_as = act_as';
    });
  round_trip = λ a. simp (entries, read_some_payload act_as) refl;
}

pub record EntityRenameRequest : Type 0 where
  pub entity_id : List ℕ
  pub new_canonical_name : String
  pub move_to_alias : Bool
  pub request_id : List ℕ
  pub act_as : Option ActAs

abbrev pub entity_rename_request : Payload EntityRenameRequest
entity_rename_request = record {
  plain_map = λ a. entry "entity_id" (bytes a.entity_id) (
      entry "new_canonical_name" (text a.new_canonical_name) (
        entry "move_to_alias" (boolean a.move_to_alias) (
          entry "request_id" (bytes a.request_id)
            (entry_unless_none "act_as" (λ x. object (act_as.plain_map x)) a.act_as (end)))));
  from_map = λ m. do
    entity_id' ← field read_bytes "entity_id" m
    new_canonical_name' ← field read_text "new_canonical_name" m
    move_to_alias' ← field read_bool "move_to_alias" m
    request_id' ← field read_bytes "request_id" m
    act_as' ← field_or (read_optional (read_object act_as.from_map)) none "act_as" m
    ok (record {
      entity_id = entity_id';
      new_canonical_name = new_canonical_name';
      move_to_alias = move_to_alias';
      request_id = request_id';
      act_as = act_as';
    });
  round_trip = λ a. simp (entries, read_some_payload act_as) refl;
}

pub record EntityMergeRequest : Type 0 where
  pub survivor : List ℕ
  pub merged : List ℕ
  pub confidence : ℕ
  pub reason : String
  pub request_id : List ℕ
  pub act_as : Option ActAs

abbrev pub entity_merge_request : Payload EntityMergeRequest
entity_merge_request = record {
  plain_map = λ a. entry "survivor" (bytes a.survivor) (
      entry "merged" (bytes a.merged) (
        entry "confidence" (float a.confidence) (
          entry "reason" (text a.reason) (
            entry "request_id" (bytes a.request_id)
              (entry_unless_none "act_as" (λ x. object (act_as.plain_map x)) a.act_as (end))))));
  from_map = λ m. do
    survivor' ← field read_bytes "survivor" m
    merged' ← field read_bytes "merged" m
    confidence' ← field read_float "confidence" m
    reason' ← field read_text "reason" m
    request_id' ← field read_bytes "request_id" m
    act_as' ← field_or (read_optional (read_object act_as.from_map)) none "act_as" m
    ok (record {
      survivor = survivor';
      merged = merged';
      confidence = confidence';
      reason = reason';
      request_id = request_id';
      act_as = act_as';
    });
  round_trip = λ a. simp (entries, read_some_payload act_as) refl;
}

pub record EntityUnmergeRequest : Type 0 where
  pub merged_entity : List ℕ
  pub request_id : List ℕ
  pub act_as : Option ActAs

abbrev pub entity_unmerge_request : Payload EntityUnmergeRequest
entity_unmerge_request = record {
  plain_map = λ a. entry "merged_entity" (bytes a.merged_entity) (
      entry "request_id" (bytes a.request_id)
        (entry_unless_none "act_as" (λ x. object (act_as.plain_map x)) a.act_as (end)));
  from_map = λ m. do
    merged_entity' ← field read_bytes "merged_entity" m
    request_id' ← field read_bytes "request_id" m
    act_as' ← field_or (read_optional (read_object act_as.from_map)) none "act_as" m
    ok (record { merged_entity = merged_entity'; request_id = request_id'; act_as = act_as' });
  round_trip = λ a. simp (entries, read_some_payload act_as) refl;
}

pub record EntityTombstoneRequest : Type 0 where
  pub entity_id : List ℕ
  pub reason : String
  pub request_id : List ℕ
  pub act_as : Option ActAs

abbrev pub entity_tombstone_request : Payload EntityTombstoneRequest
entity_tombstone_request = record {
  plain_map = λ a. entry "entity_id" (bytes a.entity_id) (
      entry "reason" (text a.reason) (
        entry "request_id" (bytes a.request_id)
          (entry_unless_none "act_as" (λ x. object (act_as.plain_map x)) a.act_as (end))));
  from_map = λ m. do
    entity_id' ← field read_bytes "entity_id" m
    reason' ← field read_text "reason" m
    request_id' ← field read_bytes "request_id" m
    act_as' ← field_or (read_optional (read_object act_as.from_map)) none "act_as" m
    ok (record {
      entity_id = entity_id';
      reason = reason';
      request_id = request_id';
      act_as = act_as';
    });
  round_trip = λ a. simp (entries, read_some_payload act_as) refl;
}
