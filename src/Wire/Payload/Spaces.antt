-- ===== src/Wire/Payload/Spaces.antt =====
-- python/src/brain_db_sdk/wire/types.py: relations, spaces and sessions.
use Prim.Native.String.{String}
use brain_sdk.Prelude.{ℕ, Bool, List, refl}
use brain_sdk.Wire.Payload.{Payload, read_payloads}
use brain_sdk.Wire.Value.{
  ◌>>=◌, end, entry, bytes, integer, text, boolean, write_list, ok, field, read_bool, read_integer,
  read_text, read_bytes, read_list, read_object, object,
}

pub record RelationSupersedeResponse : Type 0 where
  pub new_relation_id : List ℕ
  pub version : ℕ

abbrev pub relation_supersede_response : Payload RelationSupersedeResponse
relation_supersede_response = record {
  plain_map = λ a.
      entry "new_relation_id" (bytes a.new_relation_id) (entry "version" (integer a.version) (end));
  from_map = λ m. do
    new_relation_id' ← field read_bytes "new_relation_id" m
    version' ← field read_integer "version" m
    ok (record { new_relation_id = new_relation_id'; version = version' });
  round_trip = λ a. refl;
}

pub record RelationTombstoneResponse : Type 0 where
  pub tombstoned_at_unix_nanos : ℕ

abbrev pub relation_tombstone_response : Payload RelationTombstoneResponse
relation_tombstone_response = record {
  plain_map = λ a. entry "tombstoned_at_unix_nanos" (integer a.tombstoned_at_unix_nanos) (end);
  from_map = λ m. do
    tombstoned_at_unix_nanos' ← field read_integer "tombstoned_at_unix_nanos" m
    ok (record { tombstoned_at_unix_nanos = tombstoned_at_unix_nanos' });
  round_trip = λ a. refl;
}

pub record SpaceView : Type 0 where
  pub space : String
  pub created_at_unix_nanos : ℕ
  pub last_active_unix_nanos : ℕ
  pub memory_count : ℕ
  pub session_count : ℕ

abbrev pub space_view : Payload SpaceView
space_view = record {
  plain_map = λ a. entry "space" (text a.space) (
      entry "created_at_unix_nanos" (integer a.created_at_unix_nanos) (
        entry "last_active_unix_nanos" (integer a.last_active_unix_nanos) (
          entry "memory_count" (integer a.memory_count)
            (entry "session_count" (integer a.session_count) (end)))));
  from_map = λ m. do
    space' ← field read_text "space" m
    created_at_unix_nanos' ← field read_integer "created_at_unix_nanos" m
    last_active_unix_nanos' ← field read_integer "last_active_unix_nanos" m
    memory_count' ← field read_integer "memory_count" m
    session_count' ← field read_integer "session_count" m
    ok (record {
      space = space';
      created_at_unix_nanos = created_at_unix_nanos';
      last_active_unix_nanos = last_active_unix_nanos';
      memory_count = memory_count';
      session_count = session_count';
    });
  round_trip = λ a. refl;
}

pub record SpaceCreateResponse : Type 0 where
  pub space : String
  pub created : Bool
  pub created_at_unix_nanos : ℕ
  pub last_active_unix_nanos : ℕ
  pub memory_count : ℕ
  pub session_count : ℕ

abbrev pub space_create_response : Payload SpaceCreateResponse
space_create_response = record {
  plain_map = λ a. entry "space" (text a.space) (
      entry "created" (boolean a.created) (
        entry "created_at_unix_nanos" (integer a.created_at_unix_nanos) (
          entry "last_active_unix_nanos" (integer a.last_active_unix_nanos) (
            entry "memory_count" (integer a.memory_count)
              (entry "session_count" (integer a.session_count) (end))))));
  from_map = λ m. do
    space' ← field read_text "space" m
    created' ← field read_bool "created" m
    created_at_unix_nanos' ← field read_integer "created_at_unix_nanos" m
    last_active_unix_nanos' ← field read_integer "last_active_unix_nanos" m
    memory_count' ← field read_integer "memory_count" m
    session_count' ← field read_integer "session_count" m
    ok (record {
      space = space';
      created = created';
      created_at_unix_nanos = created_at_unix_nanos';
      last_active_unix_nanos = last_active_unix_nanos';
      memory_count = memory_count';
      session_count = session_count';
    });
  round_trip = λ a. refl;
}

pub record SpaceListResponse : Type 0 where
  pub spaces : List SpaceView
  pub cross_shard_complete : Bool

abbrev pub space_list_response : Payload SpaceListResponse
space_list_response = record {
  plain_map = λ a.
      entry "spaces" (write_list (λ x. object (space_view.plain_map x)) a.spaces)
        (entry "cross_shard_complete" (boolean a.cross_shard_complete) (end));
  from_map = λ m. do
    spaces' ← field (read_list (read_object space_view.from_map)) "spaces" m
    cross_shard_complete' ← field read_bool "cross_shard_complete" m
    ok (record { spaces = spaces'; cross_shard_complete = cross_shard_complete' });
  round_trip = λ a. rw (read_payloads space_view a.spaces) refl;
}

pub record SpaceDeleteResponse : Type 0 where
  pub space : String
  pub existed : Bool
  pub memories_forgotten : ℕ

abbrev pub space_delete_response : Payload SpaceDeleteResponse
space_delete_response = record {
  plain_map = λ a. entry "space" (text a.space) (
      entry "existed" (boolean a.existed)
        (entry "memories_forgotten" (integer a.memories_forgotten) (end)));
  from_map = λ m. do
    space' ← field read_text "space" m
    existed' ← field read_bool "existed" m
    memories_forgotten' ← field read_integer "memories_forgotten" m
    ok (record { space = space'; existed = existed'; memories_forgotten = memories_forgotten' });
  round_trip = λ a. refl;
}

pub record SessionCreateResponse : Type 0 where
  pub space_id : List ℕ
  pub session_id : ℕ
  pub created : Bool
  pub created_at_unix_nanos : ℕ
  pub last_active_unix_nanos : ℕ
  pub memory_count : ℕ

abbrev pub session_create_response : Payload SessionCreateResponse
session_create_response = record {
  plain_map = λ a. entry "space_id" (bytes a.space_id) (
      entry "session_id" (integer a.session_id) (
        entry "created" (boolean a.created) (
          entry "created_at_unix_nanos" (integer a.created_at_unix_nanos) (
            entry "last_active_unix_nanos" (integer a.last_active_unix_nanos)
              (entry "memory_count" (integer a.memory_count) (end))))));
  from_map = λ m. do
    space_id' ← field read_bytes "space_id" m
    session_id' ← field read_integer "session_id" m
    created' ← field read_bool "created" m
    created_at_unix_nanos' ← field read_integer "created_at_unix_nanos" m
    last_active_unix_nanos' ← field read_integer "last_active_unix_nanos" m
    memory_count' ← field read_integer "memory_count" m
    ok (record {
      space_id = space_id';
      session_id = session_id';
      created = created';
      created_at_unix_nanos = created_at_unix_nanos';
      last_active_unix_nanos = last_active_unix_nanos';
      memory_count = memory_count';
    });
  round_trip = λ a. refl;
}

pub record SessionDeleteResponse : Type 0 where
  pub space_id : List ℕ
  pub session_id : ℕ
  pub existed : Bool
  pub memories_forgotten : ℕ

abbrev pub session_delete_response : Payload SessionDeleteResponse
session_delete_response = record {
  plain_map = λ a. entry "space_id" (bytes a.space_id) (
      entry "session_id" (integer a.session_id) (
        entry "existed" (boolean a.existed)
          (entry "memories_forgotten" (integer a.memories_forgotten) (end))));
  from_map = λ m. do
    space_id' ← field read_bytes "space_id" m
    session_id' ← field read_integer "session_id" m
    existed' ← field read_bool "existed" m
    memories_forgotten' ← field read_integer "memories_forgotten" m
    ok (record {
      space_id = space_id';
      session_id = session_id';
      existed = existed';
      memories_forgotten = memories_forgotten';
    });
  round_trip = λ a. refl;
}
