-- ===== src/Wire/Payload/Lifecycle.antt =====
-- python/src/brain_db_sdk/wire/types.py: what the verbs on entities and statements answer.
use brain_sdk.Prelude.{ℕ, List, refl}
use brain_sdk.Wire.Payload.{Payload}
use brain_sdk.Wire.Value.{
  ◌>>=◌, end, entry, bytes, integer, ok, field, read_integer, read_bytes, read_object, object,
}
use brain_sdk.Wire.Payload.Entities.{EntityView, entity_view}

pub record EntityUpdateResponse : Type 0 where
  pub entity : EntityView

abbrev pub entity_update_response : Payload EntityUpdateResponse
entity_update_response = record {
  plain_map = λ a. entry "entity" (object (entity_view.plain_map a.entity)) (end);
  from_map = λ m. do
    entity' ← field (read_object entity_view.from_map) "entity" m
    ok (record { entity = entity' });
  round_trip = λ a. rw (entity_view.round_trip a.entity) refl;
}

pub record EntityRenameResponse : Type 0 where
  pub entity : EntityView

abbrev pub entity_rename_response : Payload EntityRenameResponse
entity_rename_response = record {
  plain_map = λ a. entry "entity" (object (entity_view.plain_map a.entity)) (end);
  from_map = λ m. do
    entity' ← field (read_object entity_view.from_map) "entity" m
    ok (record { entity = entity' });
  round_trip = λ a. rw (entity_view.round_trip a.entity) refl;
}

pub record EntityMergeResponse : Type 0 where
  pub audit_id : List ℕ
  pub grace_period_seconds : ℕ

abbrev pub entity_merge_response : Payload EntityMergeResponse
entity_merge_response = record {
  plain_map = λ a.
      entry "audit_id" (bytes a.audit_id)
        (entry "grace_period_seconds" (integer a.grace_period_seconds) (end));
  from_map = λ m. do
    audit_id' ← field read_bytes "audit_id" m
    grace_period_seconds' ← field read_integer "grace_period_seconds" m
    ok (record { audit_id = audit_id'; grace_period_seconds = grace_period_seconds' });
  round_trip = λ a. refl;
}

pub record EntityUnmergeResponse : Type 0 where
  pub restored_entity_id : List ℕ

abbrev pub entity_unmerge_response : Payload EntityUnmergeResponse
entity_unmerge_response = record {
  plain_map = λ a. entry "restored_entity_id" (bytes a.restored_entity_id) (end);
  from_map = λ m. do
    restored_entity_id' ← field read_bytes "restored_entity_id" m
    ok (record { restored_entity_id = restored_entity_id' });
  round_trip = λ a. refl;
}

pub record EntityTombstoneResponse : Type 0 where
  pub tombstoned_at_unix_nanos : ℕ

abbrev pub entity_tombstone_response : Payload EntityTombstoneResponse
entity_tombstone_response = record {
  plain_map = λ a. entry "tombstoned_at_unix_nanos" (integer a.tombstoned_at_unix_nanos) (end);
  from_map = λ m. do
    tombstoned_at_unix_nanos' ← field read_integer "tombstoned_at_unix_nanos" m
    ok (record { tombstoned_at_unix_nanos = tombstoned_at_unix_nanos' });
  round_trip = λ a. refl;
}

pub record StatementSupersedeResponse : Type 0 where
  pub new_statement_id : List ℕ
  pub chain_root : List ℕ
  pub version : ℕ

abbrev pub statement_supersede_response : Payload StatementSupersedeResponse
statement_supersede_response = record {
  plain_map = λ a.
      entry "new_statement_id" (bytes a.new_statement_id)
        (entry "chain_root" (bytes a.chain_root) (entry "version" (integer a.version) (end)));
  from_map = λ m. do
    new_statement_id' ← field read_bytes "new_statement_id" m
    chain_root' ← field read_bytes "chain_root" m
    version' ← field read_integer "version" m
    ok (record {
      new_statement_id = new_statement_id';
      chain_root = chain_root';
      version = version';
    });
  round_trip = λ a. refl;
}

pub record StatementTombstoneResponse : Type 0 where
  pub tombstoned_at_unix_nanos : ℕ

abbrev pub statement_tombstone_response : Payload StatementTombstoneResponse
statement_tombstone_response = record {
  plain_map = λ a. entry "tombstoned_at_unix_nanos" (integer a.tombstoned_at_unix_nanos) (end);
  from_map = λ m. do
    tombstoned_at_unix_nanos' ← field read_integer "tombstoned_at_unix_nanos" m
    ok (record { tombstoned_at_unix_nanos = tombstoned_at_unix_nanos' });
  round_trip = λ a. refl;
}

pub record StatementRetractResponse : Type 0 where
  pub retracted_at_unix_nanos : ℕ
  pub will_zero_at_unix_nanos : ℕ

abbrev pub statement_retract_response : Payload StatementRetractResponse
statement_retract_response = record {
  plain_map = λ a.
      entry "retracted_at_unix_nanos" (integer a.retracted_at_unix_nanos)
        (entry "will_zero_at_unix_nanos" (integer a.will_zero_at_unix_nanos) (end));
  from_map = λ m. do
    retracted_at_unix_nanos' ← field read_integer "retracted_at_unix_nanos" m
    will_zero_at_unix_nanos' ← field read_integer "will_zero_at_unix_nanos" m
    ok (record {
      retracted_at_unix_nanos = retracted_at_unix_nanos';
      will_zero_at_unix_nanos = will_zero_at_unix_nanos';
    });
  round_trip = λ a. refl;
}
