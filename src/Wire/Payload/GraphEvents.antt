-- ===== src/Wire/Payload/GraphEvents.antt =====
-- python/src/brain_db_sdk/wire/types.py: the events of entities, statements, relations and schemas.
use Prim.Native.String.{String}
use brain_sdk.Prelude.{ℕ, Bool, List, refl}
use brain_sdk.Wire.Payload.{Payload}
use brain_sdk.Wire.Value.{
  ◌>>=◌, end, entry, bytes, integer, text, boolean, ok, field, read_bool, read_integer, read_text,
  read_bytes,
}

pub record EntityCreatedEvent : Type 0 where
  pub entity_id : List ℕ
  pub entity_type_id : ℕ
  pub canonical_name : String

abbrev pub entity_created_event : Payload EntityCreatedEvent
entity_created_event = record {
  plain_map = λ a. entry "entity_id" (bytes a.entity_id) (
      entry "entity_type_id" (integer a.entity_type_id)
        (entry "canonical_name" (text a.canonical_name) (end)));
  from_map = λ m. do
    entity_id' ← field read_bytes "entity_id" m
    entity_type_id' ← field read_integer "entity_type_id" m
    canonical_name' ← field read_text "canonical_name" m
    ok (record {
      entity_id = entity_id';
      entity_type_id = entity_type_id';
      canonical_name = canonical_name';
    });
  round_trip = λ a. refl;
}

pub record EntityUpdatedEvent : Type 0 where
  pub entity_id : List ℕ
  pub entity_type_id : ℕ
  pub canonical_name : String
  pub embedding_version_changed : Bool

abbrev pub entity_updated_event : Payload EntityUpdatedEvent
entity_updated_event = record {
  plain_map = λ a. entry "entity_id" (bytes a.entity_id) (
      entry "entity_type_id" (integer a.entity_type_id) (
        entry "canonical_name" (text a.canonical_name)
          (entry "embedding_version_changed" (boolean a.embedding_version_changed) (end))));
  from_map = λ m. do
    entity_id' ← field read_bytes "entity_id" m
    entity_type_id' ← field read_integer "entity_type_id" m
    canonical_name' ← field read_text "canonical_name" m
    embedding_version_changed' ← field read_bool "embedding_version_changed" m
    ok (record {
      entity_id = entity_id';
      entity_type_id = entity_type_id';
      canonical_name = canonical_name';
      embedding_version_changed = embedding_version_changed';
    });
  round_trip = λ a. refl;
}

pub record EntityRenamedEvent : Type 0 where
  pub entity_id : List ℕ
  pub old_canonical_name : String
  pub new_canonical_name : String
  pub old_moved_to_alias : Bool

abbrev pub entity_renamed_event : Payload EntityRenamedEvent
entity_renamed_event = record {
  plain_map = λ a. entry "entity_id" (bytes a.entity_id) (
      entry "old_canonical_name" (text a.old_canonical_name) (
        entry "new_canonical_name" (text a.new_canonical_name)
          (entry "old_moved_to_alias" (boolean a.old_moved_to_alias) (end))));
  from_map = λ m. do
    entity_id' ← field read_bytes "entity_id" m
    old_canonical_name' ← field read_text "old_canonical_name" m
    new_canonical_name' ← field read_text "new_canonical_name" m
    old_moved_to_alias' ← field read_bool "old_moved_to_alias" m
    ok (record {
      entity_id = entity_id';
      old_canonical_name = old_canonical_name';
      new_canonical_name = new_canonical_name';
      old_moved_to_alias = old_moved_to_alias';
    });
  round_trip = λ a. refl;
}

pub record EntityUnmergedEvent : Type 0 where
  pub restored_entity_id : List ℕ
  pub from_survivor : List ℕ
  pub audit_id : List ℕ

abbrev pub entity_unmerged_event : Payload EntityUnmergedEvent
entity_unmerged_event = record {
  plain_map = λ a.
      entry "restored_entity_id" (bytes a.restored_entity_id)
        (entry "from_survivor" (bytes a.from_survivor) (entry "audit_id" (bytes a.audit_id) (end)));
  from_map = λ m. do
    restored_entity_id' ← field read_bytes "restored_entity_id" m
    from_survivor' ← field read_bytes "from_survivor" m
    audit_id' ← field read_bytes "audit_id" m
    ok (record {
      restored_entity_id = restored_entity_id';
      from_survivor = from_survivor';
      audit_id = audit_id';
    });
  round_trip = λ a. refl;
}

pub record EntityTombstonedEvent : Type 0 where
  pub entity_id : List ℕ
  pub reason : String

abbrev pub entity_tombstoned_event : Payload EntityTombstonedEvent
entity_tombstoned_event = record {
  plain_map = λ a. entry "entity_id" (bytes a.entity_id) (entry "reason" (text a.reason) (end));
  from_map = λ m. do
    entity_id' ← field read_bytes "entity_id" m
    reason' ← field read_text "reason" m
    ok (record { entity_id = entity_id'; reason = reason' });
  round_trip = λ a. refl;
}

pub record StatementSupersededEvent : Type 0 where
  pub old_statement_id : List ℕ
  pub new_statement_id : List ℕ
  pub chain_root : List ℕ

abbrev pub statement_superseded_event : Payload StatementSupersededEvent
statement_superseded_event = record {
  plain_map = λ a. entry "old_statement_id" (bytes a.old_statement_id) (
      entry "new_statement_id" (bytes a.new_statement_id)
        (entry "chain_root" (bytes a.chain_root) (end)));
  from_map = λ m. do
    old_statement_id' ← field read_bytes "old_statement_id" m
    new_statement_id' ← field read_bytes "new_statement_id" m
    chain_root' ← field read_bytes "chain_root" m
    ok (record {
      old_statement_id = old_statement_id';
      new_statement_id = new_statement_id';
      chain_root = chain_root';
    });
  round_trip = λ a. refl;
}

pub record StatementTombstonedEvent : Type 0 where
  pub statement_id : List ℕ
  pub reason : String

abbrev pub statement_tombstoned_event : Payload StatementTombstonedEvent
statement_tombstoned_event = record {
  plain_map =
      λ a. entry "statement_id" (bytes a.statement_id) (entry "reason" (text a.reason) (end));
  from_map = λ m. do
    statement_id' ← field read_bytes "statement_id" m
    reason' ← field read_text "reason" m
    ok (record { statement_id = statement_id'; reason = reason' });
  round_trip = λ a. refl;
}

pub record RelationSupersededEvent : Type 0 where
  pub old_relation_id : List ℕ
  pub new_relation_id : List ℕ

abbrev pub relation_superseded_event : Payload RelationSupersededEvent
relation_superseded_event = record {
  plain_map = λ a.
      entry "old_relation_id" (bytes a.old_relation_id)
        (entry "new_relation_id" (bytes a.new_relation_id) (end));
  from_map = λ m. do
    old_relation_id' ← field read_bytes "old_relation_id" m
    new_relation_id' ← field read_bytes "new_relation_id" m
    ok (record { old_relation_id = old_relation_id'; new_relation_id = new_relation_id' });
  round_trip = λ a. refl;
}

pub record RelationTombstonedEvent : Type 0 where
  pub relation_id : List ℕ
  pub reason : String

abbrev pub relation_tombstoned_event : Payload RelationTombstonedEvent
relation_tombstoned_event = record {
  plain_map = λ a. entry "relation_id" (bytes a.relation_id) (entry "reason" (text a.reason) (end));
  from_map = λ m. do
    relation_id' ← field read_bytes "relation_id" m
    reason' ← field read_text "reason" m
    ok (record { relation_id = relation_id'; reason = reason' });
  round_trip = λ a. refl;
}

pub record SchemaUpdatedEvent : Type 0 where
  pub namespace : String
  pub from_version : ℕ
  pub to_version : ℕ
  pub backward_compatible : Bool

abbrev pub schema_updated_event : Payload SchemaUpdatedEvent
schema_updated_event = record {
  plain_map = λ a. entry "namespace" (text a.namespace) (
      entry "from_version" (integer a.from_version) (
        entry "to_version" (integer a.to_version)
          (entry "backward_compatible" (boolean a.backward_compatible) (end))));
  from_map = λ m. do
    namespace' ← field read_text "namespace" m
    from_version' ← field read_integer "from_version" m
    to_version' ← field read_integer "to_version" m
    backward_compatible' ← field read_bool "backward_compatible" m
    ok (record {
      namespace = namespace';
      from_version = from_version';
      to_version = to_version';
      backward_compatible = backward_compatible';
    });
  round_trip = λ a. refl;
}
