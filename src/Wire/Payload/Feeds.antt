-- ===== src/Wire/Payload/Feeds.antt =====
-- python/src/brain_db_sdk/wire/types.py: transactions, and the events of a subscription.
use Prim.Native.String.{String}
use brain_sdk.Prelude.{ℕ, Option, none, List, refl}
use brain_sdk.Wire.Payload.{Payload, read_some_payload}
use brain_sdk.Wire.Value.Entries.{entries}
use brain_sdk.Wire.Value.{
  ◌>>=◌, end, entry, entry_unless_none, integer, float, text, bytes, object, or_null, ok, field,
  field_or, read_integer, read_float, read_text, read_bytes, read_object, read_optional,
  read_optional_integer, read_optional_bytes,
}
use brain_sdk.Wire.Payload.Identity.{ActAs, act_as}

pub record TxnBeginRequest : Type 0 where
  pub txn_id : List ℕ
  pub timeout_seconds : ℕ
  pub act_as : Option ActAs

abbrev pub txn_begin_request : Payload TxnBeginRequest
txn_begin_request = record {
  plain_map = λ a. entry "txn_id" (bytes a.txn_id) (
      entry "timeout_seconds" (integer a.timeout_seconds)
        (entry_unless_none "act_as" (λ x. object (act_as.plain_map x)) a.act_as (end)));
  from_map = λ m. do
    txn_id' ← field read_bytes "txn_id" m
    timeout_seconds' ← field read_integer "timeout_seconds" m
    act_as' ← field_or (read_optional (read_object act_as.from_map)) none "act_as" m
    ok (record { txn_id = txn_id'; timeout_seconds = timeout_seconds'; act_as = act_as' });
  round_trip = λ a. simp (entries, read_some_payload act_as) refl;
}

pub record SimilarityFilter : Type 0 where
  pub reference_memory_id : ℕ
  pub threshold : ℕ

abbrev pub similarity_filter : Payload SimilarityFilter
similarity_filter = record {
  plain_map = λ a.
      entry "reference_memory_id" (integer a.reference_memory_id)
        (entry "threshold" (float a.threshold) (end));
  from_map = λ m. do
    reference_memory_id' ← field read_integer "reference_memory_id" m
    threshold' ← field read_float "threshold" m
    ok (record { reference_memory_id = reference_memory_id'; threshold = threshold' });
  round_trip = λ a. refl;
}

pub record EdgeEventPayload : Type 0 where
  pub from_kind : ℕ
  pub from_id : List ℕ
  pub to_kind : ℕ
  pub to_id : List ℕ
  pub edge_kind_tag : ℕ
  pub edge_kind_byte : ℕ
  pub relation_type_id : Option ℕ
  pub weight : ℕ
  pub relation_id : Option (List ℕ)
  pub superseded_relation_id : Option (List ℕ)
  pub origin : ℕ

abbrev pub edge_event_payload : Payload EdgeEventPayload
edge_event_payload = record {
  plain_map = λ a. entry "from_kind" (integer a.from_kind) (
      entry "from_id" (bytes a.from_id) (
        entry "to_kind" (integer a.to_kind) (
          entry "to_id" (bytes a.to_id) (
            entry "edge_kind_tag" (integer a.edge_kind_tag) (
              entry "edge_kind_byte" (integer a.edge_kind_byte) (
                entry "relation_type_id" (or_null integer a.relation_type_id) (
                  entry "weight" (float a.weight) (
                    entry "relation_id" (or_null bytes a.relation_id) (
                      entry "superseded_relation_id" (or_null bytes a.superseded_relation_id)
                        (entry "origin" (integer a.origin) (end)))))))))));
  from_map = λ m. do
    from_kind' ← field read_integer "from_kind" m
    from_id' ← field read_bytes "from_id" m
    to_kind' ← field read_integer "to_kind" m
    to_id' ← field read_bytes "to_id" m
    edge_kind_tag' ← field read_integer "edge_kind_tag" m
    edge_kind_byte' ← field read_integer "edge_kind_byte" m
    relation_type_id' ← field (read_optional read_integer) "relation_type_id" m
    weight' ← field read_float "weight" m
    relation_id' ← field (read_optional read_bytes) "relation_id" m
    superseded_relation_id' ← field (read_optional read_bytes) "superseded_relation_id" m
    origin' ← field read_integer "origin" m
    ok (record {
      from_kind = from_kind';
      from_id = from_id';
      to_kind = to_kind';
      to_id = to_id';
      edge_kind_tag = edge_kind_tag';
      edge_kind_byte = edge_kind_byte';
      relation_type_id = relation_type_id';
      weight = weight';
      relation_id = relation_id';
      superseded_relation_id = superseded_relation_id';
      origin = origin';
    });
  round_trip = λ a.
      rw
        (
          read_optional_integer a.relation_type_id,
          read_optional_bytes a.relation_id,
          read_optional_bytes a.superseded_relation_id,
        )
        refl;
}

pub record EntityMergedEvent : Type 0 where
  pub survivor : List ℕ
  pub merged : List ℕ
  pub audit_id : List ℕ
  pub confidence : ℕ
  pub statements_rerouted : ℕ
  pub relations_rerouted : ℕ

abbrev pub entity_merged_event : Payload EntityMergedEvent
entity_merged_event = record {
  plain_map = λ a. entry "survivor" (bytes a.survivor) (
      entry "merged" (bytes a.merged) (
        entry "audit_id" (bytes a.audit_id) (
          entry "confidence" (float a.confidence) (
            entry "statements_rerouted" (integer a.statements_rerouted)
              (entry "relations_rerouted" (integer a.relations_rerouted) (end))))));
  from_map = λ m. do
    survivor' ← field read_bytes "survivor" m
    merged' ← field read_bytes "merged" m
    audit_id' ← field read_bytes "audit_id" m
    confidence' ← field read_float "confidence" m
    statements_rerouted' ← field read_integer "statements_rerouted" m
    relations_rerouted' ← field read_integer "relations_rerouted" m
    ok (record {
      survivor = survivor';
      merged = merged';
      audit_id = audit_id';
      confidence = confidence';
      statements_rerouted = statements_rerouted';
      relations_rerouted = relations_rerouted';
    });
  round_trip = λ a. refl;
}

pub record StatementCreatedEvent : Type 0 where
  pub statement_id : List ℕ
  pub kind : ℕ
  pub subject : List ℕ
  pub predicate : String
  pub confidence : ℕ

abbrev pub statement_created_event : Payload StatementCreatedEvent
statement_created_event = record {
  plain_map = λ a. entry "statement_id" (bytes a.statement_id) (
      entry "kind" (integer a.kind) (
        entry "subject" (bytes a.subject)
          (entry "predicate" (text a.predicate) (entry "confidence" (float a.confidence) (end)))));
  from_map = λ m. do
    statement_id' ← field read_bytes "statement_id" m
    kind' ← field read_integer "kind" m
    subject' ← field read_bytes "subject" m
    predicate' ← field read_text "predicate" m
    confidence' ← field read_float "confidence" m
    ok (record {
      statement_id = statement_id';
      kind = kind';
      subject = subject';
      predicate = predicate';
      confidence = confidence';
    });
  round_trip = λ a. refl;
}
