-- ===== src/Wire/Payload/Answers.antt =====
-- python/src/brain_db_sdk/wire/types.py: the parts of the answer to a query.
use Prim.Native.String.{String}
use brain_sdk.Prelude.{ℕ, Bool, Option, none, List, [], refl}
use brain_sdk.Wire.Payload.{Payload, read_payloads}
use brain_sdk.Wire.Value.Entries.{entries}
use brain_sdk.Wire.Value.{
  ◌>>=◌, end, entry, entry_unless_none, integer, float, text, bytes, boolean, object, write_list,
  ok, field, field_or, read_bool, read_integer, read_float, read_text, read_bytes, read_object,
  read_list, read_optional, read_integers,
}
use brain_sdk.Wire.Payload.Trace.{
  EnrichedEntity, enriched_entity, EnrichedRelation, enriched_relation,
}

pub record EdgeView : Type 0 where
  pub target : ℕ
  pub kind : ℕ
  pub weight : ℕ

abbrev pub edge_view : Payload EdgeView
edge_view = record {
  plain_map = λ a.
      entry "target" (integer a.target)
        (entry "kind" (integer a.kind) (entry "weight" (float a.weight) (end)));
  from_map = λ m. do
    target' ← field read_integer "target" m
    kind' ← field read_integer "kind" m
    weight' ← field read_float "weight" m
    ok (record { target = target'; kind = kind'; weight = weight' });
  round_trip = λ a. refl;
}

pub record EnrichedStatement : Type 0 where
  pub id : List ℕ
  pub subject_name : String
  pub predicate : String
  pub object_label : String
  pub confidence : ℕ
  pub event_at_unix_nanos : Option ℕ
  pub object_entity_id : Option (List ℕ)

abbrev pub enriched_statement : Payload EnrichedStatement
enriched_statement = record {
  plain_map = λ a. entry "id" (bytes a.id) (
      entry "subject_name" (text a.subject_name) (
        entry "predicate" (text a.predicate) (
          entry "object_label" (text a.object_label) (
            entry "confidence" (float a.confidence) (
              entry_unless_none "event_at_unix_nanos" integer a.event_at_unix_nanos
                (entry_unless_none "object_entity_id" bytes a.object_entity_id (end)))))));
  from_map = λ m. do
    id' ← field read_bytes "id" m
    subject_name' ← field read_text "subject_name" m
    predicate' ← field read_text "predicate" m
    object_label' ← field read_text "object_label" m
    confidence' ← field read_float "confidence" m
    event_at_unix_nanos' ← field_or (read_optional read_integer) none "event_at_unix_nanos" m
    object_entity_id' ← field_or (read_optional read_bytes) none "object_entity_id" m
    ok (record {
      id = id';
      subject_name = subject_name';
      predicate = predicate';
      object_label = object_label';
      confidence = confidence';
      event_at_unix_nanos = event_at_unix_nanos';
      object_entity_id = object_entity_id';
    });
  round_trip = λ a. simp (entries) refl;
}

pub record GraphEnrichment : Type 0 where
  pub entities : List EnrichedEntity
  pub statements : List EnrichedStatement
  pub relations : List EnrichedRelation

abbrev pub graph_enrichment : Payload GraphEnrichment
graph_enrichment = record {
  plain_map = λ a.
      entry "entities" ((write_list (λ x. object (enriched_entity.plain_map x))) a.entities) (
        entry "statements"
          ((write_list (λ x. object (enriched_statement.plain_map x))) a.statements)
          (entry "relations"
            ((write_list (λ x. object (enriched_relation.plain_map x))) a.relations) (end)));
  from_map = λ m. do
    entities' ← field (read_list (read_object enriched_entity.from_map)) "entities" m
    statements' ← field (read_list (read_object enriched_statement.from_map)) "statements" m
    relations' ← field (read_list (read_object enriched_relation.from_map)) "relations" m
    ok (record { entities = entities'; statements = statements'; relations = relations' });
  round_trip = λ a.
      rw
        (
          read_payloads enriched_entity a.entities,
          read_payloads enriched_statement a.statements,
          read_payloads enriched_relation a.relations,
        )
        refl;
}

pub record RecallTraceCandidate : Type 0 where
  pub item_id : ℕ
  pub kind : ℕ
  pub text' : String
  pub score : ℕ

abbrev pub recall_trace_candidate : Payload RecallTraceCandidate
recall_trace_candidate = record {
  plain_map = λ a. entry "item_id" (integer a.item_id) (
      entry "kind" (integer a.kind)
        (entry "text" (text a.text') (entry "score" (float a.score) (end))));
  from_map = λ m. do
    item_id' ← field read_integer "item_id" m
    kind' ← field read_integer "kind" m
    got_text ← field read_text "text" m
    score' ← field read_float "score" m
    ok (record { item_id = item_id'; kind = kind'; text' = got_text; score = score' });
  round_trip = λ a. refl;
}

pub record RecallTraceRerank : Type 0 where
  pub applied : Bool
  pub candidates : ℕ
  pub latency_ms : ℕ
  pub before_order : List ℕ
  pub after_order : List ℕ

abbrev pub recall_trace_rerank : Payload RecallTraceRerank
recall_trace_rerank = record {
  plain_map = λ a. entry "applied" (boolean a.applied) (
      entry "candidates" (integer a.candidates) (
        entry "latency_ms" (float a.latency_ms) (
          entry "before_order" ((write_list integer) a.before_order)
            (entry "after_order" ((write_list integer) a.after_order) (end)))));
  from_map = λ m. do
    applied' ← field read_bool "applied" m
    candidates' ← field read_integer "candidates" m
    latency_ms' ← field read_float "latency_ms" m
    before_order' ← field_or (read_list read_integer) [] "before_order" m
    after_order' ← field_or (read_list read_integer) [] "after_order" m
    ok (record {
      applied = applied';
      candidates = candidates';
      latency_ms = latency_ms';
      before_order = before_order';
      after_order = after_order';
    });
  round_trip = λ a. rw (read_integers a.before_order, read_integers a.after_order) refl;
}
