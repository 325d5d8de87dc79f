-- ===== src/Wire/Payload/Trace.antt =====
-- python/src/brain_db_sdk/wire/types.py: the traces of ENCODE and RECALL.
use Prim.Native.String.{String}
use brain_sdk.Prelude.{ℕ, Bool, Option, List, [], refl}
use brain_sdk.Wire.Payload.{Payload, read_payloads}
use brain_sdk.Wire.Value.{
  ◌>>=◌, end, entry, bytes, integer, text, boolean, write_list, or_null, ok, field, field_or,
  read_bool, read_integer, read_text, read_bytes, read_list, read_optional, read_object, object,
  read_integers, read_optional_integer,
}

pub record EncodeTraceEntity : Type 0 where
  pub id : List ℕ
  pub name : String
  pub type_qname : String

abbrev pub encode_trace_entity : Payload EncodeTraceEntity
encode_trace_entity = record {
  plain_map = λ a.
      entry "id" (bytes a.id)
        (entry "name" (text a.name) (entry "type_qname" (text a.type_qname) (end)));
  from_map = λ m. do
    id' ← field read_bytes "id" m
    name' ← field read_text "name" m
    type_qname' ← field read_text "type_qname" m
    ok (record { id = id'; name = name'; type_qname = type_qname' });
  round_trip = λ a. refl;
}

pub record EncodeTraceRelation : Type 0 where
  pub source_name : String
  pub predicate : String
  pub target_name : String

abbrev pub encode_trace_relation : Payload EncodeTraceRelation
encode_trace_relation = record {
  plain_map = λ a.
      entry "source_name" (text a.source_name)
        (entry "predicate" (text a.predicate) (entry "target_name" (text a.target_name) (end)));
  from_map = λ m. do
    source_name' ← field read_text "source_name" m
    predicate' ← field read_text "predicate" m
    target_name' ← field read_text "target_name" m
    ok (record { source_name = source_name'; predicate = predicate'; target_name = target_name' });
  round_trip = λ a. refl;
}

pub record EncodeTraceIndex : Type 0 where
  pub name : String
  pub status : ℕ

abbrev pub encode_trace_index : Payload EncodeTraceIndex
encode_trace_index = record {
  plain_map = λ a. entry "name" (text a.name) (entry "status" (integer a.status) (end));
  from_map = λ m. do
    name' ← field read_text "name" m
    status' ← field read_integer "status" m
    ok (record { name = name'; status = status' });
  round_trip = λ a. refl;
}

pub record EncodeTraceDedup : Type 0 where
  pub was_deduplicated : Bool
  pub matched_memory_id : Option ℕ

abbrev pub encode_trace_dedup : Payload EncodeTraceDedup
encode_trace_dedup = record {
  plain_map = λ a.
      entry "was_deduplicated" (boolean a.was_deduplicated)
        (entry "matched_memory_id" (or_null integer a.matched_memory_id) (end));
  from_map = λ m. do
    was_deduplicated' ← field read_bool "was_deduplicated" m
    matched_memory_id' ← field (read_optional read_integer) "matched_memory_id" m
    ok (record { was_deduplicated = was_deduplicated'; matched_memory_id = matched_memory_id' });
  round_trip = λ a. rw (read_optional_integer a.matched_memory_id) refl;
}

pub record EncodeGraphNode : Type 0 where
  pub id : List ℕ
  pub name : String
  pub kind : String
  pub type_qname : String

abbrev pub encode_graph_node : Payload EncodeGraphNode
encode_graph_node = record {
  plain_map = λ a. entry "id" (bytes a.id) (
      entry "name" (text a.name)
        (entry "kind" (text a.kind) (entry "type_qname" (text a.type_qname) (end))));
  from_map = λ m. do
    id' ← field read_bytes "id" m
    name' ← field read_text "name" m
    kind' ← field read_text "kind" m
    type_qname' ← field read_text "type_qname" m
    ok (record { id = id'; name = name'; kind = kind'; type_qname = type_qname' });
  round_trip = λ a. refl;
}

pub record EnrichedEntity : Type 0 where
  pub id : List ℕ
  pub name : String
  pub type_qname : String

abbrev pub enriched_entity : Payload EnrichedEntity
enriched_entity = record {
  plain_map = λ a.
      entry "id" (bytes a.id)
        (entry "name" (text a.name) (entry "type_qname" (text a.type_qname) (end)));
  from_map = λ m. do
    id' ← field read_bytes "id" m
    name' ← field read_text "name" m
    type_qname' ← field read_text "type_qname" m
    ok (record { id = id'; name = name'; type_qname = type_qname' });
  round_trip = λ a. refl;
}

pub record EnrichedRelation : Type 0 where
  pub from_name : String
  pub predicate : String
  pub to_name : String

abbrev pub enriched_relation : Payload EnrichedRelation
enriched_relation = record {
  plain_map = λ a.
      entry "from_name" (text a.from_name)
        (entry "predicate" (text a.predicate) (entry "to_name" (text a.to_name) (end)));
  from_map = λ m. do
    from_name' ← field read_text "from_name" m
    predicate' ← field read_text "predicate" m
    to_name' ← field read_text "to_name" m
    ok (record { from_name = from_name'; predicate = predicate'; to_name = to_name' });
  round_trip = λ a. refl;
}

pub record RecallTraceDroppedId : Type 0 where
  pub kind : ℕ
  pub id : ℕ

abbrev pub recall_trace_dropped_id : Payload RecallTraceDroppedId
recall_trace_dropped_id = record {
  plain_map = λ a. entry "kind" (integer a.kind) (entry "id" (integer a.id) (end));
  from_map = λ m. do
    kind' ← field read_integer "kind" m
    id' ← field read_integer "id" m
    ok (record { kind = kind'; id = id' });
  round_trip = λ a. refl;
}

pub record RecallTraceFilterChain : Type 0 where
  pub before : ℕ
  pub after_type : ℕ
  pub after_temporal : ℕ
  pub after_confidence : ℕ
  pub after_tombstone : ℕ
  pub after_supersession : ℕ
  pub after_as_of : ℕ
  pub after_limit : ℕ
  pub dropped_by_type : List ℕ
  pub dropped_by_temporal : List ℕ
  pub dropped_by_confidence : List ℕ
  pub dropped_by_tombstone : List ℕ
  pub dropped_by_supersession : List RecallTraceDroppedId
  pub dropped_by_as_of : List RecallTraceDroppedId
  pub dropped_by_limit : List RecallTraceDroppedId

abbrev pub recall_trace_filter_chain : Payload RecallTraceFilterChain
recall_trace_filter_chain = record {
  plain_map = λ a. entry "before" (integer a.before) (
      entry "after_type" (integer a.after_type) (
        entry "after_temporal" (integer a.after_temporal) (
          entry "after_confidence" (integer a.after_confidence) (
            entry "after_tombstone" (integer a.after_tombstone) (
              entry "after_supersession" (integer a.after_supersession) (
                entry "after_as_of" (integer a.after_as_of) (
                  entry "after_limit" (integer a.after_limit) (
                    entry "dropped_by_type" (write_list integer a.dropped_by_type) (
                      entry "dropped_by_temporal" (write_list integer a.dropped_by_temporal) (
                        entry "dropped_by_confidence" (write_list integer a.dropped_by_confidence) (
                          entry "dropped_by_tombstone" (write_list integer a.dropped_by_tombstone) (
                            entry "dropped_by_supersession"
                              (write_list (λ x. object (recall_trace_dropped_id.plain_map x))
                                a.dropped_by_supersession)
                              (entry "dropped_by_as_of"
                                (write_list (λ x. object (recall_trace_dropped_id.plain_map x))
                                  a.dropped_by_as_of)
                                (entry "dropped_by_limit"
                                  (write_list (λ x. object (recall_trace_dropped_id.plain_map x))
                                    a.dropped_by_limit)
                                  (end)))))))))))))));
  from_map = λ m. do
    before' ← field read_integer "before" m
    after_type' ← field read_integer "after_type" m
    after_temporal' ← field read_integer "after_temporal" m
    after_confidence' ← field read_integer "after_confidence" m
    after_tombstone' ← field read_integer "after_tombstone" m
    after_supersession' ← field read_integer "after_supersession" m
    after_as_of' ← field read_integer "after_as_of" m
    after_limit' ← field read_integer "after_limit" m
    dropped_by_type' ← field_or (read_list read_integer) [] "dropped_by_type" m
    dropped_by_temporal' ← field_or (read_list read_integer) [] "dropped_by_temporal" m
    dropped_by_confidence' ← field_or (read_list read_integer) [] "dropped_by_confidence" m
    dropped_by_tombstone' ← field_or (read_list read_integer) [] "dropped_by_tombstone" m
    dropped_by_supersession' ←
        field_or (read_list (read_object recall_trace_dropped_id.from_map)) []
          "dropped_by_supersession" m
    dropped_by_as_of' ←
        field_or (read_list (read_object recall_trace_dropped_id.from_map)) [] "dropped_by_as_of" m
    dropped_by_limit' ←
        field_or (read_list (read_object recall_trace_dropped_id.from_map)) [] "dropped_by_limit" m
    ok (record {
      before = before';
      after_type = after_type';
      after_temporal = after_temporal';
      after_confidence = after_confidence';
      after_tombstone = after_tombstone';
      after_supersession = after_supersession';
      after_as_of = after_as_of';
      after_limit = after_limit';
      dropped_by_type = dropped_by_type';
      dropped_by_temporal = dropped_by_temporal';
      dropped_by_confidence = dropped_by_confidence';
      dropped_by_tombstone = dropped_by_tombstone';
      dropped_by_supersession = dropped_by_supersession';
      dropped_by_as_of = dropped_by_as_of';
      dropped_by_limit = dropped_by_limit';
    });
  round_trip = λ a.
      rw
        (
          read_integers a.dropped_by_type,
          read_integers a.dropped_by_temporal,
          read_integers a.dropped_by_confidence,
          read_integers a.dropped_by_tombstone,
          read_payloads recall_trace_dropped_id a.dropped_by_supersession,
          read_payloads recall_trace_dropped_id a.dropped_by_as_of,
          read_payloads recall_trace_dropped_id a.dropped_by_limit,
        )
        refl;
}
