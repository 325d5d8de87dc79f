-- ===== src/Wire/Payload/Relations.antt =====
-- python/src/brain_db_sdk/wire/types.py: relations, and the requests and answers that carry them.
use Prim.Native.String.{String}
use brain_sdk.Prelude.{ℕ, Bool, Option, none, List, refl}
use brain_sdk.Wire.Payload.{Payload, read_some_payload, read_payloads}
use brain_sdk.Wire.Value.Entries.{entries}
use brain_sdk.Wire.Value.{
  ◌>>=◌, end, entry, entry_unless_none, integer, float, text, bytes, boolean, object, write_list,
  ok, field, field_or, read_bool, read_integer, read_float, read_text, read_bytes, read_object,
  read_list, read_optional, read_integers,
}
use brain_sdk.Wire.Payload.Identity.{ActAs, act_as}
use brain_sdk.Wire.Payload.Tagged.{
  EvidenceRef, evidence_ref_value, read_evidence_ref, read_evidence_ref_lem,
}

pub record RelationCreateRequest : Type 0 where
  pub relation_type : String
  pub from_entity : List ℕ
  pub to_entity : List ℕ
  pub properties_blob : List ℕ
  pub evidence : EvidenceRef
  pub extractor_id : ℕ
  pub confidence : ℕ
  pub valid_from_unix_nanos : ℕ
  pub valid_to_unix_nanos : ℕ
  pub session_id : ℕ
  pub request_id : List ℕ
  pub act_as : Option ActAs

abbrev pub relation_create_request : Payload RelationCreateRequest
relation_create_request = record {
  plain_map = λ a. entry "relation_type" (text a.relation_type) (
      entry "from_entity" (bytes a.from_entity) (
        entry "to_entity" (bytes a.to_entity) (
          entry "properties_blob" ((write_list integer) a.properties_blob) (
            entry "evidence" (evidence_ref_value a.evidence) (
              entry "extractor_id" (integer a.extractor_id) (
                entry "confidence" (float a.confidence) (
                  entry "valid_from_unix_nanos" (integer a.valid_from_unix_nanos) (
                    entry "valid_to_unix_nanos" (integer a.valid_to_unix_nanos) (
                      entry "session_id" (integer a.session_id) (
                        entry "request_id" (bytes a.request_id) (
                          entry_unless_none "act_as" (λ x. object (act_as.plain_map x)) a.act_as
                            (end))))))))))));
  from_map = λ m. do
    relation_type' ← field read_text "relation_type" m
    from_entity' ← field read_bytes "from_entity" m
    to_entity' ← field read_bytes "to_entity" m
    properties_blob' ← field (read_list read_integer) "properties_blob" m
    evidence' ← field read_evidence_ref "evidence" m
    extractor_id' ← field read_integer "extractor_id" m
    confidence' ← field read_float "confidence" m
    valid_from_unix_nanos' ← field read_integer "valid_from_unix_nanos" m
    valid_to_unix_nanos' ← field read_integer "valid_to_unix_nanos" m
    session_id' ← field read_integer "session_id" m
    request_id' ← field read_bytes "request_id" m
    act_as' ← field_or (read_optional (read_object act_as.from_map)) none "act_as" m
    ok (record {
      relation_type = relation_type';
      from_entity = from_entity';
      to_entity = to_entity';
      properties_blob = properties_blob';
      evidence = evidence';
      extractor_id = extractor_id';
      confidence = confidence';
      valid_from_unix_nanos = valid_from_unix_nanos';
      valid_to_unix_nanos = valid_to_unix_nanos';
      session_id = session_id';
      request_id = request_id';
      act_as = act_as';
    });
  round_trip = λ a. simp (entries, read_some_payload act_as, read_evidence_ref_lem) refl;
}

pub record RelationView : Type 0 where
  pub relation_id : List ℕ
  pub chain_root : List ℕ
  pub relation_type : String
  pub from_entity : List ℕ
  pub to_entity : List ℕ
  pub properties_blob : List ℕ
  pub evidence : EvidenceRef
  pub extractor_id : ℕ
  pub extracted_at_unix_nanos : ℕ
  pub confidence : ℕ
  pub valid_from_unix_nanos : ℕ
  pub valid_to_unix_nanos : ℕ
  pub version : ℕ
  pub superseded_by : List ℕ
  pub supersedes : List ℕ
  pub tombstoned : Bool
  pub tombstoned_at_unix_nanos : ℕ
  pub flags : ℕ

abbrev pub relation_view : Payload RelationView
relation_view = record {
  plain_map = λ a. entry "relation_id" (bytes a.relation_id) (
      entry "chain_root" (bytes a.chain_root) (
        entry "relation_type" (text a.relation_type) (
          entry "from_entity" (bytes a.from_entity) (
            entry "to_entity" (bytes a.to_entity) (
              entry "properties_blob" ((write_list integer) a.properties_blob) (
                entry "evidence" (evidence_ref_value a.evidence) (
                  entry "extractor_id" (integer a.extractor_id) (
                    entry "extracted_at_unix_nanos" (integer a.extracted_at_unix_nanos) (
                      entry "confidence" (float a.confidence) (
                        entry "valid_from_unix_nanos" (integer a.valid_from_unix_nanos) (
                          entry "valid_to_unix_nanos" (integer a.valid_to_unix_nanos) (
                            entry "version" (integer a.version) (
                              entry "superseded_by" (bytes a.superseded_by) (
                                entry "supersedes" (bytes a.supersedes) (
                                  entry "tombstoned" (boolean a.tombstoned) (
                                    entry "tombstoned_at_unix_nanos"
                                      (integer a.tombstoned_at_unix_nanos)
                                      (entry "flags" (integer a.flags) (end))))))))))))))))));
  from_map = λ m. do
    relation_id' ← field read_bytes "relation_id" m
    chain_root' ← field read_bytes "chain_root" m
    relation_type' ← field read_text "relation_type" m
    from_entity' ← field read_bytes "from_entity" m
    to_entity' ← field read_bytes "to_entity" m
    properties_blob' ← field (read_list read_integer) "properties_blob" m
    evidence' ← field read_evidence_ref "evidence" m
    extractor_id' ← field read_integer "extractor_id" m
    extracted_at_unix_nanos' ← field read_integer "extracted_at_unix_nanos" m
    confidence' ← field read_float "confidence" m
    valid_from_unix_nanos' ← field read_integer "valid_from_unix_nanos" m
    valid_to_unix_nanos' ← field read_integer "valid_to_unix_nanos" m
    version' ← field read_integer "version" m
    superseded_by' ← field read_bytes "superseded_by" m
    supersedes' ← field read_bytes "supersedes" m
    tombstoned' ← field read_bool "tombstoned" m
    tombstoned_at_unix_nanos' ← field read_integer "tombstoned_at_unix_nanos" m
    flags' ← field read_integer "flags" m
    ok (record {
      relation_id = relation_id';
      chain_root = chain_root';
      relation_type = relation_type';
      from_entity = from_entity';
      to_entity = to_entity';
      properties_blob = properties_blob';
      evidence = evidence';
      extractor_id = extractor_id';
      extracted_at_unix_nanos = extracted_at_unix_nanos';
      confidence = confidence';
      valid_from_unix_nanos = valid_from_unix_nanos';
      valid_to_unix_nanos = valid_to_unix_nanos';
      version = version';
      superseded_by = superseded_by';
      supersedes = supersedes';
      tombstoned = tombstoned';
      tombstoned_at_unix_nanos = tombstoned_at_unix_nanos';
      flags = flags';
    });
  round_trip = λ a. rw (read_integers a.properties_blob, read_evidence_ref_lem a.evidence) refl;
}

pub record RelationListFromResponseFrame : Type 0 where
  pub items : List RelationView
  pub next_cursor : List ℕ
  pub cumulative_count : ℕ
  pub is_final : Bool

abbrev pub relation_list_from_response_frame : Payload RelationListFromResponseFrame
relation_list_from_response_frame = record {
  plain_map = λ a. entry "items" ((write_list (λ x. object (relation_view.plain_map x))) a.items) (
      entry "next_cursor" ((write_list integer) a.next_cursor) (
        entry "cumulative_count" (integer a.cumulative_count)
          (entry "is_final" (boolean a.is_final) (end))));
  from_map = λ m. do
    items' ← field (read_list (read_object relation_view.from_map)) "items" m
    next_cursor' ← field (read_list read_integer) "next_cursor" m
    cumulative_count' ← field read_integer "cumulative_count" m
    is_final' ← field read_bool "is_final" m
    ok (record {
      items = items';
      next_cursor = next_cursor';
      cumulative_count = cumulative_count';
      is_final = is_final';
    });
  round_trip = λ a. rw (read_payloads relation_view a.items, read_integers a.next_cursor) refl;
}

pub record RelationListToResponseFrame : Type 0 where
  pub items : List RelationView
  pub next_cursor : List ℕ
  pub cumulative_count : ℕ
  pub is_final : Bool

abbrev pub relation_list_to_response_frame : Payload RelationListToResponseFrame
relation_list_to_response_frame = record {
  plain_map = λ a. entry "items" ((write_list (λ x. object (relation_view.plain_map x))) a.items) (
      entry "next_cursor" ((write_list integer) a.next_cursor) (
        entry "cumulative_count" (integer a.cumulative_count)
          (entry "is_final" (boolean a.is_final) (end))));
  from_map = λ m. do
    items' ← field (read_list (read_object relation_view.from_map)) "items" m
    next_cursor' ← field (read_list read_integer) "next_cursor" m
    cumulative_count' ← field read_integer "cumulative_count" m
    is_final' ← field read_bool "is_final" m
    ok (record {
      items = items';
      next_cursor = next_cursor';
      cumulative_count = cumulative_count';
      is_final = is_final';
    });
  round_trip = λ a. rw (read_payloads relation_view a.items, read_integers a.next_cursor) refl;
}

pub record RelationGetResponse : Type 0 where
  pub relation : RelationView
  pub returned_via_supersession : Bool

abbrev pub relation_get_response : Payload RelationGetResponse
relation_get_response = record {
  plain_map = λ a.
      entry "relation" (object (relation_view.plain_map a.relation))
        (entry "returned_via_supersession" (boolean a.returned_via_supersession) (end));
  from_map = λ m. do
    relation' ← field (read_object relation_view.from_map) "relation" m
    returned_via_supersession' ← field read_bool "returned_via_supersession" m
    ok (record { relation = relation'; returned_via_supersession = returned_via_supersession' });
  round_trip = λ a. rw (relation_view.round_trip a.relation) refl;
}

pub record RelationSupersedeRequest : Type 0 where
  pub old_relation_id : List ℕ
  pub new_relation : RelationCreateRequest
  pub request_id : List ℕ
  pub act_as : Option ActAs

abbrev pub relation_supersede_request : Payload RelationSupersedeRequest
relation_supersede_request = record {
  plain_map = λ a. entry "old_relation_id" (bytes a.old_relation_id) (
      entry "new_relation" (object (relation_create_request.plain_map a.new_relation)) (
        entry "request_id" (bytes a.request_id)
          (entry_unless_none "act_as" (λ x. object (act_as.plain_map x)) a.act_as (end))));
  from_map = λ m. do
    old_relation_id' ← field read_bytes "old_relation_id" m
    new_relation' ← field (read_object relation_create_request.from_map) "new_relation" m
    request_id' ← field read_bytes "request_id" m
    act_as' ← field_or (read_optional (read_object act_as.from_map)) none "act_as" m
    ok (record {
      old_relation_id = old_relation_id';
      new_relation = new_relation';
      request_id = request_id';
      act_as = act_as';
    });
  round_trip = λ a.
      rw (relation_create_request.round_trip a.new_relation)
        (simp (entries, read_some_payload act_as) refl);
}
