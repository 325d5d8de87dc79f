-- ===== src/Wire/Payload/Statements.antt =====
-- python/src/brain_db_sdk/wire/types.py: statements, and the requests and answers that carry them.
use Prim.Native.String.{String}
use brain_sdk.Prelude.{ℕ, Bool, Option, none, List, refl}
use brain_sdk.Wire.Payload.{Payload, read_some_payload, read_payloads}
use brain_sdk.Wire.Value.Entries.{entries}
use brain_sdk.Wire.Value.{
  Value, ◌>>=◌, end, entry, entry_unless_none, integer, float, text, bytes, boolean, object,
  write_list, ok, field, field_or, read_bool, read_integer, read_float, read_text, read_bytes,
  read_object, read_list, read_optional, read_integers,
}
use brain_sdk.Wire.Payload.Identity.{ActAs, act_as}
use brain_sdk.Wire.Payload.Tagged.{
  EvidenceRef, evidence_ref_value, read_evidence_ref, read_evidence_ref_lem, StatementObject,
  statement_object_value, read_statement_object, read_statement_object_lem,
}

pub record StatementCreateRequest : Type 0 where
  pub kind : Value
  pub subject : List ℕ
  pub predicate : String
  pub object' : StatementObject
  pub confidence : ℕ
  pub evidence : EvidenceRef
  pub extractor_id : ℕ
  pub valid_from_unix_nanos : ℕ
  pub valid_to_unix_nanos : ℕ
  pub event_at_unix_nanos : ℕ
  pub schema_version : ℕ
  pub session_id : ℕ
  pub request_id : List ℕ
  pub act_as : Option ActAs

abbrev pub statement_create_request : Payload StatementCreateRequest
statement_create_request = record {
  plain_map = λ a. entry "kind" (a.kind) (
      entry "subject" (bytes a.subject) (
        entry "predicate" (text a.predicate) (
          entry "object" (statement_object_value a.object') (
            entry "confidence" (float a.confidence) (
              entry "evidence" (evidence_ref_value a.evidence) (
                entry "extractor_id" (integer a.extractor_id) (
                  entry "valid_from_unix_nanos" (integer a.valid_from_unix_nanos) (
                    entry "valid_to_unix_nanos" (integer a.valid_to_unix_nanos) (
                      entry "event_at_unix_nanos" (integer a.event_at_unix_nanos) (
                        entry "schema_version" (integer a.schema_version) (
                          entry "session_id" (integer a.session_id) (
                            entry "request_id" (bytes a.request_id) (
                              entry_unless_none "act_as" (λ x. object (act_as.plain_map x)) a.act_as
                                (end))))))))))))));
  from_map = λ m. do
    kind' ← field ok "kind" m
    subject' ← field read_bytes "subject" m
    predicate' ← field read_text "predicate" m
    got_object ← field read_statement_object "object" m
    confidence' ← field read_float "confidence" m
    evidence' ← field read_evidence_ref "evidence" m
    extractor_id' ← field read_integer "extractor_id" m
    valid_from_unix_nanos' ← field read_integer "valid_from_unix_nanos" m
    valid_to_unix_nanos' ← field read_integer "valid_to_unix_nanos" m
    event_at_unix_nanos' ← field read_integer "event_at_unix_nanos" m
    schema_version' ← field read_integer "schema_version" m
    session_id' ← field read_integer "session_id" m
    request_id' ← field read_bytes "request_id" m
    act_as' ← field_or (read_optional (read_object act_as.from_map)) none "act_as" m
    ok (record {
      kind = kind';
      subject = subject';
      predicate = predicate';
      object' = got_object;
      confidence = confidence';
      evidence = evidence';
      extractor_id = extractor_id';
      valid_from_unix_nanos = valid_from_unix_nanos';
      valid_to_unix_nanos = valid_to_unix_nanos';
      event_at_unix_nanos = event_at_unix_nanos';
      schema_version = schema_version';
      session_id = session_id';
      request_id = request_id';
      act_as = act_as';
    });
  round_trip = λ a.
      simp (entries, read_some_payload act_as, read_statement_object_lem, read_evidence_ref_lem)
        refl;
}

pub record StatementView : Type 0 where
  pub statement_id : List ℕ
  pub kind : Value
  pub subject : List ℕ
  pub subject_pending_audit_id : List ℕ
  pub predicate : String
  pub object' : StatementObject
  pub confidence : ℕ
  pub evidence : EvidenceRef
  pub extractor_id : ℕ
  pub extracted_at_unix_nanos : ℕ
  pub schema_version : ℕ
  pub valid_from_unix_nanos : ℕ
  pub valid_to_unix_nanos : ℕ
  pub event_at_unix_nanos : ℕ
  pub version : ℕ
  pub superseded_by : List ℕ
  pub supersedes : List ℕ
  pub chain_root : List ℕ
  pub tombstoned : Bool
  pub tombstoned_at_unix_nanos : ℕ
  pub tombstone_reason : ℕ
  pub flags : ℕ
  pub is_stateful : Bool

abbrev pub statement_view : Payload StatementView
statement_view = record {
  plain_map = λ a. entry "statement_id" (bytes a.statement_id) (
      entry "kind" (a.kind) (
        entry "subject" (bytes a.subject) (
          entry "subject_pending_audit_id" (bytes a.subject_pending_audit_id) (
            entry "predicate" (text a.predicate) (
              entry "object" (statement_object_value a.object') (
                entry "confidence" (float a.confidence) (
                  entry "evidence" (evidence_ref_value a.evidence) (
                    entry "extractor_id" (integer a.extractor_id) (
                      entry "extracted_at_unix_nanos" (integer a.extracted_at_unix_nanos) (
                        entry "schema_version" (integer a.schema_version) (
                          entry "valid_from_unix_nanos" (integer a.valid_from_unix_nanos) (
                            entry "valid_to_unix_nanos" (integer a.valid_to_unix_nanos) (
                              entry "event_at_unix_nanos" (integer a.event_at_unix_nanos) (
                                entry "version" (integer a.version) (
                                  entry "superseded_by" (bytes a.superseded_by) (
                                    entry "supersedes" (bytes a.supersedes) (
                                      entry "chain_root" (bytes a.chain_root) (
                                        entry "tombstoned" (boolean a.tombstoned) (
                                          entry "tombstoned_at_unix_nanos"
                                            (integer a.tombstoned_at_unix_nanos)
                                            (entry "tombstone_reason" (integer a.tombstone_reason) (
                                              entry "flags" (integer a.flags) (
                                                entry "is_stateful" (boolean a.is_stateful)
                                                  (end)))))))))))))))))))))));
  from_map = λ m. do
    statement_id' ← field read_bytes "statement_id" m
    kind' ← field ok "kind" m
    subject' ← field read_bytes "subject" m
    subject_pending_audit_id' ← field read_bytes "subject_pending_audit_id" m
    predicate' ← field read_text "predicate" m
    got_object ← field read_statement_object "object" m
    confidence' ← field read_float "confidence" m
    evidence' ← field read_evidence_ref "evidence" m
    extractor_id' ← field read_integer "extractor_id" m
    extracted_at_unix_nanos' ← field read_integer "extracted_at_unix_nanos" m
    schema_version' ← field read_integer "schema_version" m
    valid_from_unix_nanos' ← field read_integer "valid_from_unix_nanos" m
    valid_to_unix_nanos' ← field read_integer "valid_to_unix_nanos" m
    event_at_unix_nanos' ← field read_integer "event_at_unix_nanos" m
    version' ← field read_integer "version" m
    superseded_by' ← field read_bytes "superseded_by" m
    supersedes' ← field read_bytes "supersedes" m
    chain_root' ← field read_bytes "chain_root" m
    tombstoned' ← field read_bool "tombstoned" m
    tombstoned_at_unix_nanos' ← field read_integer "tombstoned_at_unix_nanos" m
    tombstone_reason' ← field read_integer "tombstone_reason" m
    flags' ← field read_integer "flags" m
    is_stateful' ← field read_bool "is_stateful" m
    ok (record {
      statement_id = statement_id';
      kind = kind';
      subject = subject';
      subject_pending_audit_id = subject_pending_audit_id';
      predicate = predicate';
      object' = got_object;
      confidence = confidence';
      evidence = evidence';
      extractor_id = extractor_id';
      extracted_at_unix_nanos = extracted_at_unix_nanos';
      schema_version = schema_version';
      valid_from_unix_nanos = valid_from_unix_nanos';
      valid_to_unix_nanos = valid_to_unix_nanos';
      event_at_unix_nanos = event_at_unix_nanos';
      version = version';
      superseded_by = superseded_by';
      supersedes = supersedes';
      chain_root = chain_root';
      tombstoned = tombstoned';
      tombstoned_at_unix_nanos = tombstoned_at_unix_nanos';
      tombstone_reason = tombstone_reason';
      flags = flags';
      is_stateful = is_stateful';
    });
  round_trip = λ a. rw (read_statement_object_lem a.object', read_evidence_ref_lem a.evidence) refl;
}

pub record StatementGetResponse : Type 0 where
  pub statement : StatementView
  pub returned_via_supersession : Bool

abbrev pub statement_get_response : Payload StatementGetResponse
statement_get_response = record {
  plain_map = λ a.
      entry "statement" (object (statement_view.plain_map a.statement))
        (entry "returned_via_supersession" (boolean a.returned_via_supersession) (end));
  from_map = λ m. do
    statement' ← field (read_object statement_view.from_map) "statement" m
    returned_via_supersession' ← field read_bool "returned_via_supersession" m
    ok (record { statement = statement'; returned_via_supersession = returned_via_supersession' });
  round_trip = λ a. rw (statement_view.round_trip a.statement) refl;
}

pub record StatementListResponseFrame : Type 0 where
  pub items : List StatementView
  pub next_cursor : List ℕ
  pub cumulative_count : ℕ
  pub is_final : Bool

abbrev pub statement_list_response_frame : Payload StatementListResponseFrame
statement_list_response_frame = record {
  plain_map = λ a. entry "items" ((write_list (λ x. object (statement_view.plain_map x))) a.items) (
      entry "next_cursor" ((write_list integer) a.next_cursor) (
        entry "cumulative_count" (integer a.cumulative_count)
          (entry "is_final" (boolean a.is_final) (end))));
  from_map = λ m. do
    items' ← field (read_list (read_object statement_view.from_map)) "items" m
    next_cursor' ← field (read_list read_integer) "next_cursor" m
    cumulative_count' ← field read_integer "cumulative_count" m
    is_final' ← field read_bool "is_final" m
    ok (record {
      items = items';
      next_cursor = next_cursor';
      cumulative_count = cumulative_count';
      is_final = is_final';
    });
  round_trip = λ a. rw (read_payloads statement_view a.items, read_integers a.next_cursor) refl;
}

pub record StatementSupersedeRequest : Type 0 where
  pub old_statement_id : List ℕ
  pub new_statement : StatementCreateRequest
  pub request_id : List ℕ
  pub act_as : Option ActAs

abbrev pub statement_supersede_request : Payload StatementSupersedeRequest
statement_supersede_request = record {
  plain_map = λ a. entry "old_statement_id" (bytes a.old_statement_id) (
      entry "new_statement" (object (statement_create_request.plain_map a.new_statement)) (
        entry "request_id" (bytes a.request_id)
          (entry_unless_none "act_as" (λ x. object (act_as.plain_map x)) a.act_as (end))));
  from_map = λ m. do
    old_statement_id' ← field read_bytes "old_statement_id" m
    new_statement' ← field (read_object statement_create_request.from_map) "new_statement" m
    request_id' ← field read_bytes "request_id" m
    act_as' ← field_or (read_optional (read_object act_as.from_map)) none "act_as" m
    ok (record {
      old_statement_id = old_statement_id';
      new_statement = new_statement';
      request_id = request_id';
      act_as = act_as';
    });
  round_trip = λ a.
      rw (statement_create_request.round_trip a.new_statement)
        (simp (entries, read_some_payload act_as) refl);
}

pub record StatementHistoryResponseFrame : Type 0 where
  pub items : List StatementView
  pub chain_root : List ℕ
  pub total_versions : ℕ
  pub next_cursor : List ℕ
  pub is_final : Bool

abbrev pub statement_history_response_frame : Payload StatementHistoryResponseFrame
statement_history_response_frame = record {
  plain_map = λ a. entry "items" ((write_list (λ x. object (statement_view.plain_map x))) a.items) (
      entry "chain_root" (bytes a.chain_root) (
        entry "total_versions" (integer a.total_versions) (
          entry "next_cursor" ((write_list integer) a.next_cursor)
            (entry "is_final" (boolean a.is_final) (end)))));
  from_map = λ m. do
    items' ← field (read_list (read_object statement_view.from_map)) "items" m
    chain_root' ← field read_bytes "chain_root" m
    total_versions' ← field read_integer "total_versions" m
    next_cursor' ← field (read_list read_integer) "next_cursor" m
    is_final' ← field read_bool "is_final" m
    ok (record {
      items = items';
      chain_root = chain_root';
      total_versions = total_versions';
      next_cursor = next_cursor';
      is_final = is_final';
    });
  round_trip = λ a. rw (read_payloads statement_view a.items, read_integers a.next_cursor) refl;
}
