-- ===== src/Wire/Payload/Lookups.antt =====
-- python/src/brain_db_sdk/wire/types.py: requests for capabilities, extractors, entities and statements.
use Prim.Native.String.{String}
use brain_sdk.Prelude.{ℕ, Bool, Option, none, List, refl}
use brain_sdk.Wire.Payload.{Payload, read_some_payload}
use brain_sdk.Wire.Value.Entries.{entries}
use brain_sdk.Wire.Value.{
  ◌>>=◌, end, entry, entry_unless_none, integer, float, text, bytes, boolean, object, write_list,
  ok, field, field_or, read_bool, read_integer, read_float, read_text, read_bytes, read_object,
  read_list, read_optional, read_byte_strings,
}
use brain_sdk.Wire.Payload.Identity.{ActAs, act_as}

pub record GetCapabilitiesRequest : Type 0 where
  pub act_as : Option ActAs

abbrev pub get_capabilities_request : Payload GetCapabilitiesRequest
get_capabilities_request = record {
  plain_map = λ a. entry_unless_none "act_as" (λ x. object (act_as.plain_map x)) a.act_as (end);
  from_map = λ m. do
    act_as' ← field_or (read_optional (read_object act_as.from_map)) none "act_as" m
    ok (record { act_as = act_as' });
  round_trip = λ a. simp (entries, read_some_payload act_as) refl;
}

pub record ExtractorListRequest : Type 0 where
  pub act_as : Option ActAs

abbrev pub extractor_list_request : Payload ExtractorListRequest
extractor_list_request = record {
  plain_map = λ a. entry_unless_none "act_as" (λ x. object (act_as.plain_map x)) a.act_as (end);
  from_map = λ m. do
    act_as' ← field_or (read_optional (read_object act_as.from_map)) none "act_as" m
    ok (record { act_as = act_as' });
  round_trip = λ a. simp (entries, read_some_payload act_as) refl;
}

pub record EntityGetRequest : Type 0 where
  pub entity_id : List ℕ
  pub act_as : Option ActAs

abbrev pub entity_get_request : Payload EntityGetRequest
entity_get_request = record {
  plain_map = λ a.
      entry "entity_id" (bytes a.entity_id)
        (entry_unless_none "act_as" (λ x. object (act_as.plain_map x)) a.act_as (end));
  from_map = λ m. do
    entity_id' ← field read_bytes "entity_id" m
    act_as' ← field_or (read_optional (read_object act_as.from_map)) none "act_as" m
    ok (record { entity_id = entity_id'; act_as = act_as' });
  round_trip = λ a. simp (entries, read_some_payload act_as) refl;
}

pub record EntityListRequest : Type 0 where
  pub entity_type_id : ℕ
  pub name_prefix : String
  pub mention_count_min : ℕ
  pub include_tombstoned : Bool
  pub include_merged : Bool
  pub limit : ℕ
  pub cursor : List ℕ
  pub act_as : Option ActAs

abbrev pub entity_list_request : Payload EntityListRequest
entity_list_request = record {
  plain_map = λ a. entry "entity_type_id" (integer a.entity_type_id) (
      entry "name_prefix" (text a.name_prefix) (
        entry "mention_count_min" (integer a.mention_count_min) (
          entry "include_tombstoned" (boolean a.include_tombstoned) (
            entry "include_merged" (boolean a.include_merged) (
              entry "limit" (integer a.limit) (
                entry "cursor" ((write_list integer) a.cursor) (
                  entry_unless_none "act_as" (λ x. object (act_as.plain_map x)) a.act_as
                    (end))))))));
  from_map = λ m. do
    entity_type_id' ← field read_integer "entity_type_id" m
    name_prefix' ← field read_text "name_prefix" m
    mention_count_min' ← field read_integer "mention_count_min" m
    include_tombstoned' ← field read_bool "include_tombstoned" m
    include_merged' ← field read_bool "include_merged" m
    limit' ← field read_integer "limit" m
    cursor' ← field (read_list read_integer) "cursor" m
    act_as' ← field_or (read_optional (read_object act_as.from_map)) none "act_as" m
    ok (record {
      entity_type_id = entity_type_id';
      name_prefix = name_prefix';
      mention_count_min = mention_count_min';
      include_tombstoned = include_tombstoned';
      include_merged = include_merged';
      limit = limit';
      cursor = cursor';
      act_as = act_as';
    });
  round_trip = λ a. simp (entries, read_some_payload act_as) refl;
}

pub record EntityResolveRequest : Type 0 where
  pub candidate_name : String
  pub resolution_context : String
  pub entity_type_hint : ℕ
  pub allow_create : Bool
  pub request_id : List ℕ
  pub act_as : Option ActAs

abbrev pub entity_resolve_request : Payload EntityResolveRequest
entity_resolve_request = record {
  plain_map = λ a. entry "candidate_name" (text a.candidate_name) (
      entry "resolution_context" (text a.resolution_context) (
        entry "entity_type_hint" (integer a.entity_type_hint) (
          entry "allow_create" (boolean a.allow_create) (
            entry "request_id" (bytes a.request_id)
              (entry_unless_none "act_as" (λ x. object (act_as.plain_map x)) a.act_as (end))))));
  from_map = λ m. do
    candidate_name' ← field read_text "candidate_name" m
    resolution_context' ← field read_text "resolution_context" m
    entity_type_hint' ← field read_integer "entity_type_hint" m
    allow_create' ← field read_bool "allow_create" m
    request_id' ← field read_bytes "request_id" m
    act_as' ← field_or (read_optional (read_object act_as.from_map)) none "act_as" m
    ok (record {
      candidate_name = candidate_name';
      resolution_context = resolution_context';
      entity_type_hint = entity_type_hint';
      allow_create = allow_create';
      request_id = request_id';
      act_as = act_as';
    });
  round_trip = λ a. simp (entries, read_some_payload act_as) refl;
}

pub record EntityResolveResponse : Type 0 where
  pub outcome : ℕ
  pub tier : ℕ
  pub confidence : ℕ
  pub resolved_entity : List ℕ
  pub candidate_ids : List (List ℕ)
  pub audit_id : List ℕ

abbrev pub entity_resolve_response : Payload EntityResolveResponse
entity_resolve_response = record {
  plain_map = λ a. entry "outcome" (integer a.outcome) (
      entry "tier" (integer a.tier) (
        entry "confidence" (float a.confidence) (
          entry "resolved_entity" (bytes a.resolved_entity) (
            entry "candidate_ids" ((write_list bytes) a.candidate_ids)
              (entry "audit_id" (bytes a.audit_id) (end))))));
  from_map = λ m. do
    outcome' ← field read_integer "outcome" m
    tier' ← field read_integer "tier" m
    confidence' ← field read_float "confidence" m
    resolved_entity' ← field read_bytes "resolved_entity" m
    candidate_ids' ← field (read_list read_bytes) "candidate_ids" m
    audit_id' ← field read_bytes "audit_id" m
    ok (record {
      outcome = outcome';
      tier = tier';
      confidence = confidence';
      resolved_entity = resolved_entity';
      candidate_ids = candidate_ids';
      audit_id = audit_id';
    });
  round_trip = λ a. rw (read_byte_strings a.candidate_ids) refl;
}

pub record StatementGetRequest : Type 0 where
  pub statement_id : List ℕ
  pub follow_supersession : Bool
  pub act_as : Option ActAs

abbrev pub statement_get_request : Payload StatementGetRequest
statement_get_request = record {
  plain_map = λ a. entry "statement_id" (bytes a.statement_id) (
      entry "follow_supersession" (boolean a.follow_supersession)
        (entry_unless_none "act_as" (λ x. object (act_as.plain_map x)) a.act_as (end)));
  from_map = λ m. do
    statement_id' ← field read_bytes "statement_id" m
    follow_supersession' ← field read_bool "follow_supersession" m
    act_as' ← field_or (read_optional (read_object act_as.from_map)) none "act_as" m
    ok (record {
      statement_id = statement_id';
      follow_supersession = follow_supersession';
      act_as = act_as';
    });
  round_trip = λ a. simp (entries, read_some_payload act_as) refl;
}

pub record StatementListRequest : Type 0 where
  pub subject : List ℕ
  pub predicate : String
  pub kind : ℕ
  pub min_confidence : ℕ
  pub time_range_start_unix_nanos : ℕ
  pub time_range_end_unix_nanos : ℕ
  pub only_current : Bool
  pub include_tombstoned : Bool
  pub limit : ℕ
  pub cursor : List ℕ
  pub act_as : Option ActAs

abbrev pub statement_list_request : Payload StatementListRequest
statement_list_request = record {
  plain_map = λ a. entry "subject" (bytes a.subject) (
      entry "predicate" (text a.predicate) (
        entry "kind" (integer a.kind) (
          entry "min_confidence" (float a.min_confidence) (
            entry "time_range_start_unix_nanos" (integer a.time_range_start_unix_nanos) (
              entry "time_range_end_unix_nanos" (integer a.time_range_end_unix_nanos) (
                entry "only_current" (boolean a.only_current) (
                  entry "include_tombstoned" (boolean a.include_tombstoned) (
                    entry "limit" (integer a.limit) (
                      entry "cursor" ((write_list integer) a.cursor) (
                        entry_unless_none "act_as" (λ x. object (act_as.plain_map x)) a.act_as
                          (end)))))))))));
  from_map = λ m. do
    subject' ← field read_bytes "subject" m
    predicate' ← field read_text "predicate" m
    kind' ← field read_integer "kind" m
    min_confidence' ← field read_float "min_confidence" m
    time_range_start_unix_nanos' ← field read_integer "time_range_start_unix_nanos" m
    time_range_end_unix_nanos' ← field read_integer "time_range_end_unix_nanos" m
    only_current' ← field read_bool "only_current" m
    include_tombstoned' ← field read_bool "include_tombstoned" m
    limit' ← field read_integer "limit" m
    cursor' ← field (read_list read_integer) "cursor" m
    act_as' ← field_or (read_optional (read_object act_as.from_map)) none "act_as" m
    ok (record {
      subject = subject';
      predicate = predicate';
      kind = kind';
      min_confidence = min_confidence';
      time_range_start_unix_nanos = time_range_start_unix_nanos';
      time_range_end_unix_nanos = time_range_end_unix_nanos';
      only_current = only_current';
      include_tombstoned = include_tombstoned';
      limit = limit';
      cursor = cursor';
      act_as = act_as';
    });
  round_trip = λ a. simp (entries, read_some_payload act_as) refl;
}
