-- ===== src/Wire/Payload/MemoryRequests.antt =====
-- python/src/brain_db_sdk/wire/types.py: requests on single memories, and the rows of a list of them.
use Prim.Native.String.{String}
use brain_sdk.Prelude.{ℕ, Option, none, List, refl}
use brain_sdk.Wire.Payload.{Payload, read_some_payload}
use brain_sdk.Wire.Value.Entries.{entries}
use brain_sdk.Wire.Value.{
  ◌>>=◌, end, entry, entry_unless_none, integer, float, text, bytes, object, or_null, ok, field,
  field_or, read_integer, read_float, read_text, read_bytes, read_object, read_optional,
}
use brain_sdk.Wire.Payload.Identity.{ActAs, act_as}

pub record ForgetRequest : Type 0 where
  pub memory_id : ℕ
  pub mode : ℕ
  pub request_id : List ℕ
  pub txn_id : Option (List ℕ)
  pub act_as : Option ActAs

abbrev pub forget_request : Payload ForgetRequest
forget_request = record {
  plain_map = λ a. entry "memory_id" (integer a.memory_id) (
      entry "mode" (integer a.mode) (
        entry "request_id" (bytes a.request_id) (
          entry "txn_id" (or_null bytes a.txn_id)
            (entry_unless_none "act_as" (λ x. object (act_as.plain_map x)) a.act_as (end)))));
  from_map = λ m. do
    memory_id' ← field read_integer "memory_id" m
    mode' ← field read_integer "mode" m
    request_id' ← field read_bytes "request_id" m
    txn_id' ← field (read_optional read_bytes) "txn_id" m
    act_as' ← field_or (read_optional (read_object act_as.from_map)) none "act_as" m
    ok (record {
      memory_id = memory_id';
      mode = mode';
      request_id = request_id';
      txn_id = txn_id';
      act_as = act_as';
    });
  round_trip = λ a. simp (entries, read_some_payload act_as) refl;
}

pub record MemoryListItem : Type 0 where
  pub memory_id : ℕ
  pub space_id : List ℕ
  pub session_id : ℕ
  pub text' : String
  pub kind : ℕ
  pub state : ℕ
  pub created_at_unix_nanos : ℕ
  pub occurred_at_unix_nanos : ℕ
  pub last_accessed_at_unix_nanos : ℕ
  pub salience : ℕ
  pub access_count : ℕ
  pub source_request_id : List ℕ
  pub statement_count : ℕ
  pub entity_count : ℕ
  pub relation_count : ℕ

abbrev pub memory_list_item : Payload MemoryListItem
memory_list_item = record {
  plain_map = λ a. entry "memory_id" (integer a.memory_id) (
      entry "space_id" (bytes a.space_id) (
        entry "session_id" (integer a.session_id) (
          entry "text" (text a.text') (
            entry "kind" (integer a.kind) (
              entry "state" (integer a.state) (
                entry "created_at_unix_nanos" (integer a.created_at_unix_nanos) (
                  entry "occurred_at_unix_nanos" (integer a.occurred_at_unix_nanos) (
                    entry "last_accessed_at_unix_nanos" (integer a.last_accessed_at_unix_nanos) (
                      entry "salience" (float a.salience) (
                        entry "access_count" (integer a.access_count) (
                          entry "source_request_id" (bytes a.source_request_id) (
                            entry "statement_count" (integer a.statement_count) (
                              entry "entity_count" (integer a.entity_count) (
                                entry "relation_count" (integer a.relation_count)
                                  (end)))))))))))))));
  from_map = λ m. do
    memory_id' ← field read_integer "memory_id" m
    space_id' ← field read_bytes "space_id" m
    session_id' ← field read_integer "session_id" m
    got_text ← field read_text "text" m
    kind' ← field read_integer "kind" m
    state' ← field read_integer "state" m
    created_at_unix_nanos' ← field read_integer "created_at_unix_nanos" m
    occurred_at_unix_nanos' ← field read_integer "occurred_at_unix_nanos" m
    last_accessed_at_unix_nanos' ← field read_integer "last_accessed_at_unix_nanos" m
    salience' ← field read_float "salience" m
    access_count' ← field read_integer "access_count" m
    source_request_id' ← field read_bytes "source_request_id" m
    statement_count' ← field read_integer "statement_count" m
    entity_count' ← field read_integer "entity_count" m
    relation_count' ← field read_integer "relation_count" m
    ok (record {
      memory_id = memory_id';
      space_id = space_id';
      session_id = session_id';
      text' = got_text;
      kind = kind';
      state = state';
      created_at_unix_nanos = created_at_unix_nanos';
      occurred_at_unix_nanos = occurred_at_unix_nanos';
      last_accessed_at_unix_nanos = last_accessed_at_unix_nanos';
      salience = salience';
      access_count = access_count';
      source_request_id = source_request_id';
      statement_count = statement_count';
      entity_count = entity_count';
      relation_count = relation_count';
    });
  round_trip = λ a. refl;
}
