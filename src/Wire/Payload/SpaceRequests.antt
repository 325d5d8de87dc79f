-- ===== src/Wire/Payload/SpaceRequests.antt =====
-- python/src/brain_db_sdk/wire/types.py: requests on spaces and sessions.
use Prim.Native.String.{String}
use brain_sdk.Prelude.{ℕ, Bool, false, Option, none, Option-cases, inl, inr, List, refl}
use brain_sdk.Wire.Payload.{Payload, read_some_payload, read_payloads}
use brain_sdk.Wire.Value.Entries.{entries}
use brain_sdk.Wire.Value.{
  ◌>>=◌, end, entry, entry_unless_none, integer, text, bytes, boolean, object, write_list, ok,
  field, field_or, read_bool, read_integer, read_text, read_bytes, read_object, read_list,
  read_optional,
}
use brain_sdk.Wire.Payload.Identity.{ActAs, act_as}

pub record SpaceCreateRequest : Type 0 where
  pub request_id : List ℕ
  pub metadata : Option (List ℕ)
  pub act_as : Option ActAs

abbrev pub space_create_request : Payload SpaceCreateRequest
space_create_request = record {
  plain_map = λ a. entry_unless_none "metadata" (write_list integer) a.metadata (
      entry "request_id" (bytes a.request_id)
        (entry_unless_none "act_as" (λ x. object (act_as.plain_map x)) a.act_as (end)));
  from_map = λ m. do
    request_id' ← field read_bytes "request_id" m
    metadata' ← field_or (read_optional (read_list read_integer)) none "metadata" m
    act_as' ← field_or (read_optional (read_object act_as.from_map)) none "act_as" m
    ok (record { request_id = request_id'; metadata = metadata'; act_as = act_as' });
  round_trip = λ a. simp (entries, read_some_payload act_as) refl;
}

pub record SpaceListRequest : Type 0 where
  pub limit : ℕ
  pub act_as : Option ActAs

abbrev pub space_list_request : Payload SpaceListRequest
space_list_request = record {
  plain_map = λ a.
      entry "limit" (integer a.limit)
        (entry_unless_none "act_as" (λ x. object (act_as.plain_map x)) a.act_as (end));
  from_map = λ m. do
    limit' ← field read_integer "limit" m
    act_as' ← field_or (read_optional (read_object act_as.from_map)) none "act_as" m
    ok (record { limit = limit'; act_as = act_as' });
  round_trip = λ a. simp (entries, read_some_payload act_as) refl;
}

pub record SpaceDeleteRequest : Type 0 where
  pub request_id : List ℕ
  pub act_as : Option ActAs

abbrev pub space_delete_request : Payload SpaceDeleteRequest
space_delete_request = record {
  plain_map = λ a.
      entry "request_id" (bytes a.request_id)
        (entry_unless_none "act_as" (λ x. object (act_as.plain_map x)) a.act_as (end));
  from_map = λ m. do
    request_id' ← field read_bytes "request_id" m
    act_as' ← field_or (read_optional (read_object act_as.from_map)) none "act_as" m
    ok (record { request_id = request_id'; act_as = act_as' });
  round_trip = λ a. simp (entries, read_some_payload act_as) refl;
}

pub record SessionView : Type 0 where
  pub session_id : ℕ
  pub created_at_unix_nanos : ℕ
  pub last_active_unix_nanos : ℕ
  pub memory_count : ℕ
  pub title : Option String

abbrev pub session_view : Payload SessionView
session_view = record {
  plain_map = λ a. entry "session_id" (integer a.session_id) (
      entry "created_at_unix_nanos" (integer a.created_at_unix_nanos) (
        entry "last_active_unix_nanos" (integer a.last_active_unix_nanos) (
          entry_unless_none "title" text a.title
            (entry "memory_count" (integer a.memory_count) (end)))));
  from_map = λ m. do
    session_id' ← field read_integer "session_id" m
    created_at_unix_nanos' ← field read_integer "created_at_unix_nanos" m
    last_active_unix_nanos' ← field read_integer "last_active_unix_nanos" m
    memory_count' ← field read_integer "memory_count" m
    title' ← field_or (read_optional read_text) none "title" m
    ok (record {
      session_id = session_id';
      created_at_unix_nanos = created_at_unix_nanos';
      last_active_unix_nanos = last_active_unix_nanos';
      memory_count = memory_count';
      title = title';
    });
  round_trip =
      λ a. elim (Option-cases a.title) [ inl e0 ↦ rw (e0) refl | inr (x0, e0) ↦ rw (e0) refl ];
}

pub record SessionCreateRequest : Type 0 where
  pub session_id : ℕ
  pub request_id : List ℕ
  pub title : Option String
  pub act_as : Option ActAs

abbrev pub session_create_request : Payload SessionCreateRequest
session_create_request = record {
  plain_map = λ a. entry "session_id" (integer a.session_id) (
      entry_unless_none "title" text a.title (
        entry "request_id" (bytes a.request_id)
          (entry_unless_none "act_as" (λ x. object (act_as.plain_map x)) a.act_as (end))));
  from_map = λ m. do
    session_id' ← field read_integer "session_id" m
    request_id' ← field read_bytes "request_id" m
    title' ← field_or (read_optional read_text) none "title" m
    act_as' ← field_or (read_optional (read_object act_as.from_map)) none "act_as" m
    ok (record {
      session_id = session_id';
      request_id = request_id';
      title = title';
      act_as = act_as';
    });
  round_trip = λ a. simp (entries, read_some_payload act_as) refl;
}

pub record SessionListRequest : Type 0 where
  pub limit : ℕ
  pub act_as : Option ActAs

abbrev pub session_list_request : Payload SessionListRequest
session_list_request = record {
  plain_map = λ a.
      entry "limit" (integer a.limit)
        (entry_unless_none "act_as" (λ x. object (act_as.plain_map x)) a.act_as (end));
  from_map = λ m. do
    limit' ← field read_integer "limit" m
    act_as' ← field_or (read_optional (read_object act_as.from_map)) none "act_as" m
    ok (record { limit = limit'; act_as = act_as' });
  round_trip = λ a. simp (entries, read_some_payload act_as) refl;
}

pub record SessionListResponse : Type 0 where
  pub space_id : List ℕ
  pub sessions : List SessionView

abbrev pub session_list_response : Payload SessionListResponse
session_list_response = record {
  plain_map = λ a.
      entry "space_id" (bytes a.space_id)
        (entry "sessions" ((write_list (λ x. object (session_view.plain_map x))) a.sessions) (end));
  from_map = λ m. do
    space_id' ← field read_bytes "space_id" m
    sessions' ← field (read_list (read_object session_view.from_map)) "sessions" m
    ok (record { space_id = space_id'; sessions = sessions' });
  round_trip = λ a. rw (read_payloads session_view a.sessions) refl;
}

pub record SessionDeleteRequest : Type 0 where
  pub session_id : ℕ
  pub request_id : List ℕ
  pub hard : Bool
  pub act_as : Option ActAs

abbrev pub session_delete_request : Payload SessionDeleteRequest
session_delete_request = record {
  plain_map = λ a. entry "session_id" (integer a.session_id) (
      entry "hard" (boolean a.hard) (
        entry "request_id" (bytes a.request_id)
          (entry_unless_none "act_as" (λ x. object (act_as.plain_map x)) a.act_as (end))));
  from_map = λ m. do
    session_id' ← field read_integer "session_id" m
    request_id' ← field read_bytes "request_id" m
    hard' ← field_or read_bool false "hard" m
    act_as' ← field_or (read_optional (read_object act_as.from_map)) none "act_as" m
    ok (record {
      session_id = session_id';
      request_id = request_id';
      hard = hard';
      act_as = act_as';
    });
  round_trip = λ a. simp (entries, read_some_payload act_as) refl;
}
