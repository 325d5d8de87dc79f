-- ===== src/Wire/Payload/Links.antt =====
-- python/src/brain_db_sdk/wire/types.py: the edges between memories.
use brain_sdk.Prelude.{ℕ, Bool, Option, none, List, refl}
use brain_sdk.Wire.Payload.{Payload, read_some_payload}
use brain_sdk.Wire.Value.Entries.{entries}
use brain_sdk.Wire.Value.{
  ◌>>=◌, end, entry, entry_unless_none, integer, float, bytes, boolean, object, or_null, ok, field,
  field_or, read_bool, read_integer, read_float, read_bytes, read_object, read_optional,
}
use brain_sdk.Wire.Payload.Identity.{ActAs, act_as}

pub record LinkRequest : Type 0 where
  pub source : ℕ
  pub target : ℕ
  pub kind : ℕ
  pub weight : ℕ
  pub request_id : List ℕ
  pub txn_id : Option (List ℕ)
  pub act_as : Option ActAs

abbrev pub link_request : Payload LinkRequest
link_request = record {
  plain_map = λ a. entry "source" (integer a.source) (
      entry "target" (integer a.target) (
        entry "kind" (integer a.kind) (
          entry "weight" (float a.weight) (
            entry "request_id" (bytes a.request_id) (
              entry "txn_id" (or_null bytes a.txn_id)
                (entry_unless_none "act_as" (λ x. object (act_as.plain_map x)) a.act_as (end)))))));
  from_map = λ m. do
    source' ← field read_integer "source" m
    target' ← field read_integer "target" m
    kind' ← field read_integer "kind" m
    weight' ← field read_float "weight" m
    request_id' ← field read_bytes "request_id" m
    txn_id' ← field (read_optional read_bytes) "txn_id" m
    act_as' ← field_or (read_optional (read_object act_as.from_map)) none "act_as" m
    ok (record {
      source = source';
      target = target';
      kind = kind';
      weight = weight';
      request_id = request_id';
      txn_id = txn_id';
      act_as = act_as';
    });
  round_trip = λ a. simp (entries, read_some_payload act_as) refl;
}

pub record LinkResponse : Type 0 where
  pub source : ℕ
  pub target : ℕ
  pub kind : ℕ
  pub weight : ℕ
  pub created_at_unix_nanos : ℕ
  pub already_existed : Bool

abbrev pub link_response : Payload LinkResponse
link_response = record {
  plain_map = λ a. entry "source" (integer a.source) (
      entry "target" (integer a.target) (
        entry "kind" (integer a.kind) (
          entry "weight" (float a.weight) (
            entry "created_at_unix_nanos" (integer a.created_at_unix_nanos)
              (entry "already_existed" (boolean a.already_existed) (end))))));
  from_map = λ m. do
    source' ← field read_integer "source" m
    target' ← field read_integer "target" m
    kind' ← field read_integer "kind" m
    weight' ← field read_float "weight" m
    created_at_unix_nanos' ← field read_integer "created_at_unix_nanos" m
    already_existed' ← field read_bool "already_existed" m
    ok (record {
      source = source';
      target = target';
      kind = kind';
      weight = weight';
      created_at_unix_nanos = created_at_unix_nanos';
      already_existed = already_existed';
    });
  round_trip = λ a. refl;
}

pub record UnlinkRequest : Type 0 where
  pub source : ℕ
  pub target : ℕ
  pub kind : ℕ
  pub request_id : List ℕ
  pub txn_id : Option (List ℕ)
  pub act_as : Option ActAs

abbrev pub unlink_request : Payload UnlinkRequest
unlink_request = record {
  plain_map = λ a. entry "source" (integer a.source) (
      entry "target" (integer a.target) (
        entry "kind" (integer a.kind) (
          entry "request_id" (bytes a.request_id) (
            entry "txn_id" (or_null bytes a.txn_id)
              (entry_unless_none "act_as" (λ x. object (act_as.plain_map x)) a.act_as (end))))));
  from_map = λ m. do
    source' ← field read_integer "source" m
    target' ← field read_integer "target" m
    kind' ← field read_integer "kind" m
    request_id' ← field read_bytes "request_id" m
    txn_id' ← field (read_optional read_bytes) "txn_id" m
    act_as' ← field_or (read_optional (read_object act_as.from_map)) none "act_as" m
    ok (record {
      source = source';
      target = target';
      kind = kind';
      request_id = request_id';
      txn_id = txn_id';
      act_as = act_as';
    });
  round_trip = λ a. simp (entries, read_some_payload act_as) refl;
}
