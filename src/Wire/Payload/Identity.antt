-- ===== src/Wire/Payload/Identity.antt =====
-- python/src/brain_db_sdk/wire/types.py: the identity that a request acts as, and the requests to store a memory.
use Prim.Native.String.{String}
use brain_sdk.Prelude.{ℕ, not, Bool, false, ◌==◌, Option, none, List, refl}
use brain_sdk.Wire.Payload.{Payload, read_some_payload}
use brain_sdk.Wire.Value.Entries.{entries}
use brain_sdk.Wire.Value.{
  ◌>>=◌, end, entry, entry_if, entry_unless_none, integer, float, text, bytes, boolean, object,
  or_null, ok, field, field_or, read_bool, read_integer, read_float, read_text, read_bytes,
  read_object, read_optional,
}

pub record ActAs : Type 0 where
  pub namespace : String
  pub space : String
  pub grant : ℕ

abbrev pub act_as : Payload ActAs
act_as = record {
  plain_map = λ a. entry "namespace" (text a.namespace) (
      entry "space" (text a.space) (entry_if (not (a.grant == 0)) "grant" (integer a.grant) (end)));
  from_map = λ m. do
    namespace' ← field read_text "namespace" m
    space' ← field read_text "space" m
    grant' ← field_or read_integer 0 "grant" m
    ok (record { namespace = namespace'; space = space'; grant = grant' });
  round_trip = λ a. simp (entries) refl;
}

pub record EdgeRequest : Type 0 where
  pub target : ℕ
  pub kind : ℕ
  pub weight : ℕ

abbrev pub edge_request : Payload EdgeRequest
edge_request = record {
  plain_map = λ a.
      entry "target" (integer a.target)
        (entry "kind" (integer a.kind) (entry "weight" (float a.weight) (end)));
  from_map = λ m. do
    target' ← field read_integer "target" m
    kind' ← field read_integer "kind" m
    weight' ← field read_float "weight" m
    ok (record { target = target'; kind = kind'; weight = weight' });
  round_trip = λ a. refl;
}

pub record EncodeRequest : Type 0 where
  pub text' : String
  pub session_id : ℕ
  pub request_id : List ℕ
  pub txn_id : Option (List ℕ)
  pub occurred_at_unix_nanos : Option ℕ
  pub act_as : Option ActAs
  pub wait : ℕ
  pub allow_duplicates : Bool

abbrev pub encode_request : Payload EncodeRequest
encode_request = record {
  plain_map = λ a. entry "text" (text a.text') (
      entry "session_id" (integer a.session_id) (
        entry "request_id" (bytes a.request_id) (
          entry "txn_id" (or_null bytes a.txn_id) (
            entry "occurred_at_unix_nanos" (or_null integer a.occurred_at_unix_nanos) (
              entry_unless_none "act_as" (λ x. object (act_as.plain_map x)) a.act_as
                (entry_if (not (a.wait == 0)) "wait" (integer a.wait) (
                  entry_if a.allow_duplicates "allow_duplicates" (boolean a.allow_duplicates)
                    (end))))))));
  from_map = λ m. do
    got_text ← field read_text "text" m
    session_id' ← field read_integer "session_id" m
    request_id' ← field read_bytes "request_id" m
    txn_id' ← field (read_optional read_bytes) "txn_id" m
    occurred_at_unix_nanos' ← field (read_optional read_integer) "occurred_at_unix_nanos" m
    act_as' ← field_or (read_optional (read_object act_as.from_map)) none "act_as" m
    wait' ← field_or read_integer 0 "wait" m
    allow_duplicates' ← field_or read_bool false "allow_duplicates" m
    ok (record {
      text' = got_text;
      session_id = session_id';
      request_id = request_id';
      txn_id = txn_id';
      occurred_at_unix_nanos = occurred_at_unix_nanos';
      act_as = act_as';
      wait = wait';
      allow_duplicates = allow_duplicates';
    });
  round_trip = λ a. simp (entries, read_some_payload act_as) refl;
}
