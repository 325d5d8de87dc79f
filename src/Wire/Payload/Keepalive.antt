-- ===== src/Wire/Payload/Keepalive.antt =====
-- python/src/brain_db_sdk/wire/types.py: the heartbeats and the goodbye.
use Prim.Native.String.{String}
use brain_sdk.Prelude.{ℕ, Option, none, refl}
use brain_sdk.Wire.Payload.{Payload}
use brain_sdk.Wire.Value.{
  ◌>>=◌, end, entry, integer, text, or_null, ok, field_or, read_integer, read_text, read_optional,
  read_optional_text,
}

pub record ByeRequest : Type 0 where
  pub reason : Option String

abbrev pub bye_request : Payload ByeRequest
bye_request = record {
  plain_map = λ a. entry "reason" (or_null text a.reason) (end);
  from_map = λ m. do
    reason' ← field_or (read_optional read_text) none "reason" m
    ok (record { reason = reason' });
  round_trip = λ a. rw (read_optional_text a.reason) refl;
}

pub record PingRequest : Type 0 where
  pub client_timestamp_unix_nanos : ℕ

abbrev pub ping_request : Payload PingRequest
ping_request = record {
  plain_map =
      λ a. entry "client_timestamp_unix_nanos" (integer a.client_timestamp_unix_nanos) (end);
  from_map = λ m. do
    client_timestamp_unix_nanos' ← field_or read_integer 0 "client_timestamp_unix_nanos" m
    ok (record { client_timestamp_unix_nanos = client_timestamp_unix_nanos' });
  round_trip = λ a. refl;
}

pub record PongResponse : Type 0 where
  pub client_timestamp_unix_nanos : ℕ
  pub server_timestamp_unix_nanos : ℕ

abbrev pub pong_response : Payload PongResponse
pong_response = record {
  plain_map = λ a.
      entry "client_timestamp_unix_nanos" (integer a.client_timestamp_unix_nanos)
        (entry "server_timestamp_unix_nanos" (integer a.server_timestamp_unix_nanos) (end));
  from_map = λ m. do
    client_timestamp_unix_nanos' ← field_or read_integer 0 "client_timestamp_unix_nanos" m
    server_timestamp_unix_nanos' ← field_or read_integer 0 "server_timestamp_unix_nanos" m
    ok (record {
      client_timestamp_unix_nanos = client_timestamp_unix_nanos';
      server_timestamp_unix_nanos = server_timestamp_unix_nanos';
    });
  round_trip = λ a. refl;
}

pub record ServerPingResponse : Type 0 where
  pub server_timestamp_unix_nanos : ℕ

abbrev pub server_ping_response : Payload ServerPingResponse
server_ping_response = record {
  plain_map =
      λ a. entry "server_timestamp_unix_nanos" (integer a.server_timestamp_unix_nanos) (end);
  from_map = λ m. do
    server_timestamp_unix_nanos' ← field_or read_integer 0 "server_timestamp_unix_nanos" m
    ok (record { server_timestamp_unix_nanos = server_timestamp_unix_nanos' });
  round_trip = λ a. refl;
}

pub record ClientPongRequest : Type 0 where
  pub server_timestamp_unix_nanos : ℕ
  pub client_timestamp_unix_nanos : ℕ

abbrev pub client_pong_request : Payload ClientPongRequest
client_pong_request = record {
  plain_map = λ a.
      entry "server_timestamp_unix_nanos" (integer a.server_timestamp_unix_nanos)
        (entry "client_timestamp_unix_nanos" (integer a.client_timestamp_unix_nanos) (end));
  from_map = λ m. do
    server_timestamp_unix_nanos' ← field_or read_integer 0 "server_timestamp_unix_nanos" m
    client_timestamp_unix_nanos' ← field_or read_integer 0 "client_timestamp_unix_nanos" m
    ok (record {
      server_timestamp_unix_nanos = server_timestamp_unix_nanos';
      client_timestamp_unix_nanos = client_timestamp_unix_nanos';
    });
  round_trip = λ a. refl;
}
