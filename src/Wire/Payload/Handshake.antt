-- ===== src/Wire/Payload/Handshake.antt =====
-- python/src/brain_db_sdk/wire/types.py: the HELLO, AUTH and WELCOME of a handshake.
use Prim.Native.String.{String}
use brain_sdk.Prelude.{ℕ, Bool, Option, List, refl}
use brain_sdk.Wire.Payload.{Payload}
use brain_sdk.Wire.Value.{
  ◌>>=◌, end, entry, bytes, integer, text, boolean, write_list, or_null, ok, field, read_bool,
  read_integer, read_text, read_bytes, read_list, read_optional, read_object, object, read_integers,
  read_optional_bytes,
}

pub record HelloCapabilities : Type 0 where
  pub streaming : Bool
  pub compression_zstd : Bool
  pub server_push : Bool

abbrev pub hello_capabilities : Payload HelloCapabilities
hello_capabilities = record {
  plain_map = λ a. entry "streaming" (boolean a.streaming) (
      entry "compression_zstd" (boolean a.compression_zstd)
        (entry "server_push" (boolean a.server_push) (end)));
  from_map = λ m. do
    streaming' ← field read_bool "streaming" m
    compression_zstd' ← field read_bool "compression_zstd" m
    server_push' ← field read_bool "server_push" m
    ok (record {
      streaming = streaming';
      compression_zstd = compression_zstd';
      server_push = server_push';
    });
  round_trip = λ a. refl;
}

pub record HelloPayload : Type 0 where
  pub client_id : String
  pub supported_versions : List ℕ
  pub capabilities : HelloCapabilities
  pub client_connection_token : Option (List ℕ)

abbrev pub hello_payload : Payload HelloPayload
hello_payload = record {
  plain_map = λ a. entry "client_id" (text a.client_id) (
      entry "supported_versions" (write_list integer a.supported_versions) (
        entry "capabilities" (object (hello_capabilities.plain_map a.capabilities))
          (entry "client_connection_token" (or_null bytes a.client_connection_token) (end))));
  from_map = λ m. do
    client_id' ← field read_text "client_id" m
    supported_versions' ← field (read_list read_integer) "supported_versions" m
    capabilities' ← field (read_object hello_capabilities.from_map) "capabilities" m
    client_connection_token' ← field (read_optional read_bytes) "client_connection_token" m
    ok (record {
      client_id = client_id';
      supported_versions = supported_versions';
      capabilities = capabilities';
      client_connection_token = client_connection_token';
    });
  round_trip = λ a.
      rw (read_integers a.supported_versions, read_optional_bytes a.client_connection_token) refl;
}

pub record MtlsClaim : Type 0 where
  pub cert_fingerprint : List ℕ
  pub asserted_subject : String

abbrev pub mtls_claim : Payload MtlsClaim
mtls_claim = record {
  plain_map = λ a.
      entry "cert_fingerprint" (bytes a.cert_fingerprint)
        (entry "asserted_subject" (text a.asserted_subject) (end));
  from_map = λ m. do
    cert_fingerprint' ← field read_bytes "cert_fingerprint" m
    asserted_subject' ← field read_text "asserted_subject" m
    ok (record { cert_fingerprint = cert_fingerprint'; asserted_subject = asserted_subject' });
  round_trip = λ a. refl;
}

pub record SpacePermissions : Type 0 where
  pub can_encode : Bool
  pub can_recall : Bool
  pub can_plan : Bool
  pub can_reason : Bool
  pub can_forget : Bool
  pub can_admin : Bool
  pub can_act_as : Bool

abbrev pub space_permissions : Payload SpacePermissions
space_permissions = record {
  plain_map = λ a. entry "can_encode" (boolean a.can_encode) (
      entry "can_recall" (boolean a.can_recall) (
        entry "can_plan" (boolean a.can_plan) (
          entry "can_reason" (boolean a.can_reason) (
            entry "can_forget" (boolean a.can_forget) (
              entry "can_admin" (boolean a.can_admin)
                (entry "can_act_as" (boolean a.can_act_as) (end)))))));
  from_map = λ m. do
    can_encode' ← field read_bool "can_encode" m
    can_recall' ← field read_bool "can_recall" m
    can_plan' ← field read_bool "can_plan" m
    can_reason' ← field read_bool "can_reason" m
    can_forget' ← field read_bool "can_forget" m
    can_admin' ← field read_bool "can_admin" m
    can_act_as' ← field read_bool "can_act_as" m
    ok (record {
      can_encode = can_encode';
      can_recall = can_recall';
      can_plan = can_plan';
      can_reason = can_reason';
      can_forget = can_forget';
      can_admin = can_admin';
      can_act_as = can_act_as';
    });
  round_trip = λ a. refl;
}

pub record ServerFeatures : Type 0 where
  pub max_payload_size : ℕ
  pub max_concurrent_streams : ℕ
  pub idle_timeout_seconds : ℕ
  pub auth_methods : List ℕ

abbrev pub server_features : Payload ServerFeatures
server_features = record {
  plain_map = λ a. entry "max_payload_size" (integer a.max_payload_size) (
      entry "max_concurrent_streams" (integer a.max_concurrent_streams) (
        entry "idle_timeout_seconds" (integer a.idle_timeout_seconds)
          (entry "auth_methods" (write_list integer a.auth_methods) (end))));
  from_map = λ m. do
    max_payload_size' ← field read_integer "max_payload_size" m
    max_concurrent_streams' ← field read_integer "max_concurrent_streams" m
    idle_timeout_seconds' ← field read_integer "idle_timeout_seconds" m
    auth_methods' ← field (read_list read_integer) "auth_methods" m
    ok (record {
      max_payload_size = max_payload_size';
      max_concurrent_streams = max_concurrent_streams';
      idle_timeout_seconds = idle_timeout_seconds';
      auth_methods = auth_methods';
    });
  round_trip = λ a. rw (read_integers a.auth_methods) refl;
}

pub record WelcomePayload : Type 0 where
  pub server_id : String
  pub chosen_version : ℕ
  pub connection_id : List ℕ
  pub capabilities : HelloCapabilities
  pub server_features : ServerFeatures

abbrev pub welcome_payload : Payload WelcomePayload
welcome_payload = record {
  plain_map = λ a. entry "server_id" (text a.server_id) (
      entry "chosen_version" (integer a.chosen_version) (
        entry "connection_id" (bytes a.connection_id) (
          entry "capabilities" (object (hello_capabilities.plain_map a.capabilities)) (
            entry "server_features" (object (server_features.plain_map a.server_features))
              (end)))));
  from_map = λ m. do
    server_id' ← field read_text "server_id" m
    chosen_version' ← field read_integer "chosen_version" m
    connection_id' ← field read_bytes "connection_id" m
    capabilities' ← field (read_object hello_capabilities.from_map) "capabilities" m
    server_features' ← field (read_object server_features.from_map) "server_features" m
    ok (record {
      server_id = server_id';
      chosen_version = chosen_version';
      connection_id = connection_id';
      capabilities = capabilities';
      server_features = server_features';
    });
  round_trip = λ a. rw (read_integers a.server_features.auth_methods) refl;
}

pub record AuthOkPayload : Type 0 where
  pub space_id : List ℕ
  pub bound_shard_id : ℕ
  pub permissions : SpacePermissions
  pub namespace : String
  pub server_time_unix_nanos : ℕ

abbrev pub auth_ok_payload : Payload AuthOkPayload
auth_ok_payload = record {
  plain_map = λ a. entry "space_id" (bytes a.space_id) (
      entry "bound_shard_id" (integer a.bound_shard_id) (
        entry "permissions" (object (space_permissions.plain_map a.permissions)) (
          entry "namespace" (text a.namespace)
            (entry "server_time_unix_nanos" (integer a.server_time_unix_nanos) (end)))));
  from_map = λ m. do
    space_id' ← field read_bytes "space_id" m
    bound_shard_id' ← field read_integer "bound_shard_id" m
    permissions' ← field (read_object space_permissions.from_map) "permissions" m
    namespace' ← field read_text "namespace" m
    server_time_unix_nanos' ← field read_integer "server_time_unix_nanos" m
    ok (record {
      space_id = space_id';
      bound_shard_id = bound_shard_id';
      permissions = permissions';
      namespace = namespace';
      server_time_unix_nanos = server_time_unix_nanos';
    });
  round_trip = λ a. refl;
}
