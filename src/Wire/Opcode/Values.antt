-- ===== src/Wire/Opcode/Values.antt =====
-- python/src/brain_db_sdk/wire/opcode.py: each value stands for one opcode, and tells its direction.
use brain_sdk.Prelude.{ℕ, ◌≡◌, refl, Option, none, some, List, [], ◌∷◌, ◌==◌, if◌then◌else◌}
use brain_sdk.Wire.Opcode.{
  Opcode, opcode_value, hello, welcome, auth, auth_ok, bye, ping, pong, client_pong, server_ping,
  cancel_stream, cancel_stream_ack, encode_req, encode_resp, recall_req, recall_resp, plan_req,
  plan_resp, reason_req, reason_resp, forget_req, forget_resp, link_req, link_resp, unlink_req,
  unlink_resp, memory_list_req, memory_list_resp, memory_inspect_req, memory_inspect_resp,
  encode_vector_direct_req, encode_vector_direct_resp, subscribe_req, subscribe_event,
  unsubscribe_req, unsubscribe_resp, get_capabilities_req, get_capabilities_resp, space_create_req,
  space_create_resp, space_list_req, space_list_resp, space_delete_req, space_delete_resp,
  session_create_req, session_create_resp, session_list_req, session_list_resp, session_delete_req,
  session_delete_resp, txn_begin, txn_begin_resp, txn_commit, txn_commit_resp, txn_abort,
  txn_abort_resp, error, schema_upload_req, schema_upload_resp, schema_get_req, schema_get_resp,
  schema_list_req, schema_list_resp, schema_validate_req, schema_validate_resp, schema_drop_req,
  schema_drop_resp, schema_replace_req, schema_replace_resp, extractor_list_req,
  extractor_list_resp, entity_create_req, entity_create_resp, entity_get_req, entity_get_resp,
  entity_resolve_req, entity_resolve_resp, entity_list_req, entity_list_resp, entity_update_req,
  entity_update_resp, entity_rename_req, entity_rename_resp, entity_merge_req, entity_merge_resp,
  entity_unmerge_req, entity_unmerge_resp, entity_tombstone_req, entity_tombstone_resp,
  statement_create_req, statement_create_resp, statement_get_req, statement_get_resp,
  statement_list_req, statement_list_resp, statement_supersede_req, statement_supersede_resp,
  statement_tombstone_req, statement_tombstone_resp, statement_retract_req, statement_retract_resp,
  statement_history_req, statement_history_resp, relation_create_req, relation_create_resp,
  relation_list_from_req, relation_list_from_resp, relation_list_to_req, relation_list_to_resp,
  relation_get_req, relation_get_resp, relation_supersede_req, relation_supersede_resp,
  relation_tombstone_req, relation_tombstone_resp, relation_traverse_req, relation_traverse_resp,
  query_explain_req, query_explain_resp, query_trace_req, query_trace_resp, graph_fetch_req,
  graph_fetch_resp, materialize_procedural_req, materialize_procedural_resp,
}

-- The members in the order of the class.
abbrev pub members : List Opcode
members =
    hello ∷ welcome ∷ auth ∷ auth_ok ∷ bye ∷ ping ∷ pong ∷ client_pong ∷ server_ping ∷ cancel_stream
    ∷ cancel_stream_ack ∷ encode_req ∷ encode_resp ∷ recall_req ∷ recall_resp ∷ plan_req ∷ plan_resp
    ∷ reason_req ∷ reason_resp ∷ forget_req ∷ forget_resp ∷ link_req ∷ link_resp ∷ unlink_req
    ∷ unlink_resp ∷ memory_list_req ∷ memory_list_resp ∷ memory_inspect_req ∷ memory_inspect_resp
    ∷ encode_vector_direct_req ∷ encode_vector_direct_resp ∷ subscribe_req ∷ subscribe_event
    ∷ unsubscribe_req ∷ unsubscribe_resp ∷ get_capabilities_req ∷ get_capabilities_resp
    ∷ space_create_req ∷ space_create_resp ∷ space_list_req ∷ space_list_resp ∷ space_delete_req
    ∷ space_delete_resp ∷ session_create_req ∷ session_create_resp ∷ session_list_req
    ∷ session_list_resp ∷ session_delete_req ∷ session_delete_resp ∷ txn_begin ∷ txn_begin_resp
    ∷ txn_commit ∷ txn_commit_resp ∷ txn_abort ∷ txn_abort_resp ∷ error ∷ schema_upload_req
    ∷ schema_upload_resp ∷ schema_get_req ∷ schema_get_resp ∷ schema_list_req ∷ schema_list_resp
    ∷ schema_validate_req ∷ schema_validate_resp ∷ schema_drop_req ∷ schema_drop_resp
    ∷ schema_replace_req ∷ schema_replace_resp ∷ extractor_list_req ∷ extractor_list_resp
    ∷ entity_create_req ∷ entity_create_resp ∷ entity_get_req ∷ entity_get_resp ∷ entity_resolve_req
    ∷ entity_resolve_resp ∷ entity_list_req ∷ entity_list_resp ∷ entity_update_req
    ∷ entity_update_resp ∷ entity_rename_req ∷ entity_rename_resp ∷ entity_merge_req
    ∷ entity_merge_resp ∷ entity_unmerge_req ∷ entity_unmerge_resp ∷ entity_tombstone_req
    ∷ entity_tombstone_resp ∷ statement_create_req ∷ statement_create_resp ∷ statement_get_req
    ∷ statement_get_resp ∷ statement_list_req ∷ statement_list_resp ∷ statement_supersede_req
    ∷ statement_supersede_resp ∷ statement_tombstone_req ∷ statement_tombstone_resp
    ∷ statement_retract_req ∷ statement_retract_resp ∷ statement_history_req
    ∷ statement_history_resp ∷ relation_create_req ∷ relation_create_resp ∷ relation_list_from_req
    ∷ relation_list_from_resp ∷ relation_list_to_req ∷ relation_list_to_resp ∷ relation_get_req
    ∷ relation_get_resp ∷ relation_supersede_req ∷ relation_supersede_resp ∷ relation_tombstone_req
    ∷ relation_tombstone_resp ∷ relation_traverse_req ∷ relation_traverse_resp ∷ query_explain_req
    ∷ query_explain_resp ∷ query_trace_req ∷ query_trace_resp ∷ graph_fetch_req ∷ graph_fetch_resp
    ∷ materialize_procedural_req ∷ materialize_procedural_resp ∷ []

abbrev pub member_of : ℕ → List Opcode → Option Opcode
member_of n [] = none
member_of n (o ∷ os) = if opcode_value o == n then some o else member_of n os

-- The first opcode of a value, to state that no two opcodes share one.
unfoldable pub opcode_of : ℕ → Option Opcode
opcode_of n = member_of n members

-- The value of each opcode is looked up as that opcode: no two opcodes share a value.
pub opcode_of-opcode_value : (o : Opcode) → opcode_of (opcode_value o) ≡ some o
unfolding opcode_of
opcode_of-opcode_value hello = refl
opcode_of-opcode_value welcome = refl
opcode_of-opcode_value auth = refl
opcode_of-opcode_value auth_ok = refl
opcode_of-opcode_value bye = refl
opcode_of-opcode_value ping = refl
opcode_of-opcode_value pong = refl
opcode_of-opcode_value client_pong = refl
opcode_of-opcode_value server_ping = refl
opcode_of-opcode_value cancel_stream = refl
opcode_of-opcode_value cancel_stream_ack = refl
opcode_of-opcode_value encode_req = refl
opcode_of-opcode_value encode_resp = refl
opcode_of-opcode_value recall_req = refl
opcode_of-opcode_value recall_resp = refl
opcode_of-opcode_value plan_req = refl
opcode_of-opcode_value plan_resp = refl
opcode_of-opcode_value reason_req = refl
opcode_of-opcode_value reason_resp = refl
opcode_of-opcode_value forget_req = refl
opcode_of-opcode_value forget_resp = refl
opcode_of-opcode_value link_req = refl
opcode_of-opcode_value link_resp = refl
opcode_of-opcode_value unlink_req = refl
opcode_of-opcode_value unlink_resp = refl
opcode_of-opcode_value memory_list_req = refl
opcode_of-opcode_value memory_list_resp = refl
opcode_of-opcode_value memory_inspect_req = refl
opcode_of-opcode_value memory_inspect_resp = refl
opcode_of-opcode_value encode_vector_direct_req = refl
opcode_of-opcode_value encode_vector_direct_resp = refl
opcode_of-opcode_value subscribe_req = refl
opcode_of-opcode_value subscribe_event = refl
opcode_of-opcode_value unsubscribe_req = refl
opcode_of-opcode_value unsubscribe_resp = refl
opcode_of-opcode_value get_capabilities_req = refl
opcode_of-opcode_value get_capabilities_resp = refl
opcode_of-opcode_value space_create_req = refl
opcode_of-opcode_value space_create_resp = refl
opcode_of-opcode_value space_list_req = refl
opcode_of-opcode_value space_list_resp = refl
opcode_of-opcode_value space_delete_req = refl
opcode_of-opcode_value space_delete_resp = refl
opcode_of-opcode_value session_create_req = refl
opcode_of-opcode_value session_create_resp = refl
opcode_of-opcode_value session_list_req = refl
opcode_of-opcode_value session_list_resp = refl
opcode_of-opcode_value session_delete_req = refl
opcode_of-opcode_value session_delete_resp = refl
opcode_of-opcode_value txn_begin = refl
opcode_of-opcode_value txn_begin_resp = refl
opcode_of-opcode_value txn_commit = refl
opcode_of-opcode_value txn_commit_resp = refl
opcode_of-opcode_value txn_abort = refl
opcode_of-opcode_value txn_abort_resp = refl
opcode_of-opcode_value error = refl
opcode_of-opcode_value schema_upload_req = refl
opcode_of-opcode_value schema_upload_resp = refl
opcode_of-opcode_value schema_get_req = refl
opcode_of-opcode_value schema_get_resp = refl
opcode_of-opcode_value schema_list_req = refl
opcode_of-opcode_value schema_list_resp = refl
opcode_of-opcode_value schema_validate_req = refl
opcode_of-opcode_value schema_validate_resp = refl
opcode_of-opcode_value schema_drop_req = refl
opcode_of-opcode_value schema_drop_resp = refl
opcode_of-opcode_value schema_replace_req = refl
opcode_of-opcode_value schema_replace_resp = refl
opcode_of-opcode_value extractor_list_req = refl
opcode_of-opcode_value extractor_list_resp = refl
opcode_of-opcode_value entity_create_req = refl
opcode_of-opcode_value entity_create_resp = refl
opcode_of-opcode_value entity_get_req = refl
opcode_of-opcode_value entity_get_resp = refl
opcode_of-opcode_value entity_resolve_req = refl
opcode_of-opcode_value entity_resolve_resp = refl
opcode_of-opcode_value entity_list_req = refl
opcode_of-opcode_value entity_list_resp = refl
opcode_of-opcode_value entity_update_req = refl
opcode_of-opcode_value entity_update_resp = refl
opcode_of-opcode_value entity_rename_req = refl
opcode_of-opcode_value entity_rename_resp = refl
opcode_of-opcode_value entity_merge_req = refl
opcode_of-opcode_value entity_merge_resp = refl
opcode_of-opcode_value entity_unmerge_req = refl
opcode_of-opcode_value entity_unmerge_resp = refl
opcode_of-opcode_value entity_tombstone_req = refl
opcode_of-opcode_value entity_tombstone_resp = refl
opcode_of-opcode_value statement_create_req = refl
opcode_of-opcode_value statement_create_resp = refl
opcode_of-opcode_value statement_get_req = refl
opcode_of-opcode_value statement_get_resp = refl
opcode_of-opcode_value statement_list_req = refl
opcode_of-opcode_value statement_list_resp = refl
opcode_of-opcode_value statement_supersede_req = refl
opcode_of-opcode_value statement_supersede_resp = refl
opcode_of-opcode_value statement_tombstone_req = refl
opcode_of-opcode_value statement_tombstone_resp = refl
opcode_of-opcode_value statement_retract_req = refl
opcode_of-opcode_value statement_retract_resp = refl
opcode_of-opcode_value statement_history_req = refl
opcode_of-opcode_value statement_history_resp = refl
opcode_of-opcode_value relation_create_req = refl
opcode_of-opcode_value relation_create_resp = refl
opcode_of-opcode_value relation_list_from_req = refl
opcode_of-opcode_value relation_list_from_resp = refl
opcode_of-opcode_value relation_list_to_req = refl
opcode_of-opcode_value relation_list_to_resp = refl
opcode_of-opcode_value relation_get_req = refl
opcode_of-opcode_value relation_get_resp = refl
opcode_of-opcode_value relation_supersede_req = refl
opcode_of-opcode_value relation_supersede_resp = refl
opcode_of-opcode_value relation_tombstone_req = refl
opcode_of-opcode_value relation_tombstone_resp = refl
opcode_of-opcode_value relation_traverse_req = refl
opcode_of-opcode_value relation_traverse_resp = refl
opcode_of-opcode_value query_explain_req = refl
opcode_of-opcode_value query_explain_resp = refl
opcode_of-opcode_value query_trace_req = refl
opcode_of-opcode_value query_trace_resp = refl
opcode_of-opcode_value graph_fetch_req = refl
opcode_of-opcode_value graph_fetch_resp = refl
opcode_of-opcode_value materialize_procedural_req = refl
opcode_of-opcode_value materialize_procedural_resp = refl
