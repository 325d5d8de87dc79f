-- ===== src/Wire/Opcode.antt =====
-- python/src/brain_db_sdk/wire/opcode.py: the opcodes and the values that the protocol assigns them.
pub mod Values
mod Runs
use brain_sdk.Prelude.{ℕ}

pub data Opcode : Type 0 where
  hello : Opcode
  welcome : Opcode
  auth : Opcode
  auth_ok : Opcode
  bye : Opcode
  ping : Opcode
  pong : Opcode
  client_pong : Opcode
  server_ping : Opcode
  cancel_stream : Opcode
  cancel_stream_ack : Opcode
  encode_req : Opcode
  encode_resp : Opcode
  recall_req : Opcode
  recall_resp : Opcode
  plan_req : Opcode
  plan_resp : Opcode
  reason_req : Opcode
  reason_resp : Opcode
  forget_req : Opcode
  forget_resp : Opcode
  link_req : Opcode
  link_resp : Opcode
  unlink_req : Opcode
  unlink_resp : Opcode
  memory_list_req : Opcode
  memory_list_resp : Opcode
  memory_inspect_req : Opcode
  memory_inspect_resp : Opcode
  encode_vector_direct_req : Opcode
  encode_vector_direct_resp : Opcode
  subscribe_req : Opcode
  subscribe_event : Opcode
  unsubscribe_req : Opcode
  unsubscribe_resp : Opcode
  get_capabilities_req : Opcode
  get_capabilities_resp : Opcode
  space_create_req : Opcode
  space_create_resp : Opcode
  space_list_req : Opcode
  space_list_resp : Opcode
  space_delete_req : Opcode
  space_delete_resp : Opcode
  session_create_req : Opcode
  session_create_resp : Opcode
  session_list_req : Opcode
  session_list_resp : Opcode
  session_delete_req : Opcode
  session_delete_resp : Opcode
  txn_begin : Opcode
  txn_begin_resp : Opcode
  txn_commit : Opcode
  txn_commit_resp : Opcode
  txn_abort : Opcode
  txn_abort_resp : Opcode
  error : Opcode
  schema_upload_req : Opcode
  schema_upload_resp : Opcode
  schema_get_req : Opcode
  schema_get_resp : Opcode
  schema_list_req : Opcode
  schema_list_resp : Opcode
  schema_validate_req : Opcode
  schema_validate_resp : Opcode
  schema_drop_req : Opcode
  schema_drop_resp : Opcode
  schema_replace_req : Opcode
  schema_replace_resp : Opcode
  extractor_list_req : Opcode
  extractor_list_resp : Opcode
  entity_create_req : Opcode
  entity_create_resp : Opcode
  entity_get_req : Opcode
  entity_get_resp : Opcode
  entity_resolve_req : Opcode
  entity_resolve_resp : Opcode
  entity_list_req : Opcode
  entity_list_resp : Opcode
  entity_update_req : Opcode
  entity_update_resp : Opcode
  entity_rename_req : Opcode
  entity_rename_resp : Opcode
  entity_merge_req : Opcode
  entity_merge_resp : Opcode
  entity_unmerge_req : Opcode
  entity_unmerge_resp : Opcode
  entity_tombstone_req : Opcode
  entity_tombstone_resp : Opcode
  statement_create_req : Opcode
  statement_create_resp : Opcode
  statement_get_req : Opcode
  statement_get_resp : Opcode
  statement_list_req : Opcode
  statement_list_resp : Opcode
  statement_supersede_req : Opcode
  statement_supersede_resp : Opcode
  statement_tombstone_req : Opcode
  statement_tombstone_resp : Opcode
  statement_retract_req : Opcode
  statement_retract_resp : Opcode
  statement_history_req : Opcode
  statement_history_resp : Opcode
  relation_create_req : Opcode
  relation_create_resp : Opcode
  relation_list_from_req : Opcode
  relation_list_from_resp : Opcode
  relation_list_to_req : Opcode
  relation_list_to_resp : Opcode
  relation_get_req : Opcode
  relation_get_resp : Opcode
  relation_supersede_req : Opcode
  relation_supersede_resp : Opcode
  relation_tombstone_req : Opcode
  relation_tombstone_resp : Opcode
  relation_traverse_req : Opcode
  relation_traverse_resp : Opcode
  query_explain_req : Opcode
  query_explain_resp : Opcode
  query_trace_req : Opcode
  query_trace_resp : Opcode
  graph_fetch_req : Opcode
  graph_fetch_resp : Opcode
  materialize_procedural_req : Opcode
  materialize_procedural_resp : Opcode

abbrev pub opcode_value : Opcode → ℕ
opcode_value hello = 0x0001
opcode_value welcome = 0x0081
opcode_value auth = 0x0002
opcode_value auth_ok = 0x0082
opcode_value bye = 0x001f
opcode_value ping = 0x0010
opcode_value pong = 0x0090
opcode_value client_pong = 0x0011
opcode_value server_ping = 0x0091
opcode_value cancel_stream = 0x0050
opcode_value cancel_stream_ack = 0x00d0
opcode_value encode_req = 0x0020
opcode_value encode_resp = 0x00a0
opcode_value recall_req = 0x0021
opcode_value recall_resp = 0x00a1
opcode_value plan_req = 0x0022
opcode_value plan_resp = 0x00a2
opcode_value reason_req = 0x0023
opcode_value reason_resp = 0x00a3
opcode_value forget_req = 0x0024
opcode_value forget_resp = 0x00a4
opcode_value link_req = 0x0025
opcode_value link_resp = 0x00a5
opcode_value unlink_req = 0x0026
opcode_value unlink_resp = 0x00a6
opcode_value memory_list_req = 0x0027
opcode_value memory_list_resp = 0x00a7
opcode_value memory_inspect_req = 0x0028
opcode_value memory_inspect_resp = 0x00a8
opcode_value encode_vector_direct_req = 0x002a
opcode_value encode_vector_direct_resp = 0x00aa
opcode_value subscribe_req = 0x0030
opcode_value subscribe_event = 0x00b0
opcode_value unsubscribe_req = 0x0031
opcode_value unsubscribe_resp = 0x00b1
opcode_value get_capabilities_req = 0x0032
opcode_value get_capabilities_resp = 0x00b2
opcode_value space_create_req = 0x0070
opcode_value space_create_resp = 0x00f0
opcode_value space_list_req = 0x0071
opcode_value space_list_resp = 0x00f1
opcode_value space_delete_req = 0x0072
opcode_value space_delete_resp = 0x00f2
opcode_value session_create_req = 0x0073
opcode_value session_create_resp = 0x00f3
opcode_value session_list_req = 0x0074
opcode_value session_list_resp = 0x00f4
opcode_value session_delete_req = 0x0075
opcode_value session_delete_resp = 0x00f5
opcode_value txn_begin = 0x0040
opcode_value txn_begin_resp = 0x00c0
opcode_value txn_commit = 0x0041
opcode_value txn_commit_resp = 0x00c1
opcode_value txn_abort = 0x0042
opcode_value txn_abort_resp = 0x00c2
opcode_value error = 0x00ff
opcode_value schema_upload_req = 0x0120
opcode_value schema_upload_resp = 0x01a0
opcode_value schema_get_req = 0x0121
opcode_value schema_get_resp = 0x01a1
opcode_value schema_list_req = 0x0122
opcode_value schema_list_resp = 0x01a2
opcode_value schema_validate_req = 0x0123
opcode_value schema_validate_resp = 0x01a3
opcode_value schema_drop_req = 0x0125
opcode_value schema_drop_resp = 0x01a5
opcode_value schema_replace_req = 0x0127
opcode_value schema_replace_resp = 0x01a7
opcode_value extractor_list_req = 0x0124
opcode_value extractor_list_resp = 0x01a4
opcode_value entity_create_req = 0x0130
opcode_value entity_create_resp = 0x01b0
opcode_value entity_get_req = 0x0131
opcode_value entity_get_resp = 0x01b1
opcode_value entity_resolve_req = 0x0136
opcode_value entity_resolve_resp = 0x01b6
opcode_value entity_list_req = 0x0137
opcode_value entity_list_resp = 0x01b7
opcode_value entity_update_req = 0x0132
opcode_value entity_update_resp = 0x01b2
opcode_value entity_rename_req = 0x0133
opcode_value entity_rename_resp = 0x01b3
opcode_value entity_merge_req = 0x0134
opcode_value entity_merge_resp = 0x01b4
opcode_value entity_unmerge_req = 0x0135
opcode_value entity_unmerge_resp = 0x01b5
opcode_value entity_tombstone_req = 0x0138
opcode_value entity_tombstone_resp = 0x01b8
opcode_value statement_create_req = 0x0140
opcode_value statement_create_resp = 0x01c0
opcode_value statement_get_req = 0x0141
opcode_value statement_get_resp = 0x01c1
opcode_value statement_list_req = 0x0146
opcode_value statement_list_resp = 0x01c6
opcode_value statement_supersede_req = 0x0142
opcode_value statement_supersede_resp = 0x01c2
opcode_value statement_tombstone_req = 0x0143
opcode_value statement_tombstone_resp = 0x01c3
opcode_value statement_retract_req = 0x0144
opcode_value statement_retract_resp = 0x01c4
opcode_value statement_history_req = 0x0145
opcode_value statement_history_resp = 0x01c5
opcode_value relation_create_req = 0x0150
opcode_value relation_create_resp = 0x01d0
opcode_value relation_list_from_req = 0x0154
opcode_value relation_list_from_resp = 0x01d4
opcode_value relation_list_to_req = 0x0155
opcode_value relation_list_to_resp = 0x01d5
opcode_value relation_get_req = 0x0151
opcode_value relation_get_resp = 0x01d1
opcode_value relation_supersede_req = 0x0152
opcode_value relation_supersede_resp = 0x01d2
opcode_value relation_tombstone_req = 0x0153
opcode_value relation_tombstone_resp = 0x01d3
opcode_value relation_traverse_req = 0x0156
opcode_value relation_traverse_resp = 0x01d6
opcode_value query_explain_req = 0x0161
opcode_value query_explain_resp = 0x01e1
opcode_value query_trace_req = 0x0162
opcode_value query_trace_resp = 0x01e2
opcode_value graph_fetch_req = 0x0163
opcode_value graph_fetch_resp = 0x01e3
opcode_value materialize_procedural_req = 0x0164
opcode_value materialize_procedural_resp = 0x01e4
