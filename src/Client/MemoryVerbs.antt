-- ===== src/Client/MemoryVerbs.antt =====
-- python/src/brain_db_sdk/client.py: the verbs of one response on memories, edges, streams and transactions.
use brain_sdk.Client.{Verb}
use brain_sdk.Wire.Opcode.{Opcode}
use brain_sdk.Wire.Payload.Feeds.{TxnBeginRequest, txn_begin_request}
use brain_sdk.Wire.Payload.Graph.{ForgetResponse, forget_response}
use brain_sdk.Wire.Payload.Identity.{EncodeRequest, encode_request}
use brain_sdk.Wire.Payload.Links.{
  LinkRequest, LinkResponse, UnlinkRequest, link_request, link_response, unlink_request,
}
use brain_sdk.Wire.Payload.MemoryRequests.{ForgetRequest, forget_request}
use brain_sdk.Wire.Payload.Queries.{CancelStreamRequest, cancel_stream_request}
use brain_sdk.Wire.Payload.Schema.{CancelStreamAck, cancel_stream_ack}
use brain_sdk.Wire.Payload.StageArtifacts.{MemoryInspectResponse, memory_inspect_response}
use brain_sdk.Wire.Payload.Transactions.{
  TxnAbortRequest, TxnAbortResponse, TxnBeginResponse, TxnCommitRequest, TxnCommitResponse,
  UnlinkResponse, txn_abort_request, txn_abort_response, txn_begin_response, txn_commit_request,
  txn_commit_response, unlink_response,
}
use brain_sdk.Wire.Payload.WriteAnswers.{EncodeResponse, encode_response}
use brain_sdk.Wire.Payload.WriteTrace.{MemoryInspectRequest, memory_inspect_request}

abbrev pub memory_inspect : Verb MemoryInspectRequest MemoryInspectResponse
memory_inspect = record {
  request_opcode = Opcode.memory_inspect_req;
  response_opcode = Opcode.memory_inspect_resp;
  request_type = memory_inspect_request;
  response_type = memory_inspect_response;
}

abbrev pub link : Verb LinkRequest LinkResponse
link = record {
  request_opcode = Opcode.link_req;
  response_opcode = Opcode.link_resp;
  request_type = link_request;
  response_type = link_response;
}

abbrev pub unlink : Verb UnlinkRequest UnlinkResponse
unlink = record {
  request_opcode = Opcode.unlink_req;
  response_opcode = Opcode.unlink_resp;
  request_type = unlink_request;
  response_type = unlink_response;
}

abbrev pub cancel_stream : Verb CancelStreamRequest CancelStreamAck
cancel_stream = record {
  request_opcode = Opcode.cancel_stream;
  response_opcode = Opcode.cancel_stream_ack;
  request_type = cancel_stream_request;
  response_type = cancel_stream_ack;
}

abbrev pub txn_begin : Verb TxnBeginRequest TxnBeginResponse
txn_begin = record {
  request_opcode = Opcode.txn_begin;
  response_opcode = Opcode.txn_begin_resp;
  request_type = txn_begin_request;
  response_type = txn_begin_response;
}

abbrev pub txn_commit : Verb TxnCommitRequest TxnCommitResponse
txn_commit = record {
  request_opcode = Opcode.txn_commit;
  response_opcode = Opcode.txn_commit_resp;
  request_type = txn_commit_request;
  response_type = txn_commit_response;
}

abbrev pub txn_abort : Verb TxnAbortRequest TxnAbortResponse
txn_abort = record {
  request_opcode = Opcode.txn_abort;
  response_opcode = Opcode.txn_abort_resp;
  request_type = txn_abort_request;
  response_type = txn_abort_response;
}

-- The deadline of an ENCODE, longer for one that waits for all derived data, is the end of the events.
abbrev pub encode : Verb EncodeRequest EncodeResponse
encode = record {
  request_opcode = Opcode.encode_req;
  response_opcode = Opcode.encode_resp;
  request_type = encode_request;
  response_type = encode_response;
}

abbrev pub forget : Verb ForgetRequest ForgetResponse
forget = record {
  request_opcode = Opcode.forget_req;
  response_opcode = Opcode.forget_resp;
  request_type = forget_request;
  response_type = forget_response;
}
