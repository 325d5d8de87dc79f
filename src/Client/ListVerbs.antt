-- ===== src/Client/ListVerbs.antt =====
-- python/src/brain_db_sdk/client.py: the verbs with a stream of responses.
use Prim.Native.String.{String}
use brain_sdk.Prelude.{List, [], ◌∷◌, ◌++◌}
use brain_sdk.Mux.{Answer, ok, raises, MuxConnection, PayloadCodec, Event}
use brain_sdk.Wire.Payload.{Packing}
use brain_sdk.Client.{Verb, collected, streamed, flatten}
use brain_sdk.Wire.Opcode.{Opcode}
use brain_sdk.Wire.Payload.Entities.{
  EntityListItem, EntityListResponseFrame, entity_list_response_frame,
}
use brain_sdk.Wire.Payload.Graph.{GraphEdge, GraphNode}
use brain_sdk.Wire.Payload.Listings.{
  RelationListFromRequest, RelationListToRequest, SchemaListRequest, relation_list_from_request,
  relation_list_to_request, schema_list_request,
}
use brain_sdk.Wire.Payload.Lookups.{
  EntityListRequest, StatementListRequest, entity_list_request, statement_list_request,
}
use brain_sdk.Wire.Payload.MemoryRequests.{MemoryListItem}
use brain_sdk.Wire.Payload.Pages.{
  GraphFetchRequest, GraphFetchResponseFrame, MemoryListRequest, MemoryListResponseFrame,
  graph_fetch_request, graph_fetch_response_frame, memory_list_request, memory_list_response_frame,
}
use brain_sdk.Wire.Payload.Plans.{
  InferenceStep, PlanRequest, PlanResponseFrame, PlanStep, ReasonRequest, ReasonResponseFrame,
  plan_request, plan_response_frame, reason_request, reason_response_frame,
}
use brain_sdk.Wire.Payload.Recall.{MemoryResult, RecallRequest, recall_request}
use brain_sdk.Wire.Payload.RecallTraces.{RecallResponseFrame, recall_response_frame}
use brain_sdk.Wire.Payload.Relations.{
  RelationListFromResponseFrame, RelationListToResponseFrame, RelationView,
  relation_list_from_response_frame, relation_list_to_response_frame,
}
use brain_sdk.Wire.Payload.Schemas.{
  SchemaListItem, SchemaListResponseFrame, schema_list_response_frame,
}
use brain_sdk.Wire.Payload.StatementChanges.{
  RelationTraverseRequest, StatementHistoryRequest, relation_traverse_request,
  statement_history_request,
}
use brain_sdk.Wire.Payload.Statements.{
  StatementHistoryResponseFrame, StatementListResponseFrame, StatementView,
  statement_history_response_frame, statement_list_response_frame,
}
use brain_sdk.Wire.Payload.Traversal.{
  RelationTraverseResponseFrame, TraversalPathWire, relation_traverse_response_frame,
}

abbrev pub memory_list_frames : Verb MemoryListRequest MemoryListResponseFrame
memory_list_frames = record {
  request_opcode = Opcode.memory_list_req;
  response_opcode = Opcode.memory_list_resp;
  request_type = memory_list_request;
  response_type = memory_list_response_frame;
}

abbrev pub graph_fetch_frames : Verb GraphFetchRequest GraphFetchResponseFrame
graph_fetch_frames = record {
  request_opcode = Opcode.graph_fetch_req;
  response_opcode = Opcode.graph_fetch_resp;
  request_type = graph_fetch_request;
  response_type = graph_fetch_response_frame;
}

abbrev pub statement_history_frames : Verb StatementHistoryRequest StatementHistoryResponseFrame
statement_history_frames = record {
  request_opcode = Opcode.statement_history_req;
  response_opcode = Opcode.statement_history_resp;
  request_type = statement_history_request;
  response_type = statement_history_response_frame;
}

abbrev pub traverse_relations_frames : Verb RelationTraverseRequest RelationTraverseResponseFrame
traverse_relations_frames = record {
  request_opcode = Opcode.relation_traverse_req;
  response_opcode = Opcode.relation_traverse_resp;
  request_type = relation_traverse_request;
  response_type = relation_traverse_response_frame;
}

abbrev pub plan_frames : Verb PlanRequest PlanResponseFrame
plan_frames = record {
  request_opcode = Opcode.plan_req;
  response_opcode = Opcode.plan_resp;
  request_type = plan_request;
  response_type = plan_response_frame;
}

abbrev pub reason_frames : Verb ReasonRequest ReasonResponseFrame
reason_frames = record {
  request_opcode = Opcode.reason_req;
  response_opcode = Opcode.reason_resp;
  request_type = reason_request;
  response_type = reason_response_frame;
}

abbrev pub list_entities_frames : Verb EntityListRequest EntityListResponseFrame
list_entities_frames = record {
  request_opcode = Opcode.entity_list_req;
  response_opcode = Opcode.entity_list_resp;
  request_type = entity_list_request;
  response_type = entity_list_response_frame;
}

abbrev pub list_statements_frames : Verb StatementListRequest StatementListResponseFrame
list_statements_frames = record {
  request_opcode = Opcode.statement_list_req;
  response_opcode = Opcode.statement_list_resp;
  request_type = statement_list_request;
  response_type = statement_list_response_frame;
}

abbrev pub list_relations_from_frames : Verb RelationListFromRequest RelationListFromResponseFrame
list_relations_from_frames = record {
  request_opcode = Opcode.relation_list_from_req;
  response_opcode = Opcode.relation_list_from_resp;
  request_type = relation_list_from_request;
  response_type = relation_list_from_response_frame;
}

abbrev pub list_relations_to_frames : Verb RelationListToRequest RelationListToResponseFrame
list_relations_to_frames = record {
  request_opcode = Opcode.relation_list_to_req;
  response_opcode = Opcode.relation_list_to_resp;
  request_type = relation_list_to_request;
  response_type = relation_list_to_response_frame;
}

abbrev pub list_schemas_frames : Verb SchemaListRequest SchemaListResponseFrame
list_schemas_frames = record {
  request_opcode = Opcode.schema_list_req;
  response_opcode = Opcode.schema_list_resp;
  request_type = schema_list_request;
  response_type = schema_list_response_frame;
}

abbrev pub recall_frames : Verb RecallRequest RecallResponseFrame
recall_frames = record {
  request_opcode = Opcode.recall_req;
  response_opcode = Opcode.recall_resp;
  request_type = recall_request;
  response_type = recall_response_frame;
}

pub record RecallAnswer : Type 0 where
  pub answer_kind : String
  pub memories : List MemoryResult

abbrev pub answer_kind_none : String
answer_kind_none = "None"

module _ (codec : PayloadCodec) (lib : Packing) where
  -- The verbs that put the items of all frames into one list.
  unfoldable pub memory_list :
      MemoryListRequest
      → MuxConnection
      → List Event
      → Answer (List MemoryListItem) × MuxConnection × List Event
  memory_list = collected codec lib memory_list_frames (λ f. f.items)

  unfoldable pub statement_history :
      StatementHistoryRequest
      → MuxConnection
      → List Event
      → Answer (List StatementView) × MuxConnection × List Event
  statement_history = collected codec lib statement_history_frames (λ f. f.items)

  unfoldable pub traverse_relations :
      RelationTraverseRequest
      → MuxConnection
      → List Event
      → Answer (List TraversalPathWire) × MuxConnection × List Event
  traverse_relations = collected codec lib traverse_relations_frames (λ f. f.paths)

  unfoldable pub plan :
      PlanRequest → MuxConnection → List Event → Answer (List PlanStep) × MuxConnection × List Event
  plan = collected codec lib plan_frames (λ f. f.steps)

  unfoldable pub reason :
      ReasonRequest
      → MuxConnection
      → List Event
      → Answer (List InferenceStep) × MuxConnection × List Event
  reason = collected codec lib reason_frames (λ f. f.inferences)

  unfoldable pub list_entities :
      EntityListRequest
      → MuxConnection
      → List Event
      → Answer (List EntityListItem) × MuxConnection × List Event
  list_entities = collected codec lib list_entities_frames (λ f. f.items)

  unfoldable pub list_statements :
      StatementListRequest
      → MuxConnection
      → List Event
      → Answer (List StatementView) × MuxConnection × List Event
  list_statements = collected codec lib list_statements_frames (λ f. f.items)

  unfoldable pub list_relations_from :
      RelationListFromRequest
      → MuxConnection
      → List Event
      → Answer (List RelationView) × MuxConnection × List Event
  list_relations_from = collected codec lib list_relations_from_frames (λ f. f.items)

  unfoldable pub list_relations_to :
      RelationListToRequest
      → MuxConnection
      → List Event
      → Answer (List RelationView) × MuxConnection × List Event
  list_relations_to = collected codec lib list_relations_to_frames (λ f. f.items)

  unfoldable pub list_schemas :
      SchemaListRequest
      → MuxConnection
      → List Event
      → Answer (List SchemaListItem) × MuxConnection × List Event
  list_schemas = collected codec lib list_schemas_frames (λ f. f.items)

  abbrev pub fetched :
      Answer (List GraphFetchResponseFrame) → Answer (List GraphNode × List GraphEdge)
  fetched (ok fs) = ok (flatten (λ f. f.nodes) fs, flatten (λ f. f.edges) fs)
  fetched (raises e) = raises e

  unfoldable pub graph_fetch :
      GraphFetchRequest
      → MuxConnection
      → List Event
      → Answer (List GraphNode × List GraphEdge) × MuxConnection × List Event
  graph_fetch request m events =
      let (answer, m', later) = streamed codec lib graph_fetch_frames request m events in
      (fetched answer, m', later)

  -- The kind is that of the last frame.
  abbrev pub answered : String → List MemoryResult → List RecallResponseFrame → RecallAnswer
  answered kind memories [] = record { answer_kind = kind; memories = memories }
  answered kind memories (f ∷ fs) = answered f.answer_kind (memories ++ f.memories) fs

  abbrev pub recalled : Answer (List RecallResponseFrame) → Answer RecallAnswer
  recalled (ok fs) = ok (answered answer_kind_none [] fs)
  recalled (raises e) = raises e

  unfoldable pub recall :
      RecallRequest → MuxConnection → List Event → Answer RecallAnswer × MuxConnection × List Event
  recall request m events =
      let (answer, m', later) = streamed codec lib recall_frames request m events in
      (recalled answer, m', later)
