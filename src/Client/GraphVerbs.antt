-- ===== src/Client/GraphVerbs.antt =====
-- python/src/brain_db_sdk/client.py: the verbs of one response on entities, statements and relations.
use brain_sdk.Client.{Verb}
use brain_sdk.Wire.Opcode.{Opcode}
use brain_sdk.Wire.Payload.EntityChanges.{
  EntityMergeRequest, EntityRenameRequest, EntityTombstoneRequest, EntityUnmergeRequest,
  EntityUpdateRequest, entity_merge_request, entity_rename_request, entity_tombstone_request,
  entity_unmerge_request, entity_update_request,
}
use brain_sdk.Wire.Payload.Graph.{
  EntityCreateResponse, RelationCreateResponse, StatementCreateResponse, entity_create_response,
  relation_create_response, statement_create_response,
}
use brain_sdk.Wire.Payload.Lifecycle.{
  EntityMergeResponse, EntityRenameResponse, EntityTombstoneResponse, EntityUnmergeResponse,
  EntityUpdateResponse, StatementRetractResponse, StatementSupersedeResponse,
  StatementTombstoneResponse, entity_merge_response, entity_rename_response,
  entity_tombstone_response, entity_unmerge_response, entity_update_response,
  statement_retract_response, statement_supersede_response, statement_tombstone_response,
}
use brain_sdk.Wire.Payload.Lookups.{
  EntityGetRequest, EntityResolveRequest, EntityResolveResponse, StatementGetRequest,
  entity_get_request, entity_resolve_request, entity_resolve_response, statement_get_request,
}
use brain_sdk.Wire.Payload.Pages.{EntityGetResponse, entity_get_response}
use brain_sdk.Wire.Payload.Relations.{
  RelationCreateRequest, RelationGetResponse, RelationSupersedeRequest, relation_create_request,
  relation_get_response, relation_supersede_request,
}
use brain_sdk.Wire.Payload.SchemaRequests.{EntityCreateRequest, entity_create_request}
use brain_sdk.Wire.Payload.Spaces.{
  RelationSupersedeResponse, RelationTombstoneResponse, relation_supersede_response,
  relation_tombstone_response,
}
use brain_sdk.Wire.Payload.StatementChanges.{
  RelationGetRequest, RelationTombstoneRequest, StatementRetractRequest, StatementTombstoneRequest,
  relation_get_request, relation_tombstone_request, statement_retract_request,
  statement_tombstone_request,
}
use brain_sdk.Wire.Payload.Statements.{
  StatementCreateRequest, StatementGetResponse, StatementSupersedeRequest, statement_create_request,
  statement_get_response, statement_supersede_request,
}

abbrev pub create_entity : Verb EntityCreateRequest EntityCreateResponse
create_entity = record {
  request_opcode = Opcode.entity_create_req;
  response_opcode = Opcode.entity_create_resp;
  request_type = entity_create_request;
  response_type = entity_create_response;
}

abbrev pub create_statement : Verb StatementCreateRequest StatementCreateResponse
create_statement = record {
  request_opcode = Opcode.statement_create_req;
  response_opcode = Opcode.statement_create_resp;
  request_type = statement_create_request;
  response_type = statement_create_response;
}

abbrev pub update_entity : Verb EntityUpdateRequest EntityUpdateResponse
update_entity = record {
  request_opcode = Opcode.entity_update_req;
  response_opcode = Opcode.entity_update_resp;
  request_type = entity_update_request;
  response_type = entity_update_response;
}

abbrev pub rename_entity : Verb EntityRenameRequest EntityRenameResponse
rename_entity = record {
  request_opcode = Opcode.entity_rename_req;
  response_opcode = Opcode.entity_rename_resp;
  request_type = entity_rename_request;
  response_type = entity_rename_response;
}

abbrev pub merge_entities : Verb EntityMergeRequest EntityMergeResponse
merge_entities = record {
  request_opcode = Opcode.entity_merge_req;
  response_opcode = Opcode.entity_merge_resp;
  request_type = entity_merge_request;
  response_type = entity_merge_response;
}

abbrev pub unmerge_entity : Verb EntityUnmergeRequest EntityUnmergeResponse
unmerge_entity = record {
  request_opcode = Opcode.entity_unmerge_req;
  response_opcode = Opcode.entity_unmerge_resp;
  request_type = entity_unmerge_request;
  response_type = entity_unmerge_response;
}

abbrev pub tombstone_entity : Verb EntityTombstoneRequest EntityTombstoneResponse
tombstone_entity = record {
  request_opcode = Opcode.entity_tombstone_req;
  response_opcode = Opcode.entity_tombstone_resp;
  request_type = entity_tombstone_request;
  response_type = entity_tombstone_response;
}

abbrev pub supersede_statement : Verb StatementSupersedeRequest StatementSupersedeResponse
supersede_statement = record {
  request_opcode = Opcode.statement_supersede_req;
  response_opcode = Opcode.statement_supersede_resp;
  request_type = statement_supersede_request;
  response_type = statement_supersede_response;
}

abbrev pub tombstone_statement : Verb StatementTombstoneRequest StatementTombstoneResponse
tombstone_statement = record {
  request_opcode = Opcode.statement_tombstone_req;
  response_opcode = Opcode.statement_tombstone_resp;
  request_type = statement_tombstone_request;
  response_type = statement_tombstone_response;
}

abbrev pub retract_statement : Verb StatementRetractRequest StatementRetractResponse
retract_statement = record {
  request_opcode = Opcode.statement_retract_req;
  response_opcode = Opcode.statement_retract_resp;
  request_type = statement_retract_request;
  response_type = statement_retract_response;
}

abbrev pub create_relation : Verb RelationCreateRequest RelationCreateResponse
create_relation = record {
  request_opcode = Opcode.relation_create_req;
  response_opcode = Opcode.relation_create_resp;
  request_type = relation_create_request;
  response_type = relation_create_response;
}

abbrev pub get_relation : Verb RelationGetRequest RelationGetResponse
get_relation = record {
  request_opcode = Opcode.relation_get_req;
  response_opcode = Opcode.relation_get_resp;
  request_type = relation_get_request;
  response_type = relation_get_response;
}

abbrev pub supersede_relation : Verb RelationSupersedeRequest RelationSupersedeResponse
supersede_relation = record {
  request_opcode = Opcode.relation_supersede_req;
  response_opcode = Opcode.relation_supersede_resp;
  request_type = relation_supersede_request;
  response_type = relation_supersede_response;
}

abbrev pub tombstone_relation : Verb RelationTombstoneRequest RelationTombstoneResponse
tombstone_relation = record {
  request_opcode = Opcode.relation_tombstone_req;
  response_opcode = Opcode.relation_tombstone_resp;
  request_type = relation_tombstone_request;
  response_type = relation_tombstone_response;
}

abbrev pub get_entity : Verb EntityGetRequest EntityGetResponse
get_entity = record {
  request_opcode = Opcode.entity_get_req;
  response_opcode = Opcode.entity_get_resp;
  request_type = entity_get_request;
  response_type = entity_get_response;
}

abbrev pub resolve_entity : Verb EntityResolveRequest EntityResolveResponse
resolve_entity = record {
  request_opcode = Opcode.entity_resolve_req;
  response_opcode = Opcode.entity_resolve_resp;
  request_type = entity_resolve_request;
  response_type = entity_resolve_response;
}

abbrev pub get_statement : Verb StatementGetRequest StatementGetResponse
get_statement = record {
  request_opcode = Opcode.statement_get_req;
  response_opcode = Opcode.statement_get_resp;
  request_type = statement_get_request;
  response_type = statement_get_response;
}
