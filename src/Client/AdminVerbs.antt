-- ===== src/Client/AdminVerbs.antt =====
-- python/src/brain_db_sdk/client.py: the verbs of one response on schemas, spaces, sessions and queries.
use brain_sdk.Client.{Verb}
use brain_sdk.Wire.Opcode.{Opcode}
use brain_sdk.Wire.Payload.Capabilities.{
  ExtractorListResponseFrame, GetCapabilitiesResponse, extractor_list_response_frame,
  get_capabilities_response,
}
use brain_sdk.Wire.Payload.Listings.{
  SchemaGetRequest, SchemaValidateRequest, schema_get_request, schema_validate_request,
}
use brain_sdk.Wire.Payload.Lookups.{
  ExtractorListRequest, GetCapabilitiesRequest, extractor_list_request, get_capabilities_request,
}
use brain_sdk.Wire.Payload.Queries.{
  QueryExplainRequest, QueryTraceRequest, query_explain_request, query_trace_request,
}
use brain_sdk.Wire.Payload.Schema.{
  MaterializeProceduralResponse, SchemaDropResponse, SchemaReplaceResponse, SchemaUploadResponse,
  materialize_procedural_response, schema_drop_response, schema_replace_response,
  schema_upload_response,
}
use brain_sdk.Wire.Payload.SchemaRequests.{
  MaterializeProceduralRequest, SchemaDropRequest, SchemaReplaceRequest, SchemaUploadRequest,
  materialize_procedural_request, schema_drop_request, schema_replace_request,
  schema_upload_request,
}
use brain_sdk.Wire.Payload.Schemas.{
  SchemaGetResponse, SchemaValidateResponse, schema_get_response, schema_validate_response,
}
use brain_sdk.Wire.Payload.SpaceRequests.{
  SessionCreateRequest, SessionDeleteRequest, SessionListRequest, SessionListResponse,
  SpaceCreateRequest, SpaceDeleteRequest, SpaceListRequest, session_create_request,
  session_delete_request, session_list_request, session_list_response, space_create_request,
  space_delete_request, space_list_request,
}
use brain_sdk.Wire.Payload.Spaces.{
  SessionCreateResponse, SessionDeleteResponse, SpaceCreateResponse, SpaceDeleteResponse,
  SpaceListResponse, session_create_response, session_delete_response, space_create_response,
  space_delete_response, space_list_response,
}
use brain_sdk.Wire.Payload.StatementChanges.{
  QueryExplainResponse, QueryTraceResponse, query_explain_response, query_trace_response,
}

abbrev pub upload_schema : Verb SchemaUploadRequest SchemaUploadResponse
upload_schema = record {
  request_opcode = Opcode.schema_upload_req;
  response_opcode = Opcode.schema_upload_resp;
  request_type = schema_upload_request;
  response_type = schema_upload_response;
}

abbrev pub query_explain : Verb QueryExplainRequest QueryExplainResponse
query_explain = record {
  request_opcode = Opcode.query_explain_req;
  response_opcode = Opcode.query_explain_resp;
  request_type = query_explain_request;
  response_type = query_explain_response;
}

abbrev pub query_trace : Verb QueryTraceRequest QueryTraceResponse
query_trace = record {
  request_opcode = Opcode.query_trace_req;
  response_opcode = Opcode.query_trace_resp;
  request_type = query_trace_request;
  response_type = query_trace_response;
}

abbrev pub materialize_procedural : Verb MaterializeProceduralRequest MaterializeProceduralResponse
materialize_procedural = record {
  request_opcode = Opcode.materialize_procedural_req;
  response_opcode = Opcode.materialize_procedural_resp;
  request_type = materialize_procedural_request;
  response_type = materialize_procedural_response;
}

abbrev pub create_space : Verb SpaceCreateRequest SpaceCreateResponse
create_space = record {
  request_opcode = Opcode.space_create_req;
  response_opcode = Opcode.space_create_resp;
  request_type = space_create_request;
  response_type = space_create_response;
}

abbrev pub list_spaces : Verb SpaceListRequest SpaceListResponse
list_spaces = record {
  request_opcode = Opcode.space_list_req;
  response_opcode = Opcode.space_list_resp;
  request_type = space_list_request;
  response_type = space_list_response;
}

abbrev pub delete_space : Verb SpaceDeleteRequest SpaceDeleteResponse
delete_space = record {
  request_opcode = Opcode.space_delete_req;
  response_opcode = Opcode.space_delete_resp;
  request_type = space_delete_request;
  response_type = space_delete_response;
}

abbrev pub create_session : Verb SessionCreateRequest SessionCreateResponse
create_session = record {
  request_opcode = Opcode.session_create_req;
  response_opcode = Opcode.session_create_resp;
  request_type = session_create_request;
  response_type = session_create_response;
}

abbrev pub list_sessions : Verb SessionListRequest SessionListResponse
list_sessions = record {
  request_opcode = Opcode.session_list_req;
  response_opcode = Opcode.session_list_resp;
  request_type = session_list_request;
  response_type = session_list_response;
}

abbrev pub delete_session : Verb SessionDeleteRequest SessionDeleteResponse
delete_session = record {
  request_opcode = Opcode.session_delete_req;
  response_opcode = Opcode.session_delete_resp;
  request_type = session_delete_request;
  response_type = session_delete_response;
}

abbrev pub capabilities : Verb GetCapabilitiesRequest GetCapabilitiesResponse
capabilities = record {
  request_opcode = Opcode.get_capabilities_req;
  response_opcode = Opcode.get_capabilities_resp;
  request_type = get_capabilities_request;
  response_type = get_capabilities_response;
}

abbrev pub extractor_list : Verb ExtractorListRequest ExtractorListResponseFrame
extractor_list = record {
  request_opcode = Opcode.extractor_list_req;
  response_opcode = Opcode.extractor_list_resp;
  request_type = extractor_list_request;
  response_type = extractor_list_response_frame;
}

abbrev pub get_schema : Verb SchemaGetRequest SchemaGetResponse
get_schema = record {
  request_opcode = Opcode.schema_get_req;
  response_opcode = Opcode.schema_get_resp;
  request_type = schema_get_request;
  response_type = schema_get_response;
}

abbrev pub validate_schema : Verb SchemaValidateRequest SchemaValidateResponse
validate_schema = record {
  request_opcode = Opcode.schema_validate_req;
  response_opcode = Opcode.schema_validate_resp;
  request_type = schema_validate_request;
  response_type = schema_validate_response;
}

abbrev pub replace_schema : Verb SchemaReplaceRequest SchemaReplaceResponse
replace_schema = record {
  request_opcode = Opcode.schema_replace_req;
  response_opcode = Opcode.schema_replace_resp;
  request_type = schema_replace_request;
  response_type = schema_replace_response;
}

abbrev pub drop_schema : Verb SchemaDropRequest SchemaDropResponse
drop_schema = record {
  request_opcode = Opcode.schema_drop_req;
  response_opcode = Opcode.schema_drop_resp;
  request_type = schema_drop_request;
  response_type = schema_drop_response;
}
