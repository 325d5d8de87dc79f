-- ===== src/Wire/Payload/Events.antt =====
-- python/src/brain_db_sdk/wire/types.py: the events of a subscription by their tags. A tag that a class does not
-- name is `type_error`.
use Prim.Native.String.{String}
use package.text.Mathlib.Text.{◌==◌}
use brain_sdk.Prelude.{refl, ap, ◌≡◌, Option, none, some, if◌then◌else◌}
use brain_sdk.Wire.Value.{
  Value, Loaded, text, object, ok, type_error, read_object, loaded_as, tagged, read_tagged, or_null,
  read_optional,
}
use brain_sdk.Wire.Payload.Feeds.{
  EntityMergedEvent, entity_merged_event, StatementCreatedEvent, statement_created_event,
}
use brain_sdk.Wire.Payload.GraphEvents.{
  EntityCreatedEvent, entity_created_event, EntityUpdatedEvent, entity_updated_event,
  EntityRenamedEvent, entity_renamed_event, EntityUnmergedEvent, entity_unmerged_event,
  EntityTombstonedEvent, entity_tombstoned_event, StatementSupersededEvent,
  statement_superseded_event, StatementTombstonedEvent, statement_tombstoned_event,
  RelationSupersededEvent, relation_superseded_event, RelationTombstonedEvent,
  relation_tombstoned_event, SchemaUpdatedEvent, schema_updated_event,
}
use brain_sdk.Wire.Payload.Stages.{
  StageAutoEdgePayload, stage_auto_edge_payload, StageTemporalEdgePayload,
  stage_temporal_edge_payload, StageExtractorPayload, stage_extractor_payload, StageHypePayload,
  stage_hype_payload,
}
use brain_sdk.Wire.Payload.Traversal.{RelationCreatedEvent, relation_created_event}

pub data StagePayload : Type 0 where
  auto_edge_stage : StageAutoEdgePayload → StagePayload
  temporal_edge_stage : StageTemporalEdgePayload → StagePayload
  extractor_stage : StageExtractorPayload → StagePayload
  hype_stage : StageHypePayload → StagePayload

abbrev pub stage_payload_value : StagePayload → Value
stage_payload_value (auto_edge_stage x) =
    tagged "AutoEdge" (object (stage_auto_edge_payload.plain_map x))
stage_payload_value (temporal_edge_stage x) =
    tagged "TemporalEdge" (object (stage_temporal_edge_payload.plain_map x))
stage_payload_value (extractor_stage x) =
    tagged "Extractor" (object (stage_extractor_payload.plain_map x))
stage_payload_value (hype_stage x) = tagged "Hype" (object (stage_hype_payload.plain_map x))

abbrev read_stage_payload_tag : String → Value → Loaded StagePayload
read_stage_payload_tag tag v =
    if tag == "AutoEdge"
    then loaded_as auto_edge_stage (read_object stage_auto_edge_payload.from_map v)
    else if tag == "TemporalEdge"
    then loaded_as temporal_edge_stage (read_object stage_temporal_edge_payload.from_map v)
    else if tag == "Extractor"
    then loaded_as extractor_stage (read_object stage_extractor_payload.from_map v)
    else if tag == "Hype"
    then loaded_as hype_stage (read_object stage_hype_payload.from_map v)
    else type_error

abbrev pub read_stage_payload : Value → Loaded StagePayload
read_stage_payload = read_tagged read_stage_payload_tag

pub read_stage_payload_lem : (x : StagePayload) → read_stage_payload (stage_payload_value x) ≡ ok x
read_stage_payload_lem (auto_edge_stage x) =
    ap (loaded_as auto_edge_stage) (stage_auto_edge_payload.round_trip x)
read_stage_payload_lem (temporal_edge_stage x) =
    ap (loaded_as temporal_edge_stage) (stage_temporal_edge_payload.round_trip x)
read_stage_payload_lem (extractor_stage x) =
    ap (loaded_as extractor_stage) (stage_extractor_payload.round_trip x)
read_stage_payload_lem (hype_stage x) = ap (loaded_as hype_stage) (stage_hype_payload.round_trip x)

pub read_optional_stage_payload :
    (o : Option StagePayload)
    → read_optional read_stage_payload (or_null stage_payload_value o) ≡ ok o
read_optional_stage_payload none = refl
read_optional_stage_payload (some (auto_edge_stage x)) =
    ap (loaded_as some) (read_stage_payload_lem (auto_edge_stage x))
read_optional_stage_payload (some (temporal_edge_stage x)) =
    ap (loaded_as some) (read_stage_payload_lem (temporal_edge_stage x))
read_optional_stage_payload (some (extractor_stage x)) =
    ap (loaded_as some) (read_stage_payload_lem (extractor_stage x))
read_optional_stage_payload (some (hype_stage x)) =
    ap (loaded_as some) (read_stage_payload_lem (hype_stage x))

pub data GraphEventPayload : Type 0 where
  entity_created : EntityCreatedEvent → GraphEventPayload
  entity_updated : EntityUpdatedEvent → GraphEventPayload
  entity_renamed : EntityRenamedEvent → GraphEventPayload
  entity_merged : EntityMergedEvent → GraphEventPayload
  entity_unmerged : EntityUnmergedEvent → GraphEventPayload
  entity_tombstoned : EntityTombstonedEvent → GraphEventPayload
  statement_created : StatementCreatedEvent → GraphEventPayload
  statement_superseded : StatementSupersededEvent → GraphEventPayload
  statement_tombstoned : StatementTombstonedEvent → GraphEventPayload
  relation_created : RelationCreatedEvent → GraphEventPayload
  relation_superseded : RelationSupersededEvent → GraphEventPayload
  relation_tombstoned : RelationTombstonedEvent → GraphEventPayload
  schema_updated : SchemaUpdatedEvent → GraphEventPayload

abbrev pub graph_event_payload_value : GraphEventPayload → Value
graph_event_payload_value (entity_created x) =
    tagged "EntityCreated" (object (entity_created_event.plain_map x))
graph_event_payload_value (entity_updated x) =
    tagged "EntityUpdated" (object (entity_updated_event.plain_map x))
graph_event_payload_value (entity_renamed x) =
    tagged "EntityRenamed" (object (entity_renamed_event.plain_map x))
graph_event_payload_value (entity_merged x) =
    tagged "EntityMerged" (object (entity_merged_event.plain_map x))
graph_event_payload_value (entity_unmerged x) =
    tagged "EntityUnmerged" (object (entity_unmerged_event.plain_map x))
graph_event_payload_value (entity_tombstoned x) =
    tagged "EntityTombstoned" (object (entity_tombstoned_event.plain_map x))
graph_event_payload_value (statement_created x) =
    tagged "StatementCreated" (object (statement_created_event.plain_map x))
graph_event_payload_value (statement_superseded x) =
    tagged "StatementSuperseded" (object (statement_superseded_event.plain_map x))
graph_event_payload_value (statement_tombstoned x) =
    tagged "StatementTombstoned" (object (statement_tombstoned_event.plain_map x))
graph_event_payload_value (relation_created x) =
    tagged "RelationCreated" (object (relation_created_event.plain_map x))
graph_event_payload_value (relation_superseded x) =
    tagged "RelationSuperseded" (object (relation_superseded_event.plain_map x))
graph_event_payload_value (relation_tombstoned x) =
    tagged "RelationTombstoned" (object (relation_tombstoned_event.plain_map x))
graph_event_payload_value (schema_updated x) =
    tagged "SchemaUpdated" (object (schema_updated_event.plain_map x))

abbrev read_graph_event_payload_tag : String → Value → Loaded GraphEventPayload
read_graph_event_payload_tag tag v =
    if tag == "EntityCreated"
    then loaded_as entity_created (read_object entity_created_event.from_map v)
    else if tag == "EntityUpdated"
    then loaded_as entity_updated (read_object entity_updated_event.from_map v)
    else if tag == "EntityRenamed"
    then loaded_as entity_renamed (read_object entity_renamed_event.from_map v)
    else if tag == "EntityMerged"
    then loaded_as entity_merged (read_object entity_merged_event.from_map v)
    else if tag == "EntityUnmerged"
    then loaded_as entity_unmerged (read_object entity_unmerged_event.from_map v)
    else if tag == "EntityTombstoned"
    then loaded_as entity_tombstoned (read_object entity_tombstoned_event.from_map v)
    else if tag == "StatementCreated"
    then loaded_as statement_created (read_object statement_created_event.from_map v)
    else if tag == "StatementSuperseded"
    then loaded_as statement_superseded (read_object statement_superseded_event.from_map v)
    else if tag == "StatementTombstoned"
    then loaded_as statement_tombstoned (read_object statement_tombstoned_event.from_map v)
    else if tag == "RelationCreated"
    then loaded_as relation_created (read_object relation_created_event.from_map v)
    else if tag == "RelationSuperseded"
    then loaded_as relation_superseded (read_object relation_superseded_event.from_map v)
    else if tag == "RelationTombstoned"
    then loaded_as relation_tombstoned (read_object relation_tombstoned_event.from_map v)
    else if tag == "SchemaUpdated"
    then loaded_as schema_updated (read_object schema_updated_event.from_map v)
    else type_error

abbrev pub read_graph_event_payload : Value → Loaded GraphEventPayload
read_graph_event_payload = read_tagged read_graph_event_payload_tag

pub read_graph_event_payload_lem :
    (x : GraphEventPayload) → read_graph_event_payload (graph_event_payload_value x) ≡ ok x
read_graph_event_payload_lem (entity_created x) =
    ap (loaded_as entity_created) (entity_created_event.round_trip x)
read_graph_event_payload_lem (entity_updated x) =
    ap (loaded_as entity_updated) (entity_updated_event.round_trip x)
read_graph_event_payload_lem (entity_renamed x) =
    ap (loaded_as entity_renamed) (entity_renamed_event.round_trip x)
read_graph_event_payload_lem (entity_merged x) =
    ap (loaded_as entity_merged) (entity_merged_event.round_trip x)
read_graph_event_payload_lem (entity_unmerged x) =
    ap (loaded_as entity_unmerged) (entity_unmerged_event.round_trip x)
read_graph_event_payload_lem (entity_tombstoned x) =
    ap (loaded_as entity_tombstoned) (entity_tombstoned_event.round_trip x)
read_graph_event_payload_lem (statement_created x) =
    ap (loaded_as statement_created) (statement_created_event.round_trip x)
read_graph_event_payload_lem (statement_superseded x) =
    ap (loaded_as statement_superseded) (statement_superseded_event.round_trip x)
read_graph_event_payload_lem (statement_tombstoned x) =
    ap (loaded_as statement_tombstoned) (statement_tombstoned_event.round_trip x)
read_graph_event_payload_lem (relation_created x) =
    ap (loaded_as relation_created) (relation_created_event.round_trip x)
read_graph_event_payload_lem (relation_superseded x) =
    ap (loaded_as relation_superseded) (relation_superseded_event.round_trip x)
read_graph_event_payload_lem (relation_tombstoned x) =
    ap (loaded_as relation_tombstoned) (relation_tombstoned_event.round_trip x)
read_graph_event_payload_lem (schema_updated x) =
    ap (loaded_as schema_updated) (schema_updated_event.round_trip x)

pub read_optional_graph_event_payload :
    (o : Option GraphEventPayload)
    → read_optional read_graph_event_payload (or_null graph_event_payload_value o) ≡ ok o
read_optional_graph_event_payload none = refl
read_optional_graph_event_payload (some (entity_created x)) =
    ap (loaded_as some) (read_graph_event_payload_lem (entity_created x))
read_optional_graph_event_payload (some (entity_updated x)) =
    ap (loaded_as some) (read_graph_event_payload_lem (entity_updated x))
read_optional_graph_event_payload (some (entity_renamed x)) =
    ap (loaded_as some) (read_graph_event_payload_lem (entity_renamed x))
read_optional_graph_event_payload (some (entity_merged x)) =
    ap (loaded_as some) (read_graph_event_payload_lem (entity_merged x))
read_optional_graph_event_payload (some (entity_unmerged x)) =
    ap (loaded_as some) (read_graph_event_payload_lem (entity_unmerged x))
read_optional_graph_event_payload (some (entity_tombstoned x)) =
    ap (loaded_as some) (read_graph_event_payload_lem (entity_tombstoned x))
read_optional_graph_event_payload (some (statement_created x)) =
    ap (loaded_as some) (read_graph_event_payload_lem (statement_created x))
read_optional_graph_event_payload (some (statement_superseded x)) =
    ap (loaded_as some) (read_graph_event_payload_lem (statement_superseded x))
read_optional_graph_event_payload (some (statement_tombstoned x)) =
    ap (loaded_as some) (read_graph_event_payload_lem (statement_tombstoned x))
read_optional_graph_event_payload (some (relation_created x)) =
    ap (loaded_as some) (read_graph_event_payload_lem (relation_created x))
read_optional_graph_event_payload (some (relation_superseded x)) =
    ap (loaded_as some) (read_graph_event_payload_lem (relation_superseded x))
read_optional_graph_event_payload (some (relation_tombstoned x)) =
    ap (loaded_as some) (read_graph_event_payload_lem (relation_tombstoned x))
read_optional_graph_event_payload (some (schema_updated x)) =
    ap (loaded_as some) (read_graph_event_payload_lem (schema_updated x))
