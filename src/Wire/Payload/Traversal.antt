-- ===== src/Wire/Payload/Traversal.antt =====
-- python/src/brain_db_sdk/wire/types.py: the paths of a walk along relations, and the event of a new one.
use Prim.Native.String.{String}
use brain_sdk.Prelude.{ℕ, Bool, List, refl}
use brain_sdk.Wire.Payload.{Payload, read_payloads}
use brain_sdk.Wire.Value.{
  ◌>>=◌, end, entry, integer, text, bytes, boolean, object, write_list, ok, field, read_bool,
  read_integer, read_text, read_bytes, read_object, read_list,
}

pub record RelationCreatedEvent : Type 0 where
  pub relation_id : List ℕ
  pub relation_type : String
  pub from_ : List ℕ
  pub to : List ℕ

abbrev pub relation_created_event : Payload RelationCreatedEvent
relation_created_event = record {
  plain_map = λ a. entry "relation_id" (bytes a.relation_id) (
      entry "relation_type" (text a.relation_type)
        (entry "from" (bytes a.from_) (entry "to" (bytes a.to) (end))));
  from_map = λ m. do
    relation_id' ← field read_bytes "relation_id" m
    relation_type' ← field read_text "relation_type" m
    from_' ← field read_bytes "from" m
    to' ← field read_bytes "to" m
    ok (record {
      relation_id = relation_id';
      relation_type = relation_type';
      from_ = from_';
      to = to';
    });
  round_trip = λ a. refl;
}

pub record TraversalStepWire : Type 0 where
  pub relation_id : List ℕ
  pub from_ : List ℕ
  pub to : List ℕ
  pub relation_type : String
  pub depth : ℕ

abbrev pub traversal_step_wire : Payload TraversalStepWire
traversal_step_wire = record {
  plain_map = λ a. entry "relation_id" (bytes a.relation_id) (
      entry "from" (bytes a.from_) (
        entry "to" (bytes a.to)
          (entry "relation_type" (text a.relation_type) (entry "depth" (integer a.depth) (end)))));
  from_map = λ m. do
    relation_id' ← field read_bytes "relation_id" m
    from_' ← field read_bytes "from" m
    to' ← field read_bytes "to" m
    relation_type' ← field read_text "relation_type" m
    depth' ← field read_integer "depth" m
    ok (record {
      relation_id = relation_id';
      from_ = from_';
      to = to';
      relation_type = relation_type';
      depth = depth';
    });
  round_trip = λ a. refl;
}

pub record TraversalPathWire : Type 0 where
  pub steps : List TraversalStepWire

abbrev pub traversal_path_wire : Payload TraversalPathWire
traversal_path_wire = record {
  plain_map = λ a.
      entry "steps" ((write_list (λ x. object (traversal_step_wire.plain_map x))) a.steps) (end);
  from_map = λ m. do
    steps' ← field (read_list (read_object traversal_step_wire.from_map)) "steps" m
    ok (record { steps = steps' });
  round_trip = λ a. rw (read_payloads traversal_step_wire a.steps) refl;
}

pub record RelationTraverseResponseFrame : Type 0 where
  pub paths : List TraversalPathWire
  pub total_paths : ℕ
  pub truncated : Bool
  pub is_final : Bool

abbrev pub relation_traverse_response_frame : Payload RelationTraverseResponseFrame
relation_traverse_response_frame = record {
  plain_map = λ a.
      entry "paths" ((write_list (λ x. object (traversal_path_wire.plain_map x))) a.paths) (
        entry "total_paths" (integer a.total_paths)
          (entry "truncated" (boolean a.truncated) (entry "is_final" (boolean a.is_final) (end))));
  from_map = λ m. do
    paths' ← field (read_list (read_object traversal_path_wire.from_map)) "paths" m
    total_paths' ← field read_integer "total_paths" m
    truncated' ← field read_bool "truncated" m
    is_final' ← field read_bool "is_final" m
    ok (record {
      paths = paths';
      total_paths = total_paths';
      truncated = truncated';
      is_final = is_final';
    });
  round_trip = λ a. rw (read_payloads traversal_path_wire a.paths) refl;
}
