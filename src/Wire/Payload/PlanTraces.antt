-- ===== src/Wire/Payload/PlanTraces.antt =====
-- python/src/brain_db_sdk/wire/types.py: the trace of a plan.
use Prim.Native.String.{String}
use brain_sdk.Prelude.{ℕ, Bool, Option, List, refl}
use brain_sdk.Wire.Payload.{Payload, read_payloads}
use brain_sdk.Wire.Value.{
  ◌>>=◌, end, entry, integer, float, text, boolean, object, or_null, write_list, ok, field,
  read_bool, read_integer, read_float, read_text, read_object, read_list, read_optional,
  read_optional_integer, read_optional_float,
}

pub record PlanTraceNode : Type 0 where
  pub memory_id : ℕ
  pub text' : String
  pub direction : ℕ
  pub depth : ℕ
  pub parent_edge : Option ℕ
  pub alignment_score : Option ℕ

abbrev pub plan_trace_node : Payload PlanTraceNode
plan_trace_node = record {
  plain_map = λ a. entry "memory_id" (integer a.memory_id) (
      entry "text" (text a.text') (
        entry "direction" (integer a.direction) (
          entry "depth" (integer a.depth) (
            entry "parent_edge" (or_null integer a.parent_edge)
              (entry "alignment_score" (or_null float a.alignment_score) (end))))));
  from_map = λ m. do
    memory_id' ← field read_integer "memory_id" m
    got_text ← field read_text "text" m
    direction' ← field read_integer "direction" m
    depth' ← field read_integer "depth" m
    parent_edge' ← field (read_optional read_integer) "parent_edge" m
    alignment_score' ← field (read_optional read_float) "alignment_score" m
    ok (record {
      memory_id = memory_id';
      text' = got_text;
      direction = direction';
      depth = depth';
      parent_edge = parent_edge';
      alignment_score = alignment_score';
    });
  round_trip =
      λ a. rw (read_optional_integer a.parent_edge, read_optional_float a.alignment_score) refl;
}

pub record PlanTraceMeetingPoint : Type 0 where
  pub memory_id : ℕ
  pub text' : String
  pub included_in_result : Bool

abbrev pub plan_trace_meeting_point : Payload PlanTraceMeetingPoint
plan_trace_meeting_point = record {
  plain_map = λ a. entry "memory_id" (integer a.memory_id) (
      entry "text" (text a.text')
        (entry "included_in_result" (boolean a.included_in_result) (end)));
  from_map = λ m. do
    memory_id' ← field read_integer "memory_id" m
    got_text ← field read_text "text" m
    included_in_result' ← field read_bool "included_in_result" m
    ok (record {
      memory_id = memory_id';
      text' = got_text;
      included_in_result = included_in_result';
    });
  round_trip = λ a. refl;
}

pub record PlanTrace : Type 0 where
  pub explored : List PlanTraceNode
  pub meeting_points : List PlanTraceMeetingPoint

abbrev pub plan_trace : Payload PlanTrace
plan_trace = record {
  plain_map = λ a.
      entry "explored" ((write_list (λ x. object (plan_trace_node.plain_map x))) a.explored) (
        entry "meeting_points"
          ((write_list (λ x. object (plan_trace_meeting_point.plain_map x))) a.meeting_points)
          (end));
  from_map = λ m. do
    explored' ← field (read_list (read_object plan_trace_node.from_map)) "explored" m
    meeting_points' ←
        field (read_list (read_object plan_trace_meeting_point.from_map)) "meeting_points" m
    ok (record { explored = explored'; meeting_points = meeting_points' });
  round_trip = λ a.
      rw
        (
          read_payloads plan_trace_node a.explored,
          read_payloads plan_trace_meeting_point a.meeting_points,
        )
        refl;
}
