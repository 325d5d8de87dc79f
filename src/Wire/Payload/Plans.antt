-- ===== src/Wire/Payload/Plans.antt =====
-- python/src/brain_db_sdk/wire/types.py: plans and inferences.
use Prim.Native.String.{String}
use brain_sdk.Prelude.{ℕ, Bool, false, Option, none, List, refl}
use brain_sdk.Wire.Payload.{Payload, read_some_payload, read_payloads}
use brain_sdk.Wire.Value.Entries.{entries}
use brain_sdk.Wire.Value.{
  ◌>>=◌, end, entry, entry_unless_none, integer, float, text, bytes, boolean, object, or_null,
  write_list, ok, field, field_or, read_bool, read_integer, read_float, read_text, read_bytes,
  read_object, read_list, read_optional, read_integers,
}
use brain_sdk.Wire.Payload.Identity.{ActAs, act_as}
use brain_sdk.Wire.Payload.PlanTraces.{PlanTrace, plan_trace}
use brain_sdk.Wire.Payload.ReasonTraces.{ReasonTrace, reason_trace}
use brain_sdk.Wire.Payload.Tagged.{
  PlanState, plan_state_value, read_plan_state, read_plan_state_lem, TransitionKind,
  transition_kind_value, read_transition_kind, read_transition_kind_lem, ObservationInput,
  observation_input_value, read_observation_input, read_observation_input_lem, InferenceKind,
  inference_kind_value, read_inference_kind, read_inference_kind_lem,
}
use brain_sdk.Wire.Payload.Transactions.{PlanBudget, plan_budget}

pub record PlanRequest : Type 0 where
  pub start : PlanState
  pub goal : PlanState
  pub budget : PlanBudget
  pub strategy_hint : Option ℕ
  pub session_filter : Option (List ℕ)
  pub request_id : Option (List ℕ)
  pub txn_id : Option (List ℕ)
  pub trace : Bool
  pub act_as : Option ActAs

abbrev pub plan_request : Payload PlanRequest
plan_request = record {
  plain_map = λ a. entry "start" (plan_state_value a.start) (
      entry "goal" (plan_state_value a.goal) (
        entry "budget" (object (plan_budget.plain_map a.budget)) (
          entry "strategy_hint" (or_null integer a.strategy_hint) (
            entry "session_filter" (or_null (write_list integer) a.session_filter) (
              entry "request_id" (or_null bytes a.request_id) (
                entry "txn_id" (or_null bytes a.txn_id) (
                  entry "trace" (boolean a.trace) (
                    entry_unless_none "act_as" (λ x. object (act_as.plain_map x)) a.act_as
                      (end)))))))));
  from_map = λ m. do
    start' ← field read_plan_state "start" m
    goal' ← field read_plan_state "goal" m
    budget' ← field (read_object plan_budget.from_map) "budget" m
    strategy_hint' ← field (read_optional read_integer) "strategy_hint" m
    session_filter' ← field (read_optional (read_list read_integer)) "session_filter" m
    request_id' ← field (read_optional read_bytes) "request_id" m
    txn_id' ← field (read_optional read_bytes) "txn_id" m
    trace' ← field_or read_bool false "trace" m
    act_as' ← field_or (read_optional (read_object act_as.from_map)) none "act_as" m
    ok (record {
      start = start';
      goal = goal';
      budget = budget';
      strategy_hint = strategy_hint';
      session_filter = session_filter';
      request_id = request_id';
      txn_id = txn_id';
      trace = trace';
      act_as = act_as';
    });
  round_trip = λ a. simp (entries, read_some_payload act_as, read_plan_state_lem) refl;
}

pub record PlanStep : Type 0 where
  pub step_index : ℕ
  pub memory_id : ℕ
  pub text' : String
  pub transition_kind : TransitionKind
  pub confidence : ℕ
  pub estimated_distance_to_goal : ℕ

abbrev pub plan_step : Payload PlanStep
plan_step = record {
  plain_map = λ a. entry "step_index" (integer a.step_index) (
      entry "memory_id" (integer a.memory_id) (
        entry "text" (text a.text') (
          entry "transition_kind" (transition_kind_value a.transition_kind) (
            entry "confidence" (float a.confidence)
              (entry "estimated_distance_to_goal" (float a.estimated_distance_to_goal) (end))))));
  from_map = λ m. do
    step_index' ← field read_integer "step_index" m
    memory_id' ← field read_integer "memory_id" m
    got_text ← field read_text "text" m
    transition_kind' ← field read_transition_kind "transition_kind" m
    confidence' ← field read_float "confidence" m
    estimated_distance_to_goal' ← field read_float "estimated_distance_to_goal" m
    ok (record {
      step_index = step_index';
      memory_id = memory_id';
      text' = got_text;
      transition_kind = transition_kind';
      confidence = confidence';
      estimated_distance_to_goal = estimated_distance_to_goal';
    });
  round_trip = λ a. rw (read_transition_kind_lem a.transition_kind) refl;
}

pub record PlanResponseFrame : Type 0 where
  pub steps : List PlanStep
  pub is_final : Bool
  pub plan_status : Option ℕ
  pub trace : Option PlanTrace

abbrev pub plan_response_frame : Payload PlanResponseFrame
plan_response_frame = record {
  plain_map = λ a. entry "steps" ((write_list (λ x. object (plan_step.plain_map x))) a.steps) (
      entry "is_final" (boolean a.is_final) (
        entry "plan_status" (or_null integer a.plan_status)
          (entry_unless_none "trace" (λ x. object (plan_trace.plain_map x)) a.trace (end))));
  from_map = λ m. do
    steps' ← field (read_list (read_object plan_step.from_map)) "steps" m
    is_final' ← field read_bool "is_final" m
    plan_status' ← field (read_optional read_integer) "plan_status" m
    trace' ← field_or (read_optional (read_object plan_trace.from_map)) none "trace" m
    ok (record {
      steps = steps';
      is_final = is_final';
      plan_status = plan_status';
      trace = trace';
    });
  round_trip = λ a. simp (entries, read_some_payload plan_trace, read_payloads plan_step) refl;
}

pub record ReasonRequest : Type 0 where
  pub observation : ObservationInput
  pub depth : ℕ
  pub confidence_threshold : ℕ
  pub session_filter : Option (List ℕ)
  pub max_inferences : ℕ
  pub budget_wall_time_ms : ℕ
  pub request_id : Option (List ℕ)
  pub txn_id : Option (List ℕ)
  pub trace : Bool
  pub act_as : Option ActAs

abbrev pub reason_request : Payload ReasonRequest
reason_request = record {
  plain_map = λ a. entry "observation" (observation_input_value a.observation) (
      entry "depth" (integer a.depth) (
        entry "confidence_threshold" (float a.confidence_threshold) (
          entry "session_filter" (or_null (write_list integer) a.session_filter) (
            entry "max_inferences" (integer a.max_inferences) (
              entry "budget_wall_time_ms" (integer a.budget_wall_time_ms) (
                entry "request_id" (or_null bytes a.request_id) (
                  entry "txn_id" (or_null bytes a.txn_id) (
                    entry "trace" (boolean a.trace) (
                      entry_unless_none "act_as" (λ x. object (act_as.plain_map x)) a.act_as
                        (end))))))))));
  from_map = λ m. do
    observation' ← field read_observation_input "observation" m
    depth' ← field read_integer "depth" m
    confidence_threshold' ← field read_float "confidence_threshold" m
    session_filter' ← field (read_optional (read_list read_integer)) "session_filter" m
    max_inferences' ← field read_integer "max_inferences" m
    budget_wall_time_ms' ← field read_integer "budget_wall_time_ms" m
    request_id' ← field (read_optional read_bytes) "request_id" m
    txn_id' ← field (read_optional read_bytes) "txn_id" m
    trace' ← field_or read_bool false "trace" m
    act_as' ← field_or (read_optional (read_object act_as.from_map)) none "act_as" m
    ok (record {
      observation = observation';
      depth = depth';
      confidence_threshold = confidence_threshold';
      session_filter = session_filter';
      max_inferences = max_inferences';
      budget_wall_time_ms = budget_wall_time_ms';
      request_id = request_id';
      txn_id = txn_id';
      trace = trace';
      act_as = act_as';
    });
  round_trip = λ a. simp (entries, read_some_payload act_as, read_observation_input_lem) refl;
}

pub record InferenceStep : Type 0 where
  pub step_index : ℕ
  pub claim : String
  pub supporting_memories : List ℕ
  pub contradicting_memories : List ℕ
  pub confidence : ℕ
  pub inference_kind : InferenceKind

abbrev pub inference_step : Payload InferenceStep
inference_step = record {
  plain_map = λ a. entry "step_index" (integer a.step_index) (
      entry "claim" (text a.claim) (
        entry "supporting_memories" ((write_list integer) a.supporting_memories) (
          entry "contradicting_memories" ((write_list integer) a.contradicting_memories) (
            entry "confidence" (float a.confidence)
              (entry "inference_kind" (inference_kind_value a.inference_kind) (end))))));
  from_map = λ m. do
    step_index' ← field read_integer "step_index" m
    claim' ← field read_text "claim" m
    supporting_memories' ← field (read_list read_integer) "supporting_memories" m
    contradicting_memories' ← field (read_list read_integer) "contradicting_memories" m
    confidence' ← field read_float "confidence" m
    inference_kind' ← field read_inference_kind "inference_kind" m
    ok (record {
      step_index = step_index';
      claim = claim';
      supporting_memories = supporting_memories';
      contradicting_memories = contradicting_memories';
      confidence = confidence';
      inference_kind = inference_kind';
    });
  round_trip = λ a.
      rw
        (
          read_integers a.supporting_memories,
          read_integers a.contradicting_memories,
          read_inference_kind_lem a.inference_kind,
        )
        refl;
}

pub record ReasonResponseFrame : Type 0 where
  pub inferences : List InferenceStep
  pub is_final : Bool
  pub reason_status : Option ℕ
  pub trace : Option ReasonTrace

abbrev pub reason_response_frame : Payload ReasonResponseFrame
reason_response_frame = record {
  plain_map = λ a.
      entry "inferences" ((write_list (λ x. object (inference_step.plain_map x))) a.inferences) (
        entry "is_final" (boolean a.is_final) (
          entry "reason_status" (or_null integer a.reason_status)
            (entry_unless_none "trace" (λ x. object (reason_trace.plain_map x)) a.trace (end))));
  from_map = λ m. do
    inferences' ← field (read_list (read_object inference_step.from_map)) "inferences" m
    is_final' ← field read_bool "is_final" m
    reason_status' ← field (read_optional read_integer) "reason_status" m
    trace' ← field_or (read_optional (read_object reason_trace.from_map)) none "trace" m
    ok (record {
      inferences = inferences';
      is_final = is_final';
      reason_status = reason_status';
      trace = trace';
    });
  round_trip =
      λ a. simp (entries, read_some_payload reason_trace, read_payloads inference_step) refl;
}
