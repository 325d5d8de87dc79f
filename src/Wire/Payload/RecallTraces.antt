-- ===== src/Wire/Payload/RecallTraces.antt =====
-- python/src/brain_db_sdk/wire/types.py: the trace of a query, and a frame of its answer.
use Prim.Native.String.{String}
use brain_sdk.Prelude.{ℕ, Bool, Option, none, List, [], refl}
use brain_sdk.Wire.Payload.{Payload, read_some_payload, read_optional_payload, read_payloads}
use brain_sdk.Wire.Value.Entries.{entries}
use brain_sdk.Wire.Value.{
  ◌>>=◌, end, entry, entry_unless_none, lane_value, read_lane, read_lanes, integer, float, text,
  boolean, object, or_null, write_list, ok, field, field_or, read_bool, read_integer, read_float,
  read_text, read_object, read_list, read_optional,
}
use brain_sdk.Wire.Payload.Answers.{
  RecallTraceCandidate, recall_trace_candidate, RecallTraceRerank, recall_trace_rerank,
}
use brain_sdk.Wire.Payload.Recall.{MemoryResult, memory_result}
use brain_sdk.Wire.Payload.Trace.{RecallTraceFilterChain, recall_trace_filter_chain}

pub record RecallTraceRetriever : Type 0 where
  pub name : ℕ
  pub status : ℕ
  pub status_detail : String
  pub latency_ms : ℕ
  pub candidate_count : ℕ
  pub candidates : List RecallTraceCandidate

abbrev pub recall_trace_retriever : Payload RecallTraceRetriever
recall_trace_retriever = record {
  plain_map = λ a. entry "name" (integer a.name) (
      entry "status" (integer a.status) (
        entry "status_detail" (text a.status_detail) (
          entry "latency_ms" (float a.latency_ms) (
            entry "candidate_count" (integer a.candidate_count) (
              entry "candidates"
                ((write_list (λ x. object (recall_trace_candidate.plain_map x))) a.candidates)
                (end))))));
  from_map = λ m. do
    name' ← field read_integer "name" m
    status' ← field read_integer "status" m
    status_detail' ← field read_text "status_detail" m
    latency_ms' ← field read_float "latency_ms" m
    candidate_count' ← field read_integer "candidate_count" m
    candidates' ←
        field_or (read_list (read_object recall_trace_candidate.from_map)) [] "candidates" m
    ok (record {
      name = name';
      status = status';
      status_detail = status_detail';
      latency_ms = latency_ms';
      candidate_count = candidate_count';
      candidates = candidates';
    });
  round_trip = λ a. rw (read_payloads recall_trace_candidate a.candidates) refl;
}

pub record RecallTraceFusionItem : Type 0 where
  pub memory_id : ℕ
  pub rrf_score : ℕ
  pub lane_scores : List (ℕ × ℕ)

abbrev pub recall_trace_fusion_item : Payload RecallTraceFusionItem
recall_trace_fusion_item = record {
  plain_map = λ a. entry "memory_id" (integer a.memory_id) (
      entry "rrf_score" (float a.rrf_score)
        (entry "lane_scores" ((write_list lane_value) a.lane_scores) (end)));
  from_map = λ m. do
    memory_id' ← field read_integer "memory_id" m
    rrf_score' ← field read_float "rrf_score" m
    lane_scores' ← field (read_list read_lane) "lane_scores" m
    ok (record { memory_id = memory_id'; rrf_score = rrf_score'; lane_scores = lane_scores' });
  round_trip = λ a. rw (read_lanes a.lane_scores) refl;
}

pub record RecallTraceFusion : Type 0 where
  pub items : List RecallTraceFusionItem

abbrev pub recall_trace_fusion : Payload RecallTraceFusion
recall_trace_fusion = record {
  plain_map = λ a.
      entry "items" ((write_list (λ x. object (recall_trace_fusion_item.plain_map x))) a.items)
        (end);
  from_map = λ m. do
    items' ← field (read_list (read_object recall_trace_fusion_item.from_map)) "items" m
    ok (record { items = items' });
  round_trip = λ a. rw (read_payloads recall_trace_fusion_item a.items) refl;
}

pub record RecallTrace : Type 0 where
  pub retrievers : List RecallTraceRetriever
  pub filter_chain : RecallTraceFilterChain
  pub rerank : Option RecallTraceRerank
  pub total_latency_ms : ℕ
  pub fusion : Option RecallTraceFusion

abbrev pub recall_trace : Payload RecallTrace
recall_trace = record {
  plain_map = λ a.
      entry "retrievers"
        ((write_list (λ x. object (recall_trace_retriever.plain_map x))) a.retrievers)
        (entry "filter_chain" (object (recall_trace_filter_chain.plain_map a.filter_chain)) (
          entry "rerank" (or_null (λ x. object (recall_trace_rerank.plain_map x)) a.rerank) (
            entry "total_latency_ms" (float a.total_latency_ms) (
              entry "fusion" (or_null (λ x. object (recall_trace_fusion.plain_map x)) a.fusion)
                (end)))));
  from_map = λ m. do
    retrievers' ← field (read_list (read_object recall_trace_retriever.from_map)) "retrievers" m
    filter_chain' ← field (read_object recall_trace_filter_chain.from_map) "filter_chain" m
    rerank' ← field (read_optional (read_object recall_trace_rerank.from_map)) "rerank" m
    total_latency_ms' ← field read_float "total_latency_ms" m
    fusion' ← field_or (read_optional (read_object recall_trace_fusion.from_map)) none "fusion" m
    ok (record {
      retrievers = retrievers';
      filter_chain = filter_chain';
      rerank = rerank';
      total_latency_ms = total_latency_ms';
      fusion = fusion';
    });
  round_trip = λ a.
      rw
        (
          read_payloads recall_trace_retriever a.retrievers,
          recall_trace_filter_chain.round_trip a.filter_chain,
          read_optional_payload recall_trace_rerank a.rerank,
          read_optional_payload recall_trace_fusion a.fusion,
        )
        refl;
}

pub record RecallResponseFrame : Type 0 where
  pub answer_kind : String
  pub memories : List MemoryResult
  pub is_final : Bool
  pub cumulative_count : ℕ
  pub estimated_remaining : Option ℕ
  pub trace : Option RecallTrace

abbrev pub recall_response_frame : Payload RecallResponseFrame
recall_response_frame = record {
  plain_map = λ a. entry "answer_kind" (text a.answer_kind) (
      entry "memories" ((write_list (λ x. object (memory_result.plain_map x))) a.memories) (
        entry "is_final" (boolean a.is_final) (
          entry "cumulative_count" (integer a.cumulative_count) (
            entry "estimated_remaining" (or_null integer a.estimated_remaining) (
              entry_unless_none "trace" (λ x. object (recall_trace.plain_map x)) a.trace (end))))));
  from_map = λ m. do
    answer_kind' ← field read_text "answer_kind" m
    memories' ← field (read_list (read_object memory_result.from_map)) "memories" m
    is_final' ← field read_bool "is_final" m
    cumulative_count' ← field read_integer "cumulative_count" m
    estimated_remaining' ← field (read_optional read_integer) "estimated_remaining" m
    trace' ← field_or (read_optional (read_object recall_trace.from_map)) none "trace" m
    ok (record {
      answer_kind = answer_kind';
      memories = memories';
      is_final = is_final';
      cumulative_count = cumulative_count';
      estimated_remaining = estimated_remaining';
      trace = trace';
    });
  round_trip =
      λ a. simp (entries, read_some_payload recall_trace, read_payloads memory_result) refl;
}
