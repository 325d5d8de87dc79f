-- ===== src/Wire/Payload/ReasonTraces.antt =====
-- python/src/brain_db_sdk/wire/types.py: the trace of an inference.
use Prim.Native.String.{String}
use brain_sdk.Prelude.{ℕ, List, refl}
use brain_sdk.Wire.Payload.{Payload, read_payloads}
use brain_sdk.Wire.Value.{
  ◌>>=◌, end, entry, integer, float, text, object, write_list, ok, field, read_integer, read_float,
  read_text, read_object, read_list,
}
use brain_sdk.Wire.Payload.Transactions.{ReasonTraceCentroid, reason_trace_centroid}

pub record ReasonTraceCandidate : Type 0 where
  pub memory_id : ℕ
  pub text' : String
  pub score : ℕ

abbrev pub reason_trace_candidate : Payload ReasonTraceCandidate
reason_trace_candidate = record {
  plain_map = λ a.
      entry "memory_id" (integer a.memory_id)
        (entry "text" (text a.text') (entry "score" (float a.score) (end)));
  from_map = λ m. do
    memory_id' ← field read_integer "memory_id" m
    got_text ← field read_text "text" m
    score' ← field read_float "score" m
    ok (record { memory_id = memory_id'; text' = got_text; score = score' });
  round_trip = λ a. refl;
}

pub record ReasonTraceBase : Type 0 where
  pub candidates : List ReasonTraceCandidate

abbrev pub reason_trace_base : Payload ReasonTraceBase
reason_trace_base = record {
  plain_map = λ a.
      entry "candidates"
        ((write_list (λ x. object (reason_trace_candidate.plain_map x))) a.candidates) (end);
  from_map = λ m. do
    candidates' ← field (read_list (read_object reason_trace_candidate.from_map)) "candidates" m
    ok (record { candidates = candidates' });
  round_trip = λ a. rw (read_payloads reason_trace_candidate a.candidates) refl;
}

pub record ReasonTraceEdgeCandidate : Type 0 where
  pub memory_id : ℕ
  pub text' : String
  pub edge_kind : ℕ
  pub depth : ℕ
  pub from_memory_id : ℕ
  pub raw_score : ℕ

abbrev pub reason_trace_edge_candidate : Payload ReasonTraceEdgeCandidate
reason_trace_edge_candidate = record {
  plain_map = λ a. entry "memory_id" (integer a.memory_id) (
      entry "text" (text a.text') (
        entry "edge_kind" (integer a.edge_kind) (
          entry "depth" (integer a.depth) (
            entry "from_memory_id" (integer a.from_memory_id)
              (entry "raw_score" (float a.raw_score) (end))))));
  from_map = λ m. do
    memory_id' ← field read_integer "memory_id" m
    got_text ← field read_text "text" m
    edge_kind' ← field read_integer "edge_kind" m
    depth' ← field read_integer "depth" m
    from_memory_id' ← field read_integer "from_memory_id" m
    raw_score' ← field read_float "raw_score" m
    ok (record {
      memory_id = memory_id';
      text' = got_text;
      edge_kind = edge_kind';
      depth = depth';
      from_memory_id = from_memory_id';
      raw_score = raw_score';
    });
  round_trip = λ a. refl;
}

pub record ReasonTraceIdWithText : Type 0 where
  pub memory_id : ℕ
  pub text' : String

abbrev pub reason_trace_id_with_text : Payload ReasonTraceIdWithText
reason_trace_id_with_text = record {
  plain_map = λ a. entry "memory_id" (integer a.memory_id) (entry "text" (text a.text') (end));
  from_map = λ m. do
    memory_id' ← field read_integer "memory_id" m
    got_text ← field read_text "text" m
    ok (record { memory_id = memory_id'; text' = got_text });
  round_trip = λ a. refl;
}

pub record ReasonTraceScoredId : Type 0 where
  pub memory_id : ℕ
  pub text' : String
  pub score : ℕ

abbrev pub reason_trace_scored_id : Payload ReasonTraceScoredId
reason_trace_scored_id = record {
  plain_map = λ a.
      entry "memory_id" (integer a.memory_id)
        (entry "text" (text a.text') (entry "score" (float a.score) (end)));
  from_map = λ m. do
    memory_id' ← field read_integer "memory_id" m
    got_text ← field read_text "text" m
    score' ← field read_float "score" m
    ok (record { memory_id = memory_id'; text' = got_text; score = score' });
  round_trip = λ a. refl;
}

pub record ReasonTraceWalk : Type 0 where
  pub considered : List ReasonTraceEdgeCandidate
  pub dropped_by_edge_kind : List ReasonTraceEdgeCandidate
  pub dropped_by_tombstone : List ReasonTraceIdWithText
  pub dropped_by_visited : List ReasonTraceIdWithText
  pub dropped_by_confidence : List ReasonTraceScoredId
  pub dropped_by_max_supporting : List ReasonTraceIdWithText
  pub dropped_by_max_contradicting : List ReasonTraceIdWithText

abbrev pub reason_trace_walk : Payload ReasonTraceWalk
reason_trace_walk = record {
  plain_map = λ a.
      entry "considered"
        ((write_list (λ x. object (reason_trace_edge_candidate.plain_map x))) a.considered)
        (entry "dropped_by_edge_kind"
          ((write_list (λ x. object (reason_trace_edge_candidate.plain_map x)))
            a.dropped_by_edge_kind)
          (entry "dropped_by_tombstone"
            ((write_list (λ x. object (reason_trace_id_with_text.plain_map x)))
              a.dropped_by_tombstone)
            (entry "dropped_by_visited"
              ((write_list (λ x. object (reason_trace_id_with_text.plain_map x)))
                a.dropped_by_visited)
              (entry "dropped_by_confidence"
                ((write_list (λ x. object (reason_trace_scored_id.plain_map x)))
                  a.dropped_by_confidence)
                (entry "dropped_by_max_supporting"
                  ((write_list (λ x. object (reason_trace_id_with_text.plain_map x)))
                    a.dropped_by_max_supporting)
                  (entry "dropped_by_max_contradicting"
                    ((write_list (λ x. object (reason_trace_id_with_text.plain_map x)))
                      a.dropped_by_max_contradicting)
                    (end)))))));
  from_map = λ m. do
    considered' ←
        field (read_list (read_object reason_trace_edge_candidate.from_map)) "considered" m
    dropped_by_edge_kind' ←
        field (read_list (read_object reason_trace_edge_candidate.from_map)) "dropped_by_edge_kind"
          m
    dropped_by_tombstone' ←
        field (read_list (read_object reason_trace_id_with_text.from_map)) "dropped_by_tombstone" m
    dropped_by_visited' ←
        field (read_list (read_object reason_trace_id_with_text.from_map)) "dropped_by_visited" m
    dropped_by_confidence' ←
        field (read_list (read_object reason_trace_scored_id.from_map)) "dropped_by_confidence" m
    dropped_by_max_supporting' ←
        field (read_list (read_object reason_trace_id_with_text.from_map))
          "dropped_by_max_supporting" m
    dropped_by_max_contradicting' ←
        field (read_list (read_object reason_trace_id_with_text.from_map))
          "dropped_by_max_contradicting" m
    ok (record {
      considered = considered';
      dropped_by_edge_kind = dropped_by_edge_kind';
      dropped_by_tombstone = dropped_by_tombstone';
      dropped_by_visited = dropped_by_visited';
      dropped_by_confidence = dropped_by_confidence';
      dropped_by_max_supporting = dropped_by_max_supporting';
      dropped_by_max_contradicting = dropped_by_max_contradicting';
    });
  round_trip = λ a.
      rw
        (
          read_payloads reason_trace_edge_candidate a.considered,
          read_payloads reason_trace_edge_candidate a.dropped_by_edge_kind,
          read_payloads reason_trace_id_with_text a.dropped_by_tombstone,
          read_payloads reason_trace_id_with_text a.dropped_by_visited,
          read_payloads reason_trace_scored_id a.dropped_by_confidence,
          read_payloads reason_trace_id_with_text a.dropped_by_max_supporting,
          read_payloads reason_trace_id_with_text a.dropped_by_max_contradicting,
        )
        refl;
}

pub record ReasonTraceScoreBreakdown : Type 0 where
  pub memory_id : ℕ
  pub text' : String
  pub base_similarity : ℕ
  pub decay : ℕ
  pub weight_product : ℕ
  pub alignment : ℕ
  pub analogical_fit : ℕ
  pub final_score : ℕ

abbrev pub reason_trace_score_breakdown : Payload ReasonTraceScoreBreakdown
reason_trace_score_breakdown = record {
  plain_map = λ a. entry "memory_id" (integer a.memory_id) (
      entry "text" (text a.text') (
        entry "base_similarity" (float a.base_similarity) (
          entry "decay" (float a.decay) (
            entry "weight_product" (float a.weight_product) (
              entry "alignment" (float a.alignment) (
                entry "analogical_fit" (float a.analogical_fit)
                  (entry "final_score" (float a.final_score) (end))))))));
  from_map = λ m. do
    memory_id' ← field read_integer "memory_id" m
    got_text ← field read_text "text" m
    base_similarity' ← field read_float "base_similarity" m
    decay' ← field read_float "decay" m
    weight_product' ← field read_float "weight_product" m
    alignment' ← field read_float "alignment" m
    analogical_fit' ← field read_float "analogical_fit" m
    final_score' ← field read_float "final_score" m
    ok (record {
      memory_id = memory_id';
      text' = got_text;
      base_similarity = base_similarity';
      decay = decay';
      weight_product = weight_product';
      alignment = alignment';
      analogical_fit = analogical_fit';
      final_score = final_score';
    });
  round_trip = λ a. refl;
}

pub record ReasonTrace : Type 0 where
  pub base : ReasonTraceBase
  pub walk : ReasonTraceWalk
  pub scoring : List ReasonTraceScoreBreakdown
  pub centroid : ReasonTraceCentroid

abbrev pub reason_trace : Payload ReasonTrace
reason_trace = record {
  plain_map = λ a. entry "base" (object (reason_trace_base.plain_map a.base)) (
      entry "walk" (object (reason_trace_walk.plain_map a.walk)) (
        entry "scoring"
          ((write_list (λ x. object (reason_trace_score_breakdown.plain_map x))) a.scoring)
          (entry "centroid" (object (reason_trace_centroid.plain_map a.centroid)) (end))));
  from_map = λ m. do
    base' ← field (read_object reason_trace_base.from_map) "base" m
    walk' ← field (read_object reason_trace_walk.from_map) "walk" m
    scoring' ← field (read_list (read_object reason_trace_score_breakdown.from_map)) "scoring" m
    centroid' ← field (read_object reason_trace_centroid.from_map) "centroid" m
    ok (record { base = base'; walk = walk'; scoring = scoring'; centroid = centroid' });
  round_trip = λ a.
      rw
        (
          reason_trace_base.round_trip a.base,
          reason_trace_walk.round_trip a.walk,
          read_payloads reason_trace_score_breakdown a.scoring,
          reason_trace_centroid.round_trip a.centroid,
        )
        refl;
}
