-- ===== src/Wire/Payload/Recall.antt =====
-- python/src/brain_db_sdk/wire/types.py: a query and the memories of its answer.
use Prim.Native.String.{String}
use brain_sdk.Prelude.{ℕ, Bool, false, Option, none, List, refl}
use brain_sdk.Wire.Payload.{
  Payload, read_some_payload, read_optional_payloads, read_optional_payload,
}
use brain_sdk.Wire.Value.Entries.{entries}
use brain_sdk.Wire.Value.{
  ◌>>=◌, end, entry, entry_unless_none, integer, float, text, bytes, boolean, object, or_null,
  write_list, ok, field, field_or, read_bool, read_integer, read_float, read_text, read_bytes,
  read_object, read_list, read_optional, read_optional_integer, read_optional_float, read_integers,
}
use brain_sdk.Wire.Payload.Answers.{EdgeView, edge_view, GraphEnrichment, graph_enrichment}
use brain_sdk.Wire.Payload.Identity.{ActAs, act_as}

pub record RecallRequest : Type 0 where
  pub cue_text : String
  pub subject_name : String
  pub max_results : ℕ
  pub confidence_threshold : ℕ
  pub session_filter : Option (List ℕ)
  pub age_bound_unix_nanos : Option ℕ
  pub as_of_record_time_unix_nanos : Option ℕ
  pub kind_filter : Option (List ℕ)
  pub salience_floor : ℕ
  pub include_edges : Bool
  pub include_graph : Bool
  pub include_text : Bool
  pub request_id : Option (List ℕ)
  pub txn_id : Option (List ℕ)
  pub trace : Bool
  pub act_as : Option ActAs
  pub scope : String

abbrev pub recall_request : Payload RecallRequest
recall_request = record {
  plain_map = λ a. entry "cue_text" (text a.cue_text) (
      entry "subject_name" (text a.subject_name) (
        entry "max_results" (integer a.max_results) (
          entry "confidence_threshold" (float a.confidence_threshold) (
            entry "session_filter" (or_null (write_list integer) a.session_filter) (
              entry "age_bound_unix_nanos" (or_null integer a.age_bound_unix_nanos) (
                entry "as_of_record_time_unix_nanos"
                  (or_null integer a.as_of_record_time_unix_nanos)
                  (entry "kind_filter" (or_null (write_list integer) a.kind_filter) (
                    entry "salience_floor" (float a.salience_floor) (
                      entry "include_edges" (boolean a.include_edges) (
                        entry "include_graph" (boolean a.include_graph) (
                          entry "include_text" (boolean a.include_text) (
                            entry "request_id" (or_null bytes a.request_id) (
                              entry "txn_id" (or_null bytes a.txn_id) (
                                entry "trace" (boolean a.trace) (
                                  entry_unless_none "act_as" (λ x. object (act_as.plain_map x))
                                    a.act_as (entry "scope" (text a.scope) (end)))))))))))))))));
  from_map = λ m. do
    cue_text' ← field read_text "cue_text" m
    subject_name' ← field read_text "subject_name" m
    max_results' ← field read_integer "max_results" m
    confidence_threshold' ← field read_float "confidence_threshold" m
    session_filter' ← field (read_optional (read_list read_integer)) "session_filter" m
    age_bound_unix_nanos' ← field (read_optional read_integer) "age_bound_unix_nanos" m
    as_of_record_time_unix_nanos' ←
        field (read_optional read_integer) "as_of_record_time_unix_nanos" m
    kind_filter' ← field (read_optional (read_list read_integer)) "kind_filter" m
    salience_floor' ← field read_float "salience_floor" m
    include_edges' ← field read_bool "include_edges" m
    include_graph' ← field read_bool "include_graph" m
    include_text' ← field read_bool "include_text" m
    request_id' ← field (read_optional read_bytes) "request_id" m
    txn_id' ← field (read_optional read_bytes) "txn_id" m
    trace' ← field_or read_bool false "trace" m
    act_as' ← field_or (read_optional (read_object act_as.from_map)) none "act_as" m
    scope' ← field_or read_text "Space" "scope" m
    ok (record {
      cue_text = cue_text';
      subject_name = subject_name';
      max_results = max_results';
      confidence_threshold = confidence_threshold';
      session_filter = session_filter';
      age_bound_unix_nanos = age_bound_unix_nanos';
      as_of_record_time_unix_nanos = as_of_record_time_unix_nanos';
      kind_filter = kind_filter';
      salience_floor = salience_floor';
      include_edges = include_edges';
      include_graph = include_graph';
      include_text = include_text';
      request_id = request_id';
      txn_id = txn_id';
      trace = trace';
      act_as = act_as';
      scope = scope';
    });
  round_trip = λ a. simp (entries, read_some_payload act_as) refl;
}

pub record MemoryResult : Type 0 where
  pub memory_id : ℕ
  pub text' : String
  pub similarity_score : ℕ
  pub confidence : ℕ
  pub salience : ℕ
  pub kind : ℕ
  pub space_id : List ℕ
  pub session_id : ℕ
  pub created_at_unix_nanos : ℕ
  pub last_accessed_at_unix_nanos : ℕ
  pub edges : Option (List EdgeView)
  pub contributing_retrievers : List ℕ
  pub fused_score : ℕ
  pub rerank_score : Option ℕ
  pub salience_initial : ℕ
  pub access_count : ℕ
  pub lsn : ℕ
  pub flags : ℕ
  pub consolidated_at_unix_nanos : Option ℕ
  pub occurred_at_unix_nanos : Option ℕ
  pub edges_out_count : ℕ
  pub edges_in_count : ℕ
  pub graph : Option GraphEnrichment

abbrev pub memory_result : Payload MemoryResult
memory_result = record {
  plain_map = λ a. entry "memory_id" (integer a.memory_id) (
      entry "text" (text a.text') (
        entry "similarity_score" (float a.similarity_score) (
          entry "confidence" (float a.confidence) (
            entry "salience" (float a.salience) (
              entry "kind" (integer a.kind) (
                entry "space_id" (bytes a.space_id) (
                  entry "session_id" (integer a.session_id) (
                    entry "created_at_unix_nanos" (integer a.created_at_unix_nanos) (
                      entry "last_accessed_at_unix_nanos" (integer a.last_accessed_at_unix_nanos) (
                        entry "edges"
                          (or_null (write_list (λ x. object (edge_view.plain_map x))) a.edges)
                          (entry "contributing_retrievers"
                            ((write_list integer) a.contributing_retrievers)
                            (entry "fused_score" (float a.fused_score) (
                              entry "rerank_score" (or_null float a.rerank_score) (
                                entry "salience_initial" (float a.salience_initial) (
                                  entry "access_count" (integer a.access_count) (
                                    entry "lsn" (integer a.lsn) (
                                      entry "flags" (integer a.flags) (
                                        entry "consolidated_at_unix_nanos"
                                          (or_null integer a.consolidated_at_unix_nanos)
                                          (entry "occurred_at_unix_nanos"
                                            (or_null integer a.occurred_at_unix_nanos)
                                            (entry "edges_out_count" (integer a.edges_out_count) (
                                              entry "edges_in_count" (integer a.edges_in_count) (
                                                entry "graph"
                                                  (or_null
                                                    (λ x. object (graph_enrichment.plain_map x))
                                                    a.graph)
                                                  (end)))))))))))))))))))))));
  from_map = λ m. do
    memory_id' ← field read_integer "memory_id" m
    got_text ← field read_text "text" m
    similarity_score' ← field read_float "similarity_score" m
    confidence' ← field read_float "confidence" m
    salience' ← field read_float "salience" m
    kind' ← field read_integer "kind" m
    space_id' ← field read_bytes "space_id" m
    session_id' ← field read_integer "session_id" m
    created_at_unix_nanos' ← field read_integer "created_at_unix_nanos" m
    last_accessed_at_unix_nanos' ← field read_integer "last_accessed_at_unix_nanos" m
    edges' ← field (read_optional (read_list (read_object edge_view.from_map))) "edges" m
    contributing_retrievers' ← field (read_list read_integer) "contributing_retrievers" m
    fused_score' ← field read_float "fused_score" m
    rerank_score' ← field (read_optional read_float) "rerank_score" m
    salience_initial' ← field read_float "salience_initial" m
    access_count' ← field read_integer "access_count" m
    lsn' ← field read_integer "lsn" m
    flags' ← field read_integer "flags" m
    consolidated_at_unix_nanos' ← field (read_optional read_integer) "consolidated_at_unix_nanos" m
    occurred_at_unix_nanos' ← field (read_optional read_integer) "occurred_at_unix_nanos" m
    edges_out_count' ← field read_integer "edges_out_count" m
    edges_in_count' ← field read_integer "edges_in_count" m
    graph' ← field (read_optional (read_object graph_enrichment.from_map)) "graph" m
    ok (record {
      memory_id = memory_id';
      text' = got_text;
      similarity_score = similarity_score';
      confidence = confidence';
      salience = salience';
      kind = kind';
      space_id = space_id';
      session_id = session_id';
      created_at_unix_nanos = created_at_unix_nanos';
      last_accessed_at_unix_nanos = last_accessed_at_unix_nanos';
      edges = edges';
      contributing_retrievers = contributing_retrievers';
      fused_score = fused_score';
      rerank_score = rerank_score';
      salience_initial = salience_initial';
      access_count = access_count';
      lsn = lsn';
      flags = flags';
      consolidated_at_unix_nanos = consolidated_at_unix_nanos';
      occurred_at_unix_nanos = occurred_at_unix_nanos';
      edges_out_count = edges_out_count';
      edges_in_count = edges_in_count';
      graph = graph';
    });
  round_trip = λ a.
      rw
        (
          read_optional_payloads edge_view a.edges,
          read_integers a.contributing_retrievers,
          read_optional_float a.rerank_score,
          read_optional_integer a.consolidated_at_unix_nanos,
          read_optional_integer a.occurred_at_unix_nanos,
          read_optional_payload graph_enrichment a.graph,
        )
        refl;
}
