-- ===== src/Wire/Payload/Transactions.antt =====
-- python/src/brain_db_sdk/wire/types.py: transactions and the budgets of PLAN.
use Prim.Native.String.{String}
use brain_sdk.Prelude.{ℕ, Bool, Option, List, refl}
use brain_sdk.Wire.Payload.{Payload}
use brain_sdk.Wire.Value.{
  ◌>>=◌, end, entry, bytes, integer, text, boolean, or_null, ok, field, read_bool, read_integer,
  read_text, read_bytes, read_optional, read_optional_text,
}

pub record UnlinkResponse : Type 0 where
  pub source : ℕ
  pub target : ℕ
  pub kind : ℕ
  pub removed : Bool

abbrev pub unlink_response : Payload UnlinkResponse
unlink_response = record {
  plain_map = λ a. entry "source" (integer a.source) (
      entry "target" (integer a.target)
        (entry "kind" (integer a.kind) (entry "removed" (boolean a.removed) (end))));
  from_map = λ m. do
    source' ← field read_integer "source" m
    target' ← field read_integer "target" m
    kind' ← field read_integer "kind" m
    removed' ← field read_bool "removed" m
    ok (record { source = source'; target = target'; kind = kind'; removed = removed' });
  round_trip = λ a. refl;
}

pub record PlanBudget : Type 0 where
  pub max_steps : ℕ
  pub max_wall_time_ms : ℕ
  pub max_branches_explored : ℕ

abbrev pub plan_budget : Payload PlanBudget
plan_budget = record {
  plain_map = λ a. entry "max_steps" (integer a.max_steps) (
      entry "max_wall_time_ms" (integer a.max_wall_time_ms)
        (entry "max_branches_explored" (integer a.max_branches_explored) (end)));
  from_map = λ m. do
    max_steps' ← field read_integer "max_steps" m
    max_wall_time_ms' ← field read_integer "max_wall_time_ms" m
    max_branches_explored' ← field read_integer "max_branches_explored" m
    ok (record {
      max_steps = max_steps';
      max_wall_time_ms = max_wall_time_ms';
      max_branches_explored = max_branches_explored';
    });
  round_trip = λ a. refl;
}

pub record ReasonTraceCentroid : Type 0 where
  pub computed : Bool
  pub skipped_reason : Option String

abbrev pub reason_trace_centroid : Payload ReasonTraceCentroid
reason_trace_centroid = record {
  plain_map = λ a.
      entry "computed" (boolean a.computed)
        (entry "skipped_reason" (or_null text a.skipped_reason) (end));
  from_map = λ m. do
    computed' ← field read_bool "computed" m
    skipped_reason' ← field (read_optional read_text) "skipped_reason" m
    ok (record { computed = computed'; skipped_reason = skipped_reason' });
  round_trip = λ a. rw (read_optional_text a.skipped_reason) refl;
}

pub record TxnBeginResponse : Type 0 where
  pub txn_id : List ℕ
  pub timeout_seconds : ℕ
  pub started_at_unix_nanos : ℕ

abbrev pub txn_begin_response : Payload TxnBeginResponse
txn_begin_response = record {
  plain_map = λ a. entry "txn_id" (bytes a.txn_id) (
      entry "timeout_seconds" (integer a.timeout_seconds)
        (entry "started_at_unix_nanos" (integer a.started_at_unix_nanos) (end)));
  from_map = λ m. do
    txn_id' ← field read_bytes "txn_id" m
    timeout_seconds' ← field read_integer "timeout_seconds" m
    started_at_unix_nanos' ← field read_integer "started_at_unix_nanos" m
    ok (record {
      txn_id = txn_id';
      timeout_seconds = timeout_seconds';
      started_at_unix_nanos = started_at_unix_nanos';
    });
  round_trip = λ a. refl;
}

pub record TxnCommitRequest : Type 0 where
  pub txn_id : List ℕ

abbrev pub txn_commit_request : Payload TxnCommitRequest
txn_commit_request = record {
  plain_map = λ a. entry "txn_id" (bytes a.txn_id) (end);
  from_map = λ m. do
    txn_id' ← field read_bytes "txn_id" m
    ok (record { txn_id = txn_id' });
  round_trip = λ a. refl;
}

pub record TxnCommitResponse : Type 0 where
  pub txn_id : List ℕ
  pub committed_at_unix_nanos : ℕ
  pub operations_applied : ℕ

abbrev pub txn_commit_response : Payload TxnCommitResponse
txn_commit_response = record {
  plain_map = λ a. entry "txn_id" (bytes a.txn_id) (
      entry "committed_at_unix_nanos" (integer a.committed_at_unix_nanos)
        (entry "operations_applied" (integer a.operations_applied) (end)));
  from_map = λ m. do
    txn_id' ← field read_bytes "txn_id" m
    committed_at_unix_nanos' ← field read_integer "committed_at_unix_nanos" m
    operations_applied' ← field read_integer "operations_applied" m
    ok (record {
      txn_id = txn_id';
      committed_at_unix_nanos = committed_at_unix_nanos';
      operations_applied = operations_applied';
    });
  round_trip = λ a. refl;
}

pub record TxnAbortRequest : Type 0 where
  pub txn_id : List ℕ

abbrev pub txn_abort_request : Payload TxnAbortRequest
txn_abort_request = record {
  plain_map = λ a. entry "txn_id" (bytes a.txn_id) (end);
  from_map = λ m. do
    txn_id' ← field read_bytes "txn_id" m
    ok (record { txn_id = txn_id' });
  round_trip = λ a. refl;
}

pub record TxnAbortResponse : Type 0 where
  pub txn_id : List ℕ
  pub operations_discarded : ℕ

abbrev pub txn_abort_response : Payload TxnAbortResponse
txn_abort_response = record {
  plain_map = λ a.
      entry "txn_id" (bytes a.txn_id)
        (entry "operations_discarded" (integer a.operations_discarded) (end));
  from_map = λ m. do
    txn_id' ← field read_bytes "txn_id" m
    operations_discarded' ← field read_integer "operations_discarded" m
    ok (record { txn_id = txn_id'; operations_discarded = operations_discarded' });
  round_trip = λ a. refl;
}
