-- ===== src/Wire/Payload/Graph.antt =====
-- python/src/brain_db_sdk/wire/types.py: FORGET, the graph and what its creating verbs answer.
use Prim.Native.String.{String}
use brain_sdk.Prelude.{ℕ, Bool, List, refl}
use brain_sdk.Wire.Payload.{Payload}
use brain_sdk.Wire.Value.{
  ◌>>=◌, end, entry, bytes, integer, text, boolean, ok, field, read_bool, read_integer, read_text,
  read_bytes,
}

pub record ForgetResponse : Type 0 where
  pub memory_id : ℕ
  pub was_already_forgotten : Bool
  pub edges_removed : ℕ

abbrev pub forget_response : Payload ForgetResponse
forget_response = record {
  plain_map = λ a. entry "memory_id" (integer a.memory_id) (
      entry "was_already_forgotten" (boolean a.was_already_forgotten)
        (entry "edges_removed" (integer a.edges_removed) (end)));
  from_map = λ m. do
    memory_id' ← field read_integer "memory_id" m
    was_already_forgotten' ← field read_bool "was_already_forgotten" m
    edges_removed' ← field read_integer "edges_removed" m
    ok (record {
      memory_id = memory_id';
      was_already_forgotten = was_already_forgotten';
      edges_removed = edges_removed';
    });
  round_trip = λ a. refl;
}

pub record GraphNode : Type 0 where
  pub id : List ℕ
  pub kind : ℕ
  pub label : String
  pub type_qname : String

abbrev pub graph_node : Payload GraphNode
graph_node = record {
  plain_map = λ a. entry "id" (bytes a.id) (
      entry "kind" (integer a.kind)
        (entry "label" (text a.label) (entry "type_qname" (text a.type_qname) (end))));
  from_map = λ m. do
    id' ← field read_bytes "id" m
    kind' ← field read_integer "kind" m
    label' ← field read_text "label" m
    type_qname' ← field read_text "type_qname" m
    ok (record { id = id'; kind = kind'; label = label'; type_qname = type_qname' });
  round_trip = λ a. refl;
}

pub record GraphEdge : Type 0 where
  pub from_id : List ℕ
  pub to_id : List ℕ
  pub kind : ℕ
  pub label : String

abbrev pub graph_edge : Payload GraphEdge
graph_edge = record {
  plain_map = λ a. entry "from_id" (bytes a.from_id) (
      entry "to_id" (bytes a.to_id)
        (entry "kind" (integer a.kind) (entry "label" (text a.label) (end))));
  from_map = λ m. do
    from_id' ← field read_bytes "from_id" m
    to_id' ← field read_bytes "to_id" m
    kind' ← field read_integer "kind" m
    label' ← field read_text "label" m
    ok (record { from_id = from_id'; to_id = to_id'; kind = kind'; label = label' });
  round_trip = λ a. refl;
}

pub record EntityCreateResponse : Type 0 where
  pub entity_id : List ℕ

abbrev pub entity_create_response : Payload EntityCreateResponse
entity_create_response = record {
  plain_map = λ a. entry "entity_id" (bytes a.entity_id) (end);
  from_map = λ m. do
    entity_id' ← field read_bytes "entity_id" m
    ok (record { entity_id = entity_id' });
  round_trip = λ a. refl;
}

pub record StatementCreateResponse : Type 0 where
  pub statement_id : List ℕ
  pub auto_superseded : List ℕ
  pub chain_root : List ℕ

abbrev pub statement_create_response : Payload StatementCreateResponse
statement_create_response = record {
  plain_map = λ a. entry "statement_id" (bytes a.statement_id) (
      entry "auto_superseded" (bytes a.auto_superseded)
        (entry "chain_root" (bytes a.chain_root) (end)));
  from_map = λ m. do
    statement_id' ← field read_bytes "statement_id" m
    auto_superseded' ← field read_bytes "auto_superseded" m
    chain_root' ← field read_bytes "chain_root" m
    ok (record {
      statement_id = statement_id';
      auto_superseded = auto_superseded';
      chain_root = chain_root';
    });
  round_trip = λ a. refl;
}

pub record RelationCreateResponse : Type 0 where
  pub relation_id : List ℕ

abbrev pub relation_create_response : Payload RelationCreateResponse
relation_create_response = record {
  plain_map = λ a. entry "relation_id" (bytes a.relation_id) (end);
  from_map = λ m. do
    relation_id' ← field read_bytes "relation_id" m
    ok (record { relation_id = relation_id' });
  round_trip = λ a. refl;
}
