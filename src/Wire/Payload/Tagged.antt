-- ===== src/Wire/Payload/Tagged.antt =====
-- python/src/brain_db_sdk/wire/types.py: the values with a tag, each the map of the tag to what it carries or,
-- where it carries nothing, the tag's text. A tag that a class does not name is `type_error`.
use Prim.Native.String.{String}
use package.text.Mathlib.Text.{◌==◌}
use brain_sdk.Prelude.{ℕ, Bool, List, refl, ap, ◌≡◌, if◌then◌else◌}
use brain_sdk.Wire.Payload.{Payload}
use brain_sdk.Wire.Value.{
  Value, Loaded, ◌>>=◌, end, entry, integer, float, boolean, text, bytes, object, write_list, ok,
  type_error, field, read_integer, read_float, read_bool, read_text, read_bytes, read_list,
  read_object, read_integers, read_texts, read_byte_strings, loaded_as, tagged, read_tagged,
  read_tagged_or_name,
}
use brain_sdk.Wire.Payload.Handshake.{MtlsClaim, mtls_claim}

-- What a plan's endpoint by vector carries.
pub record VectorSlot : Type 0 where
  pub offset : ℕ
  pub dim : ℕ

abbrev pub vector_slot : Payload VectorSlot
vector_slot = record {
  plain_map = λ a. entry "offset" (integer a.offset) (entry "dim" (integer a.dim) end);
  from_map = λ m. do
    offset' ← field read_integer "offset" m
    dim' ← field read_integer "dim" m
    ok (record { offset = offset'; dim = dim' });
  round_trip = λ a. refl;
}

pub data AuthCredentials : Type 0 where
  token : List ℕ → AuthCredentials
  mtls : MtlsClaim → AuthCredentials

abbrev pub auth_credentials_value : AuthCredentials → Value
auth_credentials_value (token x) = tagged "Token" (write_list integer x)
auth_credentials_value (mtls x) = tagged "Mtls" (object (mtls_claim.plain_map x))

abbrev read_auth_credentials_tag : String → Value → Loaded AuthCredentials
read_auth_credentials_tag tag v =
    if tag == "Token"
    then loaded_as token (read_list read_integer v)
    else if tag == "Mtls"
    then loaded_as mtls (read_object mtls_claim.from_map v)
    else type_error

abbrev pub read_auth_credentials : Value → Loaded AuthCredentials
read_auth_credentials = read_tagged read_auth_credentials_tag

pub read_auth_credentials_lem :
    (x : AuthCredentials) → read_auth_credentials (auth_credentials_value x) ≡ ok x
read_auth_credentials_lem (token x) = ap (loaded_as token) (read_integers x)
read_auth_credentials_lem (mtls x) = ap (loaded_as mtls) (mtls_claim.round_trip x)

pub data EvidenceRef : Type 0 where
  inline : List (List ℕ) → EvidenceRef
  overflow : List ℕ → EvidenceRef

abbrev pub evidence_ref_value : EvidenceRef → Value
evidence_ref_value (inline x) = tagged "Inline" (write_list bytes x)
evidence_ref_value (overflow x) = tagged "Overflow" (bytes x)

abbrev read_evidence_ref_tag : String → Value → Loaded EvidenceRef
read_evidence_ref_tag tag v =
    if tag == "Inline"
    then loaded_as inline (read_list read_bytes v)
    else if tag == "Overflow"
    then loaded_as overflow (read_bytes v)
    else type_error

abbrev pub read_evidence_ref : Value → Loaded EvidenceRef
read_evidence_ref = read_tagged read_evidence_ref_tag

pub read_evidence_ref_lem : (x : EvidenceRef) → read_evidence_ref (evidence_ref_value x) ≡ ok x
read_evidence_ref_lem (inline x) = ap (loaded_as inline) (read_byte_strings x)
read_evidence_ref_lem (overflow x) = refl

pub data StatementValue : Type 0 where
  text_value : String → StatementValue
  integer_value : ℕ → StatementValue
  float_value : ℕ → StatementValue
  bool_value : Bool → StatementValue
  unix_nanos : ℕ → StatementValue
  blob : List ℕ → StatementValue

abbrev pub statement_value_value : StatementValue → Value
statement_value_value (text_value x) = tagged "Text" (text x)
statement_value_value (integer_value x) = tagged "Integer" (integer x)
statement_value_value (float_value x) = tagged "Float" (float x)
statement_value_value (bool_value x) = tagged "Bool" (boolean x)
statement_value_value (unix_nanos x) = tagged "UnixNanos" (integer x)
statement_value_value (blob x) = tagged "Blob" (write_list integer x)

abbrev read_statement_value_tag : String → Value → Loaded StatementValue
read_statement_value_tag tag v =
    if tag == "Text"
    then loaded_as text_value (read_text v)
    else if tag == "Integer"
    then loaded_as integer_value (read_integer v)
    else if tag == "Float"
    then loaded_as float_value (read_float v)
    else if tag == "Bool"
    then loaded_as bool_value (read_bool v)
    else if tag == "UnixNanos"
    then loaded_as unix_nanos (read_integer v)
    else if tag == "Blob"
    then loaded_as blob (read_list read_integer v)
    else type_error

abbrev pub read_statement_value : Value → Loaded StatementValue
read_statement_value = read_tagged read_statement_value_tag

pub read_statement_value_lem :
    (x : StatementValue) → read_statement_value (statement_value_value x) ≡ ok x
read_statement_value_lem (text_value x) = refl
read_statement_value_lem (integer_value x) = refl
read_statement_value_lem (float_value x) = refl
read_statement_value_lem (bool_value x) = refl
read_statement_value_lem (unix_nanos x) = refl
read_statement_value_lem (blob x) = ap (loaded_as blob) (read_integers x)

pub data StatementObject : Type 0 where
  entity_ref : List ℕ → StatementObject
  memory_ref : List ℕ → StatementObject
  statement_ref : List ℕ → StatementObject
  value_object : StatementValue → StatementObject

abbrev pub statement_object_value : StatementObject → Value
statement_object_value (entity_ref x) = tagged "EntityRef" (bytes x)
statement_object_value (memory_ref x) = tagged "MemoryRef" (bytes x)
statement_object_value (statement_ref x) = tagged "StatementRef" (bytes x)
statement_object_value (value_object x) = tagged "Value" (statement_value_value x)

abbrev read_statement_object_tag : String → Value → Loaded StatementObject
read_statement_object_tag tag v =
    if tag == "EntityRef"
    then loaded_as entity_ref (read_bytes v)
    else if tag == "MemoryRef"
    then loaded_as memory_ref (read_bytes v)
    else if tag == "StatementRef"
    then loaded_as statement_ref (read_bytes v)
    else if tag == "Value"
    then loaded_as value_object (read_statement_value v)
    else type_error

abbrev pub read_statement_object : Value → Loaded StatementObject
read_statement_object = read_tagged read_statement_object_tag

pub read_statement_object_lem :
    (x : StatementObject) → read_statement_object (statement_object_value x) ≡ ok x
read_statement_object_lem (entity_ref x) = refl
read_statement_object_lem (memory_ref x) = refl
read_statement_object_lem (statement_ref x) = refl
read_statement_object_lem (value_object x) =
    ap (loaded_as value_object) (read_statement_value_lem x)

pub data RetrieverSelection : Type 0 where
  auto : RetrieverSelection
  explicit : List String → RetrieverSelection

abbrev pub retriever_selection_value : RetrieverSelection → Value
retriever_selection_value auto = text "Auto"
retriever_selection_value (explicit x) = tagged "Explicit" (write_list text x)

abbrev read_retriever_selection_name : String → Loaded RetrieverSelection
read_retriever_selection_name tag = if tag == "Auto" then ok auto else type_error

abbrev read_retriever_selection_tag : String → Value → Loaded RetrieverSelection
read_retriever_selection_tag tag v =
    if tag == "Explicit" then loaded_as explicit (read_list read_text v) else type_error

abbrev pub read_retriever_selection : Value → Loaded RetrieverSelection
read_retriever_selection =
    read_tagged_or_name read_retriever_selection_name read_retriever_selection_tag

pub read_retriever_selection_lem :
    (x : RetrieverSelection) → read_retriever_selection (retriever_selection_value x) ≡ ok x
read_retriever_selection_lem auto = refl
read_retriever_selection_lem (explicit x) = ap (loaded_as explicit) (read_texts x)

pub data PlanState : Type 0 where
  memory_state : ℕ → PlanState
  text_state : String → PlanState
  vector_state : VectorSlot → PlanState

abbrev pub plan_state_value : PlanState → Value
plan_state_value (memory_state x) = tagged "ByMemoryId" (integer x)
plan_state_value (text_state x) = tagged "ByText" (text x)
plan_state_value (vector_state x) = tagged "ByVector" (object (vector_slot.plain_map x))

abbrev read_plan_state_tag : String → Value → Loaded PlanState
read_plan_state_tag tag v =
    if tag == "ByMemoryId"
    then loaded_as memory_state (read_integer v)
    else if tag == "ByText"
    then loaded_as text_state (read_text v)
    else if tag == "ByVector"
    then loaded_as vector_state (read_object vector_slot.from_map v)
    else type_error

abbrev pub read_plan_state : Value → Loaded PlanState
read_plan_state = read_tagged read_plan_state_tag

pub read_plan_state_lem : (x : PlanState) → read_plan_state (plan_state_value x) ≡ ok x
read_plan_state_lem (memory_state x) = refl
read_plan_state_lem (text_state x) = refl
read_plan_state_lem (vector_state x) = ap (loaded_as vector_state) (vector_slot.round_trip x)

pub data TransitionKind : Type 0 where
  initial : TransitionKind
  causal : TransitionKind
  temporal : TransitionKind
  similarity : TransitionKind
  other_transition : String → TransitionKind

abbrev pub transition_kind_value : TransitionKind → Value
transition_kind_value initial = text "Initial"
transition_kind_value causal = text "Causal"
transition_kind_value temporal = text "Temporal"
transition_kind_value similarity = text "Similarity"
transition_kind_value (other_transition x) = tagged "Other" (text x)

abbrev read_transition_kind_name : String → Loaded TransitionKind
read_transition_kind_name tag =
    if tag == "Initial"
    then ok initial
    else if tag == "Causal"
    then ok causal
    else if tag == "Temporal"
    then ok temporal
    else if tag == "Similarity"
    then ok similarity
    else type_error

abbrev read_transition_kind_tag : String → Value → Loaded TransitionKind
read_transition_kind_tag tag v =
    if tag == "Other" then loaded_as other_transition (read_text v) else type_error

abbrev pub read_transition_kind : Value → Loaded TransitionKind
read_transition_kind = read_tagged_or_name read_transition_kind_name read_transition_kind_tag

pub read_transition_kind_lem :
    (x : TransitionKind) → read_transition_kind (transition_kind_value x) ≡ ok x
read_transition_kind_lem initial = refl
read_transition_kind_lem causal = refl
read_transition_kind_lem temporal = refl
read_transition_kind_lem similarity = refl
read_transition_kind_lem (other_transition x) = refl

pub data ObservationInput : Type 0 where
  memory_cue : ℕ → ObservationInput
  text_cue : String → ObservationInput

abbrev pub observation_input_value : ObservationInput → Value
observation_input_value (memory_cue x) = tagged "ByMemoryId" (integer x)
observation_input_value (text_cue x) = tagged "ByText" (text x)

abbrev read_observation_input_tag : String → Value → Loaded ObservationInput
read_observation_input_tag tag v =
    if tag == "ByMemoryId"
    then loaded_as memory_cue (read_integer v)
    else if tag == "ByText"
    then loaded_as text_cue (read_text v)
    else type_error

abbrev pub read_observation_input : Value → Loaded ObservationInput
read_observation_input = read_tagged read_observation_input_tag

pub read_observation_input_lem :
    (x : ObservationInput) → read_observation_input (observation_input_value x) ≡ ok x
read_observation_input_lem (memory_cue x) = refl
read_observation_input_lem (text_cue x) = refl

pub data InferenceKind : Type 0 where
  causal_explanation : InferenceKind
  evidence_accumulation : InferenceKind
  analogical_inference : InferenceKind
  other_inference : String → InferenceKind

abbrev pub inference_kind_value : InferenceKind → Value
inference_kind_value causal_explanation = text "CausalExplanation"
inference_kind_value evidence_accumulation = text "EvidenceAccumulation"
inference_kind_value analogical_inference = text "AnalogicalInference"
inference_kind_value (other_inference x) = tagged "Other" (text x)

abbrev read_inference_kind_name : String → Loaded InferenceKind
read_inference_kind_name tag =
    if tag == "CausalExplanation"
    then ok causal_explanation
    else if tag == "EvidenceAccumulation"
    then ok evidence_accumulation
    else if tag == "AnalogicalInference"
    then ok analogical_inference
    else type_error

abbrev read_inference_kind_tag : String → Value → Loaded InferenceKind
read_inference_kind_tag tag v =
    if tag == "Other" then loaded_as other_inference (read_text v) else type_error

abbrev pub read_inference_kind : Value → Loaded InferenceKind
read_inference_kind = read_tagged_or_name read_inference_kind_name read_inference_kind_tag

pub read_inference_kind_lem :
    (x : InferenceKind) → read_inference_kind (inference_kind_value x) ≡ ok x
read_inference_kind_lem causal_explanation = refl
read_inference_kind_lem evidence_accumulation = refl
read_inference_kind_lem analogical_inference = refl
read_inference_kind_lem (other_inference x) = refl
