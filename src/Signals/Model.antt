-- ===== src/Signals/Model.antt =====
-- The records of packages/domain-signals/src/types.ts and the transitions of lifecycle.ts. A
-- `Date` is its time in milliseconds.
use operaia_lab.Common.{ℕ, String, Bool, true, false, ◌||◌, List, Option}
use operaia_lab.Json.{Json}

pub data DomainSignalStatus : Type 0 where
  detected : DomainSignalStatus
  evaluated : DomainSignalStatus
  converted : DomainSignalStatus
  resolved : DomainSignalStatus
  ignored : DomainSignalStatus
  expired : DomainSignalStatus

pub data DomainSignalEvaluationDecision : Type 0 where
  convert_candidate : DomainSignalEvaluationDecision
  ignore : DomainSignalEvaluationDecision
  defer : DomainSignalEvaluationDecision

pub record WorkspaceSourceBindingRecord : Type 0 where
  pub id : String
  pub workspace_id : String
  pub source_type : String
  pub external_ref : String
  pub enabled : Bool
  pub config_json : Option Json
  pub secret_ref : Option String
  pub created_at : ℕ
  pub updated_at : ℕ

pub record EvaluationAudit : Type 0 where
  pub decision : DomainSignalEvaluationDecision
  pub policy : String
  pub reason : String
  pub applied_at : ℕ
  pub inputs : Option Json
  pub similar_signal_ids : List String

pub record DomainSignalRecord : Type 0 where
  pub id : String
  pub workspace_id : String
  pub binding_id : Option String
  pub source_type : String
  pub source_id : Option String
  pub type : String
  pub delivery_id : String
  pub signal_hash : String
  pub correlation_id : String
  pub status : DomainSignalStatus
  pub payload_json : Json
  pub metadata_json : Option Json
  pub evaluation_decision : Option DomainSignalEvaluationDecision
  pub evaluation_policy : Option String
  pub evaluation_reason : Option String
  pub evaluation_json : Option EvaluationAudit
  pub evaluated_at : Option ℕ
  pub mission_id : Option String
  pub payload_version : ℕ
  pub occurred_at : Option ℕ
  pub received_at : ℕ
  pub converted_at : Option ℕ
  pub resolved_at : Option ℕ
  pub expires_at : Option ℕ
  pub created_at : ℕ
  pub updated_at : ℕ

pub record UpsertBindingInput : Type 0 where
  pub workspace_id : String
  pub source_type : String
  pub external_ref : String
  pub enabled : Option Bool
  pub config_json : Option (Option Json)
  pub secret_ref : Option (Option String)

pub record IngestSignalInput : Type 0 where
  pub workspace_id : String
  pub source_type : String
  pub type : String
  pub delivery_id : String
  pub payload : Json
  pub source_id : Option String
  pub binding_id : Option String
  pub external_ref : Option String
  pub correlation_id : Option String
  pub signal_hash : Option String
  pub metadata : Option Json
  pub occurred_at : Option ℕ
  pub expires_at : Option ℕ
  pub payload_version : Option ℕ

pub record EvaluateSignalInput : Type 0 where
  pub signal_id : String
  pub decision : DomainSignalEvaluationDecision
  pub policy : String
  pub reason : String
  pub inputs : Option Json
  pub include_similar : Bool

pub data IngestResultKind : Type 0 where
  created : IngestResultKind
  duplicate_delivery : IngestResultKind

pub record IngestSignalResult : Type 0 where
  pub kind : IngestResultKind
  pub signal : DomainSignalRecord

pub data SignalError : Type 0 where
  missing_workspace_id : SignalError
  missing_source_type : SignalError
  missing_type : SignalError
  missing_delivery_id : SignalError
  missing_policy : SignalError
  missing_reason : SignalError
  missing_mission_id : SignalError
  binding_not_found : String → SignalError
  binding_diverges : SignalError
  binding_disabled : SignalError
  signal_not_found : String → SignalError
  invalid_transition : DomainSignalStatus → DomainSignalStatus → SignalError
  not_evaluated : DomainSignalStatus → SignalError
  not_convertible : SignalError
  delivery_exists : String → String → SignalError

unfoldable pub is_same_status : DomainSignalStatus → DomainSignalStatus → Bool
is_same_status detected detected = true
is_same_status evaluated evaluated = true
is_same_status converted converted = true
is_same_status resolved resolved = true
is_same_status ignored ignored = true
is_same_status expired expired = true
is_same_status a b = false

-- `ALLOWED[from].includes(to)`
unfoldable pub is_allowed : DomainSignalStatus → DomainSignalStatus → Bool
is_allowed detected evaluated = true
is_allowed detected ignored = true
is_allowed detected expired = true
is_allowed evaluated converted = true
is_allowed evaluated ignored = true
is_allowed evaluated expired = true
is_allowed evaluated detected = true
is_allowed converted resolved = true
is_allowed a b = false

unfoldable pub can_transition : DomainSignalStatus → DomainSignalStatus → Bool
unfolding is_same_status is_allowed
can_transition from to = is_same_status from to || is_allowed from to

unfoldable pub is_terminal_status : DomainSignalStatus → Bool
is_terminal_status resolved = true
is_terminal_status ignored = true
is_terminal_status expired = true
is_terminal_status other = false
