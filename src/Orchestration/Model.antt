-- ===== src/Orchestration/Model.antt =====
-- The data of packages/orchestration-engine/src: engine/orchestration-state.ts, the ports'
-- requests and answers, events/orchestration-events.ts and engine/orchestration-result.ts. A
-- `Date` is its time in milliseconds.
use operaia_lab.Common.{ℕ, String, Bool, Option, List, ℤ}
use operaia_lab.Json.{Json}

pub data OrchestrationStatus : Type 0 where
  created : OrchestrationStatus
  running : OrchestrationStatus
  waiting : OrchestrationStatus
  replanning : OrchestrationStatus
  completed : OrchestrationStatus
  failed : OrchestrationStatus
  cancelled : OrchestrationStatus

pub data ExecutionOutcomeStatus : Type 0 where
  success : ExecutionOutcomeStatus
  partial : ExecutionOutcomeStatus
  failure : ExecutionOutcomeStatus

pub record ExecutionSummary : Type 0 where
  pub status : ExecutionOutcomeStatus
  pub executed : ℕ
  pub failed : ℕ
  pub duration_ms : ℕ

pub record CycleRecord : Type 0 where
  pub cycle : ℕ
  pub started_at : ℕ
  pub finished_at : ℕ
  pub duration_ms : ℤ
  pub objective_completed : Bool
  pub execution : Option ExecutionSummary
  pub error : Option String

pub record OrchestrationState : Type 0 where
  pub id : String
  pub objective : String
  pub current_cycle : ℕ
  pub status : OrchestrationStatus
  pub started_at : ℕ
  pub finished_at : Option ℕ
  pub last_execution : Option ExecutionSummary
  pub history : List CycleRecord

pub record ProposedPlan : Type 0 where
  pub id : String
  pub action_count : ℕ
  pub payload : Json

pub record RuntimeRequest : Type 0 where
  pub objective : String
  pub cycle : ℕ
  pub metadata : Json
  pub previous_execution : Option ExecutionSummary

pub record RuntimeOutcome : Type 0 where
  pub plan : ProposedPlan
  pub objective_completed : Bool
  pub output : Option String

pub data OrchestrationEventType : Type 0 where
  loop_started : OrchestrationEventType
  loop_finished : OrchestrationEventType
  cycle_started : OrchestrationEventType
  replanning_started : OrchestrationEventType
  execution_completed : OrchestrationEventType
  cycle_failed : OrchestrationEventType
  objective_reached : OrchestrationEventType

-- What the `data` of an event holds.
pub data EventData : Type 0 where
  execution_status : ExecutionOutcomeStatus → EventData
  final_status : OrchestrationStatus → EventData
  error_text : String → EventData

pub record OrchestrationEvent : Type 0 where
  pub type : OrchestrationEventType
  pub orchestration_id : String
  pub cycle : ℕ
  pub at : ℕ
  pub details : Option EventData

pub record OrchestrationResult : Type 0 where
  pub id : String
  pub status : OrchestrationStatus
  pub cycles : ℕ
  pub history : List CycleRecord
  pub started_at : ℕ
  pub finished_at : ℕ
  pub duration : ℤ
  pub objective_completed : Bool
  pub execution_summary : Option ExecutionSummary

-- What a port throws: its message, and whether it is a `FatalOrchestrationError`.
pub record Failure : Type 0 where
  pub message : String
  pub is_fatal : Bool
