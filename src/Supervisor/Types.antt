-- ===== src/Supervisor/Types.antt =====
-- The reports and requests of apps/api/src/modules/runtime/supervisor/types.ts.
use operaia_lab.Common.{ℕ, String, Bool, List, Option}

pub data CoordinationReason : Type 0 where
  novo_workspace : CoordinationReason
  missao_parada : CoordinationReason
  missao_bloqueada : CoordinationReason
  missao_aguardando : CoordinationReason
  missao_esgotada : CoordinationReason
  retry : CoordinationReason
  recuperacao : CoordinationReason
  backlog : CoordinationReason
  mudanca_importante : CoordinationReason
  congestionamento_fila : CoordinationReason
  acompanhamento_periodico : CoordinationReason

-- The fields of a scanned workspace that the dispatcher and the policies read.
pub record WorkspaceScanItem : Type 0 where
  pub workspace_id : String
  pub name : String
  pub status : String
  pub project_id : String
  pub needs_attention : Bool
  pub attention_reasons : List CoordinationReason
  pub open_missions : ℕ
  pub pending_tasks : ℕ

pub data MissionScanCategory : Type 0 where
  category_created : MissionScanCategory
  category_waiting : MissionScanCategory
  category_running : MissionScanCategory
  category_blocked : MissionScanCategory
  category_failed : MissionScanCategory
  category_completed : MissionScanCategory
  category_queued : MissionScanCategory
  category_retry : MissionScanCategory
  category_stale : MissionScanCategory
  category_timeout : MissionScanCategory

pub record MissionScanItem : Type 0 where
  pub mission_id : String
  pub workspace_id : String
  pub category : MissionScanCategory
  pub attempt : ℕ
  pub max_attempts : ℕ
  pub can_resume : Bool
  pub needs_coordination : Bool
  pub reason : String

-- The fields of a scanned queue that the dispatcher, the recovery and the policies read.
pub record QueueScanReport : Type 0 where
  pub depth : ℕ
  pub congested : Bool
  pub stuck : ℕ
  pub waiting : ℕ
  pub pending : ℕ

pub record CoordinationRequest : Type 0 where
  pub workspace_id : String
  pub project_id : Option String
  pub reason : CoordinationReason
  pub detail : String
  pub source_mission_id : Option String
  pub attempt : Option ℕ
  pub max_attempts : Option ℕ

pub record DispatchResult : Type 0 where
  pub dispatched : ℕ
  pub skipped : ℕ
  pub recovered : ℕ
  pub details : List String
  pub coordinations : List CoordinationRequest

pub data RecoveryKind : Type 0 where
  recovers_stale : RecoveryKind
  recovers_waiting : RecoveryKind
  recovers_blocked : RecoveryKind
  recovers_timeout : RecoveryKind
  recovers_failed_retry : RecoveryKind
  recovers_failed_exhausted : RecoveryKind

pub record RecoveryAction : Type 0 where
  pub kind : RecoveryKind
  pub count : ℕ
  pub reason : String
  pub create_coordination : Bool

pub record RecoveryReport : Type 0 where
  pub recovered_at : ℕ
  pub actions : List RecoveryAction
  pub infra_recovered : ℕ
  pub coordinations_requested : ℕ

pub data HealthStatus : Type 0 where
  health_ok : HealthStatus
  health_degraded : HealthStatus
  health_fail : HealthStatus

pub record WorkerScanReport : Type 0 where
  pub alive : ℕ
  pub total : ℕ
  pub stopped : ℕ
  pub busy : ℕ
  pub available : ℕ

pub data PolicyActionType : Type 0 where
  dispatch_coordinate : PolicyActionType
  recover_queue : PolicyActionType
  recover_workers : PolicyActionType
  skip : PolicyActionType

pub record PolicyAction : Type 0 where
  pub policy : String
  pub type : PolicyActionType
  pub reason : String
  pub count : Option ℕ
  pub workspace_id : Option String

pub record PolicyEvaluationResult : Type 0 where
  pub evaluated_at : ℕ
  pub actions : List PolicyAction
