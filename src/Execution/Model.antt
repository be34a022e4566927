-- ===== src/Execution/Model.antt =====
-- The data of packages/execution-engine/src/execution, and its ports: executors, policy, store and
-- clock over a world `W` that each call may change. A `Date` is its time in milliseconds.
use operaia_lab.Common.{ℕ, String, Bool, List, Option, ℤ}
use operaia_lab.Json.{Json}
use operaia_lab.Common.Effects.{Result}

pub data ActionStatus : Type 0 where
  pending : ActionStatus
  running : ActionStatus
  success : ActionStatus
  failed : ActionStatus
  skipped : ActionStatus

pub record Action : Type 0 where
  pub id : String
  pub type : String
  pub description : String
  pub payload : Json
  pub priority : String
  pub status : ActionStatus

pub record ExecutionPlan : Type 0 where
  pub id : String
  pub actions : List Action
  pub metadata : Json

-- The plan that `execute` is given: `actions` is `none` where the value is no array.
pub record PlanInput : Type 0 where
  pub id : String
  pub actions : Option (List Action)
  pub metadata : Json

pub record ExecutionContext : Type 0 where
  pub execution_id : String
  pub started_at : ℕ
  pub metadata : Json

pub data LogLevel : Type 0 where
  debug : LogLevel
  info : LogLevel
  warn : LogLevel
  error_level : LogLevel

pub data ExecutionPhase : Type 0 where
  plan_validated : ExecutionPhase
  action_start : ExecutionPhase
  action_finish : ExecutionPhase
  action_error : ExecutionPhase
  execution_finish : ExecutionPhase

-- The text of a log is left out.
pub record ExecutionLog : Type 0 where
  pub level : LogLevel
  pub phase : ExecutionPhase
  pub at : ℕ
  pub action_id : Option String
  pub executor : Option String
  pub duration_ms : Option ℤ

pub data ExecutionStatus : Type 0 where
  all_done : ExecutionStatus
  partial : ExecutionStatus
  not_done : ExecutionStatus

pub record ActionResult : Type 0 where
  pub action_id : String
  pub type : String
  pub status : ActionStatus
  pub executor : Option String
  pub output : Option Json
  pub error : Option String
  pub started_at : ℕ
  pub finished_at : ℕ
  pub duration_ms : ℤ

pub record ExecutionResult : Type 0 where
  pub execution_id : String
  pub status : ExecutionStatus
  pub executed : List ActionResult
  pub failed : List ActionResult
  pub results : List ActionResult
  pub duration_ms : ℤ
  pub logs : List ExecutionLog

-- What is thrown: the errors of `validatePlan`, and whatever a port throws, by its message.
pub data ExecutionError : Type 0 where
  plan_without_actions : ExecutionError
  action_without_id : ExecutionError
  action_without_type : String → ExecutionError
  duplicate_action_id : String → ExecutionError
  thrown : String → ExecutionError

pub record PolicyDecision : Type 0 where
  pub allowed : Bool
  pub reason : Option String

module _ (W : Type 0) where
  pub record ActionExecutor : Type 0 where
    pub name : String
    pub supports : Action → W → Result String Bool × W
    pub run_action : Action → ExecutionContext → W → Result String Json × W

  pub record ActionPolicy : Type 0 where
    pub can_execute : Action → ExecutionContext → W → Result String PolicyDecision × W
    pub validate : Option (Action → ExecutionContext → W → Result String PolicyDecision × W)

  pub record ExecutionEngine : Type 0 where
    pub registry : List ActionExecutor
    pub policy : ActionPolicy
    pub save : Option (ExecutionResult → W → Result String (Unit {0}) × W)
    pub now : W → ℕ × W
    pub stop_on_error : Bool

-- The logs so far, and the world.
pub record Run (W : Type 0) : Type 0 where
  pub logs : List ExecutionLog
  pub world : W
