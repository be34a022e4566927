-- ===== src/Queue/Model.antt =====
-- The rows of the mission queue: the tables of packages/database/prisma/schema.prisma that the
-- queue reads and writes, the states of apps/api/src/modules/runtime/mission-states.ts, and the
-- inputs and errors of apps/api/src/modules/runtime/mission-queue.ts. Times are milliseconds.
use operaia_lab.Common.{
  ℕ, String, Bool, true, false, List, Option, none, some, not, ◌==◌, string_same,
}
use operaia_lab.Json.{Json}

pub data MissionStatus : Type 0 where
  created queued running waiting completed failed cancelled : MissionStatus

pub data MissionKind : Type 0 where
  coordinate execute consolidate : MissionKind

pub data Priority : Type 0 where
  low medium high urgent : Priority

pub data MissionReadiness : Type 0 where
  ready blocked : MissionReadiness

abbrev pub ceo_employee_id : String
ceo_employee_id = "operaia-ceo"

-- `updatedAt`, which the database keeps by itself and no query of the queue reads, is left out.
pub record Mission : Type 0 where
  pub id : String
  pub workspace_id : String
  pub project_id : Option String
  pub objective : String
  pub objective_hash : String
  pub mission_kind : MissionKind
  pub priority : Priority
  pub status : MissionStatus
  pub readiness : MissionReadiness
  pub owner_employee_id : String
  pub required_specialization : Option String
  pub parent_mission_id : Option String
  pub progress : ℕ
  pub attempt : ℕ
  pub max_attempts : ℕ
  pub lease_version : ℕ
  pub scheduled_at : Option ℕ
  pub started_at : Option ℕ
  pub finished_at : Option ℕ
  pub last_error : Option String
  pub result_json : Option Json
  pub created_at : ℕ

-- The payload, which is written for audits and never read by the queue, is left out.
pub record MissionEvent : Type 0 where
  pub mission_id : String
  pub type : String
  pub message : String

pub record MissionDependency : Type 0 where
  pub mission_id : String
  pub depends_on_mission_id : String

pub record WorkerHeartbeat : Type 0 where
  pub employee_id : String
  pub current_mission_id : Option String
  pub last_seen_at : ℕ

pub record Tables : Type 0 where
  pub missions : List Mission
  pub events : List MissionEvent
  pub dependencies : List MissionDependency
  pub heartbeats : List WorkerHeartbeat

pub record EnqueueMissionInput : Type 0 where
  pub workspace_id : String
  pub project_id : Option String
  pub objective : String
  pub priority : Option Priority
  pub owner_employee_id : Option String
  pub required_specialization : Option String
  pub parent_mission_id : Option String
  pub mission_kind : Option MissionKind
  pub scheduled_at : Option ℕ
  pub max_attempts : Option ℕ
  pub readiness : Option MissionReadiness
  pub dedupe : Bool

pub record ClaimCriteria : Type 0 where
  pub employee_id : String
  pub specialization : String

pub data ContractViolation : Type 0 where
  coordinate_with_parent execute_without_parent execute_without_specialization : ContractViolation
  consolidate_without_parent : ContractViolation

-- `MissionEnqueueContractError`, `StaleMissionOwnershipError`, Prisma's record not found, and the
-- plain errors of `completeConsolidation`.
pub data QueueError : Type 0 where
  contract : ContractViolation → QueueError
  stale_ownership : String → ℕ → QueueError
  not_found : String → QueueError
  root_not_found : String → QueueError
  bad_result : QueueError
  broken_reference : String → String → QueueError
  transaction_rejected : QueueError

pub data Result {ℓ} (A : Type ℓ) : Type ℓ where
  ok : A → Result A
  err : QueueError → Result A

abbrev pub is_running : MissionStatus → Bool
is_running running = true
is_running _ = false

abbrev pub is_queued : MissionStatus → Bool
is_queued queued = true
is_queued _ = false

abbrev pub is_waiting : MissionStatus → Bool
is_waiting waiting = true
is_waiting _ = false

abbrev pub is_completed : MissionStatus → Bool
is_completed completed = true
is_completed _ = false

abbrev pub is_failed : MissionStatus → Bool
is_failed failed = true
is_failed _ = false

-- `OPEN_STATUSES`.
abbrev pub is_open : MissionStatus → Bool
is_open created = true
is_open queued = true
is_open running = true
is_open waiting = true
is_open _ = false

abbrev pub is_coordinate : MissionKind → Bool
is_coordinate coordinate = true
is_coordinate _ = false

abbrev pub is_execute : MissionKind → Bool
is_execute execute = true
is_execute _ = false

abbrev pub is_consolidate : MissionKind → Bool
is_consolidate consolidate = true
is_consolidate _ = false

abbrev pub is_ready : MissionReadiness → Bool
is_ready ready = true
is_ready blocked = false

-- `!!text` of an optional text: present and not empty.
abbrev pub is_given : Option String → Bool
is_given none = false
is_given (some s) = not (s == "")

-- `column = text` in SQL, false on NULL.
abbrev pub is_exactly : Option String → String → Bool
is_exactly none t = false
is_exactly (some s) t = s == t

abbrev pub or_else {ℓ} : {A : Type ℓ} → Option A → A → A
or_else none d = d
or_else (some a) d = a
