-- ===== src/Supervisor/PolicyEngine.antt =====
-- The policies and `PolicyEngine` of supervisor/policy-engine.ts.
use Prim.Native.String
use operaia_lab.Common.{
  ℕ, String, Bool, true, false, ◌&&◌, List, [], ◌∷◌, ◌++◌, none, some, ◌==◌, string_same, nat_same,
  if◌then◌else◌, ltb, keep, length, decimal,
}
use operaia_lab.Common.Effects.{Result, ok, err}
use operaia_lab.Supervisor.Types.{
  WorkspaceScanItem, MissionScanItem, QueueScanReport, HealthStatus, health_fail, WorkerScanReport,
  PolicyActionType, dispatch_coordinate, recover_queue, recover_workers, skip, PolicyAction,
  PolicyEvaluationResult,
}
use operaia_lab.Supervisor.Recovery.{is_retryable, is_blocked, count_of}

-- The fields that the policies read.
pub record PolicyContext : Type 0 where
  pub health : HealthStatus
  pub workspaces : List WorkspaceScanItem
  pub missions : List MissionScanItem
  pub queue : QueueScanReport
  pub workers : WorkerScanReport

-- A policy may reject.
pub record SupervisorPolicy : Type 0 where
  pub name : String
  pub evaluate : PolicyContext → Result String (List PolicyAction)

abbrev action : String → PolicyActionType → String → ℕ → PolicyAction
action policy type reason count = record {
  policy = policy;
  type = type;
  reason = reason;
  count = some count;
  workspace_id = none;
}

abbrev pub auto_retry : PolicyContext → List PolicyAction
auto_retry ctx =
    let retries = count_of is_retryable ctx.missions in
    if retries == 0
    then []
    else action "AutoRetryPolicy" recover_queue
        (String.◌++◌ (decimal retries) " missao(oes) FAILED elegiveis a retry operacional") retries
      ∷ []

abbrev pub mission_timeout : PolicyContext → List PolicyAction
mission_timeout ctx =
    if ctx.queue.stuck == 0
    then []
    else action "MissionTimeoutPolicy" recover_queue
        (String.◌++◌ (decimal ctx.queue.stuck) " execucao(oes) RUNNING interrompida(s)/stale")
        ctx.queue.stuck
      ∷ []

abbrev pub queue_recovery : PolicyContext → List PolicyAction
queue_recovery ctx =
    let blocked = count_of is_blocked ctx.missions in
    (if ltb 0 ctx.queue.waiting
      then action "QueueRecoveryPolicy" recover_queue
          "WAITING parents / consolidacao potencialmente pronta" ctx.queue.waiting
        ∷ []
      else [])
    ++ (if ltb 0 blocked
        then action "QueueRecoveryPolicy" recover_queue "Missoes BLOCKED na DAG" blocked ∷ []
        else [])

abbrev pub worker_recovery : PolicyContext → List PolicyAction
worker_recovery ctx =
    if ctx.workers.total == 0
    then action "WorkerRecoveryPolicy" recover_workers "Nenhum worker registrado" 0 ∷ []
    else if ctx.workers.alive == 0 && ltb 0 ctx.queue.pending
    then action "WorkerRecoveryPolicy" recover_workers "Workers parados com fila pendente"
        ctx.workers.stopped
      ∷ []
    else []

abbrev pub is_fail : HealthStatus → Bool
is_fail health_fail = true
is_fail _ = false

abbrev pub is_needy : WorkspaceScanItem → Bool
is_needy w = w.status == "ACTIVE" && ltb 0 w.pending_tasks

abbrev pub coordinate_needy : List WorkspaceScanItem → List PolicyAction
coordinate_needy [] = []
coordinate_needy (w ∷ needy) =
    record {
      policy = "WorkspaceHealthPolicy";
      type = dispatch_coordinate;
      reason =
          String.◌++◌ (decimal (length (w ∷ needy)))
            " workspace(s) ACTIVE com sinal operacional de pendencia — coordenar via Opera";
      count = some (length (w ∷ needy));
      workspace_id = some w.workspace_id;
    }
    ∷ []

abbrev pub workspace_health : PolicyContext → List PolicyAction
workspace_health ctx =
    if is_fail ctx.health
    then record {
      policy = "WorkspaceHealthPolicy";
      type = skip;
      reason = "Health FAIL — sem dispatch de coordenacao";
      count = none;
      workspace_id = none;
    }
      ∷ []
    else coordinate_needy (keep is_needy ctx.workspaces)

abbrev pub policy : String → (PolicyContext → List PolicyAction) → SupervisorPolicy
policy name f = record { name = name; evaluate = λ ctx. ok (f ctx) }

abbrev pub default_supervisor_policies : List SupervisorPolicy
default_supervisor_policies =
    policy "AutoRetryPolicy" auto_retry
    ∷ policy "MissionTimeoutPolicy" mission_timeout
    ∷ policy "QueueRecoveryPolicy" queue_recovery
    ∷ policy "WorkerRecoveryPolicy" worker_recovery
    ∷ policy "WorkspaceHealthPolicy" workspace_health
    ∷ []

abbrev append_actions :
    Result String (List PolicyAction)
    → Result String (List PolicyAction)
    → Result String (List PolicyAction)
append_actions (err e) rest = err e
append_actions (ok actions) (err e) = err e
append_actions (ok actions) (ok more) = ok (actions ++ more)

-- The actions of the policies, in their order, up to one that rejects.
unfoldable pub evaluate_policies :
    List SupervisorPolicy → PolicyContext → Result String (List PolicyAction)
evaluate_policies [] ctx = ok []
evaluate_policies (p ∷ policies) ctx =
    append_actions (p.evaluate ctx) (evaluate_policies policies ctx)

abbrev evaluation_at : ℕ → Result String (List PolicyAction) → Result String PolicyEvaluationResult
evaluation_at now (err e) = err e
evaluation_at now (ok actions) = ok (record { evaluated_at = now; actions = actions })

unfoldable pub evaluate :
    List SupervisorPolicy → PolicyContext → ℕ → Result String PolicyEvaluationResult
unfolding evaluate_policies
evaluate policies ctx now = evaluation_at now (evaluate_policies policies ctx)

abbrev pub is_type : PolicyActionType → PolicyActionType → Bool
is_type dispatch_coordinate dispatch_coordinate = true
is_type recover_queue recover_queue = true
is_type recover_workers recover_workers = true
is_type skip skip = true
is_type _ _ = false
