-- ===== src/Supervisor/Asked.antt =====
-- What the default policies ask for together.
use operaia_lab.Common.{
  ℕ, Bool, false, not, ◌&&◌, ◌||◌, List, [], ◌∷◌, ◌++◌, ◌≡◌, refl, ◌∙◌, ◌==◌, string_same, nat_same,
  if◌then◌else◌, ltb, keep, arith,
}
use operaia_lab.Common.Effects.{ok}
use operaia_lab.Supervisor.Types.{
  WorkspaceScanItem, PolicyActionType, dispatch_coordinate, recover_queue, recover_workers, skip,
  PolicyAction,
}
use operaia_lab.Supervisor.Recovery.{is_retryable, is_blocked, count_of}
use operaia_lab.Supervisor.PolicyEngine.{
  PolicyContext, auto_retry, mission_timeout, queue_recovery, worker_recovery, workspace_health,
  coordinate_needy, is_fail, is_needy, default_supervisor_policies, evaluate_policies, evaluate,
  is_type,
}

-- Some action has this type.
abbrev pub asks : PolicyActionType → List PolicyAction → Bool
asks type [] = false
asks type (a ∷ actions) = is_type type a.type || asks type actions

asks-append :
    (type : PolicyActionType) (l r : List PolicyAction)
    → asks type (l ++ r) ≡ (asks type l || asks type r)
asks-append type [] r = refl
asks-append type (a ∷ l) r = ground (arith, asks-append type l r)

abbrev pub any_needy : List WorkspaceScanItem → Bool
any_needy [] = false
any_needy (w ∷ workspaces) = is_needy w || any_needy workspaces

asks-coordinate_needy :
    (type : PolicyActionType) (workspaces : List WorkspaceScanItem)
    → asks type (coordinate_needy (keep is_needy workspaces))
      ≡ (is_type type dispatch_coordinate && any_needy workspaces)
asks-coordinate_needy type [] = ground arith
asks-coordinate_needy type (w ∷ workspaces) = ground (arith, asks-coordinate_needy type workspaces)

-- What the state calls for, by the type of action.
abbrev pub called_for : PolicyActionType → PolicyContext → Bool
called_for dispatch_coordinate ctx = not (is_fail ctx.health) && any_needy ctx.workspaces
called_for skip ctx = is_fail ctx.health
called_for recover_workers ctx =
    ctx.workers.total == 0 || (ctx.workers.alive == 0 && ltb 0 ctx.queue.pending)
called_for recover_queue ctx =
    ltb 0 (count_of is_retryable ctx.missions)
    || (ltb 0 ctx.queue.stuck
        || (ltb 0 ctx.queue.waiting || ltb 0 (count_of is_blocked ctx.missions)))

auto_retry-asks :
    (type : PolicyActionType) (ctx : PolicyContext)
    → asks type (auto_retry ctx)
      ≡ (is_type type recover_queue && ltb 0 (count_of is_retryable ctx.missions))
auto_retry-asks type ctx = ground arith

mission_timeout-asks :
    (type : PolicyActionType) (ctx : PolicyContext)
    → asks type (mission_timeout ctx) ≡ (is_type type recover_queue && ltb 0 ctx.queue.stuck)
mission_timeout-asks type ctx = ground arith

queue_recovery-asks :
    (type : PolicyActionType) (ctx : PolicyContext)
    → asks type (queue_recovery ctx) ≡ (
        is_type type recover_queue
        && (ltb 0 ctx.queue.waiting || ltb 0 (count_of is_blocked ctx.missions)))
queue_recovery-asks type ctx = ground arith

worker_recovery-asks :
    (type : PolicyActionType) (ctx : PolicyContext)
    → asks type (worker_recovery ctx)
      ≡ (is_type type recover_workers && called_for recover_workers ctx)
worker_recovery-asks type ctx = ground arith

workspace_health-asks :
    (type : PolicyActionType) (ctx : PolicyContext)
    → asks type (workspace_health ctx) ≡ (
        if is_fail ctx.health
        then is_type type skip
        else is_type type dispatch_coordinate && any_needy ctx.workspaces)
workspace_health-asks type ctx = ground (arith, asks-coordinate_needy type ctx.workspaces)

abbrev default_actions : PolicyContext → List PolicyAction
default_actions ctx =
    auto_retry ctx
    ++ (mission_timeout ctx
        ++ (queue_recovery ctx ++ (worker_recovery ctx ++ (workspace_health ctx ++ []))))

default_actions-asks :
    (type : PolicyActionType) (ctx : PolicyContext)
    → asks type (default_actions ctx) ≡ (
        asks type (auto_retry ctx)
        || (asks type (mission_timeout ctx)
            || (asks type (queue_recovery ctx)
                || (asks type (worker_recovery ctx) || asks type (workspace_health ctx)))))
default_actions-asks type ctx =
    rw
      (
        asks-append type (auto_retry ctx) _,
        asks-append type (mission_timeout ctx) _,
        asks-append type (queue_recovery ctx) _,
        asks-append type (worker_recovery ctx) _,
        asks-append type (workspace_health ctx) [],
      )
      ground arith

-- The default policies always answer, and together they ask for a type of action exactly where the
-- state calls for it: to recover the queue where a failure may be tried again, or executions are
-- stuck, or missions are waiting or blocked; to recover the workers where there are none, or none
-- is alive and missions are pending; to coordinate where the health has not failed and an active
-- workspace has pending tasks; and to skip where the health has failed.
pub evaluate-called_for :
    (ctx : PolicyContext) (now : ℕ)
    → (actions : List PolicyAction) × ((evaluate default_supervisor_policies ctx now
          ≡ ok (record { evaluated_at = now; actions = actions }))
        × ((type : PolicyActionType) → asks type actions ≡ called_for type ctx))
unfolding evaluate evaluate_policies
evaluate-called_for ctx now = (default_actions ctx, (refl, λ type. called type))
  where
    called : (type : PolicyActionType) → asks type (default_actions ctx) ≡ called_for type ctx
    called type =
        default_actions-asks type ctx
        ∙ rw
            (
              auto_retry-asks type ctx,
              mission_timeout-asks type ctx,
              queue_recovery-asks type ctx,
              worker_recovery-asks type ctx,
              workspace_health-asks type ctx,
            )
            ground arith
