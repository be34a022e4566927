-- ===== src/Execution/Engine.antt =====
-- `ExecutionEngine` of packages/execution-engine/src/execution/execution-engine.ts, with
-- `ExecutorRegistry` of executors/registry.ts and the policies of policies/action-policy.ts.
use Prim.Native.String
use operaia_lab.Common.{
  ℕ, String, Bool, true, false, not, ◌&&◌, ◌||◌, List, [], ◌∷◌, ◌++◌, Option, none, some, ◌==◌,
  string_same, if◌then◌else◌, keep, ℤ, difference,
}
use operaia_lab.Json.{Json}
use operaia_lab.Common.Effects.{
  Result, ok, err, Steps, return, throw, gets, act, modify, ◌>>=◌, ◌>>◌,
}
use operaia_lab.Execution.Model.{
  ActionStatus, success, failed, skipped, Action, ExecutionPlan, PlanInput, plan_without_actions,
  ExecutionContext, LogLevel, info, warn, error_level, ExecutionPhase, plan_validated, action_start,
  action_finish, action_error, execution_finish, ExecutionLog, ExecutionStatus, all_done, partial,
  not_done, ActionResult, ExecutionResult, ExecutionError, action_without_id, action_without_type,
  duplicate_action_id, thrown, PolicyDecision, ActionExecutor, ActionPolicy, ExecutionEngine, Run,
}

abbrev pub has_id : String → List String → Bool
has_id id [] = false
has_id id (x ∷ xs) = x == id || has_id id xs

-- The loop of `validatePlan`, with the ids seen so far.
unfoldable pub check_actions : List String → List Action → Result ExecutionError (Unit {0})
check_actions ids [] = ok tt
check_actions ids (a ∷ actions) =
    let rest = check_actions (a.id ∷ ids) actions in
    if a.id == ""
    then err action_without_id
    else if a.type == ""
    then err (action_without_type a.id)
    else if has_id a.id ids
    then err (duplicate_action_id a.id)
    else rest

abbrev pub checked :
    ExecutionPlan → Result ExecutionError (Unit {0}) → Result ExecutionError ExecutionPlan
checked plan (ok u) = ok plan
checked plan (err e) = err e

abbrev pub check_list : PlanInput → Option (List Action) → Result ExecutionError ExecutionPlan
check_list plan none = err plan_without_actions
check_list plan (some actions) =
    checked (record { id = plan.id; actions = actions; metadata = plan.metadata })
      (check_actions [] actions)

-- `validatePlan`, which answers with the plan that it has accepted. `none` is a missing plan.
unfoldable pub validate_plan : Option PlanInput → Result ExecutionError ExecutionPlan
unfolding check_actions
validate_plan none = err plan_without_actions
validate_plan (some plan) = check_list plan plan.actions

abbrev pub is_success : ActionResult → Bool
is_success r = elim r.status [ success ↦ true | _ ↦ false ]

abbrev pub is_failed : ActionResult → Bool
is_failed r = elim r.status [ failed ↦ true | _ ↦ false ]

abbrev pub is_skipped : ActionResult → Bool
is_skipped r = elim r.status [ skipped ↦ true | _ ↦ false ]

-- `results.some(test)`
abbrev pub any : (ActionResult → Bool) → List ActionResult → Bool
any p [] = false
any p (r ∷ rs) = p r || any p rs

unfoldable pub resolve_status : List ActionResult → ExecutionStatus
resolve_status [] = all_done
resolve_status (r ∷ rs) =
    let any_failed = any is_failed (r ∷ rs) in
    let any_succeeded = any is_success (r ∷ rs) in
    let any_skipped = any is_skipped (r ∷ rs) in
    if any_failed && any_succeeded
    then partial
    else if any_skipped && any_succeeded
    then partial
    else if any_failed || (any_skipped && not any_succeeded)
    then not_done
    else all_done

-- `ExecutorRegistry.resolve`: the first executor that says that it supports the action. A `supports`
-- may throw.
module _ {W : Type 0} where
  abbrev pub found :
      ActionExecutor W
      → (W → Result String (Option (ActionExecutor W)) × W)
      → Result String Bool × W
      → Result String (Option (ActionExecutor W)) × W
  found e others (err message, w) = (err message, w)
  found e others (ok true, w) = (ok (some e), w)
  found e others (ok false, w) = others w

  unfoldable pub resolve :
      List (ActionExecutor W) → Action → W → Result String (Option (ActionExecutor W)) × W
  resolve [] action w = (ok none, w)
  resolve (e ∷ executors) action w = found e (resolve executors action) (e.supports action w)

abbrev pub allow_all : {W : Type 0} → ActionPolicy W
allow_all = record {
  can_execute = λ action context w. (ok (record { allowed = true; reason = none }), w);
  validate = some (λ action context w. (ok (record { allowed = true; reason = none }), w));
}

-- `AllowlistActionPolicy`
abbrev pub allowlist : {W : Type 0} → List String → ActionPolicy W
allowlist types = record {
  can_execute = λ action context w. (
    ok (
        if has_id action.type types then record { allowed = true; reason = none } else record {
          allowed = false;
          reason = some (String.◌++◌ "Policy negou Action type nao permitida: " action.type);
        }),
    w,
  );
  validate = some (λ action context w. (
    ok (
        if action.id == "" || action.type == ""
        then record { allowed = false; reason = some "Policy: Action invalida (id/type ausente)." }
        else record { allowed = true; reason = none }),
    w,
  ));
}

abbrev pub or_text : Option String → String → String
or_text none text = text
or_text (some s) text = s

-- The message of `ExecutorNotFoundError`.
abbrev pub not_found : Action → String
not_found action =
    String.◌++◌ "Nenhum executor encontrado para a acao "
      (String.◌++◌ action.id (String.◌++◌ " (tipo: " (String.◌++◌ action.type ").")))

abbrev pub result_of :
    Action → ActionStatus → Option String → Option Json → Option String → ℕ → ℕ → ActionResult
result_of action status executor output error started finished = record {
  action_id = action.id;
  type = action.type;
  status = status;
  executor = executor;
  output = output;
  error = error;
  started_at = started;
  finished_at = finished;
  duration_ms = difference finished started;
}

module _ {W : Type 0} (engine : ExecutionEngine W) where
  -- A call of a port, whose answer may be a throw.
  unfoldable pub attempt :
      {A : Type 0} → (W → Result String A × W) → Steps ExecutionError (Run W) (Result String A)
  attempt f s = (ok (f s.world).0, record s { world = (f s.world).1 })

  abbrev pub or_throw : {A : Type 0} → Result String A → Steps ExecutionError (Run W) A
  or_throw (ok a) = return a
  or_throw (err message) = throw (thrown message)

  unfoldable pub call : {A : Type 0} → (W → Result String A × W) → Steps ExecutionError (Run W) A
  call f = do reply ← attempt f; or_throw reply

  unfoldable pub now : Steps ExecutionError (Run W) ℕ
  now s = (ok (engine.now s.world).0, record s { world = (engine.now s.world).1 })

  unfoldable pub log :
      LogLevel
      → ExecutionPhase
      → Option String
      → Option String
      → Option ℤ
      → Steps ExecutionError (Run W) (Unit {0})
  log level phase action_id executor duration = do
    at ← now
    modify (λ s. record s {
      logs =
          s.logs
          ++ (record {
            level = level;
            phase = phase;
            at = at;
            action_id = action_id;
            executor = executor;
            duration_ms = duration;
          }
              ∷ []);
    })

  unfoldable pub skip : Action → PolicyDecision → ℕ → Steps ExecutionError (Run W) ActionResult
  skip action decision started = do
    log warn action_error (some action.id) none none
    finished ← now
    return (
        result_of action skipped none none
          (some (or_text decision.reason "Policy negou a execucao.")) started finished)

  unfoldable pub failure :
      Action → Option String → String → ℕ → Steps ExecutionError (Run W) ActionResult
  failure action executor error started = do
    finished ← now
    return (result_of action failed executor none (some error) started finished)

  -- What follows the executor's answer, or its throw.
  unfoldable pub settle_action :
      Action → String → ℕ → Result String Json → Steps ExecutionError (Run W) ActionResult
  settle_action action executor started (ok output) = do
    finished ← now
    log info action_finish (some action.id) (some executor) (some (difference finished started))
    return (result_of action success (some executor) (some output) none started finished)
  settle_action action executor started (err message) = do
    log error_level action_error (some action.id) (some executor) none
    failure action (some executor) message started

  unfoldable pub run_executor :
      Action → ExecutionContext → ℕ → ActionExecutor W → Steps ExecutionError (Run W) ActionResult
  run_executor action context started executor = do
    log info action_start (some action.id) (some executor.name) none
    reply ← attempt (executor.run_action action context)
    settle_action action executor.name started reply

  -- Without a `validate` every action is valid.
  unfoldable pub validate_by :
      Option (Action → ExecutionContext → W → Result String PolicyDecision × W)
      → Action
      → ExecutionContext
      → Steps ExecutionError (Run W) PolicyDecision
  validate_by none action context = return (record { allowed = true; reason = none })
  validate_by (some validate) action context = call (validate action context)

  -- What follows the policy.
  unfoldable pub execute_by :
      Option (ActionExecutor W)
      → Action
      → ExecutionContext
      → ℕ
      → Steps ExecutionError (Run W) ActionResult
  execute_by none action context started = do
    log error_level action_error (some action.id) none none
    failure action none (not_found action) started
  execute_by (some executor) action context started = run_executor action context started executor

  unfoldable pub execute_action :
      Action → ExecutionContext → Steps ExecutionError (Run W) ActionResult
  execute_action action context = do
    started ← now
    can ← call (engine.policy.can_execute action context)
    if not can.allowed then skip action can started else (do
      valid ← validate_by engine.policy.validate action context
      if not valid.allowed then skip action valid started else (do
        executor ← call (resolve engine.registry action)
        execute_by executor action context started))

  -- The loop over the actions.
  unfoldable pub execute_actions :
      ExecutionContext → List Action → Steps ExecutionError (Run W) (List ActionResult)
  execute_actions context [] = return []
  execute_actions context (a ∷ actions) = do
    result ← execute_action a context
    if is_failed result && engine.stop_on_error
        then return (result ∷ [])
        else (do rest ← execute_actions context actions; return (result ∷ rest))

  abbrev pub report : ExecutionContext → ℤ → List ExecutionLog → List ActionResult → ExecutionResult
  report context duration logs results = record {
    execution_id = context.execution_id;
    status = resolve_status results;
    executed = keep is_success results;
    failed = keep is_failed results;
    results = results;
    duration_ms = duration;
    logs = logs;
  }

  unfoldable pub save_by :
      Option (ExecutionResult → W → Result String (Unit {0}) × W)
      → ExecutionResult
      → Steps ExecutionError (Run W) (Unit {0})
  save_by none result = return tt
  save_by (some save) result = call (save result)

  unfoldable pub finish :
      ExecutionContext → List ActionResult → Steps ExecutionError (Run W) ExecutionResult
  finish context results = do
    finished ← now
    let duration = difference finished context.started_at
    log info execution_finish none none (some duration)
    logs ← gets (λ s. s.logs)
    save_by engine.save (report context duration logs results)
    return (report context duration logs results)

  -- A plan that is not valid throws.
  unfoldable pub check_plan : Option PlanInput → Steps ExecutionError (Run W) ExecutionPlan
  check_plan input = act (λ s. (validate_plan input, s))

  unfoldable pub execute_plan :
      Option PlanInput → String → Steps ExecutionError (Run W) ExecutionResult
  execute_plan input execution_id = do
    started ← now
    plan ← check_plan input
    log info plan_validated none none none
    let context : ExecutionContext = record {
      execution_id = execution_id;
      started_at = started;
      metadata = plan.metadata;
    }
    results ← execute_actions context plan.actions
    finish context results

-- `execute`, with the id that the engine draws, from a world.
unfoldable pub execute :
    {W : Type 0}
    → ExecutionEngine W
    → Option PlanInput
    → String
    → W
    → Result ExecutionError ExecutionResult × Run W
execute engine input execution_id w =
    execute_plan engine input execution_id (record { logs = []; world = w })
