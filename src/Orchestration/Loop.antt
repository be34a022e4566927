-- ===== src/Orchestration/Loop.antt =====
-- `OrchestrationLoop` of packages/orchestration-engine/src/engine/orchestration-loop.ts.
use operaia_lab.Common.{
  ℕ, zero, suc, ◌+◌, String, Bool, false, not, ◌&&◌, ◌||◌, [], ◌∷◌, ◌++◌, Option, none, some,
  if◌then◌else◌, ltb, difference,
}
use operaia_lab.Json.{Json}
use operaia_lab.Orchestration.Model.{
  OrchestrationStatus, running, waiting, replanning, cancelled, ExecutionSummary, CycleRecord,
  OrchestrationState, RuntimeRequest, OrchestrationEventType, cycle_started, replanning_started,
  execution_completed, cycle_failed, objective_reached, EventData, execution_status, error_text,
  OrchestrationEvent,
}
use operaia_lab.Orchestration.Policies.{
  LoopPolicy, StopEvaluation, StopDecision, RetryPolicy, status_from_stop_reason, last,
}
use operaia_lab.Orchestration.Effects.{
  Ports, M, return, throw, diverge, get_state, get_world, call, effect, try_catch, modify, ◌>>=◌,
  ◌>>◌,
}

pub record CycleOutcome : Type 0 where
  pub objective_completed : Bool
  pub execution : Option ExecutionSummary
  pub error : Option String
  pub fatal : Bool

pub record LoopPolicies : Type 0 where
  pub loop_policy : LoopPolicy
  pub stop_policy : StopEvaluation → StopDecision
  pub retry_policy : RetryPolicy

abbrev pub create_event :
    OrchestrationEventType → OrchestrationState → ℕ → Option EventData → OrchestrationEvent
create_event type state at info = record {
  type = type;
  orchestration_id = state.id;
  cycle = state.current_cycle;
  at = at;
  details = info;
}

abbrev pub with_status : OrchestrationStatus → OrchestrationState → OrchestrationState
with_status status state = record state { status = status }

-- What `recordCycle` pushes, finished at `at`.
abbrev pub cycle_record : CycleOutcome → ℕ → OrchestrationState → CycleRecord
cycle_record outcome at state =
    let previous : ℕ = elim (last state.history) [
      | none ↦ state.started_at
      | some c ↦ c.finished_at
    ] in
    record {
      cycle = state.current_cycle;
      started_at = previous;
      finished_at = at;
      duration_ms = difference at previous;
      objective_completed = outcome.objective_completed;
      execution = outcome.execution;
      error = outcome.error;
    }

abbrev pub push_record : CycleOutcome → ℕ → OrchestrationState → OrchestrationState
push_record outcome at state = record state {
  history = state.history ++ (cycle_record outcome at state ∷ []);
}

module _ {W : Type 0} (ports : Ports W) where
  unfoldable pub persist : M W Unit
  persist = get_state (λ s. s) >>= λ s. call (ports.save s)

  unfoldable pub emit : OrchestrationEventType → Option EventData → M W Unit
  emit type info = do
    at ← effect ports.now
    state ← get_state (λ s. s)
    call (ports.publish (create_event type state at info))

  unfoldable pub finalize : OrchestrationStatus → M W Unit
  finalize status = do
    modify (with_status status)
    at ← effect ports.now
    modify (λ s. record s { finished_at = some at })
    persist

  -- The wait before the next attempt.
  unfoldable pub wait : ℕ → M W Unit
  wait delay =
      if ltb 0 delay
      then (do modify (with_status waiting); persist; effect (λ w. (tt, ports.sleep delay w)))
      else return tt

  module _ (policies : LoopPolicies) where
    -- The loop of `withRetry`, after `attempt` failures.
    unfoldable pub with_retry : {A : Type 0} → ℕ → ℕ → M W A → M W A
    with_retry zero attempt fn = diverge
    with_retry (suc fuel) attempt fn = try_catch fn λ error. do
      aborted ← get_world ports.is_aborted
      if aborted || not (policies.retry_policy.should_retry (attempt + 1) error)
          then throw error
          else (do
            wait (policies.retry_policy.delay_ms (attempt + 1))
            with_retry fuel (attempt + 1) fn)

    abbrev pub replans : OrchestrationState → Bool
    replans state = ltb 1 state.current_cycle && policies.loop_policy.auto_replan

    abbrev pub next_cycle : OrchestrationState → OrchestrationState
    next_cycle state = record state { current_cycle = state.current_cycle + 1 }

    unfoldable pub start_cycle : M W Unit
    start_cycle = do
      modify next_cycle
      replanning_now ← get_state replans
      modify (with_status (if replanning_now then replanning else running))
      persist
      emit cycle_started none
      if replanning_now then emit replanning_started none else return tt

    abbrev pub runtime_request : Json → OrchestrationState → RuntimeRequest
    runtime_request metadata state = record {
      objective = state.objective;
      cycle = state.current_cycle;
      metadata = metadata;
      previous_execution = state.last_execution;
    }

    -- The body of the `try` of `runCycle`.
    unfoldable pub attempt_cycle : ℕ → Json → M W CycleOutcome
    attempt_cycle fuel metadata = do
      planned ←
          with_retry fuel 0
            (do request ← get_state (runtime_request metadata); call (ports.run_runtime request))
      execution ← with_retry fuel 0 (call (ports.execute_plan planned.plan))
      modify (λ s. record s { last_execution = some execution })
      emit execution_completed (some (execution_status execution.status))
      if planned.objective_completed then emit objective_reached none else return tt
      return record {
        objective_completed = planned.objective_completed;
        execution = some execution;
        error = none;
        fatal = false;
      }

    unfoldable pub run_cycle : ℕ → Json → M W CycleOutcome
    run_cycle fuel metadata = try_catch (attempt_cycle fuel metadata) λ caught. do
      emit cycle_failed (some (error_text caught.message))
      return record {
        objective_completed = false;
        execution = none;
        error = some caught.message;
        fatal = caught.is_fatal;
      }

    unfoldable pub record_cycle : CycleOutcome → M W Unit
    record_cycle outcome = do at ← effect ports.now; modify (push_record outcome at); persist

    abbrev pub evaluation : ℕ → ℕ → Bool → Bool → OrchestrationState → StopEvaluation
    evaluation start at aborted fatal state = record {
      state = state;
      policy = policies.loop_policy;
      elapsed_ms = difference at start;
      cancelled = aborted;
      fatal = fatal;
    }

    -- The question to the stop policy at the end of a cycle.
    unfoldable pub ask_to_stop : ℕ → CycleOutcome → M W StopDecision
    ask_to_stop start outcome = do
      at ← effect ports.now
      aborted ← get_world ports.is_aborted
      get_state (λ s. policies.stop_policy (evaluation start at aborted outcome.fatal s))

    -- The `for (;;)` of `run`, begun at time `start`.
    unfoldable pub cycles : ℕ → ℕ → Json → ℕ → M W Unit
    cycles zero retries metadata start = diverge
    cycles (suc fuel) retries metadata start = do
      aborted ← get_world ports.is_aborted
      if aborted then finalize cancelled else (do
        start_cycle
        outcome ← run_cycle retries metadata
        record_cycle outcome
        decision ← ask_to_stop start outcome
        if decision.stop
            then finalize (status_from_stop_reason decision.reason)
            else cycles fuel retries metadata start)

    unfoldable pub run_loop : ℕ → ℕ → Json → M W Unit
    run_loop fuel retries metadata = do start ← effect ports.now; cycles fuel retries metadata start
