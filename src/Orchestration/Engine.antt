-- ===== src/Orchestration/Engine.antt =====
-- `OrchestrationEngine` of packages/orchestration-engine/src/engine/orchestration-engine.ts.
use operaia_lab.Common.{ℕ, String, Bool, true, false, [], Option, none, some, difference}
use operaia_lab.Json.{Json}
use operaia_lab.Orchestration.Model.{
  OrchestrationStatus, created, completed, OrchestrationState, loop_started, loop_finished,
  final_status, OrchestrationResult,
}
use operaia_lab.Orchestration.Effects.{
  Ports, Outcome, Store, M, return, get_state, effect, ◌>>=◌, ◌>>◌,
}
use operaia_lab.Orchestration.Loop.{LoopPolicies, persist, emit, run_loop}

-- The options of a run; `id` is the given one, or a fresh one.
pub record RunOptions : Type 0 where
  pub id : String
  pub objective : String
  pub metadata : Json

abbrev pub initial_state : RunOptions → ℕ → OrchestrationState
initial_state options at = record {
  id = options.id;
  objective = options.objective;
  current_cycle = 0;
  status = created;
  started_at = at;
  finished_at = none;
  last_execution = none;
  history = [];
}

abbrev pub is_completed : OrchestrationStatus → Bool
is_completed completed = true
is_completed other = false

abbrev pub result_at : ℕ → OrchestrationState → OrchestrationResult
result_at at state = record {
  id = state.id;
  status = state.status;
  cycles = state.current_cycle;
  history = state.history;
  started_at = state.started_at;
  finished_at = at;
  duration = difference at state.started_at;
  objective_completed = is_completed state.status;
  execution_summary = state.last_execution;
}

module _ {W : Type 0} (ports : Ports W) (policies : LoopPolicies) where
  -- `finishedAt ?? clock.now()`
  unfoldable pub time_of : Option ℕ → M W ℕ
  time_of none = effect ports.now
  time_of (some at) = return at

  unfoldable pub build_result : M W OrchestrationResult
  build_result = do
    finished ← get_state (λ s. s.finished_at)
    at ← time_of finished
    get_state (result_at at)

  -- `run`, once the state is made.
  unfoldable pub orchestrate : ℕ → ℕ → Json → M W OrchestrationResult
  orchestrate fuel retries metadata = do
    persist ports
    emit ports loop_started none
    run_loop ports policies fuel retries metadata
    status ← get_state (λ s. s.status)
    emit ports loop_finished (some (final_status status))
    build_result

  unfoldable pub run : ℕ → ℕ → RunOptions → W → Outcome OrchestrationResult × Store W
  run fuel retries options w =
      orchestrate fuel retries options.metadata
        (record { state = initial_state options (ports.now w).0; world = (ports.now w).1 })
