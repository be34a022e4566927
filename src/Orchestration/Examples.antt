-- ===== src/Orchestration/Examples.antt =====
-- A run in which the second execution fails and the third cycle completes the objective.
use operaia_lab.Common.{
  ℕ, ◌+◌, true, false, [], Option, none, some, ◌≡◌, ◌↔◌, refl, ◌==◌, nat_same, if◌then◌else◌, pos,
  arith,
}
use operaia_lab.Json.{null}
use operaia_lab.Orchestration.Model.{
  completed, success, running, ExecutionSummary, ProposedPlan, OrchestrationStatus,
  OrchestrationResult,
}
use operaia_lab.Orchestration.Policies.{
  StopEvaluation, default_loop_policy, no_retry, exponential_backoff, evaluate,
  status_from_stop_reason, last_completed, last, failures,
}
use operaia_lab.Orchestration.Effects.{Ports, value, rejected, Outcome, ok, ◌>>=◌}
use operaia_lab.Orchestration.Loop.{
  LoopPolicies, persist, emit, finalize, wait, with_retry, start_cycle, attempt_cycle, run_cycle,
  record_cycle, ask_to_stop, cycles, run_loop,
}
use operaia_lab.Orchestration.Engine.{RunOptions, run, orchestrate, build_result, time_of}
use operaia_lab.Orchestration.Meets.{Meets}
use operaia_lab.Orchestration.Cycles.{GivesUp}
use operaia_lab.Orchestration.Bounds.{is_final, evaluate_status, Finished}
use operaia_lab.Orchestration.Termination.{run-Finished}

abbrev plan : ProposedPlan
plan = record { id = "p"; action_count = 1; payload = null }

abbrev summary : ExecutionSummary
summary = record { status = success; executed = 1; failed = 0; duration_ms = 1 }

-- The world is the clock and the number of executions so far.
abbrev third_time : Ports (ℕ × ℕ)
third_time = record {
  run_runtime =
      λ r w. (value (record { plan = plan; objective_completed = r.cycle == 3; output = none }), w);
  execute_plan = λ p w. (
    if w.1 == 1 then rejected (record { message = "offline"; is_fatal = false }) else value summary,
    (w.0, w.1 + 1),
  );
  save = λ s w. (value tt, w);
  publish = λ e w. (value tt, w);
  now = λ w. (w.0, (w.0 + 1, w.1));
  sleep = λ d w. w;
  is_aborted = λ w. false;
}

abbrev policies : LoopPolicies
policies = record {
  loop_policy = default_loop_policy;
  stop_policy = evaluate;
  retry_policy = no_retry;
}

abbrev options : RunOptions
options = record { id = "o"; objective = "ship"; metadata = null }

abbrev status_of : Outcome OrchestrationResult → Option (OrchestrationStatus × ℕ × ℕ)
status_of (ok r) = some (r.status, r.cycles, failures r.history)
status_of other = none

run_test : status_of (run third_time policies 11 1 options (0, 0)).0 ≡ some (completed, 3, 1)
unfolding run orchestrate run_loop cycles run_cycle attempt_cycle with_retry start_cycle
    record_cycle ask_to_stop finalize build_result time_of persist emit ◌>>=◌ evaluate
    status_from_stop_reason last failures wait
run_test = refl

gives_up :
    GivesUp (exponential_backoff (record { max_retries = 2; base_delay_ms = 5; factor = 2 })) 2
gives_up attempt error h = ground arith

no_retry-GivesUp : GivesUp no_retry 0
no_retry-GivesUp attempt error h = ground arith

run-Finished_example :
    Meets
      (λ r s. Finished default_loop_policy r)
      (λ e s. Unit)
      (run third_time policies 11 1 options (0, 0))
run-Finished_example =
    run-Finished third_time default_loop_policy no_retry 0 1 11 options (0, 0) no_retry-GivesUp
      (omega arith) (omega arith)

abbrev at_rest : StopEvaluation
at_rest = record {
  state = record {
    id = "o";
    objective = "ship";
    current_cycle = 1;
    status = running;
    started_at = 0;
    finished_at = none;
    last_execution = none;
    history = [];
  };
  policy = default_loop_policy;
  elapsed_ms = pos 3;
  cancelled = true;
  fatal = false;
}

evaluate_status_example :
    (((evaluate at_rest).stop ≡ true)
      ↔ (is_final (status_from_stop_reason (evaluate at_rest).reason) ≡ true))
    × ((status_from_stop_reason (evaluate at_rest).reason ≡ completed) ↔ (
        (at_rest.cancelled ≡ false)
        × (at_rest.fatal ≡ false)
        × (last_completed at_rest.state.history ≡ true)))
evaluate_status_example = evaluate_status at_rest
