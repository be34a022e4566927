-- ===== src/Orchestration/Policies.antt =====
-- packages/orchestration-engine/src/policies: when the loop stops, and when a call is retried.
use operaia_lab.Common.{
  ℕ, ◌-◌, ◌*◌, ◌^◌, Bool, true, false, List, [], ◌∷◌, Option, none, some, if◌then◌else◌, leb,
  length, keep, ℤ, reaches,
}
use operaia_lab.Orchestration.Model.{
  OrchestrationStatus, running, completed, failed, cancelled, OrchestrationState, CycleRecord,
  Failure,
}

pub record LoopPolicy : Type 0 where
  pub max_cycles : ℕ
  pub max_duration_ms : Option ℕ
  pub max_failures : Option ℕ
  pub auto_replan : Bool

abbrev pub default_loop_policy : LoopPolicy
default_loop_policy = record {
  max_cycles = 10;
  max_duration_ms = none;
  max_failures = some 3;
  auto_replan = true;
}

pub data StopReason : Type 0 where
  continue_ : StopReason
  objective_completed : StopReason
  max_cycles : StopReason
  max_failures : StopReason
  max_duration : StopReason
  cancelled_ : StopReason
  fatal_error : StopReason

pub record StopEvaluation : Type 0 where
  pub state : OrchestrationState
  pub policy : LoopPolicy
  pub elapsed_ms : ℤ
  pub cancelled : Bool
  pub fatal : Bool

pub record StopDecision : Type 0 where
  pub stop : Bool
  pub reason : StopReason

-- `history.at(-1)`
unfoldable pub last : List CycleRecord → Option CycleRecord
last [] = none
last (c ∷ []) = some c
last (c ∷ d ∷ cs) = last (d ∷ cs)

abbrev pub last_completed : List CycleRecord → Bool
last_completed cs = elim (last cs) [ none ↦ false | some c ↦ c.objective_completed ]

abbrev pub has_error : CycleRecord → Bool
has_error c = elim c.error [ none ↦ false | some e ↦ true ]

unfoldable pub failures : List CycleRecord → ℕ
failures cs = length (keep has_error cs)

abbrev pub failures_spent : LoopPolicy → List CycleRecord → Bool
failures_spent p cs = elim p.max_failures [ none ↦ false | some n ↦ leb n (failures cs) ]

abbrev pub time_spent : LoopPolicy → ℤ → Bool
time_spent p elapsed = elim p.max_duration_ms [ none ↦ false | some n ↦ reaches elapsed n ]

abbrev stop_with : StopReason → StopDecision
stop_with r = record { stop = true; reason = r }

-- `DefaultStopPolicy.evaluate`
unfoldable pub evaluate : StopEvaluation → StopDecision
evaluate input =
    if input.cancelled
    then stop_with cancelled_
    else if input.fatal
    then stop_with fatal_error
    else if last_completed input.state.history
    then stop_with objective_completed
    else if failures_spent input.policy input.state.history
    then stop_with max_failures
    else if time_spent input.policy input.elapsed_ms
    then stop_with max_duration
    else if leb input.policy.max_cycles input.state.current_cycle
    then stop_with max_cycles
    else record { stop = false; reason = continue_ }

unfoldable pub status_from_stop_reason : StopReason → OrchestrationStatus
status_from_stop_reason objective_completed = completed
status_from_stop_reason cancelled_ = cancelled
status_from_stop_reason max_cycles = failed
status_from_stop_reason max_failures = failed
status_from_stop_reason max_duration = failed
status_from_stop_reason fatal_error = failed
status_from_stop_reason continue_ = running

pub record RetryPolicy : Type 0 where
  pub should_retry : ℕ → Failure → Bool
  pub delay_ms : ℕ → ℕ

abbrev pub no_retry : RetryPolicy
no_retry = record { should_retry = λ attempt error. false; delay_ms = λ attempt. 0 }

pub record BackoffOptions : Type 0 where
  pub max_retries : ℕ
  pub base_delay_ms : ℕ
  pub factor : ℕ

abbrev pub exponential_backoff : BackoffOptions → RetryPolicy
exponential_backoff o = record {
  should_retry = λ attempt error. leb attempt o.max_retries;
  delay_ms = λ attempt. o.base_delay_ms * o.factor ^ (attempt - 1);
}
