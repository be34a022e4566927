-- ===== src/Orchestration/Bounds.antt =====
-- The bounds that a run stays in, and what the stop policy gives of them.
use operaia_lab.Common.{
  ℕ, ◌+◌, ◌-◌, ◌≤◌, ◌<◌, Bool, true, false, List, [], ◌∷◌, ◌++◌, some, ◌≡◌, ◌↔◌, length,
  length-append, arith,
}
use operaia_lab.Orchestration.Model.{
  OrchestrationStatus, completed, failed, cancelled, CycleRecord, OrchestrationState,
  OrchestrationResult,
}
use operaia_lab.Orchestration.Policies.{
  LoopPolicy, StopEvaluation, evaluate, status_from_stop_reason, last_completed, failures,
}
use operaia_lab.Orchestration.Engine.{is_completed}
use operaia_lab.Orchestration.Cycles.{progress}

-- The statuses that `finalize` may set.
abbrev pub is_final : OrchestrationStatus → Bool
is_final completed = true
is_final failed = true
is_final cancelled = true
is_final other = false

-- The stop policy stops exactly where the status it leads to is final, and the objective counts
-- as completed exactly where the last cycle completed it, neither cancelled nor fatal.
pub evaluate_status :
    (input : StopEvaluation)
    → (((evaluate input).stop ≡ true)
        ↔ (is_final (status_from_stop_reason (evaluate input).reason) ≡ true))
      × ((status_from_stop_reason (evaluate input).reason ≡ completed) ↔ (
          (input.cancelled ≡ false)
          × (input.fatal ≡ false)
          × (last_completed input.state.history ≡ true)))
unfolding evaluate status_from_stop_reason
evaluate_status input = ground arith

failures-push : (h : List CycleRecord) (c : CycleRecord) → failures (h ++ (c ∷ [])) ≤ failures h + 1
unfolding failures
failures-push [] c = ground arith
failures-push (d ∷ h) c = let rest = failures-push h c in ground (arith, rest)

-- Where the loop may be before a cycle.
pub record Going (policy : LoopPolicy) (p : ℕ × List CycleRecord) : Type 0 where
  pub counted : length p.1 ≡ p.0
  pub within : p.0 ≤ policy.max_cycles - 1
  pub tolerated : (n : ℕ) → policy.max_failures ≡ some n → failures p.1 ≤ n - 1

-- Where it may be after one.
pub record Bounded (policy : LoopPolicy) (count : ℕ) (history : List CycleRecord) : Type 0 where
  pub counted : length history ≡ count
  pub within : count ≤ 1 + (policy.max_cycles - 1)
  pub tolerated : (n : ℕ) → policy.max_failures ≡ some n → failures history ≤ 1 + (n - 1)

-- How a run may end.
pub record Finished (policy : LoopPolicy) (r : OrchestrationResult) : Type 0 where
  pub bounded : Bounded policy r.cycles r.history
  pub final : is_final r.status ≡ true
  pub completes : r.objective_completed ≡ true → last_completed r.history ≡ true

pub Bounded-of_Going :
    (policy : LoopPolicy) (p : ℕ × List CycleRecord) → Going policy p → Bounded policy p.0 p.1
Bounded-of_Going policy p g = record {
  counted = g.counted;
  within = omega (arith, g.within);
  tolerated = λ n e. omega (arith, g.tolerated n e);
}

pub Going-push :
    (policy : LoopPolicy) (p : ℕ × List CycleRecord) (c : CycleRecord)
    → Going policy p
    → Bounded policy (p.0 + 1) (p.1 ++ (c ∷ []))
Going-push policy p c g = record {
  counted = omega (arith, length-append p.1 (c ∷ []), g.counted);
  within = omega (arith, g.within);
  tolerated = λ n e. omega (arith, g.tolerated n e, failures-push p.1 c);
}

-- A policy that does not stop leaves room for another cycle.
pub evaluate-Going :
    (input : StopEvaluation)
    → (evaluate input).stop ≡ false
    → Bounded input.policy input.state.current_cycle input.state.history
    → (input.state.current_cycle < input.policy.max_cycles)
      × Going input.policy (progress input.state)
unfolding evaluate
evaluate-Going input go b =
    let room : input.state.current_cycle < input.policy.max_cycles = ground arith in
    (room, record { counted = b.counted; within = omega arith; tolerated = λ n e. ground arith })

-- How the loop leaves the state.
pub record Ended (policy : LoopPolicy) (s : OrchestrationState) : Type 0 where
  pub bounded : Bounded policy s.current_cycle s.history
  pub final : is_final s.status ≡ true
  pub completes : s.status ≡ completed → last_completed s.history ≡ true

pub is_completed_iff :
    (status : OrchestrationStatus) → is_completed status ≡ true → status ≡ completed
is_completed_iff status h = ground arith
