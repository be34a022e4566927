-- ===== src/Orchestration/Cycles.antt =====
-- The parts of a cycle, and a retried call, as to the count of cycles and the history.
use operaia_lab.Common.{
  ℕ, zero, suc, ◌+◌, ◌≤◌, ◌<◌, Bool, true, false, not, Option, ◌||◌, List, ◌≡◌, refl, ap, ◌∙◌, inl,
  inr, Bool-cases, arith,
}
use operaia_lab.Json.{Json}
use operaia_lab.Orchestration.Model.{
  OrchestrationStatus, OrchestrationEventType, EventData, CycleRecord, OrchestrationState, Failure,
}
use operaia_lab.Orchestration.Policies.{RetryPolicy, StopDecision}
use operaia_lab.Orchestration.Effects.{Ports, Store, M, modify, ◌>>=◌, ◌>>◌}
use operaia_lab.Orchestration.Loop.{
  LoopPolicies, CycleOutcome, persist, emit, finalize, with_status, wait, with_retry, next_cycle,
  start_cycle, attempt_cycle, run_cycle, push_record, record_cycle, evaluation, ask_to_stop,
}
use operaia_lab.Orchestration.Meets.{
  Meets, bind-Meets, weaken_Meets, Keeps, return-Keeps, throw-Keeps, get_state-Keeps,
  get_world-Keeps, effect-Keeps, modify-Keeps, call-Keeps, bind-Keeps, try_catch-Keeps, if_Keeps,
}

-- A retry policy that gives up after `n` failures.
abbrev pub GivesUp : RetryPolicy → ℕ → Type 0
GivesUp retry n =
    (attempt : ℕ) (error : Failure) → retry.should_retry attempt error ≡ true → attempt ≤ n

-- How far the orchestration has come.
abbrev pub progress : OrchestrationState → ℕ × List CycleRecord
progress s = (s.current_cycle, s.history)

abbrev pub stage : OrchestrationState → (ℕ × List CycleRecord) × OrchestrationStatus
stage s = (progress s, s.status)

may_retry : (a b : Bool) → (a || not b) ≡ false → b ≡ true
may_retry a b h = ground arith

module _ {W : Type 0} (ports : Ports W) where
  pub persist-Keeps : {V : Type 0} (view : OrchestrationState → V) → Keeps view (persist ports)
  unfolding persist
  persist-Keeps view = bind-Keeps view _ _ (get_state-Keeps view _) (λ s. call-Keeps view _)

  pub emit-Keeps :
      {V : Type 0} (view : OrchestrationState → V) (type : OrchestrationEventType)
      (info : Option EventData)
      → Keeps view (emit ports type info)
  unfolding emit
  emit-Keeps view type info =
      bind-Keeps view _ _ (effect-Keeps view _)
        (λ at. bind-Keeps view _ _ (get_state-Keeps view _) (λ s. call-Keeps view _))

  wait-Keeps : (delay : ℕ) → Keeps progress (wait ports delay)
  unfolding wait
  wait-Keeps delay =
      if_Keeps progress _ _ _
        (bind-Keeps progress _ _ (modify-Keeps progress _ (λ s. refl))
          (λ _. bind-Keeps progress _ _ (persist-Keeps progress) (λ _. effect-Keeps progress _)))
        (return-Keeps progress tt)

  module _ (policies : LoopPolicies) (n : ℕ) (gives_up : GivesUp policies.retry_policy n) where
    with_retry-Keeps :
        {A : Type 0} (fuel attempt : ℕ) (fn : M W A)
        → attempt ≤ n
        → n < fuel + attempt
        → Keeps progress fn
        → Keeps progress (with_retry ports policies fuel attempt fn)
    unfolding with_retry
    with_retry-Keeps zero attempt fn le lt h = let never : ⊥ = omega arith in elim never [ ]
    with_retry-Keeps (suc fuel) attempt fn le lt h = try_catch-Keeps progress fn _ h (λ error.
        bind-Keeps progress _ _ (get_world-Keeps progress _) (λ aborted.
          elim (Bool-cases
            (aborted || not (policies.retry_policy.should_retry (attempt + 1) error))) [
              | inl stops ↦ rw stops (throw-Keeps progress error)
              | inr retries ↦
                  let again : attempt + 1 ≤ n =
                    gives_up (attempt + 1) error (may_retry aborted _ retries) in
                  rw retries (
                    bind-Keeps progress _ _ (wait-Keeps _)
                      (λ _. with_retry-Keeps fuel (attempt + 1) fn again (omega arith) h))
            ]))

    module _ (retries : ℕ) (metadata : Json) (enough : n < retries) where
      attempt_cycle-Keeps : Keeps progress (attempt_cycle ports policies retries metadata)
      unfolding attempt_cycle
      attempt_cycle-Keeps =
          bind-Keeps progress _ _
            (with_retry-Keeps retries 0 _ (omega arith) (omega arith)
              (bind-Keeps progress _ _ (get_state-Keeps progress _) (λ r. call-Keeps progress _)))
            (λ planned.
              bind-Keeps progress _ _
                (with_retry-Keeps retries 0 _ (omega arith) (omega arith) (call-Keeps progress _))
                (λ execution. bind-Keeps progress _ _ (modify-Keeps progress _ (λ s. refl)) (λ _.
                  bind-Keeps progress _ _ (emit-Keeps progress _ _) (λ _.
                    bind-Keeps progress _ _
                      (if_Keeps progress _ _ _ (emit-Keeps progress _ _) (return-Keeps progress tt))
                      (λ _. return-Keeps progress _)))))

      pub run_cycle-Keeps : Keeps progress (run_cycle ports policies retries metadata)
      unfolding run_cycle
      run_cycle-Keeps = try_catch-Keeps progress _ _ attempt_cycle-Keeps (λ caught.
          bind-Keeps progress _ _ (emit-Keeps progress _ _) (λ _. return-Keeps progress _))

  -- A change of the state, and then steps that leave the progress as it is.
  modify-Meets :
      {A V : Type 0} (view : OrchestrationState → V) (f : OrchestrationState → OrchestrationState)
      (m : M W A) (s : Store W)
      → Keeps view m
      → Meets (λ a t. view t.state ≡ view (f s.state)) (λ e t. Unit) ((modify f >> m) s)
  modify-Meets view f m s h =
      bind-Meets (λ _ t. t ≡ record { state = f s.state; world = s.world }) _ _ s
        (unfold ◌>>=◌ in record { holds = refl })
        (λ _ t e. rw e (weaken_Meets _ (h _) (λ a u same. same) (λ x u same. tt)))

  module _ (policies : LoopPolicies) (s : Store W) where
    pub start_cycle-Meets :
        Meets
          (λ _ t. progress t.state ≡ progress (next_cycle ports policies s.state))
          (λ e t. Unit)
          (start_cycle ports policies s)
    unfolding start_cycle
    start_cycle-Meets = modify-Meets progress _ _ s (
        bind-Keeps progress _ _ (get_state-Keeps progress _) (λ replanning_now.
          bind-Keeps progress _ _ (modify-Keeps progress _ (λ t. refl)) (λ _.
            bind-Keeps progress _ _ (persist-Keeps progress) (λ _.
              bind-Keeps progress _ _ (emit-Keeps progress _ _) (λ _.
                if_Keeps progress _ _ _ (emit-Keeps progress _ _) (return-Keeps progress tt))))))

    pub record_cycle-Meets :
        (outcome : CycleOutcome)
        → Meets
            (λ _ t. (at : ℕ) × (progress t.state ≡ progress (push_record outcome at s.state)))
            (λ e t. Unit)
            (record_cycle ports policies outcome s)
    unfolding record_cycle
    record_cycle-Meets outcome =
        bind-Meets (λ at t. t.state ≡ s.state) _ _ s (unfold ◌>>=◌ in record { holds = refl })
          (λ at t e.
            weaken_Meets _
              (modify-Meets progress (push_record outcome at) _ t (persist-Keeps progress))
              (λ a u same. (at, same ∙ ap (λ x. progress (push_record outcome at x)) e))
              (λ x u h. tt))

    -- The decision is the policy's, of the state as it is.
    pub ask_to_stop-Meets :
        (start : ℕ) (outcome : CycleOutcome)
        → Meets
            (λ (d : StopDecision) t.
              (t.state ≡ s.state)
              × (at : ℕ) × (aborted : Bool) × (d
                  ≡ policies.stop_policy
                      (evaluation ports policies start at aborted outcome.fatal s.state)))
            (λ e t. Unit)
            (ask_to_stop ports policies start outcome s)
    unfolding ask_to_stop ◌>>=◌
    ask_to_stop-Meets start outcome = record { holds = (refl, _, _, refl) }

  -- The end of a run.
  pub finalize-Meets :
      (status : OrchestrationStatus) (s : Store W)
      → Meets
          (λ _ t. stage t.state ≡ stage (with_status status s.state))
          (λ e t. Unit)
          (finalize ports status s)
  unfolding finalize
  finalize-Meets status s = modify-Meets stage (with_status status) _ s (
      bind-Keeps stage _ _ (effect-Keeps stage _)
        (λ at. bind-Keeps stage _ _ (modify-Keeps stage _ (λ t. refl)) (λ _. persist-Keeps stage)))
