-- ===== src/Orchestration/Termination.antt =====
-- A run of the orchestration from its start to its result, cycle by cycle.
use operaia_lab.Common.{
  ℕ, zero, suc, ◌+◌, ◌-◌, ◌<◌, Bool, true, Option, none, some, ◌≡◌, refl, sym, ap, ◌∙◌,
  if◌then◌else◌, arith,
}
use operaia_lab.Json.{Json}
use operaia_lab.Orchestration.Model.{OrchestrationStatus, completed, cancelled, OrchestrationState}
use operaia_lab.Orchestration.Policies.{
  LoopPolicy, RetryPolicy, StopEvaluation, StopDecision, evaluate, status_from_stop_reason,
  last_completed, failures,
}
use operaia_lab.Orchestration.Effects.{Ports, Store, M, ◌>>=◌, ◌>>◌}
use operaia_lab.Orchestration.Loop.{
  LoopPolicies, CycleOutcome, evaluation, start_cycle, run_cycle, record_cycle, ask_to_stop,
  finalize, with_status, cycles, run_loop, push_record, next_cycle,
}
use operaia_lab.Orchestration.Engine.{
  RunOptions, is_completed, time_of, build_result, orchestrate, run,
}
use operaia_lab.Orchestration.Meets.{Meets, bind-Meets, weaken_Meets, if_Meets}
use operaia_lab.Orchestration.Cycles.{
  GivesUp, progress, stage, persist-Keeps, emit-Keeps, finalize-Meets, run_cycle-Keeps,
  start_cycle-Meets, record_cycle-Meets, ask_to_stop-Meets,
}
use operaia_lab.Orchestration.Bounds.{
  is_final, evaluate_status, Going, Bounded, Finished, Bounded-of_Going, Going-push, evaluate-Going,
  Ended, is_completed_iff,
}

module _ {W : Type 0} (ports : Ports W) (policy : LoopPolicy) (retry : RetryPolicy) where
  abbrev pub with_default_stop : LoopPolicies
  with_default_stop = record { loop_policy = policy; stop_policy = evaluate; retry_policy = retry }

  finalize-Ended :
      (status : OrchestrationStatus) (s : Store W)
      → Bounded policy s.state.current_cycle s.state.history
      → is_final status ≡ true
      → (status ≡ completed → last_completed s.state.history ≡ true)
      → Meets (λ _ t. Ended policy t.state) (λ e t. Unit) (finalize ports status s)
  finalize-Ended status s b f c =
      weaken_Meets _ (finalize-Meets ports status s) (λ _ t same. Ended_of_stage t.state same)
        (λ e t u. tt)
    where
      Ended_of_stage :
          (t : OrchestrationState) → stage t ≡ stage (with_status status s.state) → Ended policy t
      Ended_of_stage t same =
          let counts : t.current_cycle ≡ s.state.current_cycle = ap (λ x. x.0.0) same in
          let records : t.history ≡ s.state.history = ap (λ x. x.0.1) same in
          let ends : t.status ≡ status = ap (λ x. x.1) same in
          record {
            bounded = rw (counts, records) b;
            final = rw ends f;
            completes = λ e. rw records (c (sym ends ∙ e));
          }

  module _ (n : ℕ) (gives_up : GivesUp retry n) (retries : ℕ) (enough : n < retries)
      (metadata : Json) where
    -- A cycle from a state that may go on.
    Going-cycle :
        (outcome : CycleOutcome) (s t u v : OrchestrationState) (at : ℕ)
        → Going policy (progress s)
        → progress t ≡ progress (next_cycle ports with_default_stop s)
        → progress u ≡ progress t
        → progress v ≡ progress (push_record outcome at u)
        → Bounded policy v.current_cycle v.history
    Going-cycle outcome s t u v at g started ran recorded =
        let counts : v.current_cycle ≡ s.current_cycle + 1 =
          ap (λ p. p.0) recorded ∙ ap (λ p. p.0) ran ∙ ap (λ p. p.0) started in
        let records : u.history ≡ s.history = ap (λ p. p.1) ran ∙ ap (λ p. p.1) started in
        rw (counts, ap (λ p. p.1) recorded, records) (Going-push policy (progress s) _ g)

    -- What the loop does at the end of a cycle.
    stop_or_continue :
        (s : OrchestrationState) (rest : M W Unit) (d : StopDecision) (w : Store W) (start at : ℕ)
        (aborted fatal : Bool)
        → d ≡ evaluate (evaluation ports with_default_stop start at aborted fatal w.state)
        → Bounded policy w.state.current_cycle w.state.history
        → (w.state.current_cycle < policy.max_cycles
            → Going policy (progress w.state)
            → Meets (λ _ t. Ended policy t.state) (λ e t. Unit) (rest w))
        → Meets
            (λ _ t. Ended policy t.state)
            (λ e t. Unit)
            ((if d.stop then finalize ports (status_from_stop_reason d.reason) else rest) w)
    stop_or_continue s rest d w start at aborted fatal decided b k =
        let input : StopEvaluation =
          evaluation ports with_default_stop start at aborted fatal w.state in
        let rule = evaluate_status input in
        if_Meets d.stop _ _ w
          (λ stops.
            finalize-Ended (status_from_stop_reason d.reason) w b
              (rw decided (rule.0.0 (sym (ap (λ x. x.stop) decided) ∙ stops)))
              (λ c. (rule.1.0 (sym (ap (λ x. status_from_stop_reason x.reason) decided) ∙ c)).2))
          (λ goes.
            let next = evaluate-Going input (sym (ap (λ x. x.stop) decided) ∙ goes) b in
            k next.0 next.1)

    -- One cycle, and the rest of the loop.
    cycle-Meets :
        (start : ℕ) (s : Store W) (rest : M W Unit)
        → Going policy (progress s.state)
        → ((w : Store W)
            → w.state.current_cycle ≡ s.state.current_cycle + 1
            → w.state.current_cycle < policy.max_cycles
            → Going policy (progress w.state)
            → Meets (λ _ t. Ended policy t.state) (λ e t. Unit) (rest w))
        → Meets
            (λ _ t. Ended policy t.state)
            (λ e t. Unit)
            ((start_cycle ports with_default_stop
                >> (run_cycle ports with_default_stop retries metadata >>= λ outcome.
                    record_cycle ports with_default_stop outcome
                    >> (ask_to_stop ports with_default_stop start outcome >>= λ d.
                        if d.stop
                        then finalize ports (status_from_stop_reason d.reason)
                        else rest)))
              s)
    cycle-Meets start s rest g k =
        bind-Meets _ _ _ s (start_cycle-Meets ports with_default_stop s) (λ _ t started.
          bind-Meets (λ _ u. progress u.state ≡ progress t.state) _ _ t
            (weaken_Meets _
              (run_cycle-Keeps ports with_default_stop n gives_up retries metadata enough t)
              (λ _ u same. same) (λ x u same. tt))
            (λ outcome u ran.
              bind-Meets _ _ _ u (record_cycle-Meets ports with_default_stop u outcome)
                (λ _ v recorded.
                  bind-Meets _ _ _ v (ask_to_stop-Meets ports with_default_stop v start outcome)
                    (λ d w asked.
                      let (same, at, aborted, decided) = asked in
                      let b : Bounded policy w.state.current_cycle w.state.history = rw same (
                        Going-cycle outcome s.state t.state u.state v.state recorded.0 g started ran
                          recorded.1) in
                      let counts : w.state.current_cycle ≡ s.state.current_cycle + 1 =
                        ap (λ x. x.current_cycle) same
                        ∙ ap (λ p. p.0) recorded.1
                        ∙ ap (λ p. p.0) ran
                        ∙ ap (λ p. p.0) started in
                      stop_or_continue s.state rest d w start at aborted outcome.fatal
                        (rw same decided) b (k w counts)))))

    cycles-Ended :
        (fuel start : ℕ) (s : Store W)
        → Going policy (progress s.state)
        → policy.max_cycles - s.state.current_cycle < fuel
        → Meets
            (λ _ t. Ended policy t.state)
            (λ e t. Unit)
            (cycles ports with_default_stop fuel retries metadata start s)
    unfolding cycles
    cycles-Ended zero start s g lt = let never : ⊥ = omega (arith, lt) in elim never [ ]
    cycles-Ended (suc fuel) start s g lt =
        bind-Meets (λ aborted t. t ≡ s) _ _ s (unfold ◌>>=◌ in record { holds = refl })
          (λ aborted t e. rw e (
            if_Meets aborted _ _ s
              (λ stops.
                finalize-Ended cancelled s (Bounded-of_Going policy (progress s.state) g) refl
                  (λ c. ground arith))
              (λ goes.
                cycle-Meets start s (cycles ports with_default_stop fuel retries metadata start) g
                  (λ w counts room next.
                    cycles-Ended fuel start w next (omega (arith, lt, counts, room))))))

    run_loop-Ended :
        (fuel : ℕ) (s : Store W)
        → Going policy (progress s.state)
        → policy.max_cycles - s.state.current_cycle < fuel
        → Meets
            (λ _ t. Ended policy t.state)
            (λ e t. Unit)
            (run_loop ports with_default_stop fuel retries metadata s)
    unfolding run_loop
    run_loop-Ended fuel s g lt =
        bind-Meets (λ start t. t.state ≡ s.state) _ _ s (unfold ◌>>=◌ in record { holds = refl })
          (λ start t e. cycles-Ended fuel start t (rw e g) (rw e lt))

    time_of-Keeps :
        (finished : Option ℕ) (t : Store W)
        → Meets
            (λ at u. u.state ≡ t.state)
            (λ e u. Unit)
            (time_of ports with_default_stop finished t)
    unfolding time_of ◌>>=◌
    time_of-Keeps none t = record { holds = refl }
    time_of-Keeps (some at) t = record { holds = refl }

    build_result-Finished :
        (s : Store W)
        → Ended policy s.state
        → Meets (λ r t. Finished policy r) (λ e t. Unit) (build_result ports with_default_stop s)
    unfolding build_result
    build_result-Finished s h =
        bind-Meets (λ finished t. t ≡ s) _ _ s (unfold ◌>>=◌ in record { holds = refl })
          (λ finished t e.
            bind-Meets (λ at u. u.state ≡ t.state) _ _ t (time_of-Keeps finished t)
              (λ at u f.
                unfold ◌>>=◌ in
                record {
                  holds = record {
                    bounded = rw (f, e) h.bounded;
                    final = rw (f, e) h.final;
                    completes = λ c.
                        rw (f, e)
                          (h.completes (
                            is_completed_iff s.state.status (
                              ap (λ x. is_completed x.status) (sym (f ∙ ap (λ y. y.state) e))
                              ∙ c)));
                  };
                }))

    Ended-of_same : (s t : OrchestrationState) → stage t ≡ stage s → Ended policy s → Ended policy t
    Ended-of_same s t same h =
        let counts : t.current_cycle ≡ s.current_cycle = ap (λ x. x.0.0) same in
        let records : t.history ≡ s.history = ap (λ x. x.0.1) same in
        let ends : t.status ≡ s.status = ap (λ x. x.1) same in
        record {
          bounded = rw (counts, records) h.bounded;
          final = rw ends h.final;
          completes = λ c. rw records (h.completes (sym ends ∙ c));
        }

    orchestrate-Finished :
        (fuel : ℕ) (s : Store W)
        → Going policy (progress s.state)
        → policy.max_cycles - s.state.current_cycle < fuel
        → Meets
            (λ r t. Finished policy r)
            (λ e t. Unit)
            (orchestrate ports with_default_stop fuel retries metadata s)
    unfolding orchestrate
    orchestrate-Finished fuel s g lt =
        bind-Meets (λ _ t. stage t.state ≡ stage s.state) _ _ s
          (weaken_Meets _ (persist-Keeps ports stage s) (λ _ t e. e) (λ x t e. tt))
          (λ _ t kept.
            bind-Meets (λ _ u. stage u.state ≡ stage s.state) _ _ t
              (weaken_Meets _ (emit-Keeps ports stage _ _ t) (λ _ u e. e ∙ kept) (λ x u e. tt))
              (λ _ u same.
                let before : progress u.state ≡ progress s.state = ap (λ x. x.0) same in
                bind-Meets (λ _ v. Ended policy v.state) _ _ u
                  (run_loop-Ended fuel u (rw before g) (rw (ap (λ p. p.0) before) lt))
                  (λ _ v ended.
                    bind-Meets (λ _ w. w ≡ v) _ _ v (unfold ◌>>=◌ in record { holds = refl })
                      (λ status w e.
                        bind-Meets (λ _ x. Ended policy x.state) _ _ w
                          (weaken_Meets _ (emit-Keeps ports stage _ _ w)
                            (λ _ x k.
                              Ended-of_same v.state x.state (k ∙ ap (λ y. stage y.state) e) ended)
                            (λ x y k. tt))
                          (λ _ x h. build_result-Finished x h)))))

-- A run of the engine ends: where the retry policy gives up after `n` failures, more than `n`
-- attempts a call and more than `maxCycles` cycles are enough fuel, and a run then returns or
-- throws. A result that it returns has a final status, one record for each cycle, at most
-- `maxCycles` cycles (one, where that is 0) and at most `maxFailures` cycles with an error (one, where that is 0); and
-- it reports the objective as completed only when its last cycle completed it.
pub run-Finished :
    {W : Type 0} (ports : Ports W) (policy : LoopPolicy) (retry : RetryPolicy) (n retries fuel : ℕ)
    (options : RunOptions) (w : W)
    → GivesUp retry n
    → n < retries
    → policy.max_cycles < fuel
    → Meets
        (λ r s. Finished policy r)
        (λ e s. Unit)
        (run ports
          (record { loop_policy = policy; stop_policy = evaluate; retry_policy = retry })
          fuel
          retries
          options
          w)
unfolding run failures
run-Finished ports policy retry n retries fuel options w gives_up enough cycles_enough =
    orchestrate-Finished ports policy retry n gives_up retries enough options.metadata fuel _
      (record { counted = refl; within = omega arith; tolerated = λ m e. omega arith })
      (omega arith)
