-- ===== src/Execution/Report.antt =====
-- The report of an execution, action by action: `ExecutionEngine.execute` of
-- packages/execution-engine/src/execution/execution-engine.ts.
use operaia_lab.Common.{
  ℕ, String, true, false, not, ◌&&◌, List, [], ◌∷◌, Option, none, some, ◌≡◌, refl, sym, ap, subst,
  ◌∙◌, All, Bool, arith,
}
use operaia_lab.Json.{Json}
use operaia_lab.Common.Effects.{
  Result, ok, err, Steps, return, ◌>>=◌, Ends, Ends-map, bind-Ends, if_Ends, return-Ends,
  throw-Ends,
}
use operaia_lab.Execution.Model.{
  Action, ExecutionPlan, PlanInput, ExecutionContext, ActionResult, ExecutionResult, ExecutionError,
  thrown, PolicyDecision, ActionExecutor, ExecutionEngine, Run,
}
use operaia_lab.Execution.Engine.{
  is_success, is_failed, found, resolve, resolve_status, attempt, or_throw, call, now, log, skip,
  failure, settle_action, run_executor, validate_by, execute_by, execute_action, execute_actions,
  save_by, finish, check_plan, validate_plan, execute_plan, execute,
}
use operaia_lab.Execution.Status.{is_settled}

module _ {W : Type 0} (engine : ExecutionEngine W) where
  -- What a result says of its action. Only the first executor that has said that it supports an
  -- action runs it.
  pub record Answers (a : Action) (r : ActionResult) : Type 0 where
    pub id : r.action_id ≡ a.id
    pub type : r.type ≡ a.type
    pub settled : is_settled r ≡ true
    pub executed_by :
        is_success r ≡ true
        → (e : ActionExecutor W) × (w : W) × ((resolve engine.registry a w).0 ≡ ok (some e))
          × (r.executor ≡ some e.name)

  -- The results of a list of actions: one for each, in order, up to a failure at which the engine
  -- stops.
  pub data Answered : List Action → List ActionResult → Type 0 where
    done : Answered [] []
    next :
        {a : Action} {r : ActionResult} {actions : List Action} {results : List ActionResult}
        → Answers a r
        → (is_failed r && engine.stop_on_error) ≡ false
        → Answered actions results
        → Answered (a ∷ actions) (r ∷ results)
    stopped :
        {a : Action} {r : ActionResult} {actions : List Action} {results : List ActionResult}
        → Answers a r
        → is_failed r ≡ true
        → engine.stop_on_error ≡ true
        → results ≡ []
        → Answered (a ∷ actions) (r ∷ results)

  -- An executor throws only such errors when it is asked whether it supports an action.
  abbrev pub SupportsBy : (ExecutionError → Type 0) → ActionExecutor W → Type 0
  SupportsBy X e =
      (a : Action) (w w' : W) (message : String)
      → e.supports a w ≡ (err message, w')
      → X (thrown message)

  -- What holds of an error that the policy, the store or the `supports` of an executor has thrown.
  pub record Throws (X : ExecutionError → Type 0) : Type 0 where
    pub can_execute :
        (a : Action) (c : ExecutionContext) (w w' : W) (message : String)
        → engine.policy.can_execute a c w ≡ (err message, w')
        → X (thrown message)
    pub validate :
        (v : Action → ExecutionContext → W → Result String PolicyDecision × W) (a : Action)
        (c : ExecutionContext) (w w' : W) (message : String)
        → engine.policy.validate ≡ some v
        → v a c w ≡ (err message, w')
        → X (thrown message)
    pub supports : All (SupportsBy X) engine.registry
    pub save :
        (f : ExecutionResult → W → Result String (Unit {0}) × W) (r : ExecutionResult) (w w' : W)
        (message : String)
        → engine.save ≡ some f
        → f r w ≡ (err message, w')
        → X (thrown message)

  module _ (X : ExecutionError → Type 0) where
    -- A step whose throws, if any, satisfy `X`.
    abbrev Quiet : {A : Type 0} → (A → Type 0) → Steps ExecutionError (Run W) A → Type 0
    Quiet Q m = (s : Run W) → Ends (λ a t. Q a) (λ e t. X e) (m s)

    return-Quiet : {A : Type 0} {Q : A → Type 0} (a : A) → Q a → Quiet Q (return a)
    return-Quiet a h s = return-Ends a s h

    bind-Quiet :
        {A B : Type 0} (Q : A → Type 0) {R : B → Type 0} (m : Steps ExecutionError (Run W) A)
        (f : A → Steps ExecutionError (Run W) B)
        → Quiet Q m
        → ((a : A) → Q a → Quiet R (f a))
        → Quiet R (m >>= f)
    bind-Quiet Q m f h k s = bind-Ends (λ a t. Q a) m f s (h s) (λ a t q. k a q t)

    now-Quiet : Quiet (λ a. Unit) (now engine)
    unfolding now
    now-Quiet s = record { holds = tt }

    attempt-Quiet :
        {A : Type 0} (f : W → Result String A × W) → Quiet (λ a. Unit) (attempt engine f)
    unfolding attempt
    attempt-Quiet f s = record { holds = tt }

    log-Quiet :
        (level : _) (phase : _) (action_id executor : _) (duration : _)
        → Quiet (λ a. Unit) (log engine level phase action_id executor duration)
    unfolding log ◌>>=◌ now
    log-Quiet level phase action_id executor duration s = record { holds = tt }

    or_throw-Quiet :
        {A : Type 0} (r : Result String A)
        → ((message : String) → r ≡ err message → X (thrown message))
        → Quiet (λ a. r ≡ ok a) (or_throw engine r)
    or_throw-Quiet (ok a) h s = return-Ends a s refl
    or_throw-Quiet (err message) h s = throw-Ends (thrown message) s (h message refl)

    -- What a call returns is what the port has answered in some world.
    call-Answer :
        {A : Type 0} (f : W → Result String A × W)
        → ((w w' : W) (message : String) → f w ≡ (err message, w') → X (thrown message))
        → Quiet (λ a. (w : W) × ((f w).0 ≡ ok a)) (call engine f)
    unfolding call attempt
    call-Answer {A} f h s =
        bind-Ends (λ reply t. reply ≡ (f s.world).0) (attempt engine f) (or_throw engine) s
          (record { holds = refl })
          (λ reply t e.
            Ends-map _
              (or_throw-Quiet reply
                (λ message failed.
                  h s.world (f s.world).1 message (pair_eq (f s.world) (sym e ∙ failed)))
                t)
              (λ a u k. (s.world, sym e ∙ k)) (λ x u k. k))
      where
        pair_eq : (p : Result String A × W) {r : Result String A} → p.0 ≡ r → p ≡ (r, p.1)
        pair_eq (r, w) e = rw e refl

    call-Quiet :
        {A : Type 0} (f : W → Result String A × W)
        → ((w w' : W) (message : String) → f w ≡ (err message, w') → X (thrown message))
        → Quiet (λ a. Unit) (call engine f)
    call-Quiet f h s = Ends-map _ (call-Answer f h s) (λ a t k. tt) (λ e t k. k)

    -- A search for an executor throws only what a `supports` has thrown.
    found-throws :
        (e : ActionExecutor W) (others : W → Result String (Option (ActionExecutor W)) × W)
        (r : Result String Bool × W) (w' : W) (message : String)
        → ((v : W) → r ≡ (err message, v) → X (thrown message))
        → ((v : W) → others v ≡ (err message, w') → X (thrown message))
        → found e others r ≡ (err message, w')
        → X (thrown message)
    found-throws e others (err m, w) w' message own rest h = own w (cc (ap (λ p. p.0) h))
    found-throws e others (ok true, w) w' message own rest h = absurd (cc (ap (λ p. p.0) h))
    found-throws e others (ok false, w) w' message own rest h = rest w h

    resolve-throws :
        (executors : List (ActionExecutor W)) (a : Action) (w w' : W) (message : String)
        → All (SupportsBy X) executors
        → resolve executors a w ≡ (err message, w')
        → X (thrown message)
    unfolding resolve
    resolve-throws [] a w w' message h e = absurd (cc (ap (λ p. p.0) e))
    resolve-throws (x ∷ executors) a w w' message (own, h) e =
        found-throws x (resolve executors a) (x.supports a w) w' message
          (λ v k. own a w v message k) (λ v k. resolve-throws executors a v w' message h k) e

    skip-Quiet :
        (a : Action) (d : PolicyDecision) (started : ℕ)
        → Quiet (Answers a) (skip engine a d started)
    unfolding skip
    skip-Quiet a d started =
        bind-Quiet (λ _. Unit) _ _ (log-Quiet _ _ _ _ _)
          (λ _ _.
            bind-Quiet (λ _. Unit) _ _ now-Quiet
              (λ at _.
                return-Quiet _
                  (record { id = refl; type = refl; settled = refl; executed_by = λ h. cc })))

    failure-Quiet :
        (a : Action) (executor : Option String) (message : String) (started : ℕ)
        → Quiet (Answers a) (failure engine a executor message started)
    unfolding failure
    failure-Quiet a executor message started =
        bind-Quiet (λ _. Unit) _ _ now-Quiet
          (λ at _.
            return-Quiet _
              (record { id = refl; type = refl; settled = refl; executed_by = λ h. cc }))

    settle_action-Quiet :
        (a : Action) (e : ActionExecutor W) (started : ℕ) (reply : Result String Json)
        → (w : W) × ((resolve engine.registry a w).0 ≡ ok (some e))
        → Quiet (Answers a) (settle_action engine a e.name started reply)
    unfolding settle_action
    settle_action-Quiet a e started (ok output) r =
        bind-Quiet (λ _. Unit) _ _ now-Quiet
          (λ at _.
            bind-Quiet (λ _. Unit) _ _ (log-Quiet _ _ _ _ _)
              (λ _ _. return-Quiet _ (record {
                id = refl;
                type = refl;
                settled = refl;
                executed_by = λ h. (e, r.0, r.1, refl);
              })))
    settle_action-Quiet a e started (err message) r =
        bind-Quiet (λ _. Unit) _ _ (log-Quiet _ _ _ _ _) (λ _ _. failure-Quiet a _ message started)

    run_executor-Quiet :
        (a : Action) (c : ExecutionContext) (started : ℕ) (e : ActionExecutor W)
        → (w : W) × ((resolve engine.registry a w).0 ≡ ok (some e))
        → Quiet (Answers a) (run_executor engine a c started e)
    unfolding run_executor
    run_executor-Quiet a c started e r =
        bind-Quiet (λ _. Unit) _ _ (log-Quiet _ _ _ _ _)
          (λ _ _.
            bind-Quiet (λ _. Unit) _ _ (attempt-Quiet _)
              (λ reply _. settle_action-Quiet a e started reply r))

    execute_by-Quiet :
        (o : Option (ActionExecutor W)) (a : Action) (c : ExecutionContext) (started : ℕ)
        → (w : W) × ((resolve engine.registry a w).0 ≡ ok o)
        → Quiet (Answers a) (execute_by engine o a c started)
    unfolding execute_by
    execute_by-Quiet none a c started r =
        bind-Quiet (λ _. Unit) _ _ (log-Quiet _ _ _ _ _) (λ _ _. failure-Quiet a _ _ started)
    execute_by-Quiet (some e) a c started r = run_executor-Quiet a c started e r

    check_plan-Quiet :
        (input : Option PlanInput) (plan : ExecutionPlan)
        → validate_plan input ≡ ok plan
        → Quiet (λ p. p ≡ plan) (check_plan engine input)
    unfolding check_plan ◌>>=◌
    check_plan-Quiet input plan valid s = rw valid (record { holds = refl })

    module _ (throws : Throws X) where
      validate_by-Quiet :
          (o : Option (Action → ExecutionContext → W → Result String PolicyDecision × W))
          (a : Action) (c : ExecutionContext)
          → engine.policy.validate ≡ o
          → Quiet (λ _. Unit) (validate_by engine o a c)
      unfolding validate_by
      validate_by-Quiet none a c is = return-Quiet _ tt
      validate_by-Quiet (some v) a c is =
          call-Quiet (v a c) (λ w w' message. throws.validate v a c w w' message is)

      save_by-Quiet :
          (o : Option (ExecutionResult → W → Result String (Unit {0}) × W)) (r : ExecutionResult)
          → engine.save ≡ o
          → Quiet (λ _. Unit) (save_by engine o r)
      unfolding save_by
      save_by-Quiet none r is = return-Quiet tt tt
      save_by-Quiet (some f) r is =
          call-Quiet (f r) (λ w w' message. throws.save f r w w' message is)

      execute_action-Quiet :
          (a : Action) (c : ExecutionContext) → Quiet (Answers a) (execute_action engine a c)
      unfolding execute_action
      execute_action-Quiet a c =
          bind-Quiet (λ _. Unit) _ _ now-Quiet
            (λ started _.
              bind-Quiet (λ _. Unit) _ _ (call-Quiet _ (throws.can_execute a c))
                (λ can _ s.
                  if_Ends (not can.allowed) _ _ s (λ denied. skip-Quiet a can started s)
                    (λ allowed.
                      bind-Quiet (λ _. Unit) _ _ (validate_by-Quiet engine.policy.validate a c refl)
                        (λ valid _ t.
                          if_Ends (not valid.allowed) _ _ t (λ d. skip-Quiet a valid started t)
                            (λ d.
                              bind-Quiet _ _ _
                                (call-Answer (resolve engine.registry a) (λ w w' message.
                                  resolve-throws engine.registry a w w' message throws.supports))
                                (λ e found_by. execute_by-Quiet e a c started found_by) t))
                        s)))

      execute_actions-Quiet :
          (c : ExecutionContext) (actions : List Action)
          → Quiet (Answered actions) (execute_actions engine c actions)
      unfolding execute_actions
      execute_actions-Quiet c [] = return-Quiet [] done
      execute_actions-Quiet c (a ∷ actions) =
          bind-Quiet (Answers a) _ _ (execute_action-Quiet a c) (λ r answers s.
            if_Ends (is_failed r && engine.stop_on_error) _ _ s
              (λ stops.
                return-Quiet (r ∷ []) (stopped answers (ground arith) (ground arith) refl) s)
              (λ goes.
                bind-Quiet (Answered actions) _ _ (execute_actions-Quiet c actions)
                  (λ results answered. return-Quiet (r ∷ results) (next answers goes answered)) s))

      finish-Quiet :
          (c : ExecutionContext) (results : List ActionResult)
          → Quiet
              (λ r. (r.results ≡ results) × (r.status ≡ resolve_status results))
              (finish engine c results)
      unfolding finish
      finish-Quiet c results =
          bind-Quiet (λ _. Unit) _ _ now-Quiet
            (λ at _.
              bind-Quiet (λ _. Unit) _ _ (log-Quiet _ _ _ _ _)
                (λ _ _.
                  bind-Quiet (λ _. Unit) _ _ (λ s. unfold ◌>>=◌ in record { holds = tt })
                    (λ logs _.
                      bind-Quiet (λ _. Unit) _ _ (save_by-Quiet engine.save _ refl)
                        (λ _ _. return-Quiet _ (refl, refl)))))

-- What a returned report says.
pub record Reported {W : Type 0} (engine : ExecutionEngine W) (plan : ExecutionPlan)
    (r : ExecutionResult) : Type 0 where
  pub answered : Answered engine plan.actions r.results
  pub status : r.status ≡ resolve_status r.results

-- An execution of a valid plan returns, or throws what the policy, the store or the `supports` of an
-- executor has thrown, never what the `execute` of an executor has; so with `X` empty it returns. Its
-- report has the results of the plan's actions, one for each, in order, up to a failure at which the
-- engine stops: each with its action's id and type, SUCCESS, FAILED or SKIPPED, and SUCCESS only from
-- the first executor that has said that it supports the action; and its status is that of the results.
pub execute-Reported :
    {W : Type 0} (engine : ExecutionEngine W) (X : ExecutionError → Type 0)
    (input : Option PlanInput) (plan : ExecutionPlan) (execution_id : String) (w : W)
    → Throws engine X
    → validate_plan input ≡ ok plan
    → Ends (λ r s. Reported engine plan r) (λ e s. X e) (execute engine input execution_id w)
unfolding execute execute_plan
execute-Reported engine X input plan execution_id w throws valid =
    bind-Quiet engine X (λ _. Unit) _ _ (now-Quiet engine X)
      (λ started _.
        bind-Quiet engine X (λ p. p ≡ plan) _ _ (check_plan-Quiet engine X input plan valid)
          (λ p same.
            bind-Quiet engine X (λ _. Unit) _ _ (log-Quiet engine X _ _ _ _ _)
              (λ _ _.
                bind-Quiet engine X (Answered engine p.actions) _ _
                  (execute_actions-Quiet engine X throws _ p.actions)
                  (λ results answered s.
                    Ends-map _ (finish-Quiet engine X throws _ results s)
                      (λ r t h. record {
                        answered =
                            subst (λ q. Answered engine q.actions r.results) same
                              (subst (Answered engine p.actions) (sym h.0) answered);
                        status = h.1 ∙ ap resolve_status (sym h.0);
                      })
                      (λ e t x. x)))))
      (record { logs = []; world = w })
