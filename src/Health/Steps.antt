-- ===== src/Health/Steps.antt =====
-- The steps of maintenance: a failure of one does not keep the others from running.
use operaia_lab.Common.{
  ℕ, String, Bool, true, false, ◌&&◌, List, [], ◌∷◌, ◌++◌, Option, none, some, ◌≡◌, refl, ap, ◌∙◌,
  arith, decimal,
}
use operaia_lab.Common.Effects.{Result, ok, err}
use operaia_lab.Health.Rules.{◌+++◌}
use operaia_lab.Health.Maintenance.{
  MaintenanceResult, Port, MemoryMaintenancePort, QueueMaintenancePort, LedgerMaintenancePort,
  OperationalMaintenanceOptions, Maintaining, settle_one, run_one, or_default, run_memory,
  run_queue, run_ledger, run_maintenance,
}

-- One step of maintenance, and what the report says of its answer.
pub record Step (W : Type 0) : Type 0 where
  pub name : String
  pub port : Port W
  pub detail_ok : ℕ → String

abbrev result_of_reply : {W : Type 0} → Step W → Result String ℕ → MaintenanceResult
result_of_reply step (ok affected) = record {
  name = step.name;
  affected = affected;
  detail = step.detail_ok affected;
}
result_of_reply step (err message) = record { name = step.name; affected = 0; detail = message }

abbrev is_ok : Result String ℕ → Bool
is_ok (ok affected) = true
is_ok (err message) = false

-- The results of all the steps, each called in the world that those before it have left.
abbrev pub results_of : {W : Type 0} → List (Step W) → W → List MaintenanceResult
results_of [] w = []
results_of (step ∷ steps) w =
    result_of_reply step (step.port w).0 ∷ results_of steps (step.port w).1

abbrev pub all_ok : {W : Type 0} → List (Step W) → W → Bool
all_ok [] w = true
all_ok (step ∷ steps) w = is_ok (step.port w).0 && all_ok steps (step.port w).1

abbrev memory_steps : {W : Type 0} → Option (MemoryMaintenancePort W) → ℕ → List (Step W)
memory_steps none target = []
memory_steps (some memory) target =
    (record {
      name = "memory.archive_expired";
      port = memory.archive_expired;
      detail_ok = λ n. decimal n +++ " notes expiradas arquivadas";
    })
    ∷ (record {
      name = "memory.preventive_eviction";
      port = memory.preventive_eviction target;
      detail_ok = λ n. decimal n +++ " notes evicted (targetActiveMax=" +++ decimal target +++ ")";
    })
    ∷ []

abbrev queue_steps : {W : Type 0} → Option (QueueMaintenancePort W) → List (Step W)
queue_steps none = []
queue_steps (some queue) =
    (record {
      name = "queue.cancel_orphan_waiting";
      port = queue.cancel_orphan_waiting;
      detail_ok = λ n. decimal n +++ " WAITING orfaos cancelados";
    })
    ∷ (record {
      name = "queue.purge_expired_retries";
      port = queue.purge_expired_retries;
      detail_ok = λ n. decimal n +++ " retries expirados tratados";
    })
    ∷ []

abbrev ledger_steps : {W : Type 0} → Option (LedgerMaintenancePort W) → ℕ → List (Step W)
ledger_steps none days = []
ledger_steps (some ledger) days =
    (record {
      name = "ledger.purge_old";
      port = ledger.purge_older_than days;
      detail_ok = λ n. decimal n +++ " registros ledger >" +++ decimal days +++ "d removidos";
    })
    ∷ []

-- The configured steps, in order.
abbrev pub steps_of : {W : Type 0} → OperationalMaintenanceOptions W → List (Step W)
steps_of options =
    memory_steps options.memory (or_default options.memory_target_active_max 1600)
    ++ (queue_steps options.queue
        ++ ledger_steps options.ledger (or_default options.ledger_retention_days 30))

run_steps : {W : Type 0} → List (Step W) → Maintaining W → Maintaining W
run_steps [] s = s
run_steps (step ∷ steps) s = run_steps steps (run_one step.name step.port step.detail_ok s)

run_steps-append :
    {W : Type 0} (l r : List (Step W)) (s : Maintaining W)
    → run_steps (l ++ r) s ≡ run_steps r (run_steps l s)
unfolding run_steps
run_steps-append [] r s = refl
run_steps-append (step ∷ l) r s =
    run_steps-append l r (run_one step.name step.port step.detail_ok s)

memory_steps_lem :
    {W : Type 0} (memory : Option (MemoryMaintenancePort W)) (target : ℕ) (s : Maintaining W)
    → run_memory memory target s ≡ run_steps (memory_steps memory target) s
unfolding run_steps
memory_steps_lem none target s = refl
memory_steps_lem (some memory) target s = refl

queue_steps_lem :
    {W : Type 0} (queue : Option (QueueMaintenancePort W)) (s : Maintaining W)
    → run_queue queue s ≡ run_steps (queue_steps queue) s
unfolding run_steps
queue_steps_lem none s = refl
queue_steps_lem (some queue) s = refl

ledger_steps_lem :
    {W : Type 0} (ledger : Option (LedgerMaintenancePort W)) (days : ℕ) (s : Maintaining W)
    → run_ledger ledger days s ≡ run_steps (ledger_steps ledger days) s
unfolding run_steps
ledger_steps_lem none days s = refl
ledger_steps_lem (some ledger) days s = refl

append_one :
    (l : List MaintenanceResult) (x : MaintenanceResult) (r : List MaintenanceResult)
    → (l ++ (x ∷ [])) ++ r ≡ l ++ (x ∷ r)
append_one [] x r = refl
append_one (y ∷ l) x r = ap (λ t. y ∷ t) (append_one l x r)

append-nil : (l : List MaintenanceResult) → l ≡ l ++ []
append-nil [] = refl
append-nil (x ∷ l) = ap (λ t. x ∷ t) (append-nil l)

-- What the steps leave, from what they started with.
record Ran {W : Type 0} (steps : List (Step W)) (s t : Maintaining W) : Type 0 where
  results : t.results ≡ s.results ++ results_of steps s.world
  success : t.success ≡ (s.success && all_ok steps s.world)

-- What one step leaves.
settle_one_lem :
    {W : Type 0} (step : Step W) (r : Result String ℕ × W) (s : Maintaining W)
    → ((settle_one step.name step.detail_ok r s).results
        ≡ s.results ++ (result_of_reply step r.0 ∷ []))
      × (((settle_one step.name step.detail_ok r s).success ≡ (s.success && is_ok r.0))
          × ((settle_one step.name step.detail_ok r s).world ≡ r.1))
settle_one_lem step (ok affected, w) s = (refl, (ground arith, refl))
settle_one_lem step (err message, w) s = (refl, (ground arith, refl))

run_steps-Ran :
    {W : Type 0} (steps : List (Step W)) (s : Maintaining W) → Ran steps s (run_steps steps s)
unfolding run_steps run_one
run_steps-Ran [] s = record { results = append-nil s.results; success = ground arith }
run_steps-Ran {W} (step ∷ steps) s =
    let (results, (success, world)) = settle_one_lem step (step.port s.world) s in
    let rest = run_steps-Ran steps (run_one step.name step.port step.detail_ok s) in
    record {
      results =
          rest.results
          ∙ rw (results, world)
              (append_one s.results (result_of_reply step (step.port s.world).0)
                (results_of steps (step.port s.world).1));
      success = rest.success ∙ rw (success, world) ground arith;
    }

run_maintenance-steps :
    {W : Type 0} (options : OperationalMaintenanceOptions W) (s : Maintaining W)
    → run_ledger options.ledger (or_default options.ledger_retention_days 30) (
        run_queue options.queue
          (run_memory options.memory (or_default options.memory_target_active_max 1600) s))
      ≡ run_steps (steps_of options) s
run_maintenance-steps options s =
    rw
      (
        run_steps-append
            (memory_steps options.memory (or_default options.memory_target_active_max 1600))
            (queue_steps options.queue
              ++ ledger_steps options.ledger (or_default options.ledger_retention_days 30))
            s,
        run_steps-append (queue_steps options.queue)
            (ledger_steps options.ledger (or_default options.ledger_retention_days 30))
            (run_steps
              (memory_steps options.memory (or_default options.memory_target_active_max 1600)) s),
        memory_steps_lem options.memory (or_default options.memory_target_active_max 1600) s,
        queue_steps_lem options.queue (
            run_steps
              (memory_steps options.memory (or_default options.memory_target_active_max 1600)) s),
      )
      (ledger_steps_lem options.ledger (or_default options.ledger_retention_days 30) _)

-- A run of the maintenance calls every configured step, whichever of them throw, each in the world
-- that those before it have left; it reports one result for each, in order, with what the step
-- answered or the error and nothing affected, and success exactly where no step has thrown.
pub run_maintenance_lem :
    {W : Type 0} (options : OperationalMaintenanceOptions W) (correlation_id : String) (w : W)
    → ((run_maintenance options correlation_id w).0.results ≡ results_of (steps_of options) w)
      × ((run_maintenance options correlation_id w).0.success ≡ all_ok (steps_of options) w)
unfolding run_maintenance
run_maintenance_lem {W} options correlation_id w =
    let started : Maintaining W = record { results = []; success = true; world = w } in
    let same = run_maintenance-steps options started in
    let ran = run_steps-Ran (steps_of options) started in
    (ap (λ t. t.results) same ∙ ran.results, ap (λ t. t.success) same ∙ ran.success)
