-- ===== src/Health/Levels.antt =====
-- The status of a snapshot of health, from the measured values.
use operaia_lab.Common.{
  ℕ, String, Bool, true, false, not, ◌&&◌, ◌||◌, List, [], ◌∷◌, ◌++◌, Option, none, some, ◌≡◌, refl,
  ◌==◌, nat_same, if◌then◌else◌, ltb, arith, decimal,
}
use operaia_lab.Health.Rules.{
  Amount, whole, at_least, ThresholdPair, HealthRulesConfig, RuleSeverity, fine, at_warning,
  at_critical, RuleEvaluation, Heartbeat, unmeasured, no_heartbeat, heartbeat_age,
  OperationalMetricsInput, evaluate_threshold, evaluate_count, evaluate_memory, evaluate_heartbeat,
  evaluate_health_rules, is_critical, is_warning, any_severity, worst_severity, ◌+++◌,
}
use operaia_lab.Health.Service.{
  healthy, degraded, critical, OperationalHealthService, derive_workers_status, is_off,
  is_critical_status, is_degraded_status, overall_status, map_worst_to_status, snapshot_of,
  get_health,
}

abbrev count_reaches : Amount → Option ℕ → Bool
count_reaches limit none = false
count_reaches limit (some n) = at_least (whole n) limit

abbrev share_reaches : Amount → Option ℕ → Option ℕ → Bool
share_reaches limit (some part) (some total) =
    not (total == 0) && at_least (record { over = part; under = total }) limit
share_reaches limit (some part) none = false
share_reaches limit none total = false

abbrev age_reaches : Amount → Heartbeat → Bool
age_reaches limit (heartbeat_age age) = at_least (whole age) limit
age_reaches limit unmeasured = false
age_reaches limit no_heartbeat = false

-- Some measured value has reached its limit.
unfoldable pub reaches :
    (ThresholdPair → Amount) → HealthRulesConfig → OperationalMetricsInput → Bool
reaches limit rules m =
    share_reaches (limit rules.memory_quota_ratio) m.memory_active_notes m.memory_quota
    || (count_reaches (limit rules.queue_waiting) m.queue_waiting
        || (count_reaches (limit rules.mission_depth) m.queue_depth
            || (count_reaches (limit rules.consecutive_failed) m.consecutive_failed
                || age_reaches (limit rules.worker_heartbeat_ms) m.oldest_worker_heartbeat_age_ms)))

abbrev is_silent : Heartbeat → Bool
is_silent no_heartbeat = true
is_silent _ = false

abbrev gone : Heartbeat → Option ℕ → Option ℕ → Bool
gone hb (some alive) (some expected) = alive == 0 && ltb 0 expected
gone hb (some alive) none = is_silent hb
gone hb none expected = is_silent hb

abbrev short : Option ℕ → Option ℕ → Bool
short (some alive) (some expected) = ltb alive expected
short (some alive) none = false
short none expected = false

-- No worker is alive, though some are expected, or none has a heartbeat where they are not counted.
unfoldable pub has_no_worker : OperationalMetricsInput → Bool
has_no_worker m = gone m.oldest_worker_heartbeat_age_ms m.workers_alive m.workers_expected

unfoldable pub has_few_workers : OperationalMetricsInput → Bool
has_few_workers m = short m.workers_alive m.workers_expected

-- What the evaluations say, where `c` is whether a critical limit is reached and `w` a warning one.
record Rates (l : List RuleEvaluation) (c w : Bool) : Type 0 where
  worst : any_severity is_critical l ≡ c
  warned : c ≡ false → any_severity is_warning l ≡ w

any_severity-append :
    (p : RuleSeverity → Bool) (l r : List RuleEvaluation)
    → any_severity p (l ++ r) ≡ (any_severity p l || any_severity p r)
any_severity-append p [] r = refl
any_severity-append p (e ∷ l) r = ground (arith, any_severity-append p l r)

append-Rates :
    (l r : List RuleEvaluation) (c w d v : Bool)
    → Rates l c w
    → Rates r d v
    → Rates (l ++ r) (c || d) (w || v)
append-Rates l r c w d v h k = record {
  worst = ground (arith, any_severity-append is_critical l r, h.worst, k.worst);
  warned = λ e. ground (arith, any_severity-append is_warning l r, e, h.warned, k.warned);
}

evaluate_count-Rates :
    (rule : String) (pair : ThresholdPair) (message : ℕ → String) (n : Option ℕ)
    → Rates
        (evaluate_count rule pair message n)
        (count_reaches pair.critical n)
        (count_reaches pair.warning n)
unfolding evaluate_threshold
evaluate_count-Rates rule pair message none = record { worst = refl; warned = λ e. refl }
evaluate_count-Rates rule pair message (some n) = record {
  worst = ground arith;
  warned = λ e. ground (arith, e);
}

evaluate_memory-Rates :
    (percent : Amount → String) (pair : ThresholdPair) (notes quota : Option ℕ)
    → Rates
        (evaluate_memory percent pair notes quota)
        (share_reaches pair.critical notes quota)
        (share_reaches pair.warning notes quota)
unfolding evaluate_threshold
evaluate_memory-Rates percent pair none quota = record { worst = refl; warned = λ e. refl }
evaluate_memory-Rates percent pair (some notes) none = record { worst = refl; warned = λ e. refl }
evaluate_memory-Rates percent pair (some notes) (some quota) = record {
  worst = ground arith;
  warned = λ e. ground (arith, e);
}

evaluate_heartbeat-Rates :
    (pair : ThresholdPair) (hb : Heartbeat)
    → Rates
        (evaluate_heartbeat pair hb)
        (age_reaches pair.critical hb)
        (age_reaches pair.warning hb)
unfolding evaluate_threshold
evaluate_heartbeat-Rates pair unmeasured = record { worst = refl; warned = λ e. refl }
evaluate_heartbeat-Rates pair no_heartbeat = record { worst = refl; warned = λ e. refl }
evaluate_heartbeat-Rates pair (heartbeat_age age) = record {
  worst = ground arith;
  warned = λ e. ground (arith, e);
}

evaluate_health_rules-Rates :
    (percent : Amount → String) (metrics : OperationalMetricsInput) (rules : HealthRulesConfig)
    → Rates
        (evaluate_health_rules percent metrics rules)
        (reaches (λ p. p.critical) rules metrics)
        (reaches (λ p. p.warning) rules metrics)
unfolding evaluate_health_rules reaches
evaluate_health_rules-Rates percent metrics rules =
    append-Rates _ _ _ _ _ _
      (evaluate_memory-Rates percent rules.memory_quota_ratio metrics.memory_active_notes
        metrics.memory_quota)
      (append-Rates _ _ _ _ _ _
        (evaluate_count-Rates "queue.waiting" rules.queue_waiting (λ n. "WAITING=" +++ decimal n)
          metrics.queue_waiting)
        (append-Rates _ _ _ _ _ _
          (evaluate_count-Rates "mission.depth" rules.mission_depth (λ n. "depth=" +++ decimal n)
            metrics.queue_depth)
          (append-Rates _ _ _ _ _ _
            (evaluate_count-Rates "queue.failed_spike" rules.consecutive_failed
              (λ n. "FAILED consecutivos/recentes=" +++ decimal n) metrics.consecutive_failed)
            (evaluate_heartbeat-Rates rules.worker_heartbeat_ms
              metrics.oldest_worker_heartbeat_age_ms))))

worst_severity-Rates :
    (l : List RuleEvaluation) (c w : Bool)
    → Rates l c w
    → worst_severity l ≡ (if c then at_critical else if w then at_warning else fine)
unfolding worst_severity
worst_severity-Rates l c w h = ground (arith, h.worst, h.warned)

-- The status of the workers, as the two tests.
derive_workers_status-critical :
    (m : OperationalMetricsInput)
    → is_critical_status (derive_workers_status m).status ≡ has_no_worker m
unfolding derive_workers_status has_no_worker
derive_workers_status-critical m = ground arith

derive_workers_status-degraded :
    (m : OperationalMetricsInput)
    → has_no_worker m ≡ false
    → is_degraded_status (derive_workers_status m).status ≡ has_few_workers m
unfolding derive_workers_status has_no_worker has_few_workers
derive_workers_status-degraded m h = ground (arith, h)

-- The status that is returned is CRITICAL exactly where a measured value has reached its critical
-- limit, no worker is left or the runtime is off; otherwise DEGRADED exactly where one has reached
-- its warning limit, workers are missing or the actions or the scheduler are off; else HEALTHY. It
-- is kept as the last snapshot.
pub get_health-status :
    (percent : Amount → String) (metrics : OperationalMetricsInput) (correlation_id : String)
    (now : ℕ) (service : OperationalHealthService)
    → ((get_health percent metrics correlation_id now service).0.status ≡ (
        if reaches (λ p. p.critical) service.rules metrics
          || (has_no_worker metrics || is_off metrics.runtime_ok)
        then critical
        else if reaches (λ p. p.warning) service.rules metrics
            || (has_few_workers metrics
                || (is_off metrics.actions_ok || is_off metrics.scheduler_running))
        then degraded
        else healthy))
      × ((get_health percent metrics correlation_id now service).1.last_snapshot
          ≡ some (get_health percent metrics correlation_id now service).0)
unfolding get_health snapshot_of overall_status map_worst_to_status
get_health-status percent metrics correlation_id now service =
    let worst =
      worst_severity-Rates _ _ _ (evaluate_health_rules-Rates percent metrics service.rules) in
    let dead = derive_workers_status-critical metrics in
    let fewer = derive_workers_status-degraded metrics in (ground (arith, worst, dead, fewer), refl)
