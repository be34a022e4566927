-- ===== src/Health/Rules.antt =====
-- packages/operational-health/src/health-rules.ts. A measured value is a fraction, which is compared
-- without rounding.
use Prim.Native.String
use operaia_lab.Common.{
  ℕ, ◌*◌, String, Bool, true, false, ◌||◌, List, [], ◌∷◌, ◌++◌, Option, none, some, ◌==◌, nat_same,
  if◌then◌else◌, leb, decimal,
}

-- `over / under`, with `under` positive.
pub record Amount : Type 0 where
  pub over : ℕ
  pub under : ℕ

abbrev pub whole : ℕ → Amount
whole n = record { over = n; under = 1 }

-- `a >= b`
unfoldable pub at_least : Amount → Amount → Bool
at_least a b = leb (b.over * a.under) (a.over * b.under)

pub record ThresholdPair : Type 0 where
  pub warning : Amount
  pub critical : Amount

pub record HealthRulesConfig : Type 0 where
  pub memory_quota_ratio : ThresholdPair
  pub queue_waiting : ThresholdPair
  pub consecutive_failed : ThresholdPair
  pub mission_depth : ThresholdPair
  pub worker_heartbeat_ms : ThresholdPair

abbrev pub threshold : ℕ → ℕ → ThresholdPair
threshold warning critical = record { warning = whole warning; critical = whole critical }

abbrev pub default_health_rules : HealthRulesConfig
default_health_rules = record {
  memory_quota_ratio = record {
    warning = record { over = 80; under = 100 };
    critical = record { over = 95; under = 100 };
  };
  queue_waiting = threshold 20 50;
  consecutive_failed = threshold 5 20;
  mission_depth = threshold 5 10;
  worker_heartbeat_ms = threshold 30000 60000;
}

pub data RuleSeverity : Type 0 where
  fine : RuleSeverity
  at_warning : RuleSeverity
  at_critical : RuleSeverity

pub record RuleEvaluation : Type 0 where
  pub rule : String
  pub severity : RuleSeverity
  pub value : Amount
  pub warning : Amount
  pub critical : Amount
  pub message : String

-- `oldestWorkerHeartbeatAgeMs`: undefined, null, or an age.
pub data Heartbeat : Type 0 where
  unmeasured : Heartbeat
  no_heartbeat : Heartbeat
  heartbeat_age : ℕ → Heartbeat

pub record OperationalMetricsInput : Type 0 where
  pub memory_active_notes : Option ℕ
  pub memory_quota : Option ℕ
  pub queue_waiting : Option ℕ
  pub queue_depth : Option ℕ
  pub consecutive_failed : Option ℕ
  pub oldest_worker_heartbeat_age_ms : Heartbeat
  pub workers_alive : Option ℕ
  pub workers_expected : Option ℕ
  pub actions_ok : Option Bool
  pub runtime_ok : Option Bool
  pub scheduler_running : Option Bool

-- Both directions of the source compare alike, so its third argument is left out.
unfoldable pub evaluate_threshold : Amount → ThresholdPair → RuleSeverity
evaluate_threshold value pair =
    if at_least value pair.critical
    then at_critical
    else if at_least value pair.warning
    then at_warning
    else fine

abbrev pub evaluation : String → Amount → ThresholdPair → String → RuleEvaluation
evaluation rule value pair message = record {
  rule = rule;
  severity = evaluate_threshold value pair;
  value = value;
  warning = pair.warning;
  critical = pair.critical;
  message = message;
}

infixr 40 ◌+++◌
abbrev pub ◌+++◌ : String → String → String
s +++ t = String.◌++◌ s t

abbrev pub evaluate_count : String → ThresholdPair → (ℕ → String) → Option ℕ → List RuleEvaluation
evaluate_count rule pair message none = []
evaluate_count rule pair message (some n) = evaluation rule (whole n) pair (message n) ∷ []

-- The text of `(ratio * 100).toFixed(1)` is a parameter.
abbrev pub evaluate_memory :
    (Amount → String) → ThresholdPair → Option ℕ → Option ℕ → List RuleEvaluation
evaluate_memory percent pair (some notes) (some quota) =
    if quota == 0
    then []
    else (let ratio : Amount = record { over = notes; under = quota } in
        evaluation "memory.quota" ratio pair (
          "Memoria em "
          +++ percent ratio
          +++ "% da quota ("
          +++ decimal notes
          +++ "/"
          +++ decimal quota
          +++ ")")
        ∷ [])
evaluate_memory percent pair (some notes) none = []
evaluate_memory percent pair none quota = []

abbrev pub evaluate_heartbeat : ThresholdPair → Heartbeat → List RuleEvaluation
evaluate_heartbeat pair unmeasured = []
evaluate_heartbeat pair no_heartbeat = []
evaluate_heartbeat pair (heartbeat_age age) =
    evaluation "worker.heartbeat" (whole age) pair
      ("heartbeat mais antigo=" +++ decimal age +++ "ms")
    ∷ []

unfoldable pub evaluate_health_rules :
    (Amount → String) → OperationalMetricsInput → HealthRulesConfig → List RuleEvaluation
evaluate_health_rules percent metrics rules =
    evaluate_memory percent rules.memory_quota_ratio metrics.memory_active_notes
      metrics.memory_quota
    ++ (evaluate_count "queue.waiting" rules.queue_waiting (λ n. "WAITING=" +++ decimal n)
          metrics.queue_waiting
        ++ (evaluate_count "mission.depth" rules.mission_depth (λ n. "depth=" +++ decimal n)
              metrics.queue_depth
            ++ (evaluate_count "queue.failed_spike" rules.consecutive_failed
                  (λ n. "FAILED consecutivos/recentes=" +++ decimal n) metrics.consecutive_failed
                ++ evaluate_heartbeat rules.worker_heartbeat_ms
                    metrics.oldest_worker_heartbeat_age_ms)))

abbrev pub is_critical : RuleSeverity → Bool
is_critical at_critical = true
is_critical _ = false

abbrev pub is_warning : RuleSeverity → Bool
is_warning at_warning = true
is_warning _ = false

abbrev pub is_fine : RuleSeverity → Bool
is_fine fine = true
is_fine _ = false

abbrev pub any_severity : (RuleSeverity → Bool) → List RuleEvaluation → Bool
any_severity p [] = false
any_severity p (e ∷ es) = p e.severity || any_severity p es

unfoldable pub worst_severity : List RuleEvaluation → RuleSeverity
worst_severity evaluations =
    if any_severity is_critical evaluations
    then at_critical
    else if any_severity is_warning evaluations
    then at_warning
    else fine
