-- ===== src/Health/Publishing.antt =====
-- The alerts of a snapshot of health and the bus.
use operaia_lab.Common.{
  ℕ, String, Bool, true, false, not, List, [], ◌∷◌, ◌++◌, map, keep, Option, none, some, ◌≡◌, refl,
  ap, ◌∙◌, ◌==◌, string_same, nat_same, if◌then◌else◌, arith, inl, inr, Bool-cases, decimal,
}
use operaia_lab.Health.Rules.{
  Amount, ThresholdPair, HealthRulesConfig, RuleEvaluation, Heartbeat, unmeasured, no_heartbeat,
  heartbeat_age, OperationalMetricsInput, evaluate_count, evaluate_memory, evaluate_heartbeat,
  evaluate_health_rules, is_fine, ◌+++◌,
}
use operaia_lab.Health.Alerts.{
  OperationalAlert, AlertContext, AlertMapping, rule_to_alert, mapped_alert,
  alerts_from_rule_evaluations, publish_all,
}
use operaia_lab.Health.Service.{OperationalHealthService, snapshot_of, get_health}

abbrev is_mapped : Option AlertMapping → Bool
is_mapped none = false
is_mapped (some mapping) = true

abbrev has_alert : String → Bool
has_alert rule = is_mapped (rule_to_alert rule)

-- Every rule of the list has its alerts.
abbrev AllMapped : List RuleEvaluation → Type 0
AllMapped [] = Unit
AllMapped (e ∷ es) = (has_alert e.rule ≡ true) × AllMapped es

AllMapped-append : (l r : List RuleEvaluation) → AllMapped l → AllMapped r → AllMapped (l ++ r)
AllMapped-append [] r h k = k
AllMapped-append (e ∷ l) r (h, hs) k = (h, AllMapped-append l r hs k)

evaluate_memory-AllMapped :
    (percent : Amount → String) (pair : ThresholdPair) (notes quota : Option ℕ)
    → AllMapped (evaluate_memory percent pair notes quota)
unfolding rule_to_alert
evaluate_memory-AllMapped percent pair none quota = tt
evaluate_memory-AllMapped percent pair (some notes) none = tt
evaluate_memory-AllMapped percent pair (some notes) (some quota) = by_quota (quota == 0)
  where
    by_quota :
        (b : Bool)
        → AllMapped (
            if b
            then []
            else (let ratio : Amount = record { over = notes; under = quota } in
                operaia_lab.Health.Rules.evaluation "memory.quota" ratio pair (
                  "Memoria em "
                  +++ percent ratio
                  +++ "% da quota ("
                  +++ decimal notes
                  +++ "/"
                  +++ decimal quota
                  +++ ")")
                ∷ []))
    by_quota true = tt
    by_quota false = (refl, tt)

evaluate_count-AllMapped :
    (rule : String) (pair : ThresholdPair) (message : ℕ → String) (n : Option ℕ)
    → has_alert rule ≡ true
    → AllMapped (evaluate_count rule pair message n)
evaluate_count-AllMapped rule pair message none h = tt
evaluate_count-AllMapped rule pair message (some n) h = (h, tt)

evaluate_heartbeat-AllMapped :
    (pair : ThresholdPair) (hb : Heartbeat) → AllMapped (evaluate_heartbeat pair hb)
unfolding rule_to_alert
evaluate_heartbeat-AllMapped pair unmeasured = tt
evaluate_heartbeat-AllMapped pair no_heartbeat = tt
evaluate_heartbeat-AllMapped pair (heartbeat_age age) = (refl, tt)

evaluate_health_rules-AllMapped :
    (percent : Amount → String) (metrics : OperationalMetricsInput) (rules : HealthRulesConfig)
    → AllMapped (evaluate_health_rules percent metrics rules)
unfolding evaluate_health_rules rule_to_alert
evaluate_health_rules-AllMapped percent metrics rules =
    AllMapped-append _ _
      (evaluate_memory-AllMapped percent rules.memory_quota_ratio metrics.memory_active_notes
        metrics.memory_quota)
      (AllMapped-append _ _
        (evaluate_count-AllMapped "queue.waiting" rules.queue_waiting
          (λ n. "WAITING=" +++ decimal n) metrics.queue_waiting refl)
        (AllMapped-append _ _
          (evaluate_count-AllMapped "mission.depth" rules.mission_depth
            (λ n. "depth=" +++ decimal n) metrics.queue_depth refl)
          (AllMapped-append _ _
            (evaluate_count-AllMapped "queue.failed_spike" rules.consecutive_failed
              (λ n. "FAILED consecutivos/recentes=" +++ decimal n) metrics.consecutive_failed refl)
            (evaluate_heartbeat-AllMapped rules.worker_heartbeat_ms
              metrics.oldest_worker_heartbeat_age_ms))))

-- The evaluations that are not fine, and their alerts.
abbrev not_fine : List RuleEvaluation → List RuleEvaluation
not_fine es = keep (λ e. not (is_fine e.severity)) es

mapped_alert-payload :
    (context : AlertContext) (e : RuleEvaluation) (mapping : Option AlertMapping)
    (rest : List OperationalAlert)
    → is_mapped mapping ≡ true
    → (map (λ alert. alert.payload) (mapped_alert context e mapping ++ rest)
        ≡ e ∷ map (λ alert. alert.payload) rest)
      × (map (λ alert. alert.message) (mapped_alert context e mapping ++ rest)
          ≡ e.message ∷ map (λ alert. alert.message) rest)
mapped_alert-payload context e none rest h = ground arith
mapped_alert-payload context e (some mapping) rest h = (refl, refl)

-- The alerts and the evaluations have the same payloads and messages.
alerts-payloads :
    (es : List RuleEvaluation) (context : AlertContext)
    → AllMapped es
    → (map (λ alert. alert.payload) (alerts_from_rule_evaluations es context) ≡ not_fine es)
      × (map (λ alert. alert.message) (alerts_from_rule_evaluations es context)
          ≡ map (λ e. e.message) (not_fine es))
unfolding alerts_from_rule_evaluations
alerts-payloads [] context h = (refl, refl)
alerts-payloads (e ∷ es) context (h, hs) =
    let (payloads, messages) = alerts-payloads es context hs in
    let (own, text) =
      mapped_alert-payload context e (rule_to_alert e.rule)
        (alerts_from_rule_evaluations es context) h in
    elim (Bool-cases (is_fine e.severity)) [
      | inl calm ↦ (rw calm payloads, rw calm messages)
      | inr alarm ↦ (
        rw alarm (own ∙ ap (λ l. e ∷ l) payloads),
        rw alarm (text ∙ ap (λ l. e.message ∷ l) messages),
      )
    ]

append_assoc_one :
    (bus : List OperationalAlert) (a : OperationalAlert) (alerts : List OperationalAlert)
    → (bus ++ (a ∷ [])) ++ alerts ≡ bus ++ (a ∷ alerts)
append_assoc_one [] a alerts = refl
append_assoc_one (b ∷ bus) a alerts = ap (λ l. b ∷ l) (append_assoc_one bus a alerts)

append-nil : (bus : List OperationalAlert) → bus ≡ bus ++ []
append-nil [] = refl
append-nil (b ∷ bus) = ap (λ l. b ∷ l) (append-nil bus)

publish_all-append : (alerts bus : List OperationalAlert) → publish_all alerts bus ≡ bus ++ alerts
unfolding publish_all
publish_all-append [] bus = append-nil bus
publish_all-append (a ∷ alerts) bus =
    publish_all-append alerts (bus ++ (a ∷ [])) ∙ append_assoc_one bus a alerts

-- The warnings of a snapshot are the messages of its alerts, one for each evaluation that is not
-- fine, in order; and the bus has got these alerts at its end where the service emits them, and is
-- as it was where it does not.
pub get_health-alerts :
    (percent : Amount → String) (metrics : OperationalMetricsInput) (correlation_id : String)
    (now : ℕ) (service : OperationalHealthService)
    → (map (λ alert. alert.message) (get_health percent metrics correlation_id now service).0.alerts
        ≡ (get_health percent metrics correlation_id now service).0.warnings)
      × ((map
              (λ alert. alert.payload)
              (get_health percent metrics correlation_id now service).0.alerts
            ≡ keep
                (λ e. not (is_fine e.severity))
                (get_health percent metrics correlation_id now service).0.evaluations)
          × ((get_health percent metrics correlation_id now service).1.alert_bus ≡ (
              if service.emit_alerts
              then service.alert_bus
                ++ (get_health percent metrics correlation_id now service).0.alerts
              else service.alert_bus)))
unfolding get_health snapshot_of
get_health-alerts percent metrics correlation_id now service =
    let mapped = evaluate_health_rules-AllMapped percent metrics service.rules in
    let (payloads, messages) = alerts-payloads _ _ mapped in
    (messages, (payloads, rw (publish_all-append _ service.alert_bus) refl))
