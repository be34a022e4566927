-- ===== src/Health/Service.antt =====
-- `OperationalHealthService` of packages/operational-health/src/operational-health-service.ts.
use operaia_lab.Common.{
  ℕ, String, Bool, true, false, not, ◌&&◌, ◌||◌, List, [], ◌∷◌, map, keep, Option, none, some, ◌==◌,
  string_same, nat_same, if◌then◌else◌, ltb, decimal,
}
use operaia_lab.Health.Rules.{
  Amount, HealthRulesConfig, RuleSeverity, fine, at_warning, at_critical, RuleEvaluation,
  no_heartbeat, Heartbeat, OperationalMetricsInput, evaluate_health_rules, is_fine, worst_severity,
  ◌+++◌,
}
use operaia_lab.Health.Alerts.{
  OperationalAlert, AlertContext, alerts_from_rule_evaluations, publish_all,
}

pub data OperationalHealthStatus : Type 0 where
  healthy : OperationalHealthStatus
  degraded : OperationalHealthStatus
  critical : OperationalHealthStatus
  unknown : OperationalHealthStatus

pub record ComponentHealth : Type 0 where
  pub status : OperationalHealthStatus
  pub detail : String

pub record OperationalHealthSnapshot : Type 0 where
  pub status : OperationalHealthStatus
  pub checked_at : ℕ
  pub workers : ComponentHealth
  pub queue : ComponentHealth
  pub memory : ComponentHealth
  pub actions : ComponentHealth
  pub runtime : ComponentHealth
  pub scheduler : ComponentHealth
  pub warnings : List String
  pub evaluations : List RuleEvaluation
  pub alerts : List OperationalAlert

-- The options of the service, its bus and its last snapshot.
pub record OperationalHealthService : Type 0 where
  pub rules : HealthRulesConfig
  pub workspace_id : Option String
  pub emit_alerts : Bool
  pub alert_bus : List OperationalAlert
  pub last_snapshot : Option OperationalHealthSnapshot

unfoldable pub map_worst_to_status : RuleSeverity → OperationalHealthStatus
map_worst_to_status at_critical = critical
map_worst_to_status at_warning = degraded
map_worst_to_status fine = healthy

abbrev includes : String → List String → Bool
includes rule [] = false
includes rule (r ∷ rules) = r == rule || includes rule rules

abbrev join_messages : List RuleEvaluation → String
join_messages [] = ""
join_messages (e ∷ es) = join_from e.message es
  where
    join_from : String → List RuleEvaluation → String
    join_from text [] = text
    join_from text (e ∷ es) = join_from (text +++ "; " +++ e.message) es

abbrev component_of : List RuleEvaluation → ComponentHealth
component_of [] = record { status = unknown; detail = "sem metrica" }
component_of (e ∷ es) = record {
  status = map_worst_to_status (worst_severity (e ∷ es));
  detail = join_messages (e ∷ es);
}

unfoldable pub component_from_rules : List RuleEvaluation → List String → ComponentHealth
component_from_rules evaluations rules =
    component_of (keep (λ e. includes e.rule rules) evaluations)

abbrev alive_of : ℕ → ℕ → String
alive_of alive expected = decimal alive +++ "/" +++ decimal expected +++ " workers vivos"

abbrev workers_by_heartbeat : Heartbeat → ComponentHealth
workers_by_heartbeat no_heartbeat = record { status = critical; detail = "nenhum heartbeat" }
workers_by_heartbeat _ = record { status = unknown; detail = "sem metrica de workers" }

abbrev workers_status : Heartbeat → Option ℕ → Option ℕ → ComponentHealth
workers_status hb none expected = workers_by_heartbeat hb
workers_status hb (some alive) none = workers_by_heartbeat hb
workers_status hb (some alive) (some expected) =
    if alive == 0 && ltb 0 expected
    then record { status = critical; detail = "0/" +++ decimal expected +++ " workers vivos" }
    else if ltb alive expected
    then record { status = degraded; detail = alive_of alive expected }
    else record { status = healthy; detail = alive_of alive expected }

unfoldable pub derive_workers_status : OperationalMetricsInput → ComponentHealth
derive_workers_status metrics =
    workers_status metrics.oldest_worker_heartbeat_age_ms metrics.workers_alive
      metrics.workers_expected

-- `flag === false`
abbrev pub is_off : Option Bool → Bool
is_off (some false) = true
is_off _ = false

abbrev flag_health : Option Bool → OperationalHealthStatus → String → String → ComponentHealth
flag_health flag off_status off_detail on_detail = record {
  status = if is_off flag then off_status else healthy;
  detail = if is_off flag then off_detail else on_detail;
}

abbrev pub is_critical_status : OperationalHealthStatus → Bool
is_critical_status critical = true
is_critical_status _ = false

abbrev pub is_degraded_status : OperationalHealthStatus → Bool
is_degraded_status degraded = true
is_degraded_status _ = false

abbrev is_healthy_status : OperationalHealthStatus → Bool
is_healthy_status healthy = true
is_healthy_status _ = false

-- `overall`
unfoldable pub overall_status :
    RuleSeverity
    → OperationalHealthStatus
    → OperationalHealthStatus
    → OperationalHealthStatus
    → OperationalHealthStatus
    → OperationalHealthStatus
unfolding map_worst_to_status
overall_status worst workers runtime actions scheduler =
    let overall = map_worst_to_status worst in
    if is_critical_status workers || is_critical_status runtime
    then critical
    else if is_healthy_status overall
        && (is_degraded_status workers
            || is_degraded_status actions
            || is_degraded_status scheduler)
    then degraded
    else overall

abbrev actions_health : OperationalMetricsInput → ComponentHealth
actions_health metrics = flag_health metrics.actions_ok degraded "actions degradadas" "ok"

abbrev runtime_health : OperationalMetricsInput → ComponentHealth
runtime_health metrics = flag_health metrics.runtime_ok critical "runtime indisponivel" "ok"

abbrev scheduler_health : OperationalMetricsInput → ComponentHealth
scheduler_health metrics =
    flag_health metrics.scheduler_running degraded "scheduler parado" "running"

module _ (percent : Amount → String) where
  unfoldable pub snapshot_of :
      HealthRulesConfig → AlertContext → OperationalMetricsInput → OperationalHealthSnapshot
  snapshot_of rules context metrics =
      let evaluations = evaluate_health_rules percent metrics rules in
      record {
        status =
            overall_status (worst_severity evaluations) (derive_workers_status metrics).status
              (runtime_health metrics).status (actions_health metrics).status
              (scheduler_health metrics).status;
        checked_at = context.now;
        workers = derive_workers_status metrics;
        queue =
            component_from_rules evaluations
              ("queue.waiting" ∷ "mission.depth" ∷ "queue.failed_spike" ∷ []);
        memory = component_from_rules evaluations ("memory.quota" ∷ []);
        actions = actions_health metrics;
        runtime = runtime_health metrics;
        scheduler = scheduler_health metrics;
        warnings = map (λ e. e.message) (keep (λ e. not (is_fine e.severity)) evaluations);
        evaluations = evaluations;
        alerts = alerts_from_rule_evaluations evaluations context;
      }

  -- `getHealth`, with what `collect` has answered, the time, and the correlation id.
  unfoldable pub get_health :
      OperationalMetricsInput
      → String
      → ℕ
      → OperationalHealthService
      → OperationalHealthSnapshot × OperationalHealthService
  get_health metrics correlation_id now service =
      let context : AlertContext = record {
        workspace_id = service.workspace_id;
        correlation_id = correlation_id;
        now = now;
      } in
      let snapshot = snapshot_of service.rules context metrics in
      (
        snapshot,
        record service {
          alert_bus =
              if service.emit_alerts
              then publish_all snapshot.alerts service.alert_bus
              else service.alert_bus;
          last_snapshot = some snapshot;
        },
      )
