-- ===== src/Health/Examples.antt =====
-- Tests of the operational health: a queue that is full, and a ledger that is offline.
use operaia_lab.Common.{
  ℕ, suc, String, true, not, ◌||◌, [], ◌++◌, map, keep, none, some, ◌≡◌, refl, if◌then◌else◌,
}
use operaia_lab.Common.Effects.{ok, err}
use operaia_lab.Health.Rules.{
  Amount, default_health_rules, heartbeat_age, OperationalMetricsInput, at_least,
  evaluate_threshold, evaluate_health_rules, is_fine, worst_severity,
}
use operaia_lab.Health.Service.{
  healthy, degraded, critical, OperationalHealthService, get_health, snapshot_of, overall_status,
  derive_workers_status, is_off,
}
use operaia_lab.Health.Policy
use operaia_lab.Health.Policy.{
  classify_operation, contains, begins, NonCriticalRunInput, run_non_critical,
}
use operaia_lab.Health.Maintenance.{OperationalMaintenanceOptions, run_maintenance}
use operaia_lab.Health.Levels.{reaches, has_no_worker, has_few_workers, get_health-status}
use operaia_lab.Health.Publishing.{get_health-alerts}
use operaia_lab.Health.Isolation.{contained, run_non_critical-contained}
use operaia_lab.Health.Steps.{steps_of, results_of, all_ok, run_maintenance_lem}

abbrev full_queue : OperationalMetricsInput
full_queue = record {
  memory_active_notes = some 90;
  memory_quota = some 100;
  queue_waiting = some 60;
  queue_depth = none;
  consecutive_failed = some 1;
  oldest_worker_heartbeat_age_ms = heartbeat_age 10;
  workers_alive = some 2;
  workers_expected = some 2;
  actions_ok = some true;
  runtime_ok = none;
  scheduler_running = some true;
}

abbrev service : OperationalHealthService
service = record {
  rules = default_health_rules;
  workspace_id = none;
  emit_alerts = true;
  alert_bus = [];
  last_snapshot = none;
}

abbrev no_percent : Amount → String
no_percent ratio = "90.0"

full_queue_status : (get_health no_percent full_queue "h" 1 service).0.status ≡ critical
unfolding get_health snapshot_of overall_status worst_severity evaluate_health_rules
    evaluate_threshold at_least derive_workers_status
full_queue_status = refl

get_health-status_example :
    ((get_health no_percent full_queue "h" 1 service).0.status ≡ (
      if reaches (λ p. p.critical) service.rules full_queue
        || (has_no_worker full_queue || is_off full_queue.runtime_ok)
      then critical
      else if reaches (λ p. p.warning) service.rules full_queue
          || (has_few_workers full_queue
              || (is_off full_queue.actions_ok || is_off full_queue.scheduler_running))
      then degraded
      else healthy))
    × ((get_health no_percent full_queue "h" 1 service).1.last_snapshot
        ≡ some (get_health no_percent full_queue "h" 1 service).0)
get_health-status_example = get_health-status no_percent full_queue "h" 1 service

get_health-alerts_example :
    (map (λ alert. alert.message) (get_health no_percent full_queue "h" 1 service).0.alerts
      ≡ (get_health no_percent full_queue "h" 1 service).0.warnings)
    × ((map (λ alert. alert.payload) (get_health no_percent full_queue "h" 1 service).0.alerts
          ≡ keep
              (λ e. not (is_fine e.severity))
              (get_health no_percent full_queue "h" 1 service).0.evaluations)
        × ((get_health no_percent full_queue "h" 1 service).1.alert_bus ≡ (
            if service.emit_alerts
            then service.alert_bus ++ (get_health no_percent full_queue "h" 1 service).0.alerts
            else service.alert_bus)))
get_health-alerts_example = get_health-alerts no_percent full_queue "h" 1 service

abbrev offline : NonCriticalRunInput ℕ String
offline = record {
  operation = "memory.operational";
  run_operation = λ n. (err "offline", suc n);
  on_failure = none;
  log_failure = λ error n. suc n;
}

weekly_digest_class : classify_operation "Weekly Digest" ≡ Policy.non_critical
unfolding classify_operation
weekly_digest_class = refl

run_non_critical-contained_example :
    (run_non_critical offline 4).0
    ≡ contained "memory.operational" (classify_operation "memory.operational") (err "offline")
run_non_critical-contained_example =
    run_non_critical-contained offline 4 (λ f none_some. cc none_some)

abbrev options : OperationalMaintenanceOptions ℕ
options = record {
  memory = some (record {
    archive_expired = λ n. (ok 3, suc n);
    preventive_eviction = λ target n. (err "offline", suc n);
  });
  queue = none;
  ledger = some (record { purge_older_than = λ days n. (ok days, suc n) });
  memory_target_active_max = none;
  ledger_retention_days = some 7;
  clock = λ n. n;
}

run_maintenance_lem_example :
    ((run_maintenance options "m" 0).0.results ≡ results_of (steps_of options) 0)
    × ((run_maintenance options "m" 0).0.success ≡ all_ok (steps_of options) 0)
run_maintenance_lem_example = run_maintenance_lem options "m" 0
