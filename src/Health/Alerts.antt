-- ===== src/Health/Alerts.antt =====
-- packages/operational-health/src/operational-alert.ts. The bus in memory is the list of its alerts.
use operaia_lab.Common.{
  ℕ, String, List, [], ◌∷◌, ◌++◌, Option, none, some, ◌==◌, string_same, if◌then◌else◌,
}
use operaia_lab.Health.Rules.{RuleSeverity, RuleEvaluation, is_fine, is_critical}

pub data OperationalAlertType : Type 0 where
  memory_quota_warning : OperationalAlertType
  memory_quota_critical : OperationalAlertType
  queue_congestion : OperationalAlertType
  mission_depth_high : OperationalAlertType
  worker_offline : OperationalAlertType
  failed_spike : OperationalAlertType

-- The payload is the evaluation that it copies.
pub record OperationalAlert : Type 0 where
  pub type : OperationalAlertType
  pub severity : RuleSeverity
  pub message : String
  pub workspace_id : Option String
  pub correlation_id : String
  pub timestamp : ℕ
  pub payload : RuleEvaluation

pub record AlertMapping : Type 0 where
  pub for_warning : OperationalAlertType
  pub for_critical : OperationalAlertType

abbrev both : OperationalAlertType → Option AlertMapping
both type = some (record { for_warning = type; for_critical = type })

-- `RULE_TO_ALERT[rule]`
unfoldable pub rule_to_alert : String → Option AlertMapping
rule_to_alert rule =
    if rule == "memory.quota"
    then some (record { for_warning = memory_quota_warning; for_critical = memory_quota_critical })
    else if rule == "queue.waiting"
    then both queue_congestion
    else if rule == "mission.depth"
    then both mission_depth_high
    else if rule == "queue.failed_spike"
    then both failed_spike
    else if rule == "worker.heartbeat"
    then both worker_offline
    else none

pub record AlertContext : Type 0 where
  pub workspace_id : Option String
  pub correlation_id : String
  pub now : ℕ

abbrev pub alert_of : AlertContext → RuleEvaluation → AlertMapping → OperationalAlert
alert_of context e mapping = record {
  type = if is_critical e.severity then mapping.for_critical else mapping.for_warning;
  severity = e.severity;
  message = e.message;
  workspace_id = context.workspace_id;
  correlation_id = context.correlation_id;
  timestamp = context.now;
  payload = e;
}

abbrev pub mapped_alert :
    AlertContext → RuleEvaluation → Option AlertMapping → List OperationalAlert
mapped_alert context e none = []
mapped_alert context e (some mapping) = alert_of context e mapping ∷ []

unfoldable pub alerts_from_rule_evaluations :
    List RuleEvaluation → AlertContext → List OperationalAlert
alerts_from_rule_evaluations [] context = []
alerts_from_rule_evaluations (e ∷ es) context =
    let rest = alerts_from_rule_evaluations es context in
    if is_fine e.severity then rest else mapped_alert context e (rule_to_alert e.rule) ++ rest

-- `publish` of each alert, in order.
unfoldable pub publish_all : List OperationalAlert → List OperationalAlert → List OperationalAlert
publish_all [] bus = bus
publish_all (alert ∷ alerts) bus = publish_all alerts (bus ++ (alert ∷ []))
