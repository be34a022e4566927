-- ===== src/Actions/Examples.antt =====
-- Atlas restarts a container; Luna may not.
use operaia_lab.Common.{
  ℕ, ◌+◌, String, true, [], ◌∷◌, Option, none, some, ◌≡◌, refl, ◌==◌, string_same, is_blank,
}
use operaia_lab.Common.Effects.{ok}
use operaia_lab.Common.Objects.{property, is_inherited}
use operaia_lab.Json.{Json, null}
use operaia_lab.Actions.Policy.{
  action_group_actions, default_action_policy, decide, is_known_action_id, is_allowed_action,
}
use operaia_lab.Actions.Ledger.{
  ActionExecutionStatus, success, denied, find_record, update_status, create_execution,
}
use operaia_lab.Actions.Executor.{
  ActionRequest, AdapterResult, returned, ActionAdapter, ActionExecutor, Site, Stamp, adapter_for,
  in_scope, refuse, conclude, perform, execute_created, execute_decided, execute_scoped, execute,
  Reply, answered, rejected,
}
use operaia_lab.Actions.Audit.{Audited, execute-Audited}

-- The world counts the restarts.
abbrev docker_adapter : ActionAdapter ℕ
docker_adapter = record {
  supported_actions = "docker.restart" ∷ [];
  execute_action = λ request n. (
    returned (record {
      success = true;
      action_id = request.action_id;
      output = none;
      error = none;
      details = null;
    }),
    n + 1,
  );
}

abbrev executor : ActionExecutor ℕ
executor = record {
  policy = default_action_policy;
  scope = some (λ workspace_id target n. (ok (target == "api"), n));
  adapters = docker_adapter ∷ [];
}

abbrev restart_by : String → ActionRequest
restart_by employee = record {
  workspace_id = "w";
  requested_by = employee;
  action_id = "docker.restart";
  target = "api";
  parameters = none;
}

abbrev stamp : Stamp
stamp = record { id = "x"; requested_at = 1; started_at = 2; finished_at = 5 }

abbrev site : Site ℕ
site = record { ledger = []; world = 0 }

abbrev json_of : AdapterResult → Json
json_of r = null

-- The status of the answer, `none` for an exception, and the world.
abbrev summary : Option (Reply × Site ℕ) → Option (Option ActionExecutionStatus × ℕ)
summary none = none
summary (some (answered r, s)) = some (some r.status, s.world)
summary (some (rejected e, s)) = some (none, s.world)

atlas_test :
    summary (execute json_of executor (restart_by "atlas") stamp site) ≡ some (some success, 1)
unfolding execute execute_created execute_decided execute_scoped refuse perform conclude decide
    is_known_action_id is_allowed_action in_scope adapter_for property update_status
    create_execution is_blank action_group_actions
atlas_test = refl

luna_test :
    summary (execute json_of executor (restart_by "luna") stamp site) ≡ some (some denied, 0)
unfolding execute execute_created execute_decided execute_scoped refuse perform conclude decide
    is_known_action_id is_allowed_action in_scope adapter_for property update_status
    create_execution is_blank
luna_test = refl

-- A key that every object has is no list of groups.
constructor_test :
    summary (execute json_of executor (restart_by "constructor") stamp site) ≡ some (none, 0)
unfolding execute execute_created execute_decided execute_scoped refuse decide is_known_action_id
    is_allowed_action property is_inherited create_execution is_blank
constructor_test = refl

no_record : find_record "x" [] ≡ none
unfolding find_record
no_record = refl

execute-Audited_example :
    Audited executor
      (restart_by "atlas")
      stamp
      site
      (execute json_of executor (restart_by "atlas") stamp site)
execute-Audited_example = execute-Audited json_of executor (restart_by "atlas") stamp site no_record
