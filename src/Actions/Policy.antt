-- ===== src/Actions/Policy.antt =====
-- `ActionPolicy` of packages/action-runtime/src/action-policy.ts, with the ids of action-id.ts.
-- A key that every object inherits is found in the employees' groups, and is no list.
use Prim.Native.String
use operaia_lab.Common.Effects.{Result, ok, err}
use operaia_lab.Common.Objects.{property, elements}
use operaia_lab.Common.{
  String, Bool, true, false, not, ◌||◌, List, [], ◌∷◌, ◌++◌, ◌==◌, string_same, if◌then◌else◌,
  is_blank,
}

abbrev pub includes : List String → String → Bool
includes [] x = false
includes (y ∷ ys) x = y == x || includes ys x

abbrev pub all_action_ids : List String
all_action_ids =
    "docker.status" ∷ "docker.logs" ∷ "docker.restart" ∷ "systemd.status" ∷ "caddy.validate" ∷ []

unfoldable pub is_known_action_id : String → Bool
is_known_action_id value = includes all_action_ids value

pub data ActionCapabilityGroup : Type 0 where
  docker : ActionCapabilityGroup
  docker_logs : ActionCapabilityGroup
  docker_restart : ActionCapabilityGroup
  systemd_status : ActionCapabilityGroup
  caddy : ActionCapabilityGroup

unfoldable pub action_group_actions : ActionCapabilityGroup → List String
action_group_actions docker = "docker.status" ∷ "docker.logs" ∷ "docker.restart" ∷ []
action_group_actions docker_logs = "docker.logs" ∷ []
action_group_actions docker_restart = "docker.restart" ∷ []
action_group_actions systemd_status = "systemd.status" ∷ []
action_group_actions caddy = "caddy.validate" ∷ []

abbrev pub Groups : Type 0
Groups = List (String × List ActionCapabilityGroup)

abbrev pub default_employee_action_groups : Groups
default_employee_action_groups =
    ("atlas", docker ∷ caddy ∷ systemd_status ∷ [])
    ∷ ("orion", docker_logs ∷ systemd_status ∷ [])
    ∷ ("cto-mag", [])
    ∷ ("luna", [])
    ∷ ("mercurio", [])
    ∷ ("themis", [])
    ∷ ("aurora", [])
    ∷ ("nexus", [])
    ∷ ("operaia-ceo", [])
    ∷ []

pub record ActionPolicy : Type 0 where
  pub employee_groups : Groups
  pub group_actions : ActionCapabilityGroup → List String

abbrev pub default_action_policy : ActionPolicy
default_action_policy = record {
  employee_groups = default_employee_action_groups;
  group_actions = action_group_actions;
}

pub record ActionPolicyDecision : Type 0 where
  pub allowed : Bool
  pub reason : String

-- The value that `groupsFor` returns, or the exception of the loop that iterates over it.
unfoldable pub groups_for : ActionPolicy → String → Result String (List ActionCapabilityGroup)
groups_for policy employee_id = elements (property employee_id policy.employee_groups)

-- `set.add(actionId)` for each action.
unfoldable pub add_actions : List String → List String → List String
add_actions [] set = set
add_actions (a ∷ actions) set =
    add_actions actions (if includes set a then set else set ++ (a ∷ []))

unfoldable pub collect_actions :
    (ActionCapabilityGroup → List String) → List ActionCapabilityGroup → List String → List String
unfolding add_actions
collect_actions actions [] set = set
collect_actions actions (g ∷ groups) set =
    collect_actions actions groups (add_actions (actions g) set)

abbrev pub actions_of :
    (ActionCapabilityGroup → List String)
    → Result String (List ActionCapabilityGroup)
    → Result String (List String)
actions_of actions (err e) = err e
actions_of actions (ok groups) = ok (collect_actions actions groups [])

unfoldable pub allowed_actions : ActionPolicy → String → Result String (List String)
unfolding collect_actions groups_for
allowed_actions policy employee_id = actions_of policy.group_actions (groups_for policy employee_id)

abbrev pub includes_action : Result String (List String) → String → Result String Bool
includes_action (err e) action_id = err e
includes_action (ok actions) action_id = ok (includes actions action_id)

unfoldable pub is_allowed_action : ActionPolicy → String → String → Result String Bool
unfolding allowed_actions is_known_action_id
is_allowed_action policy employee_id action_id =
    if not (is_known_action_id action_id)
    then ok false
    else includes_action (allowed_actions policy employee_id) action_id

-- A template of texts.
abbrev pub text : List String → String
text [] = ""
text (s ∷ ss) = String.◌++◌ s (text ss)

abbrev pub decision_of :
    String → String → String → Result String Bool → Result String ActionPolicyDecision
decision_of employee_id action_id workspace_id (err e) = err e
decision_of employee_id action_id workspace_id (ok false) = ok (record {
  allowed = false;
  reason = text ("Employee " ∷ employee_id ∷ " sem permissao para " ∷ action_id ∷ []);
})
decision_of employee_id action_id workspace_id (ok true) = ok (record {
  allowed = true;
  reason = text ("Permitido: " ∷ employee_id ∷ " → " ∷ action_id ∷ " @ " ∷ workspace_id ∷ []);
})

unfoldable pub decide : ActionPolicy → String → String → String → Result String ActionPolicyDecision
unfolding is_allowed_action
decide policy employee_id action_id workspace_id =
    if is_blank workspace_id
    then ok (record { allowed = false; reason = "workspaceId obrigatorio" })
    else if not (is_known_action_id action_id)
    then ok (record { allowed = false; reason = text ("Acao desconhecida: " ∷ action_id ∷ []) })
    else decision_of employee_id action_id workspace_id
        (is_allowed_action policy employee_id action_id)
