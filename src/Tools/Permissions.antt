-- ===== src/Tools/Permissions.antt =====
-- `ToolPermissionPolicy` of packages/tool-runtime/src/tool-permission-policy.ts, with the ids of
-- tool-id.ts. Groups and tools are their texts. An object that maps keys to lists is the list of its
-- own entries; a key that every object inherits is found all the same, and is no list.
use operaia_lab.Common.Effects.{Result, ok, err}
use operaia_lab.Common.Objects.{property, elements}
use operaia_lab.Common.{
  String, Bool, false, ◌||◌, List, [], ◌∷◌, ◌++◌, Option, none, some, ◌==◌, string_same,
  if◌then◌else◌,
}

abbrev pub Table : Type 0
Table = List (String × List String)

abbrev pub tool_group_tools : Table
tool_group_tools =
    ("Repository", "readRepository" ∷ "listDirectory" ∷ "readFile" ∷ "searchFiles" ∷ [])
    ∷ ("Search", "searchFiles" ∷ [])
    ∷ ("Commit", "readCommit" ∷ [])
    ∷ ("PullRequest", "readPullRequest" ∷ [])
    ∷ ("Issue", "readIssue" ∷ [])
    ∷ ("Infra", "readDockerCompose" ∷ "readCaddy" ∷ "listInfrastructure" ∷ [])
    ∷ ("Docker", "readDockerfile" ∷ "readDockerCompose" ∷ [])
    ∷ ("Caddy", "readCaddy" ∷ [])
    ∷ ("Logs", "readLogs" ∷ [])
    ∷ ("Runtime", "readWorkflow" ∷ "readLogs" ∷ [])
    ∷ ("Finance", "readFile" ∷ "listDirectory" ∷ "searchFiles" ∷ [])
    ∷ ("Documents", "readFile" ∷ "listDirectory" ∷ "searchFiles" ∷ [])
    ∷ ("RepositoryDocs", "readRepository" ∷ "listDirectory" ∷ "readFile" ∷ "searchFiles" ∷ [])
    ∷ ("RoadmapDocs", "readFile" ∷ "listDirectory" ∷ "searchFiles" ∷ [])
    ∷ []

abbrev pub default_employee_tool_groups : Table
default_employee_tool_groups =
    ("cto-mag", "Repository" ∷ "Search" ∷ "Commit" ∷ "PullRequest" ∷ "Issue" ∷ [])
    ∷ ("luna", "Repository" ∷ "Search" ∷ [])
    ∷ ("atlas", "Infra" ∷ "Docker" ∷ "Logs" ∷ "Caddy" ∷ [])
    ∷ ("orion", "Runtime" ∷ "Logs" ∷ [])
    ∷ ("aurora", "Finance" ∷ [])
    ∷ ("themis", "Documents" ∷ [])
    ∷ ("mercurio", "RepositoryDocs" ∷ [])
    ∷ ("nexus", "RoadmapDocs" ∷ [])
    ∷ ("operaia-ceo", [])
    ∷ []

pub record ToolPermissionPolicy : Type 0 where
  pub employee_groups : Table
  pub group_tools : Table

pub record ToolPermissionPolicyOptions : Type 0 where
  pub employee_groups : Option Table
  pub group_tools : Option Table

abbrev or_table : Option Table → Table → Table
or_table none other = other
or_table (some t) other = t

-- The constructor.
abbrev pub tool_permission_policy : ToolPermissionPolicyOptions → ToolPermissionPolicy
tool_permission_policy options = record {
  employee_groups = or_table options.employee_groups default_employee_tool_groups;
  group_tools = or_table options.group_tools tool_group_tools;
}

abbrev pub includes : String → List String → Bool
includes x [] = false
includes x (y ∷ ys) = y == x || includes x ys

-- `set.add(x)`: a set keeps the order in which its elements came.
abbrev pub add : String → List String → List String
add x set = if includes x set then set else set ++ (x ∷ [])

unfoldable pub add_all : List String → List String → List String
add_all [] set = set
add_all (x ∷ xs) set = add_all xs (add x set)

-- The value that `groupsFor` returns, or the exception of the loop that iterates over it.
unfoldable pub groups_for : ToolPermissionPolicy → String → Result String (List String)
groups_for policy employee_id = elements (property employee_id policy.employee_groups)

abbrev pub add_tools :
    Result String (List String) → Result String (List String) → Result String (List String)
add_tools (err e) set = err e
add_tools (ok tools) (err e) = err e
add_tools (ok tools) (ok set) = ok (add_all tools set)

-- The two loops of `allowedTools`, up to an exception.
unfoldable pub add_groups :
    Table → List String → Result String (List String) → Result String (List String)
add_groups group_tools [] set = set
add_groups group_tools (group ∷ groups) (err e) = err e
add_groups group_tools (group ∷ groups) (ok set) =
    add_groups group_tools groups (add_tools (elements (property group group_tools)) (ok set))

abbrev pub tools_of : Table → Result String (List String) → Result String (List String)
tools_of group_tools (err e) = err e
tools_of group_tools (ok groups) = add_groups group_tools groups (ok [])

unfoldable pub allowed_tools : ToolPermissionPolicy → String → Result String (List String)
allowed_tools policy employee_id = tools_of policy.group_tools (groups_for policy employee_id)

abbrev pub includes_tool : String → Result String (List String) → Result String Bool
includes_tool tool_id (err e) = err e
includes_tool tool_id (ok tools) = ok (includes tool_id tools)

unfoldable pub is_allowed : ToolPermissionPolicy → String → String → Result String Bool
is_allowed policy employee_id tool_id = includes_tool tool_id (allowed_tools policy employee_id)
