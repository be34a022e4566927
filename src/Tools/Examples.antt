-- ===== src/Tools/Examples.antt =====
-- Tests of the default permissions.
use operaia_lab.Common.{true, false, none, ◌≡◌, refl}
use operaia_lab.Common.Effects.{ok, err}
use operaia_lab.Common.Objects.{property, is_inherited}
use operaia_lab.Tools.Permissions.{
  ToolPermissionPolicy, tool_permission_policy, groups_for, add_all, add_groups, allowed_tools,
  is_allowed,
}
use operaia_lab.Tools.Granted.{ListsOnce, granted, is_allowed_lem}

abbrev default_policy : ToolPermissionPolicy
default_policy = tool_permission_policy (record { employee_groups = none; group_tools = none })

atlas_reads_logs : is_allowed default_policy "atlas" "readLogs" ≡ ok true
unfolding is_allowed allowed_tools add_groups add_all groups_for property is_inherited
atlas_reads_logs = refl

luna_reads_no_logs : is_allowed default_policy "luna" "readLogs" ≡ ok false
unfolding is_allowed allowed_tools add_groups add_all groups_for property is_inherited
luna_reads_no_logs = refl

-- A key that every object has.
constructor_throws :
    is_allowed default_policy "constructor" "readLogs" ≡ err "TypeError: object is not iterable"
unfolding is_allowed allowed_tools groups_for property is_inherited
constructor_throws = refl

is_allowed_lem_example :
    (is_allowed default_policy "atlas" "readLogs" ≡ granted default_policy "atlas" "readLogs")
    × ListsOnce (allowed_tools default_policy "atlas")
is_allowed_lem_example = is_allowed_lem default_policy "atlas" "readLogs"
