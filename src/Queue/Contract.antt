-- ===== src/Queue/Contract.antt =====
-- `resolveEnqueueContract` and `hashObjective` of apps/api/src/modules/runtime/mission-queue.ts.
use Prim.Native.String
use operaia_lab.Common.{
  ℕ, zero, suc, String, Bool, true, not, Option, none, some, if◌then◌else◌, is_blank, trim,
}
use operaia_lab.Queue.Model.{
  MissionKind, coordinate, execute, consolidate, EnqueueMissionInput, ceo_employee_id, Result, ok,
  err, contract, coordinate_with_parent, execute_without_parent, execute_without_specialization,
  consolidate_without_parent, is_given, or_else,
}

pub record ResolvedEnqueueContract : Type 0 where
  pub mission_kind : MissionKind
  pub owner_employee_id : String

-- `!text?.trim()`.
unfoldable pub is_missing : Option String → Bool
unfolding is_blank
is_missing none = true
is_missing (some s) = is_blank s

unfoldable pub resolve_kind : MissionKind → EnqueueMissionInput → Result ResolvedEnqueueContract
resolve_kind coordinate input =
    if is_given input.parent_mission_id
    then err (contract coordinate_with_parent)
    else ok (record { mission_kind = coordinate; owner_employee_id = ceo_employee_id })
resolve_kind execute input =
    if not (is_given input.parent_mission_id)
    then err (contract execute_without_parent)
    else if is_missing input.required_specialization
    then err (contract execute_without_specialization)
    else ok (record {
      mission_kind = execute;
      owner_employee_id = or_else input.owner_employee_id "unmatched";
    })
resolve_kind consolidate input =
    if not (is_given input.parent_mission_id)
    then err (contract consolidate_without_parent)
    else ok (record { mission_kind = consolidate; owner_employee_id = ceo_employee_id })

unfoldable pub resolve_enqueue_contract : EnqueueMissionInput → Result ResolvedEnqueueContract
unfolding resolve_kind
resolve_enqueue_contract input = resolve_kind (or_else input.mission_kind coordinate) input

-- `text.slice(0, n)`, on the hexadecimal digits of a digest.
str_take : ℕ → String → String
str_take zero s = String.[]
str_take (suc n) String.[] = String.[]
str_take (suc n) (String.◌∷◌ c s) = String.◌∷◌ c (str_take n s)

-- `sha256_hex` stands for node's `createHash("sha256").update(…).digest("hex")`.
unfoldable pub hash_objective : (String → String) → String → String → String
unfolding str_take trim
hash_objective sha256_hex workspace_id objective =
    str_take 32 (sha256_hex (String.◌++◌ workspace_id (String.◌++◌ "\0" (trim objective))))
