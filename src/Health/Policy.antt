-- ===== src/Health/Policy.antt =====
-- packages/operational-health/src/operation-criticality.ts and failure-policy.ts.
use Prim.Native.Char.{code}
use Prim.Native.String
use operaia_lab.Common.{
  ℕ, ◌+◌, String, Bool, true, false, ◌&&◌, ◌||◌, List, [], ◌∷◌, Option, none, some, ◌==◌,
  string_same, nat_same, if◌then◌else◌, leb,
}
use operaia_lab.Common.Effects.{Steps, return, throw, try_catch, ◌>>=◌, ◌>>◌}

pub data OperationCriticality : Type 0 where
  critical : OperationCriticality
  non_critical : OperationCriticality

abbrev pub critical_operations : List String
critical_operations =
    "mission.create" ∷ "mission.claim" ∷ "employee.execution" ∷ "action.runtime"
    ∷ "mission.complete" ∷ "queue.state" ∷ []

abbrev pub non_critical_operations : List String
non_critical_operations =
    "memory.operational" ∷ "analytics" ∷ "metrics" ∷ "telemetry" ∷ "learning" ∷ "usage.statistics"
    ∷ []

abbrev pub has_operation : String → List String → Bool
has_operation operation [] = false
has_operation operation (o ∷ os) = o == operation || has_operation operation os

-- A letter of the pattern, which ignores case, against one of the text.
abbrev lower : ℕ → ℕ
lower c = if leb 65 c && leb c 90 then c + 32 else c

unfoldable pub begins : String → String → Bool
begins String.[] s = true
begins (String.◌∷◌ c p) String.[] = false
begins (String.◌∷◌ c p) (String.◌∷◌ d s) = lower (code d) == code c && begins p s

unfoldable pub contains : String → String → Bool
unfolding begins
contains p String.[] = begins p String.[]
contains p (String.◌∷◌ d s) = begins p (String.◌∷◌ d s) || contains p s

abbrev contains_any : List String → String → Bool
contains_any [] s = false
contains_any (p ∷ ps) s = contains p s || contains_any ps s

unfoldable pub classify_operation : String → OperationCriticality
unfolding contains
classify_operation operation =
    if has_operation operation non_critical_operations
    then non_critical
    else if has_operation operation critical_operations
    then critical
    else if contains_any
        ("memory" ∷ "learning" ∷ "analytics" ∷ "metric" ∷ "telemetry" ∷ "usage" ∷ "digest" ∷ [])
        operation
    then non_critical
    else critical

-- The reason's text is left out.
pub record FailurePolicyDecision : Type 0 where
  pub criticality : OperationCriticality
  pub should_fail_mission : Bool

abbrev decided : OperationCriticality → FailurePolicyDecision
decided non_critical = record { criticality = non_critical; should_fail_mission = false }
decided critical = record { criticality = critical; should_fail_mission = true }

unfoldable pub decide : String → FailurePolicyDecision
decide operation = decided (classify_operation operation)

-- `input.run` and `input.onFailure`, over a world `W`. The world also receives the log.
pub record NonCriticalRunInput (W T : Type 0) : Type 0 where
  pub operation : String
  pub run_operation : Steps String W T
  pub on_failure : Option (String → Steps String W (Unit {0}))
  pub log_failure : String → W → W

abbrev pub call_on_failure :
    {W : Type 0} → Option (String → Steps String W (Unit {0})) → String → Steps String W (Unit {0})
call_on_failure none error = return tt
call_on_failure (some f) error = f error

abbrev pub refusal : String → String
refusal operation = String.◌++◌ "FailurePolicy.runNonCritical recebeu operacao CRITICAL: " operation

unfoldable pub run_non_critical :
    {W T : Type 0} → NonCriticalRunInput W T → Steps String W (Option T)
unfolding decide
run_non_critical input =
    if (decide input.operation).should_fail_mission
    then throw (refusal input.operation)
    else try_catch (do a ← input.run_operation; return (some a))
        (λ error w.
          (call_on_failure input.on_failure error >> return none) (input.log_failure error w))
