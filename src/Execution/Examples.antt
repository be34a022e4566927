-- ===== src/Execution/Examples.antt =====
-- A plan of three actions: one is logged, one is denied, and one fails.
use operaia_lab.Common.{
  ℕ, ◌+◌, String, Bool, true, false, List, [], ◌∷◌, Option, none, some, ◌≡◌, ◌↔◌, refl, ◌==◌,
  string_same, str_iff, inl, if◌then◌else◌, every, All,
}
use operaia_lab.Json.{null}
use operaia_lab.Common.Effects.{Result, ok, err, Ends, ◌>>=◌}
use operaia_lab.Execution.Model.{
  Action, pending, success, failed, skipped, ActionStatus, ExecutionPlan, ExecutionEngine,
  ActionExecutor, ActionResult, ExecutionStatus, all_done, partial, not_done, ExecutionResult,
  ExecutionError, duplicate_action_id,
}
use operaia_lab.Execution.Engine.{
  allowlist, check_actions, validate_plan, execute, execute_plan, execute_actions, execute_action,
  execute_by, validate_by, run_executor, settle_action, failure, skip, attempt, call, now, log,
  finish, save_by, check_plan, resolve, resolve_status, result_of, any, is_success,
}
use operaia_lab.Execution.Status.{resolve_status_lem}
use operaia_lab.Execution.Plan.{IsNamed, HasDistinctIds, given, validate_plan_iff}
use operaia_lab.Execution.Report.{Reported, Throws, execute-Reported}
use operaia_lab.Execution.Refusal.{Offends, execute-refuses}

abbrev action : String → String → Action
action id type = record {
  id = id;
  type = type;
  description = "";
  payload = null;
  priority = "MEDIUM";
  status = pending;
}

abbrev executor : String → Bool → ActionExecutor ℕ
executor type works = record {
  name = type;
  supports = λ a w. (ok (a.type == type), w);
  run_action = λ a c w. (if works then ok null else err "offline", w + 1);
}

-- The world is the clock.
abbrev engine : ExecutionEngine ℕ
engine = record {
  registry = executor "LOG" true ∷ executor "CREATE_TASK" false ∷ [];
  policy = record {
    can_execute = λ a. (allowlist ("LOG" ∷ "CREATE_TASK" ∷ [])).can_execute a;
    validate = none;
  };
  save = none;
  now = λ w. (w, w + 1);
  stop_on_error = false;
}

abbrev plan : ExecutionPlan
plan = record {
  id = "p";
  actions = action "a" "LOG" ∷ action "b" "SHELL" ∷ action "c" "CREATE_TASK" ∷ [];
  metadata = null;
}

abbrev twice : ExecutionPlan
twice = record { id = "q"; actions = action "a" "LOG" ∷ action "a" "LOG" ∷ []; metadata = null }

abbrev statuses : List ActionResult → List ActionStatus
statuses [] = []
statuses (r ∷ rs) = r.status ∷ statuses rs

abbrev summary :
    Result ExecutionError ExecutionResult → Option (ExecutionStatus × List ActionStatus)
summary (ok r) = some (r.status, statuses r.results)
summary (err e) = none

execute_test :
    summary (execute engine (given plan) "x" 0).0 ≡ some (partial, success ∷ skipped ∷ failed ∷ [])
unfolding execute execute_plan check_plan validate_plan check_actions execute_actions execute_action
    execute_by validate_by run_executor settle_action failure skip attempt call now log finish
    save_by resolve resolve_status ◌>>=◌
execute_test = refl

plan_is_valid : validate_plan (given plan) ≡ ok plan
unfolding validate_plan
plan_is_valid = refl

never_throws : Throws engine (λ e. ⊥)
never_throws = record {
  can_execute = λ a c w w' message e. cc;
  validate = λ v a c w w' message e f. cc;
  supports = (λ a w w' message e. cc e, (λ a w w' message e. cc e, tt));
  save = λ f r w w' message e g. cc;
}

execute-Reported_example :
    Ends (λ r s. Reported engine plan r) (λ e s. ⊥) (execute engine (given plan) "x" 0)
execute-Reported_example =
    execute-Reported engine (λ e. ⊥) (given plan) plan "x" 0 never_throws plan_is_valid

first-IsNamed : All IsNamed (action "a" "LOG" ∷ [])
first-IsNamed =
    ((λ e. false≢true_of ((str_iff "a" "").1 e), λ e. false≢true_of ((str_iff "LOG" "").1 e)), tt)
  where
    false≢true_of : false ≡ true → ⊥
    false≢true_of e = cc e

execute-refuses_example :
    execute engine (given twice) "x" 0
    ≡ (err (duplicate_action_id "a"), record { logs = []; world = (engine.now 0).1 })
execute-refuses_example =
    execute-refuses engine "q" null (action "a" "LOG" ∷ []) (action "a" "LOG") []
      (duplicate_action_id "a") "x" 0 first-IsNamed (tt, tt)
      (Offends.twice first-IsNamed.0 (inl refl))

validate_plan_iff_example :
    (validate_plan (given twice) ≡ ok twice)
    ↔ ((given twice ≡ given twice) × (All IsNamed twice.actions × HasDistinctIds twice.actions))
validate_plan_iff_example = validate_plan_iff (given twice) twice

abbrev two_results : List ActionResult
two_results =
    result_of (action "a" "LOG") success none none none 0 1
    ∷ result_of (action "b" "SHELL") skipped none none none 1 1
    ∷ []

resolve_status_lem_example :
    ((resolve_status two_results ≡ all_done) ↔ (every is_success two_results ≡ true))
    × ((resolve_status two_results ≡ partial)
        ↔ ((any is_success two_results ≡ true) × (every is_success two_results ≡ false)))
    × ((resolve_status two_results ≡ not_done)
        ↔ ((any is_success two_results ≡ false) × (every is_success two_results ≡ false)))
resolve_status_lem_example = resolve_status_lem two_results refl
