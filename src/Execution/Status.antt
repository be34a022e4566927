-- ===== src/Execution/Status.antt =====
-- `resolveStatus` of packages/execution-engine/src/execution/execution-engine.ts against what the
-- statuses mean.
use operaia_lab.Common.{
  Bool, true, false, not, ◌&&◌, ◌||◌, List, [], ◌∷◌, ◌≡◌, ◌↔◌, refl, every, if◌then◌else◌, arith,
}
use operaia_lab.Execution.Model.{ActionResult, ExecutionStatus, all_done, partial, not_done}
use operaia_lab.Execution.Engine.{is_success, is_failed, is_skipped, any, resolve_status}

-- The statuses of an action that has been run or skipped.
abbrev pub is_settled : ActionResult → Bool
is_settled r = is_success r || is_failed r || is_skipped r

any_unsuccessful :
    (rs : List ActionResult)
    → every is_settled rs ≡ true
    → (any is_failed rs || any is_skipped rs) ≡ not (every is_success rs)
any_unsuccessful [] h = refl
any_unsuccessful (r ∷ rs) h = ground (arith, any_unsuccessful rs)

every_success-any :
    (r : ActionResult) (rs : List ActionResult)
    → every is_success (r ∷ rs) ≡ true
    → any is_success (r ∷ rs) ≡ true
every_success-any r rs h = ground arith

-- Of settled results, the status is SUCCESS exactly where every action succeeded, PARTIAL exactly
-- where some succeeded and some did not, and FAILED exactly where there are actions and none
-- succeeded.
pub resolve_status_lem :
    (rs : List ActionResult)
    → every is_settled rs ≡ true
    → ((resolve_status rs ≡ all_done) ↔ (every is_success rs ≡ true))
      × ((resolve_status rs ≡ partial)
          ↔ ((any is_success rs ≡ true) × (every is_success rs ≡ false)))
      × ((resolve_status rs ≡ not_done)
          ↔ ((any is_success rs ≡ false) × (every is_success rs ≡ false)))
unfolding resolve_status
resolve_status_lem [] h = ground arith
resolve_status_lem (r ∷ rs) h =
    status_cases (any is_failed (r ∷ rs)) (any is_success (r ∷ rs)) (any is_skipped (r ∷ rs))
      (every is_success (r ∷ rs)) (any_unsuccessful (r ∷ rs) h) (every_success-any r rs)
  where
    status_by : Bool → Bool → Bool → ExecutionStatus
    status_by f s k =
        if f && s
        then partial
        else if k && s
        then partial
        else if f || (k && not s)
        then not_done
        else all_done

    status_cases :
        (f s k e : Bool)
        → (f || k) ≡ not e
        → (e ≡ true → s ≡ true)
        → ((status_by f s k ≡ all_done) ↔ (e ≡ true))
          × ((status_by f s k ≡ partial) ↔ ((s ≡ true) × (e ≡ false)))
          × ((status_by f s k ≡ not_done) ↔ ((s ≡ false) × (e ≡ false)))
    status_cases f s k e h g = ground (arith, g)
