-- ===== src/Supervisor/Examples.antt =====
-- Tests of the supervisor: a mission of workspace `w` that has used up its attempts.
use Prim.Native.Char.{code}
use operaia_lab.Common.{
  length, ◌≤◌, ltb, ℕ, suc, arith, ap, subst, String, true, false, not, ◌||◌, List, [], ◌∷◌, none,
  some, ◌≡◌, refl,
}
use operaia_lab.Common.Effects.{ok, Ends, ◌>>=◌}
use operaia_lab.Supervisor.Types.{
  backlog, health_ok, PolicyAction, PolicyActionType, missao_esgotada, MissionScanItem,
  category_failed, CoordinationRequest,
}
use operaia_lab.Supervisor.Latch.{
  CoordinationLatchKey, coordination_latch_key_of, exhausted_mission_latch_reason,
  is_exhausted_mission_latch_reason, Latches, consumed, not_acquired, acquired, fresh, reclaim,
  find_latch, try_acquire, set_latch, is_consumed, complete, release_absent, drop_latches,
}
use operaia_lab.Supervisor.Recovery.{
  RecoveryPorts, recover, recover_all, recover_stale, recover_waiting, recover_blocked,
  recover_retryable, escalate_exhausted, recover_by, push_action,
}
use operaia_lab.Supervisor.Recovered.{
  PortThrows, total, all_counted, calls_for_coordination, recover-bounds,
}
use operaia_lab.Supervisor.PolicyEngine.{PolicyContext, default_supervisor_policies, evaluate}
use operaia_lab.Supervisor.Asked.{asks, called_for, evaluate-called_for}
use operaia_lab.Supervisor.Keys.{coordination_latch_key_of_inj}
use operaia_lab.Supervisor.Exclusion.{
  LatchCall, acquires, releases, releases_absent, releases_all, latch_run, all_keep,
  IsConsumedLatch, consumed-never_acquired,
}
use operaia_lab.Supervisor.Reclaim.{all_leave, acquired-reclaimed_when_stale}
use operaia_lab.Supervisor.Objective.{
  latch_reason_for, build_coordination_objective, coordinate_reason,
}
use operaia_lab.Supervisor.Tags.{has_no_bracket, coordinate_reason-build}
use operaia_lab.Supervisor.Requests.{collect_coordination_requests, exhausted_latch_keys}
use operaia_lab.Supervisor.Dispatcher.{
  DispatcherPorts, DispatchInput, dispatch, dispatch_input, dispatch_requests, dispatch_request,
  dispatch_acquired, enqueue_request, settle_enqueued, record_created, complete_latch,
  release_absent_latches, try_acquire_latch, ask, build_active_latch_keys, find_existing, open_keys,
}
use operaia_lab.Supervisor.Dispatch.{none_for}
use operaia_lab.Supervisor.Cycle.{dispatch-IsConsumedLatch}

abbrev key_w : CoordinationLatchKey
key_w = record { workspace_id = "w"; reason = "missao_esgotada:m1" }

abbrev key_v : CoordinationLatchKey
key_v = record { workspace_id = "v"; reason = "backlog" }

abbrev latches_w : Latches
latches_w = (complete key_w "c1" 9 (try_acquire key_w 60 5 []).1)

key_w-IsConsumedLatch : IsConsumedLatch key_w latches_w
unfolding try_acquire complete set_latch find_latch coordination_latch_key_of
key_w-IsConsumedLatch = record {
  latch = record {
    key = key_w;
    status = consumed;
    latched_at = 5;
    updated_at = 9;
    last_mission_id = some "c1";
  };
  found = refl;
  reason = refl;
  status = refl;
}

abbrev calls_w : List LatchCall
calls_w =
    acquires key_w 60 100
    ∷ releases key_v
    ∷ releases_absent (key_v ∷ [])
    ∷ releases_all
    ∷ acquires key_w 60 900
    ∷ []

calls_w-keep : all_keep key_w (is_exhausted_mission_latch_reason key_w.reason) calls_w ≡ true
unfolding all_keep is_exhausted_mission_latch_reason coordination_latch_key_of
calls_w-keep = refl

consumed-never_acquired_example :
    ((try_acquire key_w 60 1000 (latch_run calls_w latches_w)).0 ≡ not_acquired)
    × (is_consumed key_w (latch_run calls_w latches_w) ≡ true)
consumed-never_acquired_example =
    consumed-never_acquired key_w calls_w latches_w 60 1000 calls_w-keep key_w-IsConsumedLatch

abbrev calls_v : List LatchCall
calls_v = acquires key_v 60 30 ∷ releases_absent (key_v ∷ []) ∷ acquires key_w 60 70 ∷ []

acquired_at_first : (try_acquire key_v 60 5 latches_w).0 ≡ acquired 5 fresh
unfolding try_acquire complete set_latch find_latch coordination_latch_key_of
acquired_at_first = refl

calls_v-leave : all_leave key_v 5 calls_v ≡ true
unfolding all_leave coordination_latch_key_of
calls_v-leave = refl

acquired-reclaimed_when_stale_example :
    (try_acquire key_v 60 80 (latch_run calls_v (try_acquire key_v 60 5 latches_w).1)).0
    ≡ acquired 5 reclaim
acquired-reclaimed_when_stale_example =
    acquired-reclaimed_when_stale key_v latches_w calls_v 60 5 5 60 80 fresh acquired_at_first
      calls_v-leave

coordination_latch_key_of_inj_example : key_v ≡ record { workspace_id = "v"; reason = "backlog" }
unfolding coordination_latch_key_of
coordination_latch_key_of_inj_example =
    coordination_latch_key_of_inj key_v (record { workspace_id = "v"; reason = "backlog" })
      (λ e. ground (arith, ap code e), tt) (λ e. ground (arith, ap code e), tt) refl

abbrev request_w : CoordinationRequest
request_w = record {
  workspace_id = "w";
  project_id = none;
  reason = missao_esgotada;
  detail = "FAILED";
  source_mission_id = some "m1";
  attempt = some 3;
  max_attempts = some 3;
}

id_of_request_w : (id : String) → request_w.source_mission_id ≡ some id → has_no_bracket id ≡ true
unfolding has_no_bracket
id_of_request_w id e = let same : "m1" ≡ id = cc e in subst (λ i. has_no_bracket i ≡ true) same refl

coordinate_reason-build_example :
    coordinate_reason (build_coordination_objective request_w) ≡ some (latch_reason_for request_w)
coordinate_reason-build_example = coordinate_reason-build request_w id_of_request_w

-- A queue that counts what it was given.
abbrev ports_w : DispatcherPorts ℕ
ports_w = record {
  enqueue = λ input n. (ok (record { id = "c2"; created = true }), suc n);
  list = λ take n. (ok [], n);
  find_by_objective_hash = none;
  hash_objective = λ workspace_id objective. objective;
  clock = λ n. n;
  pending_stale_ms = 60000;
}

abbrev mission_w : MissionScanItem
mission_w = record {
  mission_id = "m1";
  workspace_id = "w";
  category = category_failed;
  attempt = 3;
  max_attempts = 3;
  can_resume = false;
  needs_coordination = true;
  reason = "FAILED";
}

abbrev input_w : DispatchInput
input_w = record {
  workspaces = [];
  missions = mission_w ∷ [];
  queue = record { depth = 1; congested = false; stuck = 2; waiting = 1; pending = 3 };
  infra_recovered = 0;
  health_ok = true;
}

-- The first time, the mission is given to the CEO.
dispatched_first : (dispatch ports_w input_w [] 1).1.dispatched ≡ 1
unfolding dispatch dispatch_input collect_coordination_requests latch_reason_for
    exhausted_mission_latch_reason coordination_latch_key_of build_active_latch_keys ◌>>=◌ ask
    open_keys release_absent_latches release_absent drop_latches dispatch_requests dispatch_request
    try_acquire_latch try_acquire set_latch find_latch dispatch_acquired find_existing
    enqueue_request settle_enqueued complete_latch complete record_created exhausted_latch_keys
dispatched_first = refl

asked_again :
    is_exhausted_mission_latch_reason key_w.reason
      || not (
          none_for key_w
            (collect_coordination_requests input_w.workspaces input_w.missions input_w.queue))
    ≡ true
unfolding is_exhausted_mission_latch_reason
asked_again = refl

-- And never again.
dispatch-IsConsumedLatch_example :
    Ends
      (λ result t. IsConsumedLatch key_w t.latches × (none_for key_w result.coordinations ≡ true))
      (λ error t. IsConsumedLatch key_w t.latches × (none_for key_w t.coordinations ≡ true))
      (dispatch ports_w input_w latches_w 7)
dispatch-IsConsumedLatch_example =
    dispatch-IsConsumedLatch ports_w key_w input_w latches_w 7 asked_again key_w-IsConsumedLatch

-- A queue that recovers two missions of each kind, and none to retry.
abbrev ports_r : RecoveryPorts ℕ
ports_r = record {
  recover_stale_running = λ ms n. (ok 2, suc n);
  recover_waiting_parents = λ n. (ok 2, suc n);
  recover_blocked_dag = λ n. (ok 2, suc n);
  recover_failed_retryable = λ n. (ok 0, suc n);
  clock = λ n. n;
  stale_running_ms = 60000;
}

ports_r_throw_nothing : PortThrows ports_r (λ e. ⊥)
ports_r_throw_nothing = record {
  stale = λ w e h. cc h;
  waiting = λ w e h. cc h;
  blocked = λ w e h. cc h;
  retryable = λ w e h. cc h;
}

recovered_two_kinds : (recover ports_r (mission_w ∷ []) input_w.queue 0).1.infra_recovered ≡ 4
unfolding recover recover_all recover_stale recover_waiting recover_blocked recover_retryable
    escalate_exhausted recover_by push_action ◌>>=◌
recovered_two_kinds = refl

recover-bounds_example :
    Ends
      (λ report t.
        (length report.actions ≤ 5)
        × ((all_counted report.actions ≡ true)
            × ((report.infra_recovered ≤ total report.actions)
                × (ltb 0 report.coordinations_requested
                    ≡ calls_for_coordination (mission_w ∷ []) input_w.queue))))
      (λ error t. ⊥)
      (recover ports_r (mission_w ∷ []) input_w.queue 0)
recover-bounds_example =
    recover-bounds ports_r (mission_w ∷ []) input_w.queue 0 (λ e. ⊥) ports_r_throw_nothing

-- An active workspace has tasks, and no worker is alive.
abbrev context_p : PolicyContext
context_p = record {
  health = health_ok;
  workspaces =
      record {
        workspace_id = "w";
        name = "W";
        status = "ACTIVE";
        project_id = "p";
        needs_attention = true;
        attention_reasons = backlog ∷ [];
        open_missions = 1;
        pending_tasks = 2;
      }
      ∷ [];
  missions = mission_w ∷ [];
  queue = input_w.queue;
  workers = record { alive = 0; total = 1; stopped = 1; busy = 0; available = 0 };
}

evaluate-called_for_example :
    (actions : List PolicyAction) × ((evaluate default_supervisor_policies context_p 5
        ≡ ok (record { evaluated_at = 5; actions = actions }))
      × ((type : PolicyActionType) → asks type actions ≡ called_for type context_p))
evaluate-called_for_example = evaluate-called_for context_p 5
