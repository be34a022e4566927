-- ===== src/Queue/Recovery.antt =====
-- The recoveries of apps/api/src/modules/runtime/mission-queue.ts (`recoverStaleRunning`,
-- `recoverFailedRetryable`, `recoverWaitingParents`, `recoverBlockedDag`, `depths`) and
-- apps/api/src/modules/runtime/worker-liveness.ts.
use operaia_lab.Common.{
  ℕ, ◌+◌, ◌*◌, String, Bool, true, false, not, ◌&&◌, ◌||◌, List, [], ◌∷◌, Option, none, some, ◌==◌,
  nat_same, string_same, if◌then◌else◌, ltb, leb, keep, find_by, every, map,
}
use operaia_lab.Queue.Model.{
  Mission, MissionDependency, WorkerHeartbeat, Tables, queued, is_running, is_queued, is_waiting,
  is_failed, is_coordinate, is_ready, is_exactly, created, MissionStatus, ok,
}
use operaia_lab.Queue.Client.{PrismaClient}
use operaia_lab.Queue.Monad.{M, ◌>>=◌, ◌>>◌, return, read, ask}
use operaia_lab.Queue.Enqueue.{append_event}
use operaia_lab.Queue.Settle.{owns, unblock, is_done}
use operaia_lab.Queue.Consolidate.{maybe_enqueue_consolidation}

abbrev pub worker_liveness_missed_heartbeats : ℕ
worker_liveness_missed_heartbeats = 3

unfoldable pub resolve_worker_liveness_ms : ℕ → ℕ
resolve_worker_liveness_ms heartbeat_interval_ms =
    heartbeat_interval_ms * worker_liveness_missed_heartbeats

-- `lastSeenAt < nowMs - livenessMs`; the source's difference may be negative, so it is moved over.
unfoldable pub is_running_mission_abandoned : String → Option WorkerHeartbeat → ℕ → ℕ → Bool
is_running_mission_abandoned mission_id none now liveness = true
is_running_mission_abandoned mission_id (some h) now liveness =
    liveness == 0
    || not (is_exactly h.current_mission_id mission_id)
    || ltb (h.last_seen_at + liveness) now

unfoldable pub to_recovered : ℕ → Mission → Mission
to_recovered now m = record m {
  status = queued;
  started_at = none;
  last_error = some "Recuperada apos RUNNING orfao (restart/stale)";
  scheduled_at = some now;
  lease_version = m.lease_version + 1;
}

unfoldable pub to_requeued : ℕ → Mission → Mission
to_requeued now m = record m {
  status = queued;
  started_at = none;
  finished_at = none;
  progress = 0;
  scheduled_at = some now;
}

-- The `where` of `recoverFailedRetryable`.
unfoldable pub still_failed : String → ℕ → Mission → Bool
still_failed id attempt m = m.id == id && is_failed m.status && m.attempt == attempt

-- Neither `continue` of `recoverFailedRetryable` is taken.
abbrev pub is_retryable : ℕ → Mission → Bool
is_retryable now m =
    not (leb m.max_attempts m.attempt)
    && not (elim m.scheduled_at [ none ↦ false | some t ↦ ltb now t ])

-- The `where` of `recoverBlockedDag`.
abbrev waits_to_start : MissionStatus → Bool
waits_to_start queued = true
waits_to_start created = true
waits_to_start _ = false

abbrev pub is_blocked_mission : Mission → Bool
is_blocked_mission m = not (is_ready m.readiness) && waits_to_start m.status

pub record QueueDepths : Type 0 where
  pub queued_count : ℕ
  pub running_count : ℕ
  pub waiting_count : ℕ
  pub failed_count : ℕ

module _ (db : PrismaClient) where
  -- `employeeId: { in: ownerIds }`.
  unfoldable pub owns_one_of : List Mission → WorkerHeartbeat → Bool
  owns_one_of [] h = false
  owns_one_of (m ∷ ms) h = m.owner_employee_id == h.employee_id || owns_one_of ms h

  unfoldable pub find_abandoned_running : ℕ → ℕ → Tables → List Mission
  unfolding is_running_mission_abandoned
  find_abandoned_running liveness now ts =
      let running_rows = db.mission_find_many (λ m. is_running m.status) ts in
      let heartbeats = db.heartbeat_find_many (owns_one_of running_rows) ts in
      keep
        (λ m.
          is_running_mission_abandoned m.id
            (find_by (λ h. h.employee_id == m.owner_employee_id) heartbeats) now liveness)
        running_rows

  unfoldable pub list_abandoned_running_ids : ℕ → ℕ → M (List String)
  list_abandoned_running_ids liveness now =
      read (λ ts. map (λ m. m.id) (find_abandoned_running liveness now ts))

  -- The loops write row by row, and count the rows that their conditional update has hit.
  unfoldable pub recover_running_rows : ℕ → ℕ → List Mission → M ℕ
  recover_running_rows now recovered [] = return recovered
  recover_running_rows now recovered (m ∷ ms) = do
    count ← ask (db.mission_update_many (owns m.id m.lease_version) (to_recovered now))
    elim (count == 1) [
      | false ↦ recover_running_rows now recovered ms
      | true ↦ do
        append_event db m.id "recovered" "RUNNING orfao reenfileirado"
        recover_running_rows now (recovered + 1) ms
    ]

  unfoldable pub recover_stale_running : ℕ → ℕ → M ℕ
  recover_stale_running stale_after now = do
    stale ← read (find_abandoned_running stale_after now)
    recover_running_rows now 0 stale

  unfoldable pub recover_failed_rows : ℕ → ℕ → List Mission → M ℕ
  recover_failed_rows now recovered [] = return recovered
  recover_failed_rows now recovered (m ∷ ms) = elim (is_retryable now m) [
    | false ↦ recover_failed_rows now recovered ms
    | true ↦ do
      count ← ask (db.mission_update_many (still_failed m.id m.attempt) (to_requeued now))
      elim (count == 1) [
        | false ↦ recover_failed_rows now recovered ms
        | true ↦ do
          append_event db m.id "requeued" "FAILED elegivel reenfileirado pelo Supervisor"
          recover_failed_rows now (recovered + 1) ms
      ]
  ]

  unfoldable pub recover_failed_retryable : ℕ → M ℕ
  recover_failed_retryable now = do
    failed ← read (db.mission_find_many (λ m. is_failed m.status))
    recover_failed_rows now 0 failed

  module _ (sha256_hex : String → String) where
    unfoldable pub consolidate_rows : ℕ → ℕ → List Mission → M ℕ
    consolidate_rows now scheduled [] = return scheduled
    consolidate_rows now scheduled (root ∷ roots) = do
      done ← maybe_enqueue_consolidation db sha256_hex root.id now
      consolidate_rows now (if done then scheduled + 1 else scheduled) roots

    unfoldable pub recover_waiting_parents : ℕ → M ℕ
    recover_waiting_parents now = do
      roots ← read (db.mission_find_many (λ m. is_waiting m.status && is_coordinate m.mission_kind))
      consolidate_rows now 0 roots

  abbrev dag_message : List MissionDependency → String
  dag_message [] = "BLOCKED sem dependencias — READY apos recovery"
  dag_message (d ∷ ds) = "DAG recuperado — missao READY"

  -- Without predecessors `every` holds, so the two branches differ in the message only.
  unfoldable pub unblock_rows : ℕ → ℕ → List Mission → M ℕ
  unblock_rows now promoted [] = return promoted
  unblock_rows now promoted (m ∷ ms) = do
    preds ← read (db.dependency_find_many (λ d. d.mission_id == m.id))
    done ← read (λ ts. every (is_done db ts) preds)
    elim done [
      | false ↦ unblock_rows now promoted ms
      | true ↦ do unblock db m.id now (dag_message preds); unblock_rows now (promoted + 1) ms
    ]

  unfoldable pub recover_blocked_dag : ℕ → M ℕ
  recover_blocked_dag now = do
    blocked ← read (db.mission_find_many is_blocked_mission)
    unblock_rows now 0 blocked

  unfoldable pub depths : M QueueDepths
  depths ts = (
    ok (record {
      queued_count = db.mission_count (λ m. is_queued m.status) ts;
      running_count = db.mission_count (λ m. is_running m.status) ts;
      waiting_count = db.mission_count (λ m. is_waiting m.status) ts;
      failed_count = db.mission_count (λ m. is_failed m.status) ts;
    }),
    ts,
  )
