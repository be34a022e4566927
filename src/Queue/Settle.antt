-- ===== src/Queue/Settle.antt =====
-- `markWaiting`, `complete` and `fail` of apps/api/src/modules/runtime/mission-queue.ts, with
-- `backoffMs`, `linkDependency` and `promoteReadyDependents`: how a worker gives its lease back.
use Prim.Native.String
use operaia_lab.Common.{
  ℕ, ◌+◌, ◌-◌, ◌*◌, ◌^◌, min, String, Bool, true, false, ◌&&◌, List, [], ◌∷◌, none, some, ◌==◌,
  nat_same, string_same, if◌then◌else◌, ltb, every,
}
use operaia_lab.Json.{Json}
use operaia_lab.Queue.Model.{
  Mission, MissionDependency, Tables, queued, waiting, completed, failed, ready, blocked, not_found,
  broken_reference, stale_ownership, is_running, is_completed,
}
use operaia_lab.Queue.Client.{PrismaClient}
use operaia_lab.Queue.Monad.{M, ◌>>=◌, ◌>>◌, return, read, ask, require, or_throw}
use operaia_lab.Queue.Enqueue.{append_event}

-- The `where` of every settlement: the row is still RUNNING under the caller's lease.
unfoldable pub owns : String → ℕ → Mission → Bool
owns id lease m = m.id == id && is_running m.status && m.lease_version == lease

-- `Math.min(5_000 * 2 ** Math.max(0, attempt - 1), 5 * 60_000)`.
unfoldable pub backoff_ms : ℕ → ℕ
backoff_ms attempt = min (5000 * 2 ^ (attempt - 1)) (5 * 60000)

unfoldable pub to_waiting : Json → Mission → Mission
to_waiting partial m = record m { status = waiting; progress = 50; result_json = some partial }

unfoldable pub to_completed : Json → ℕ → Mission → Mission
to_completed result now m = record m {
  status = completed;
  progress = 100;
  finished_at = some now;
  result_json = some result;
  last_error = none;
}

unfoldable pub to_retry : String → ℕ → ℕ → Mission → Mission
unfolding backoff_ms
to_retry error attempt now m = record m {
  status = queued;
  last_error = some error;
  scheduled_at = some (now + backoff_ms attempt);
  started_at = none;
  progress = 0;
}

unfoldable pub to_failed : String → ℕ → Mission → Mission
to_failed error now m = record m {
  status = failed;
  last_error = some error;
  finished_at = some now;
  progress = 100;
}

unfoldable pub to_ready : ℕ → Mission → Mission
to_ready now m = record m { readiness = ready; scheduled_at = some now }

unfoldable pub to_blocked : Mission → Mission
to_blocked m = record m { readiness = blocked }

abbrev pub can_retry : Mission → Bool
can_retry m = ltb m.attempt m.max_attempts

abbrev pub failure : Mission → String → ℕ → Mission → Mission
failure current error now =
    if can_retry current then to_retry error current.attempt now else to_failed error now

module _ (db : PrismaClient) where
  -- The conditional `updateMany`, and `StaleMissionOwnershipError` where it did not hit one row.
  unfoldable pub settle : String → ℕ → (Mission → Mission) → M (Unit {0})
  settle id lease f = do
    count ← ask (db.mission_update_many (owns id lease) f)
    require (count == 1) (stale_ownership id lease)

  unfoldable pub get_or_throw : String → M Mission
  get_or_throw id = do row ← read (db.mission_find_unique id); or_throw (not_found id) row

  unfoldable pub mark_waiting : String → Json → ℕ → M Mission
  mark_waiting id partial lease = do
    settle id lease (to_waiting partial)
    mission ← get_or_throw id
    append_event db id "waiting" "Aguardando filhos"
    return mission

  -- `prisma.mission.update`, which throws where the row is missing.
  unfoldable pub update_row : String → (Mission → Mission) → M Mission
  update_row id f = do written ← ask (db.mission_update id f); or_throw (not_found id) written

  unfoldable pub link_dependency : String → String → M (Unit {0})
  link_dependency id depends_on = if id == depends_on then return tt else do
    accepted ←
        ask (db.dependency_upsert (record { mission_id = id; depends_on_mission_id = depends_on }))
    require accepted (broken_reference id depends_on)
    written ← update_row id to_blocked
    return tt

  -- Whether the row that a dependency points to is COMPLETED.
  unfoldable pub is_done : Tables → MissionDependency → Bool
  is_done ts d = elim (db.mission_find_unique d.depends_on_mission_id ts) [
    | none ↦ false
    | some m ↦ is_completed m.status
  ]

  unfoldable pub all_done : String → Tables → Bool
  unfolding is_done
  all_done id ts = every (is_done ts) (db.dependency_find_many (λ d. d.mission_id == id) ts)

  unfoldable pub unblock : String → ℕ → String → M (Unit {0})
  unblock id now message = do
    written ← update_row id (to_ready now)
    append_event db id "unblocked" message

  -- The loop over the edges; its counter is the number of rows promoted.
  unfoldable pub promote_edges : ℕ → ℕ → List MissionDependency → M ℕ
  promote_edges now promoted [] = return promoted
  promote_edges now promoted (edge ∷ edges) = do
    done ← read (all_done edge.mission_id)
    elim done [
      | false ↦ promote_edges now promoted edges
      | true ↦ do
        unblock edge.mission_id now "Dependencias concluidas — missao READY"
        promote_edges now (promoted + 1) edges
    ]

  unfoldable pub promote_ready_dependents : String → ℕ → M ℕ
  unfolding promote_edges unblock
  promote_ready_dependents id now = do
    dependents ← read (db.dependency_find_many (λ d. d.depends_on_mission_id == id))
    promote_edges now 0 dependents

  unfoldable pub complete : String → Json → ℕ → ℕ → M Mission
  complete id result lease now = do
    settle id lease (to_completed result now)
    mission ← get_or_throw id
    append_event db id "completed" "Missao concluida"
    promoted ← promote_ready_dependents id now
    return mission

  -- What `fail` does with the row that it has read.
  unfoldable pub fail_current : String → String → ℕ → ℕ → Mission → M Mission
  fail_current id error lease now current = do
    require (is_running current.status && current.lease_version == lease) (stale_ownership id lease)
    settle id lease (failure current error now)
    mission ← get_or_throw id
    append_event db id (if can_retry current then "requeued" else "failed")
        (String.◌++◌ (if can_retry current then "Retry agendado: " else "Falha final: ") error)
    return mission

  unfoldable pub fail : String → String → ℕ → ℕ → M Mission
  unfolding fail_current
  fail id error lease now = do current ← get_or_throw id; fail_current id error lease now current
