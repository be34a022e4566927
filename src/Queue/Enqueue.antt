-- ===== src/Queue/Enqueue.antt =====
-- `enqueue`, `findByObjectiveHash`, `appendEvent` and `hasEvent` of
-- apps/api/src/modules/runtime/mission-queue.ts. `now` is the clock at
-- the call; the database draws the identifier of a new row.
use operaia_lab.Common.{
  ℕ, String, Bool, true, false, not, ◌&&◌, Option, none, some, ◌==◌, string_same, if◌then◌else◌,
  leb,
}
use operaia_lab.Queue.Model.{
  Mission, MissionKind, EnqueueMissionInput, queued, medium, ready, is_open, is_coordinate,
  is_given, or_else,
}
use operaia_lab.Queue.Contract.{resolve_enqueue_contract, hash_objective, ResolvedEnqueueContract}
use operaia_lab.Queue.Client.{PrismaClient}
use operaia_lab.Queue.Monad.{M, ◌>>=◌, ◌>>◌, return, read, write, ask, lift}

-- `createdAtGte` is the optional lower bound on the creation time.
abbrev hashed_since : String → String → Option ℕ → Mission → Bool
hashed_since workspace_id objective_hash since m =
    m.workspace_id == workspace_id
    && m.objective_hash == objective_hash
    && is_coordinate m.mission_kind
    && elim since [ none ↦ true | some t ↦ leb t m.created_at ]

-- The rows that a new root with `dedupe` repeats.
abbrev pub open_twin : String → String → Mission → Bool
open_twin workspace_id objective_hash m =
    m.workspace_id == workspace_id
    && m.objective_hash == objective_hash
    && is_coordinate m.mission_kind
    && is_open m.status

abbrev pub should_dedupe : EnqueueMissionInput → MissionKind → Bool
should_dedupe input kind =
    input.dedupe && is_coordinate kind && not (is_given input.parent_mission_id)

-- The data of `mission.create`, with the columns that the schema defaults.
abbrev pub new_mission :
    EnqueueMissionInput → ResolvedEnqueueContract → String → ℕ → String → Mission
new_mission input c hash now id = record {
  id = id;
  workspace_id = input.workspace_id;
  project_id = input.project_id;
  objective = input.objective;
  objective_hash = hash;
  mission_kind = c.mission_kind;
  priority = or_else input.priority medium;
  status = queued;
  readiness = or_else input.readiness ready;
  owner_employee_id = c.owner_employee_id;
  required_specialization = input.required_specialization;
  parent_mission_id = input.parent_mission_id;
  progress = 0;
  attempt = 0;
  max_attempts = or_else input.max_attempts 3;
  lease_version = 0;
  scheduled_at = some (or_else input.scheduled_at now);
  started_at = none;
  finished_at = none;
  last_error = none;
  result_json = none;
  created_at = now;
}

module _ (db : PrismaClient) where
  unfoldable pub append_event : String → String → String → M (Unit {0})
  append_event mission_id type message =
      write (db.event_create (record { mission_id = mission_id; type = type; message = message }))

  unfoldable pub has_event : String → String → M Bool
  has_event mission_id type = do
    row ← read (db.event_find_first (λ e. e.mission_id == mission_id && e.type == type))
    return (elim row [ none ↦ false | some e ↦ true ])

  unfoldable pub find_by_objective_hash : String → String → Option ℕ → M (Option Mission)
  find_by_objective_hash workspace_id objective_hash since =
      read (db.mission_find_first (hashed_since workspace_id objective_hash since))

  abbrev pub create_mission : (String → Mission) → M (Mission × Bool)
  create_mission row = do
    mission ← ask (db.mission_create row)
    append_event mission.id "enqueued" "Missao enfileirada"
    return (mission, true)

  abbrev pub reuse_or_create : Option Mission → (String → Mission) → M (Mission × Bool)
  reuse_or_create none row = create_mission row
  reuse_or_create (some existing) row = return (existing, false)

  module _ (sha256_hex : String → String) where
    unfoldable pub enqueue : EnqueueMissionInput → ℕ → M (Mission × Bool)
    enqueue input now = do
      c ← lift (resolve_enqueue_contract input)
      let hash = hash_objective sha256_hex input.workspace_id input.objective
      existing ←
          if should_dedupe input c.mission_kind
          then read (db.mission_find_first (open_twin input.workspace_id hash))
          else return none
      reuse_or_create existing (new_mission input c hash now)
