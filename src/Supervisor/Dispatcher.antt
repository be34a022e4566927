-- ===== src/Supervisor/Dispatcher.antt =====
-- `CoordinationDispatcher` of supervisor/coordination-dispatcher.ts, over the store of latches of
-- supervisor/infrastructure/in-memory-coordination-latch-store.ts. The queue is a port: what its
-- calls do to the world `W` and answer is a parameter.
use Prim.Native.String
use operaia_lab.Common.{
  ℕ, ◌+◌, String, Bool, true, ◌&&◌, ◌||◌, List, [], ◌∷◌, ◌++◌, map, Option, none, some, ◌==◌,
  string_same, nat_same, if◌then◌else◌,
}
use operaia_lab.Common.Effects.{Result, ok, Steps, return, throw, gets, try_catch, ◌>>=◌, ◌>>◌}
use operaia_lab.Supervisor.Types.{
  WorkspaceScanItem, MissionScanItem, QueueScanReport, CoordinationRequest, DispatchResult,
}
use operaia_lab.Supervisor.Latch.{
  CoordinationLatchKey, coordination_latch_key_of, Latches, CoordinationAcquireResult, not_acquired,
  acquired, AcquireMode, fresh, reclaim, try_acquire, release, release_absent, has_key, complete,
}
use operaia_lab.Supervisor.Objective.{
  latch_reason_for, build_coordination_objective, coordinate_reason,
}
use operaia_lab.Supervisor.Requests.{collect_coordination_requests, exhausted_latch_keys}

-- The fields of a listed mission that the dispatcher reads.
pub record ListedMission : Type 0 where
  pub mission_kind : String
  pub status : String
  pub workspace_id : String
  pub objective : Option String

pub record EnqueueInput : Type 0 where
  pub workspace_id : String
  pub project_id : Option String
  pub objective : String
  pub owner_employee_id : String
  pub dedupe : Bool

pub record EnqueueResult : Type 0 where
  pub id : String
  pub created : Bool

-- The queue and the clock. `findByObjectiveHash` is optional; its last argument is `createdAtGte`.
pub record DispatcherPorts (W : Type 0) : Type 0 where
  pub enqueue : EnqueueInput → W → Result String EnqueueResult × W
  pub list : ℕ → W → Result String (List ListedMission) × W
  pub find_by_objective_hash : Option (String → String → ℕ → W → Result String (Option String) × W)
  pub hash_objective : String → String → String
  pub clock : W → ℕ
  pub pending_stale_ms : ℕ

-- The latches and the world, with the variables of `dispatch`.
pub record Dispatching (W : Type 0) : Type 0 where
  pub latches : Latches
  pub world : W
  pub dispatched : ℕ
  pub details : List String
  pub coordinations : List CoordinationRequest

abbrev pub latch_key_for : CoordinationRequest → CoordinationLatchKey
latch_key_for req = record { workspace_id = req.workspace_id; reason = latch_reason_for req }

-- `put` of the map of active keys: a key that is there stays in its place.
abbrev pub put_key : CoordinationLatchKey → List CoordinationLatchKey → List CoordinationLatchKey
put_key key keys = if has_key (coordination_latch_key_of key) keys then keys else keys ++ (key ∷ [])

abbrev pub put_keys :
    List CoordinationLatchKey → List CoordinationLatchKey → List CoordinationLatchKey
put_keys [] keys = keys
put_keys (key ∷ more) keys = put_keys more (put_key key keys)

abbrev is_open_coordinate : ListedMission → Bool
is_open_coordinate m =
    m.mission_kind == "COORDINATE"
    && (m.status == "QUEUED"
        || m.status == "RUNNING"
        || m.status == "CREATED"
        || m.status == "WAITING")

abbrev or_empty : Option String → String
or_empty none = ""
or_empty (some s) = s

abbrev open_key : ListedMission → Option String → List CoordinationLatchKey
open_key m none = []
open_key m (some reason) = record { workspace_id = m.workspace_id; reason = reason } ∷ []

-- The keys of the open COORDINATE missions.
unfoldable pub open_keys : List ListedMission → List CoordinationLatchKey
open_keys [] = []
open_keys (m ∷ missions) =
    let rest = open_keys missions in
    if is_open_coordinate m
    then open_key m (coordinate_reason (or_empty m.objective)) ++ rest
    else rest

pub record DispatchInput : Type 0 where
  pub workspaces : List WorkspaceScanItem
  pub missions : List MissionScanItem
  pub queue : QueueScanReport
  pub infra_recovered : ℕ
  pub health_ok : Bool

module _ {W : Type 0} (ports : DispatcherPorts W) where
  abbrev pub D : Type 0 → Type 0
  D A = Steps String (Dispatching W) A

  -- A call of the queue.
  unfoldable pub ask : {A : Type 0} → (W → Result String A × W) → D A
  ask f s = ((f s.world).0, record s { world = (f s.world).1 })

  unfoldable pub try_acquire_latch : CoordinationLatchKey → D CoordinationAcquireResult
  try_acquire_latch key s =
      let gate = try_acquire key ports.pending_stale_ms (ports.clock s.world) s.latches in
      (ok gate.0, record s { latches = gate.1 })

  unfoldable pub release_latch : CoordinationLatchKey → D (Unit {0})
  release_latch key s = (ok tt, record s { latches = release key s.latches })

  unfoldable pub complete_latch : CoordinationLatchKey → String → D (Unit {0})
  complete_latch key mission_id s =
      (ok tt, record s { latches = complete key mission_id (ports.clock s.world) s.latches })

  unfoldable pub release_absent_latches : List CoordinationLatchKey → D (Unit {0})
  release_absent_latches keys s = (ok tt, record s { latches = release_absent keys s.latches })

  abbrev pub look_up :
      CoordinationRequest
      → ℕ
      → Option (String → String → ℕ → W → Result String (Option String) × W)
      → D (Option String)
  look_up req latched_at none = return none
  look_up req latched_at (some find) = ask (
      find req.workspace_id
        (ports.hash_objective req.workspace_id (build_coordination_objective req)) latched_at)

  -- The mission that a reclaimed latch has already: no other mode looks for one.
  unfoldable pub find_existing : CoordinationRequest → AcquireMode → ℕ → D (Option String)
  find_existing req fresh latched_at = return none
  find_existing req reclaim latched_at = look_up req latched_at ports.find_by_objective_hash

  unfoldable pub record_created : CoordinationRequest → D (Unit {0})
  record_created req s = (
    ok tt,
    record s {
      dispatched = s.dispatched + 1;
      coordinations = s.coordinations ++ (req ∷ []);
      details =
          s.details ++ (String.◌++◌ (latch_reason_for req) (String.◌++◌ ":" req.workspace_id) ∷ []);
    },
  )

  unfoldable pub settle_enqueued : CoordinationRequest → EnqueueResult → D (Unit {0})
  settle_enqueued req result =
      if result.id == ""
      then release_latch (latch_key_for req)
      else (complete_latch (latch_key_for req) result.id
          >> (if result.created then record_created req else return tt))

  unfoldable pub enqueue_request : CoordinationRequest → D (Unit {0})
  enqueue_request req = do
    result ← ask (
        ports.enqueue (record {
          workspace_id = req.workspace_id;
          project_id = req.project_id;
          objective = build_coordination_objective req;
          owner_employee_id = "operaia-ceo";
          dedupe = true;
        }))
    settle_enqueued req result

  abbrev pub complete_or_enqueue : CoordinationRequest → Option String → D (Unit {0})
  complete_or_enqueue req none = enqueue_request req
  complete_or_enqueue req (some id) = complete_latch (latch_key_for req) id

  -- The body of the `try` block.
  unfoldable pub dispatch_acquired : CoordinationRequest → AcquireMode → ℕ → D (Unit {0})
  dispatch_acquired req mode latched_at = do
    existing ← find_existing req mode latched_at
    complete_or_enqueue req existing

  abbrev pub dispatch_gated : CoordinationRequest → CoordinationAcquireResult → D (Unit {0})
  dispatch_gated req not_acquired = return tt
  dispatch_gated req (acquired latched_at mode) =
      try_catch (dispatch_acquired req mode latched_at)
        (λ error. release_latch (latch_key_for req) >> throw error)

  unfoldable pub dispatch_request : CoordinationRequest → D (Unit {0})
  dispatch_request req = do gate ← try_acquire_latch (latch_key_for req); dispatch_gated req gate

  unfoldable pub dispatch_requests : List CoordinationRequest → D (Unit {0})
  dispatch_requests [] = return tt
  dispatch_requests (req ∷ requests) = dispatch_request req >> dispatch_requests requests

  -- `buildActiveLatchKeys`. A queue that cannot list leaves the keys of the requests.
  unfoldable pub build_active_latch_keys :
      List CoordinationRequest → List CoordinationLatchKey → D (List CoordinationLatchKey)
  build_active_latch_keys requests extra_keep = do
    let keys = put_keys extra_keep (put_keys (map latch_key_for requests) [])
    try_catch (do missions ← ask (ports.list 200); return (put_keys (open_keys missions) keys))
        (λ error. return keys)

  abbrev pub skipped_result : DispatchInput → String → DispatchResult
  skipped_result input detail = record {
    dispatched = 0;
    skipped = 1;
    recovered = input.infra_recovered;
    details = detail ∷ [];
    coordinations = [];
  }

  abbrev pub dispatch_result : DispatchInput → Dispatching W → DispatchResult
  dispatch_result input s = record {
    dispatched = s.dispatched;
    skipped = if s.dispatched == 0 then 1 else 0;
    recovered = input.infra_recovered;
    details = s.details;
    coordinations = s.coordinations;
  }

  abbrev pub dispatch_collected : DispatchInput → List CoordinationRequest → D DispatchResult
  dispatch_collected input [] = do
    release_absent_latches (exhausted_latch_keys input.missions)
    return (skipped_result input "sem sinal operacional — ciclo encerrado")
  dispatch_collected input (req ∷ requests) = do
    active ← build_active_latch_keys (req ∷ requests) (exhausted_latch_keys input.missions)
    release_absent_latches active
    dispatch_requests (req ∷ requests)
    gets (dispatch_result input)

  unfoldable pub dispatch_input : DispatchInput → D DispatchResult
  dispatch_input input =
      if input.health_ok
      then dispatch_collected input
          (collect_coordination_requests input.workspaces input.missions input.queue)
      else return (skipped_result input "health fail — sem coordination")

  -- `dispatch`, from the latches and the world at its start.
  unfoldable pub dispatch :
      DispatchInput → Latches → W → Result String DispatchResult × Dispatching W
  dispatch input latches world = dispatch_input input (record {
    latches = latches;
    world = world;
    dispatched = 0;
    details = [];
    coordinations = [];
  })
