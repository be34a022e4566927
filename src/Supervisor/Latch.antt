-- ===== src/Supervisor/Latch.antt =====
-- `InMemoryCoordinationLatchStore` of supervisor/infrastructure/in-memory-coordination-latch-store.ts
-- with the keys of supervisor/coordination-latch-store.ts. The map is a list of its entries in the
-- order of insertion; the time is an argument.
use Prim.Native.Char.{nul}
use Prim.Native.String
use text.Mathlib.Text.{starts_with}
use operaia_lab.Common.{
  ℕ, ◌+◌, String, Bool, true, false, not, ◌&&◌, ◌||◌, List, [], ◌∷◌, Option, none, some, ◌==◌,
  string_same, if◌then◌else◌, ltb,
}

pub record CoordinationLatchKey : Type 0 where
  pub workspace_id : String
  pub reason : String

-- `coordinationLatchKeyOf`
unfoldable pub coordination_latch_key_of : CoordinationLatchKey → String
coordination_latch_key_of key = String.◌++◌ key.workspace_id (String.◌∷◌ nul key.reason)

abbrev pub exhausted_mission_latch_prefix : String
exhausted_mission_latch_prefix = "missao_esgotada:"

unfoldable pub exhausted_mission_latch_reason : String → String
exhausted_mission_latch_reason mission_id = String.◌++◌ exhausted_mission_latch_prefix mission_id

unfoldable pub is_exhausted_mission_latch_reason : String → Bool
is_exhausted_mission_latch_reason reason = starts_with reason exhausted_mission_latch_prefix

pub data LatchStatus : Type 0 where
  pending : LatchStatus
  consumed : LatchStatus

abbrev pub is_consumed_status : LatchStatus → Bool
is_consumed_status consumed = true
is_consumed_status pending = false

unfoldable pub should_preserve_consumed_exhausted_latch : String → LatchStatus → Bool
should_preserve_consumed_exhausted_latch reason status =
    is_consumed_status status && is_exhausted_mission_latch_reason reason

pub record LatchRecord : Type 0 where
  pub key : CoordinationLatchKey
  pub status : LatchStatus
  pub latched_at : ℕ
  pub updated_at : ℕ
  pub last_mission_id : Option String

abbrev pub Latches : Type 0
Latches = List (String × LatchRecord)

pub data AcquireMode : Type 0 where
  fresh : AcquireMode
  reclaim : AcquireMode

-- `acquired: false`, or the time of the latch and how it was acquired.
pub data CoordinationAcquireResult : Type 0 where
  not_acquired : CoordinationAcquireResult
  acquired : ℕ → AcquireMode → CoordinationAcquireResult

-- `map.get(id)`
unfoldable pub find_latch : String → Latches → Option LatchRecord
find_latch id [] = none
find_latch id ((i, r) ∷ ls) = if i == id then some r else find_latch id ls

-- `map.set(id, record)`
unfoldable pub set_latch : String → LatchRecord → Latches → Latches
set_latch id record_ [] = (id, record_) ∷ []
set_latch id record_ ((i, r) ∷ ls) =
    if i == id then (i, record_) ∷ ls else (i, r) ∷ set_latch id record_ ls

-- `map.delete` of the entries that `p` selects.
unfoldable pub drop_latches : (String → LatchRecord → Bool) → Latches → Latches
drop_latches p [] = []
drop_latches p ((i, r) ∷ ls) = let rest = drop_latches p ls in if p i r then rest else (i, r) ∷ rest

-- `if (existing.lastMissionId)`: an empty id is no id.
abbrev pub has_mission : Option String → Bool
has_mission none = false
has_mission (some id) = not (id == "")

abbrev pub new_latch : CoordinationLatchKey → ℕ → LatchRecord
new_latch key now = record {
  key = key;
  status = pending;
  latched_at = now;
  updated_at = now;
  last_mission_id = none;
}

-- `tryAcquire` of a latch that is there. `now - updatedAt < staleAfterMs` is a comparison of sums here,
-- so that an age may be negative.
unfoldable pub acquire_existing :
    String → LatchRecord → ℕ → ℕ → Latches → CoordinationAcquireResult × Latches
acquire_existing id existing stale_after now ls =
    if is_consumed_status existing.status
    then (not_acquired, ls)
    else if has_mission existing.last_mission_id
    then (not_acquired, set_latch id (record existing { status = consumed }) ls)
    else if ltb now (existing.updated_at + stale_after)
    then (not_acquired, ls)
    else (
      acquired existing.latched_at reclaim,
      set_latch id (record existing { updated_at = now }) ls,
    )

unfoldable pub try_acquire :
    CoordinationLatchKey → ℕ → ℕ → Latches → CoordinationAcquireResult × Latches
unfolding acquire_existing
try_acquire key stale_after now ls =
    let id = coordination_latch_key_of key in
    elim (find_latch id ls) [
      | none ↦ (acquired now fresh, set_latch id (new_latch key now) ls)
      | some existing ↦ acquire_existing id existing stale_after now ls
    ]

unfoldable pub release : CoordinationLatchKey → Latches → Latches
release key ls = drop_latches (λ i r. i == coordination_latch_key_of key) ls

abbrev pub has_key : String → List CoordinationLatchKey → Bool
has_key id [] = false
has_key id (k ∷ keys) = coordination_latch_key_of k == id || has_key id keys

abbrev pub is_preserved : LatchRecord → Bool
is_preserved r = should_preserve_consumed_exhausted_latch r.key.reason r.status

unfoldable pub release_absent : List CoordinationLatchKey → Latches → Latches
release_absent active ls = drop_latches (λ i r. not (has_key i active || is_preserved r)) ls

unfoldable pub release_all : Latches → Latches
release_all ls = drop_latches (λ i r. not (is_preserved r)) ls

unfoldable pub is_consumed : CoordinationLatchKey → Latches → Bool
is_consumed key ls = elim (find_latch (coordination_latch_key_of key) ls) [
  | none ↦ false
  | some current ↦ is_consumed_status current.status
]

abbrev pub completed : LatchRecord → String → ℕ → LatchRecord
completed current mission_id now = record {
  key = current.key;
  status = consumed;
  latched_at = current.latched_at;
  updated_at = now;
  last_mission_id = some mission_id;
}

unfoldable pub complete : CoordinationLatchKey → String → ℕ → Latches → Latches
complete key mission_id now ls =
    let id = coordination_latch_key_of key in
    elim (find_latch id ls) [
      | none ↦ ls
      | some current ↦ set_latch id (completed current mission_id now) ls
    ]
