-- ===== src/Queue/Consolidate.antt =====
-- `completeConsolidation` and `maybeEnqueueConsolidation` of
-- apps/api/src/modules/runtime/mission-queue.ts.
use Prim.Native.String
use operaia_lab.Common.{
  ℕ, String, Bool, true, false, not, ◌&&◌, ◌||◌, List, [], ◌∷◌, Option, none, some, string_same,
  if◌then◌else◌, every,
}
use operaia_lab.Json.{Json, null}
use operaia_lab.Queue.Model.{
  Mission, EnqueueMissionInput, consolidate, ceo_employee_id, root_not_found, is_waiting,
  is_completed, is_failed, is_open, is_execute, is_consolidate, is_exactly, or_else,
}
use operaia_lab.Queue.Results.{merge_consolidate_preserving_initial}
use operaia_lab.Queue.Client.{PrismaClient}
use operaia_lab.Queue.Monad.{M, ◌>>=◌, ◌>>◌, return, read, or_throw, lift}
use operaia_lab.Queue.Enqueue.{append_event, enqueue}
use operaia_lab.Queue.Settle.{to_completed, complete, update_row}

-- The children of a root: those that do its work, and an open consolidation of them.
abbrev pub executes_for : String → Mission → Bool
executes_for root m = is_exactly m.parent_mission_id root && is_execute m.mission_kind

abbrev pub consolidates_for : String → Mission → Bool
consolidates_for root m =
    is_exactly m.parent_mission_id root && is_consolidate m.mission_kind && is_open m.status

abbrev pub is_settled : Mission → Bool
is_settled m = is_completed m.status || is_failed m.status

-- The input of the consolidation of a root.
abbrev pub consolidation_of : Mission → EnqueueMissionInput
consolidation_of root = record {
  workspace_id = root.workspace_id;
  project_id = root.project_id;
  objective = String.◌++◌ "[CONSOLIDATE] " root.objective;
  priority = some root.priority;
  owner_employee_id = some ceo_employee_id;
  required_specialization = some "MANAGEMENT";
  parent_mission_id = some root.id;
  mission_kind = some consolidate;
  scheduled_at = none;
  max_attempts = none;
  readiness = none;
  dedupe = false;
}

-- `children.length === 0` and `!allDone`.
abbrev pub work_is_done : List Mission → Bool
work_is_done [] = false
work_is_done (m ∷ ms) = every is_settled (m ∷ ms)

module _ (db : PrismaClient) where
  unfoldable pub complete_consolidation : String → String → Json → ℕ → ℕ → M (Mission × Mission)
  complete_consolidation consolidate_id root_id result lease now = do
    row ← read (db.mission_find_unique root_id)
    before ← or_throw (root_not_found root_id) row
    merged ← lift (merge_consolidate_preserving_initial (or_else before.result_json null) result)
    done ← complete db consolidate_id merged lease now
    root ← update_row db root_id (to_completed merged now)
    append_event db root_id "completed" "Raiz consolidada"
    return (done, root)

  module _ (sha256_hex : String → String) where
    abbrev pub note_consolidation : String → Bool → M Bool
    note_consolidation root_id false = return false
    note_consolidation root_id true = do
      append_event db root_id "consolidation_enqueued" "Consolidacao enfileirada para Opera"
      return true

    -- What follows the checks: `enqueue`, and an event at the root.
    unfoldable pub enqueue_consolidation : Mission → ℕ → M Bool
    enqueue_consolidation root now = do
      answer ← enqueue db sha256_hex (consolidation_of root) now
      note_consolidation root.id answer.1

    abbrev pub consolidate_once : Mission → Option Mission → ℕ → M Bool
    consolidate_once root (some existing) now = return false
    consolidate_once root none now = enqueue_consolidation root now

    unfoldable pub consolidate_children : Mission → List Mission → ℕ → M Bool
    consolidate_children root children now =
        if not (work_is_done children) then return false else do
          existing ← read (db.mission_find_first (consolidates_for root.id))
          consolidate_once root existing now

    abbrev pub consolidate_root : Option Mission → ℕ → M Bool
    consolidate_root none now = return false
    consolidate_root (some root) now = if not (is_waiting root.status) then return false else do
      children ← read (db.mission_find_many (executes_for root.id))
      consolidate_children root children now

    unfoldable pub maybe_enqueue_consolidation : String → ℕ → M Bool
    maybe_enqueue_consolidation root_id now = do
      root ← read (db.mission_find_unique root_id)
      consolidate_root root now
