-- ===== src/Queue/Claim.antt =====
-- `claim` of apps/api/src/modules/runtime/mission-queue.ts: one transaction that selects a row by
-- the raw query and leases it to the caller.
pub mod Selection
use Prim.Native.String
use operaia_lab.Common.{
  ℕ, ◌+◌, String, Bool, true, not, ◌&&◌, ◌||◌, Option, none, some, ◌==◌, string_same, if◌then◌else◌,
  leb,
}
use operaia_lab.Queue.Model.{
  Mission, ClaimCriteria, ceo_employee_id, running, not_found, is_queued, is_coordinate,
  is_consolidate, is_execute, is_ready, is_exactly, Priority, low, medium, high, urgent,
  transaction_rejected,
}
use operaia_lab.Queue.Client.{PrismaClient, SelectQuery}
use operaia_lab.Queue.Monad.{M, ◌>>=◌, ◌>>◌, return, read, ask, or_throw, require}
use operaia_lab.Queue.Enqueue.{append_event}

abbrev pub is_due : ℕ → Mission → Bool
is_due now m = elim m.scheduled_at [ none ↦ true | some t ↦ leb t now ]

-- The two `WHERE` clauses.
abbrev pub claimable_by_ceo : ℕ → Mission → Bool
claimable_by_ceo now m =
    is_queued m.status
    && m.owner_employee_id == ceo_employee_id
    && (is_coordinate m.mission_kind || is_consolidate m.mission_kind)
    && is_due now m

abbrev pub claimable_by_specialist : String → ℕ → Mission → Bool
claimable_by_specialist specialization now m =
    is_queued m.status
    && is_execute m.mission_kind
    && is_ready m.readiness
    && is_exactly m.required_specialization specialization
    && is_due now m

unfoldable pub claimable : ClaimCriteria → ℕ → Mission → Bool
claimable c now m =
    if c.employee_id == ceo_employee_id
    then claimable_by_ceo now m
    else claimable_by_specialist c.specialization now m

-- `CASE "priority" WHEN 'URGENT' THEN 0 …`.
unfoldable pub priority_rank : Priority → ℕ
priority_rank urgent = 0
priority_rank high = 1
priority_rank medium = 2
priority_rank low = 3

-- The raw query: `WHERE`, and `ORDER BY` the priority and then `createdAt`.
abbrev pub claim_query : ClaimCriteria → ℕ → SelectQuery
claim_query c now = record {
  where_clause = claimable c now;
  order_by = λ m. (priority_rank m.priority, m.created_at);
}

unfoldable pub lease_to : String → ℕ → Mission → Mission
lease_to employee_id now m = record m {
  status = running;
  started_at = some now;
  attempt = m.attempt + 1;
  lease_version = m.lease_version + 1;
  progress = 10;
  owner_employee_id = employee_id;
}

module _ (db : PrismaClient) where
  abbrev pub lease_row : ClaimCriteria → ℕ → Option Mission → M (Option Mission)
  lease_row c now none = return none
  lease_row c now (some row) = do
    written ← ask (db.mission_update row.id (lease_to c.employee_id now))
    updated ← or_throw (not_found row.id) written
    append_event db updated.id "claimed" (String.◌++◌ "Claim por " c.employee_id)
    return (some updated)

  -- The transaction's function.
  unfoldable pub claim_first : ClaimCriteria → ℕ → M (Option Mission)
  claim_first c now = do row ← read (db.query_raw (claim_query c now)); lease_row c now row

  -- `prisma.$transaction`, which may reject.
  unfoldable pub claim : ClaimCriteria → ℕ → M (Option Mission)
  unfolding claim_first
  claim c now = do
    rejects ← read db.transaction_rejects
    require (not rejects) transaction_rejected
    claim_first c now
