-- ===== src/Queue/Lifecycle/Leases.antt =====
-- Leases as fencing tokens: once a lease of a row is given back or taken away, the row is never
-- RUNNING under it again.
use operaia_lab.Common.{ℕ, ◌<◌, String, List, ◌≡◌, ◌≢◌, ◌⊎◌, arith, string_same}
use operaia_lab.Queue.Model.{Mission, running}
use operaia_lab.Queue.Claim.{lease_to}
use operaia_lab.Queue.Settle.{to_waiting, to_completed, to_retry, to_failed, to_ready, to_blocked}
use operaia_lab.Queue.Recovery.{to_recovered, to_requeued}
use operaia_lab.Queue.Lifecycle.Evolution.{At, Evolves-At}
use operaia_lab.Queue.Lifecycle.{
  RowStep, claims, waits, completes, retries, fails, recovers, requeues, consolidates, unblocks,
  blocks, Evolves,
}

-- The lease `v` of a row is spent: the row has a later lease, or rests under this one.
abbrev pub IsSpent : ℕ → Mission → Type 0
IsSpent v m = (v < m.lease_version) ⊎ (v ≡ m.lease_version) × (m.status ≢ running)

pub RowStep-IsSpent : {m n : Mission} (v : ℕ) → RowStep m n → IsSpent v m → IsSpent v n
unfolding lease_to to_waiting to_completed to_retry to_failed to_ready to_blocked to_recovered
    to_requeued
RowStep-IsSpent v (claims c now h) s = ground arith
RowStep-IsSpent v (waits partial h) s = ground arith
RowStep-IsSpent v (completes result now h) s = ground arith
RowStep-IsSpent v (retries error now h k) s = ground arith
RowStep-IsSpent v (fails error now h k) s = ground arith
RowStep-IsSpent v (recovers now h) s = ground arith
RowStep-IsSpent v (requeues now h k) s = ground arith
RowStep-IsSpent v (consolidates result now) s = ground arith
RowStep-IsSpent v (unblocks now) s = ground arith
RowStep-IsSpent v blocks s = ground arith

-- The lease `v` of the row with key `id` is spent.
abbrev pub Spent : String → ℕ → List Mission → Type 0
Spent id v ms = At (IsSpent v) id ms

pub Evolves-Spent :
    (id : String) (v : ℕ) {ms ns : List Mission} → Evolves ms ns → Spent id v ms → Spent id v ns
Evolves-Spent id v h s = Evolves-At (IsSpent v) (λ m n step. RowStep-IsSpent v step) id h s

-- The columns that no write touches.
pub record SameIdentity (m n : Mission) : Type 0 where
  pub same_id : n.id ≡ m.id
  pub same_workspace : n.workspace_id ≡ m.workspace_id
  pub same_objective : n.objective ≡ m.objective
  pub same_kind : n.mission_kind ≡ m.mission_kind
  pub same_parent : n.parent_mission_id ≡ m.parent_mission_id
  pub same_max_attempts : n.max_attempts ≡ m.max_attempts
  pub same_created_at : n.created_at ≡ m.created_at

pub RowStep-SameIdentity :
    {m n : Mission} (o : Mission) → RowStep m n → SameIdentity o m → SameIdentity o n
unfolding lease_to to_waiting to_completed to_retry to_failed to_ready to_blocked to_recovered
    to_requeued
RowStep-SameIdentity o (claims c now h) s = ground arith
RowStep-SameIdentity o (waits partial h) s = ground arith
RowStep-SameIdentity o (completes result now h) s = ground arith
RowStep-SameIdentity o (retries error now h k) s = ground arith
RowStep-SameIdentity o (fails error now h k) s = ground arith
RowStep-SameIdentity o (recovers now h) s = ground arith
RowStep-SameIdentity o (requeues now h k) s = ground arith
RowStep-SameIdentity o (consolidates result now) s = ground arith
RowStep-SameIdentity o (unblocks now) s = ground arith
RowStep-SameIdentity o blocks s = ground arith

-- The row of `o` is still the row of `o`.
abbrev pub Kept : Mission → List Mission → Type 0
Kept o ms = At (SameIdentity o) o.id ms

pub Evolves-Kept : (o : Mission) {ms ns : List Mission} → Evolves ms ns → Kept o ms → Kept o ns
Evolves-Kept o h k = Evolves-At (SameIdentity o) (λ m n step. RowStep-SameIdentity o step) o.id h k
