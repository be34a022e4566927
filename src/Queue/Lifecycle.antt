-- ===== src/Queue/Lifecycle.antt =====
-- The specification of the queue as a state machine on rows: which row may become which, which
-- rows may be added, and what a history of such writes is. It names no query and no handler.
pub mod Evolution
pub mod WellFormed
pub mod Leases
use operaia_lab.Common.{
  ℕ, ◌+◌, ◌≤◌, ◌<◌, String, Bool, true, false, List, [], ◌∷◌, ◌++◌, Option, none, some, ◌≡◌, Memᴰ,
  ◌==◌, string_same,
}
use operaia_lab.Json.{Json}
use operaia_lab.Queue.Model.{
  Mission, MissionStatus, MissionKind, ClaimCriteria, queued, running, waiting, completed, failed,
  created, coordinate, execute, consolidate, ceo_employee_id, is_given,
}
use operaia_lab.Queue.Contract.{is_missing}
use operaia_lab.Queue.Claim.{claimable, lease_to}
use operaia_lab.Queue.Settle.{to_waiting, to_completed, to_retry, to_failed, to_ready, to_blocked}
use operaia_lab.Queue.Recovery.{to_recovered, to_requeued}
use operaia_lab.Queue.Rows.{find_row, update_where}

-- One write on one row.
pub data RowStep (m : Mission) : Mission → Type 0 where
  claims :
      (c : ClaimCriteria) (now : ℕ)
      → claimable c now m ≡ true
      → RowStep m (lease_to c.employee_id now m)
  waits : (partial : Json) → m.status ≡ running → RowStep m (to_waiting partial m)
  completes : (result : Json) (now : ℕ) → m.status ≡ running → RowStep m (to_completed result now m)
  retries :
      (error : String) (now : ℕ)
      → m.status ≡ running
      → m.attempt < m.max_attempts
      → RowStep m (to_retry error m.attempt now m)
  fails :
      (error : String) (now : ℕ)
      → m.status ≡ running
      → m.max_attempts ≤ m.attempt
      → RowStep m (to_failed error now m)
  recovers : (now : ℕ) → m.status ≡ running → RowStep m (to_recovered now m)
  requeues :
      (now : ℕ) → m.status ≡ failed → m.attempt < m.max_attempts → RowStep m (to_requeued now m)
  consolidates : (result : Json) (now : ℕ) → RowStep m (to_completed result now m)
  unblocks : (now : ℕ) → RowStep m (to_ready now m)
  blocks : RowStep m (to_blocked m)

-- What the contract of `enqueue` asks of a row.
abbrev pub HasContract : Mission → MissionKind → Type 0
HasContract m coordinate =
    (is_given m.parent_mission_id ≡ false) × (m.owner_employee_id ≡ ceo_employee_id)
HasContract m execute =
    (is_given m.parent_mission_id ≡ true) × (is_missing m.required_specialization ≡ false)
HasContract m consolidate =
    (is_given m.parent_mission_id ≡ true) × (m.owner_employee_id ≡ ceo_employee_id)

pub record IsNew (m : Mission) : Type 0 where
  pub is_queued : m.status ≡ queued
  pub no_attempt : m.attempt ≡ 0
  pub no_lease : m.lease_version ≡ 0
  pub no_progress : m.progress ≡ 0
  pub contract : HasContract m m.mission_kind

-- One write on the table.
pub data Writes (ms : List Mission) : List Mission → Type 0 where
  updates :
      (p : Mission → Bool) (f : Mission → Mission)
      → ((m : Mission) → Memᴰ m ms → p m ≡ true → RowStep m (f m))
      → ((m : Mission) → (f m).id ≡ m.id)
      → Writes ms (update_where p f ms)
  inserts : (m : Mission) → IsNew m → find_row m.id ms ≡ none → Writes ms (ms ++ m ∷ [])

pub data Evolves (ms : List Mission) : List Mission → Type 0 where
  here : Evolves ms ms
  later : {ns os : List Mission} → Evolves ms ns → Writes ns os → Evolves ms os
