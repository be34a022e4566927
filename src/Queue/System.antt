-- ===== src/Queue/System.antt =====
-- The queue as a whole: the calls that its clients make (workers, scheduler, supervisor, routes),
-- and what every sequence of calls keeps. apps/api/src/modules/runtime/mission-queue.ts.
use operaia_lab.Common.{
  ℕ, String, Bool, true, false, List, [], ◌∷◌, ◌≡◌, arith, refl, All, keep, Bool-cases, inl, inr,
}
use operaia_lab.Json.{Json}
use operaia_lab.Queue.Model.{
  Mission, Tables, EnqueueMissionInput, ClaimCriteria, Result, ok, is_failed,
}
use operaia_lab.Queue.Rows.{HasUniqueIds}
use operaia_lab.Queue.Client.{PrismaClient}
use operaia_lab.Queue.Monad.{M, ◌>>=◌}
use operaia_lab.Queue.Enqueue.{enqueue}
use operaia_lab.Queue.Claim.{claim}
use operaia_lab.Queue.Settle.{link_dependency}
use operaia_lab.Queue.Consolidate.{complete_consolidation, maybe_enqueue_consolidation}
use operaia_lab.Queue.Recovery.{
  recover_stale_running, recover_failed_rows, recover_failed_retryable, recover_waiting_parents,
  recover_blocked_dag, is_retryable,
}
use operaia_lab.Queue.Fencing.{Settlement, settle_with, settle_with-Follows}
use operaia_lab.Queue.Lifecycle.{Evolves, here}
use operaia_lab.Queue.Lifecycle.Evolution.{Evolves-trans, Evolves-unique}
use operaia_lab.Queue.Lifecycle.WellFormed.{IsWellFormed, Evolves-IsWellFormed}
use operaia_lab.Queue.Refinement.Settling.{link_dependency-Follows}
use operaia_lab.Queue.Refinement.Handlers.{
  enqueue-Follows, claim-Follows, complete_consolidation-Follows,
  maybe_enqueue_consolidation-Follows,
}
use operaia_lab.Queue.Refinement.Recovering.{
  recover_stale_running-Follows, recover_failed_retryable-Follows, recover_waiting_parents-Follows,
  recover_blocked_dag-Follows,
}

-- One call, with the clock at which it is made where it reads one.
pub data Call : Type 0 where
  enqueues : EnqueueMissionInput → ℕ → Call
  claims : ClaimCriteria → ℕ → Call
  settles : String → ℕ → Settlement → Call
  links : String → String → Call
  consolidates : String → String → Json → ℕ → ℕ → Call
  plans : String → ℕ → Call
  recovers_stale : ℕ → ℕ → Call
  recovers_failed : ℕ → Call
  recovers_waiting : ℕ → Call
  recovers_blocked : ℕ → Call

-- A well-formed FAILED row has no attempt left.
failed_not_retryable :
    (now : ℕ) (m : Mission)
    → IsWellFormed m
    → is_failed m.status ≡ true
    → is_retryable now m ≡ false
failed_not_retryable now m w e = ground arith

none_retryable :
    (now : ℕ) (ms : List Mission)
    → All IsWellFormed ms
    → All (λ m. is_retryable now m ≡ false) (keep (λ m. is_failed m.status) ms)
none_retryable now [] h = tt
none_retryable now (m ∷ ms) (w, h) = elim (Bool-cases (is_failed m.status)) [
  | inl e ↦ rw e (failed_not_retryable now m w e, none_retryable now ms h)
  | inr e ↦ rw e (none_retryable now ms h)
]

elim_false :
    {A : Type 0} (b : Bool) (x y : M A) (ts : Tables) {r : Result A × Tables}
    → b ≡ false
    → y ts ≡ r
    → (elim b as (λ c. M A) [ true ↦ x | false ↦ y ]) ts ≡ r
elim_false true x y ts e h = cc
elim_false false x y ts e h = h

nothing_recovered :
    (db : PrismaClient) (now : ℕ) (rows : List Mission) (ts : Tables)
    → All (λ m. is_retryable now m ≡ false) rows
    → recover_failed_rows db now 0 rows ts ≡ (ok 0, ts)
unfolding recover_failed_rows ◌>>=◌
nothing_recovered db now [] ts h = refl
nothing_recovered db now (m ∷ ms) ts (e, h) =
    elim_false (is_retryable now m) _ _ ts e (nothing_recovered db now ms ts h)

module _ (db : PrismaClient) (sha256_hex : String → String) where
  -- The tables after a call, whether it returns or throws.
  unfoldable pub step : Call → Tables → Tables
  step (enqueues input now) ts = (enqueue db sha256_hex input now ts).1
  step (claims c now) ts = (claim db c now ts).1
  step (settles id lease s) ts = (settle_with db id lease s ts).1
  step (links id on) ts = (link_dependency db id on ts).1
  step (consolidates id root result lease now) ts =
      (complete_consolidation db id root result lease now ts).1
  step (plans root now) ts = (maybe_enqueue_consolidation db sha256_hex root now ts).1
  step (recovers_stale stale_after now) ts = (recover_stale_running db stale_after now ts).1
  step (recovers_failed now) ts = (recover_failed_retryable db now ts).1
  step (recovers_waiting now) ts = (recover_waiting_parents db sha256_hex now ts).1
  step (recovers_blocked now) ts = (recover_blocked_dag db now ts).1

  unfoldable pub run : List Call → Tables → Tables
  unfolding step
  run [] ts = ts
  run (c ∷ cs) ts = run cs (step c ts)

  step-Evolves :
      (c : Call) (ts : Tables) → HasUniqueIds ts.missions → Evolves ts.missions (step c ts).missions
  unfolding step
  step-Evolves (enqueues input now) ts = (enqueue-Follows db sha256_hex input now ts).evolves
  step-Evolves (claims c now) ts = (claim-Follows db c now ts).evolves
  step-Evolves (settles id lease s) ts = (settle_with-Follows db id lease s ts).evolves
  step-Evolves (links id on) ts = (link_dependency-Follows db id on ts).evolves
  step-Evolves (consolidates id root result lease now) ts =
      (complete_consolidation-Follows db id root result lease now ts).evolves
  step-Evolves (plans root now) ts =
      (maybe_enqueue_consolidation-Follows db sha256_hex root now ts).evolves
  step-Evolves (recovers_stale stale_after now) ts =
      (recover_stale_running-Follows db stale_after now ts).evolves
  step-Evolves (recovers_failed now) ts = (recover_failed_retryable-Follows db now ts).evolves
  step-Evolves (recovers_waiting now) ts =
      (recover_waiting_parents-Follows db sha256_hex now ts).evolves
  step-Evolves (recovers_blocked now) ts = (recover_blocked_dag-Follows db now ts).evolves

  -- From a table with a primary key, every sequence of calls of the queue, those that throw included,
  -- changes the mission table only by writes of the state machine `Lifecycle`: each row follows
  -- `RowStep`, and each new row has a fresh key and the contract of its kind.
  pub run-Evolves :
      (cs : List Call) (ts : Tables)
      → HasUniqueIds ts.missions
      → Evolves ts.missions (run cs ts).missions
  unfolding run
  run-Evolves [] ts u = here
  run-Evolves (c ∷ cs) ts u =
      let first = step-Evolves c ts u in
      Evolves-trans first (run-Evolves cs (step c ts) (Evolves-unique first u))

  -- Every sequence of calls keeps the invariant of each row: a RUNNING row has a lease and an attempt,
  -- a FAILED row has used its attempts up, a COMPLETED row stands at 100, progress never passes 100,
  -- and parent, owner and specialization are as the kind asks.
  pub run-IsWellFormed :
      (cs : List Call) (ts : Tables)
      → HasUniqueIds ts.missions
      → All IsWellFormed ts.missions
      → All IsWellFormed (run cs ts).missions
  run-IsWellFormed cs ts u h = Evolves-IsWellFormed (run-Evolves cs ts u) h

-- From a well-formed table, after any calls of the queue, `recoverFailedRetryable` finds nothing to
-- recover: it returns 0 and writes nothing, since `fail` gives up only rows without attempts left.
pub recover_failed_retryable_idle :
    (db : PrismaClient) (sha256_hex : String → String) (cs : List Call) (ts : Tables) (now : ℕ)
    → HasUniqueIds ts.missions
    → All IsWellFormed ts.missions
    → recover_failed_retryable db now (run db sha256_hex cs ts) ≡ (ok 0, run db sha256_hex cs ts)
unfolding recover_failed_retryable ◌>>=◌
recover_failed_retryable_idle db sha cs ts now u h =
    rw (db.find_many_lem (λ m. is_failed m.status) (run db sha cs ts))
      (nothing_recovered db now _ _ (none_retryable now _ (run-IsWellFormed db sha cs ts u h)))
