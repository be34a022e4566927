-- ===== src/Queue/Lifecycle/WellFormed.antt =====
-- The invariant of each row, and that no history breaks it.
use operaia_lab.Common.{
  ℕ, ◌≤◌, ◌<◌, Bool, true, List, [], ◌∷◌, ◌≡◌, arith, refl, All, All-append, str_iff, Bool-cases,
  inl, inr, Memᴰ,
}
use operaia_lab.Queue.Model.{
  Mission, running, completed, failed, execute, coordinate, consolidate, MissionKind,
  ceo_employee_id, ClaimCriteria,
}
use operaia_lab.Queue.Claim.{claimable, lease_to}
use operaia_lab.Queue.Settle.{to_waiting, to_completed, to_retry, to_failed, to_ready, to_blocked}
use operaia_lab.Queue.Recovery.{to_recovered, to_requeued}
use operaia_lab.Queue.Rows.{update_where}
use operaia_lab.Queue.Lifecycle.{
  RowStep, claims, waits, completes, retries, fails, recovers, requeues, consolidates, unblocks,
  blocks, HasContract, IsNew, Writes, updates, inserts, Evolves, here, later,
}

pub record IsWellFormed (m : Mission) : Type 0 where
  pub leased : m.status ≡ running → 0 < m.lease_version
  pub attempted : m.status ≡ running → 0 < m.attempt
  pub exhausted : m.status ≡ failed → m.max_attempts ≤ m.attempt
  pub finished : m.status ≡ completed → m.progress ≡ 100
  pub bounded : m.progress ≤ 100
  pub contract : HasContract m m.mission_kind

pub IsNew-IsWellFormed : (m : Mission) → IsNew m → IsWellFormed m
IsNew-IsWellFormed m h = ground arith

-- A claim hands a row of the CEO's kinds to the CEO only.
lease_to-contract :
    (c : ClaimCriteria) (now : ℕ) (m : Mission) (k : MissionKind)
    → m.mission_kind ≡ k
    → claimable c now m ≡ true
    → HasContract m k
    → HasContract (lease_to c.employee_id now m) k
unfolding claimable lease_to
lease_to-contract c now m coordinate e h k = ground (arith, str_iff c.employee_id ceo_employee_id)
lease_to-contract c now m consolidate e h k = ground (arith, str_iff c.employee_id ceo_employee_id)
lease_to-contract c now m execute e h k = k

pub RowStep-IsWellFormed : {m n : Mission} → RowStep m n → IsWellFormed m → IsWellFormed n
unfolding lease_to to_waiting to_completed to_retry to_failed to_ready to_blocked to_recovered
    to_requeued
RowStep-IsWellFormed {m} (claims c now h) w = record {
  leased = λ e. omega arith;
  attempted = λ e. omega arith;
  exhausted = λ e. cc;
  finished = λ e. cc;
  bounded = omega arith;
  contract = lease_to-contract c now m m.mission_kind refl h w.contract;
}
RowStep-IsWellFormed (waits partial h) w = ground arith
RowStep-IsWellFormed (completes result now h) w = ground arith
RowStep-IsWellFormed (retries error now h k) w = ground arith
RowStep-IsWellFormed (fails error now h k) w = ground arith
RowStep-IsWellFormed (recovers now h) w = ground arith
RowStep-IsWellFormed (requeues now h k) w = ground arith
RowStep-IsWellFormed (consolidates result now) w = ground arith
RowStep-IsWellFormed (unblocks now) w = ground arith
RowStep-IsWellFormed blocks w = ground arith

update_where-IsWellFormed :
    (p : Mission → Bool) (f : Mission → Mission) (ms : List Mission)
    → ((m : Mission) → Memᴰ m ms → p m ≡ true → RowStep m (f m))
    → All IsWellFormed ms
    → All IsWellFormed (update_where p f ms)
unfolding update_where
update_where-IsWellFormed p f [] step h = tt
update_where-IsWellFormed p f (m ∷ ms) step (w, h) = (
  elim (Bool-cases (p m)) [
    | inl e ↦ rw e (RowStep-IsWellFormed (step m (Memᴰ.head refl) e) w)
    | inr e ↦ rw e w
  ],
  update_where-IsWellFormed p f ms (λ n mem. step n (Memᴰ.tail mem)) h,
)

Writes-IsWellFormed :
    {ms ns : List Mission} → Writes ms ns → All IsWellFormed ms → All IsWellFormed ns
Writes-IsWellFormed {ms} (updates p f step keeps) h = update_where-IsWellFormed p f ms step h
Writes-IsWellFormed {ms} (inserts m new fresh) h =
    All-append IsWellFormed ms (m ∷ []) h (IsNew-IsWellFormed m new, tt)

pub Evolves-IsWellFormed :
    {ms ns : List Mission} → Evolves ms ns → All IsWellFormed ms → All IsWellFormed ns
Evolves-IsWellFormed here h = h
Evolves-IsWellFormed (later k w) h = Writes-IsWellFormed w (Evolves-IsWellFormed k h)
