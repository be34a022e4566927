-- ===== src/Supervisor/Recovery.antt =====
-- `RecoveryCoordinator` of supervisor/recovery-coordinator.ts. The queue is a port over a world `W`,
-- and the log is left out.
use operaia_lab.Common.{
  ℕ, ◌+◌, String, Bool, true, false, not, ◌&&◌, ◌||◌, List, [], ◌∷◌, ◌++◌, ◌==◌, nat_same,
  if◌then◌else◌, ltb, leb, keep, length,
}
use operaia_lab.Common.Effects.{Result, ok, Steps, return, gets, ◌>>=◌, ◌>>◌}
use operaia_lab.Supervisor.Types.{
  MissionScanItem, category_blocked, category_failed, category_retry, category_stale,
  category_timeout, QueueScanReport, recovers_stale, recovers_waiting, recovers_blocked,
  recovers_failed_retry, recovers_failed_exhausted, RecoveryAction, RecoveryReport,
}

pub record RecoveryPorts (W : Type 0) : Type 0 where
  pub recover_stale_running : ℕ → W → Result String ℕ × W
  pub recover_waiting_parents : W → Result String ℕ × W
  pub recover_blocked_dag : W → Result String ℕ × W
  pub recover_failed_retryable : W → Result String ℕ × W
  pub clock : W → ℕ
  pub stale_running_ms : ℕ

-- The variables of `recover`, and the world.
pub record Recovering (W : Type 0) : Type 0 where
  pub actions : List RecoveryAction
  pub infra_recovered : ℕ
  pub world : W

abbrev pub max : ℕ → ℕ → ℕ
max a b = if ltb a b then b else a

abbrev pub is_stalled : MissionScanItem → Bool
is_stalled m = elim m.category [ category_stale ↦ true | category_timeout ↦ true | _ ↦ false ]

abbrev pub is_blocked : MissionScanItem → Bool
is_blocked m = elim m.category [ category_blocked ↦ true | _ ↦ false ]

abbrev pub is_retryable : MissionScanItem → Bool
is_retryable m = elim m.category [ category_retry ↦ m.can_resume | _ ↦ false ]

abbrev pub is_exhausted : MissionScanItem → Bool
is_exhausted m =
    elim m.category [ category_failed ↦ true | _ ↦ false ]
    && not m.can_resume
    && leb m.max_attempts m.attempt
    && m.needs_coordination

-- `filter(test).length`
abbrev pub count_of : (MissionScanItem → Bool) → List MissionScanItem → ℕ
count_of p missions = length (keep p missions)

-- `filter(test).length || otherwise`
abbrev pub or_count : ℕ → ℕ → ℕ
or_count n otherwise = if n == 0 then otherwise else n

abbrev pub coordinations_of : List RecoveryAction → ℕ
coordinations_of actions = length (keep (λ a. a.create_coordination) actions)

module _ {W : Type 0} (ports : RecoveryPorts W) where
  abbrev pub R : Type 0 → Type 0
  R A = Steps String (Recovering W) A

  unfoldable pub recover_by : (W → Result String ℕ × W) → R ℕ
  recover_by f s = ((f s.world).0, record s { world = (f s.world).1 })

  -- `infraRecovered += n; actions.push(action)`
  unfoldable pub push_action : ℕ → RecoveryAction → R (Unit {0})
  push_action n action s = (
    ok tt,
    record s { infra_recovered = s.infra_recovered + n; actions = s.actions ++ (action ∷ []) },
  )

  abbrev pub stale_action : ℕ → ℕ → RecoveryAction
  stale_action n stale_count = record {
    kind = recovers_stale;
    count = max n stale_count;
    reason = "execucao RUNNING interrompida/stale";
    create_coordination = true;
  }

  unfoldable pub recover_stale : ℕ → R (Unit {0})
  recover_stale stale_count =
      if ltb 0 stale_count
      then (do
        n ← recover_by (ports.recover_stale_running ports.stale_running_ms)
        push_action n (stale_action n stale_count))
      else return tt

  abbrev pub waiting_action : ℕ → ℕ → RecoveryAction
  waiting_action n waiting = record {
    kind = recovers_waiting;
    count = max n waiting;
    reason = "WAITING parents / consolidacao";
    create_coordination = ltb 0 n || ltb 0 waiting;
  }

  unfoldable pub recover_waiting : ℕ → R (Unit {0})
  recover_waiting waiting =
      if ltb 0 waiting
      then (do
        n ← recover_by ports.recover_waiting_parents
        push_action n (waiting_action n waiting))
      else return tt

  abbrev pub blocked_action : ℕ → ℕ → RecoveryAction
  blocked_action n blocked = record {
    kind = recovers_blocked;
    count = max n blocked;
    reason = "missoes BLOCKED na DAG";
    create_coordination = true;
  }

  unfoldable pub recover_blocked : ℕ → R (Unit {0})
  recover_blocked blocked =
      if ltb 0 blocked
      then (do n ← recover_by ports.recover_blocked_dag; push_action n (blocked_action n blocked))
      else return tt

  abbrev pub retry_action : ℕ → RecoveryAction
  retry_action n = record {
    kind = recovers_failed_retry;
    count = n;
    reason = "FAILED elegivel a retry operacional";
    create_coordination = false;
  }

  unfoldable pub recover_retryable : ℕ → R (Unit {0})
  recover_retryable retryable =
      if ltb 0 retryable
      then (do
        n ← recover_by ports.recover_failed_retryable
        if ltb 0 n then push_action n (retry_action n) else return tt)
      else return tt

  abbrev pub exhausted_action : ℕ → RecoveryAction
  exhausted_action exhausted = record {
    kind = recovers_failed_exhausted;
    count = exhausted;
    reason = "FAILED esgotado — escalacao operacional ao CEO";
    create_coordination = true;
  }

  unfoldable pub escalate_exhausted : ℕ → R (Unit {0})
  escalate_exhausted exhausted =
      if ltb 0 exhausted then push_action 0 (exhausted_action exhausted) else return tt

  abbrev pub recovery_report : Recovering W → RecoveryReport
  recovery_report s = record {
    recovered_at = ports.clock s.world;
    actions = s.actions;
    infra_recovered = s.infra_recovered;
    coordinations_requested = coordinations_of s.actions;
  }

  unfoldable pub recover_all : List MissionScanItem → QueueScanReport → R (Unit {0})
  recover_all missions queue = do
    recover_stale (or_count (count_of is_stalled missions) queue.stuck)
    recover_waiting queue.waiting
    recover_blocked (count_of is_blocked missions)
    recover_retryable (count_of is_retryable missions)
    escalate_exhausted (count_of is_exhausted missions)

  -- `recover`, from the world at its start.
  unfoldable pub recover :
      List MissionScanItem → QueueScanReport → W → Result String RecoveryReport × Recovering W
  recover missions queue w =
      (recover_all missions queue >>= (λ _. gets recovery_report))
        (record { actions = []; infra_recovered = 0; world = w })
