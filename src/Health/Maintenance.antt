-- ===== src/Health/Maintenance.antt =====
-- packages/operational-health/src/maintenance.ts. The ports change a world `W`.
use operaia_lab.Common.{
  ℕ, String, Bool, true, false, List, [], ◌∷◌, ◌++◌, Option, none, some, decimal,
}
use operaia_lab.Common.Effects.{Result, ok, err}
use operaia_lab.Health.Rules.{◌+++◌}

pub record MaintenanceResult : Type 0 where
  pub name : String
  pub affected : ℕ
  pub detail : String

pub record MaintenanceReport : Type 0 where
  pub ran_at : ℕ
  pub correlation_id : String
  pub results : List MaintenanceResult
  pub success : Bool

abbrev pub Port : Type 0 → Type 0
Port W = W → Result String ℕ × W

pub record MemoryMaintenancePort (W : Type 0) : Type 0 where
  pub archive_expired : Port W
  pub preventive_eviction : ℕ → Port W

pub record QueueMaintenancePort (W : Type 0) : Type 0 where
  pub cancel_orphan_waiting : Port W
  pub purge_expired_retries : Port W

pub record LedgerMaintenancePort (W : Type 0) : Type 0 where
  pub purge_older_than : ℕ → Port W

pub record OperationalMaintenanceOptions (W : Type 0) : Type 0 where
  pub memory : Option (MemoryMaintenancePort W)
  pub queue : Option (QueueMaintenancePort W)
  pub ledger : Option (LedgerMaintenancePort W)
  pub memory_target_active_max : Option ℕ
  pub ledger_retention_days : Option ℕ
  pub clock : W → ℕ

-- The variables of `run`, and the world.
pub record Maintaining (W : Type 0) : Type 0 where
  pub results : List MaintenanceResult
  pub success : Bool
  pub world : W

abbrev pub or_default : Option ℕ → ℕ → ℕ
or_default none n = n
or_default (some m) n = m

module _ {W : Type 0} where
  abbrev pub settle_one :
      String → (ℕ → String) → Result String ℕ × W → Maintaining W → Maintaining W
  settle_one name detail_ok (ok affected, w) s = record {
    results =
        s.results
        ++ (record { name = name; affected = affected; detail = detail_ok affected } ∷ []);
    success = s.success;
    world = w;
  }
  settle_one name detail_ok (err message, w) s = record {
    results = s.results ++ (record { name = name; affected = 0; detail = message } ∷ []);
    success = false;
    world = w;
  }

  unfoldable pub run_one : String → Port W → (ℕ → String) → Maintaining W → Maintaining W
  run_one name port detail_ok s = settle_one name detail_ok (port s.world) s

  abbrev pub run_memory : Option (MemoryMaintenancePort W) → ℕ → Maintaining W → Maintaining W
  run_memory none target s = s
  run_memory (some memory) target s =
      run_one "memory.preventive_eviction" (memory.preventive_eviction target)
        (λ n. decimal n +++ " notes evicted (targetActiveMax=" +++ decimal target +++ ")")
        (run_one "memory.archive_expired" memory.archive_expired
          (λ n. decimal n +++ " notes expiradas arquivadas") s)

  abbrev pub run_queue : Option (QueueMaintenancePort W) → Maintaining W → Maintaining W
  run_queue none s = s
  run_queue (some queue) s =
      run_one "queue.purge_expired_retries" queue.purge_expired_retries
        (λ n. decimal n +++ " retries expirados tratados")
        (run_one "queue.cancel_orphan_waiting" queue.cancel_orphan_waiting
          (λ n. decimal n +++ " WAITING orfaos cancelados") s)

  abbrev pub run_ledger : Option (LedgerMaintenancePort W) → ℕ → Maintaining W → Maintaining W
  run_ledger none days s = s
  run_ledger (some ledger) days s =
      run_one "ledger.purge_old" (ledger.purge_older_than days)
        (λ n. decimal n +++ " registros ledger >" +++ decimal days +++ "d removidos") s

  -- `OperationalMaintenance.run`
  unfoldable pub run_maintenance :
      OperationalMaintenanceOptions W → String → W → MaintenanceReport × W
  run_maintenance options correlation_id w =
      let started : Maintaining W = record { results = []; success = true; world = w } in
      let memory =
        run_memory options.memory (or_default options.memory_target_active_max 1600) started in
      let queue = run_queue options.queue memory in
      let last = run_ledger options.ledger (or_default options.ledger_retention_days 30) queue in
      (
        record {
          ran_at = options.clock last.world;
          correlation_id = correlation_id;
          results = last.results;
          success = last.success;
        },
        last.world,
      )
