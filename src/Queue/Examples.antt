-- ===== src/Queue/Examples.antt =====
-- The theorems on the mission queue at concrete tables, and runs of its handlers.
use operaia_lab.Common.{true, List, [], ◌∷◌, none, some, ◌≡◌, refl, All}
use operaia_lab.Json.{null}
use operaia_lab.Queue.Model.{
  Mission, Tables, EnqueueMissionInput, ClaimCriteria, urgent, coordinate, ready, ceo_employee_id,
  ok, err, stale_ownership, running,
}
use operaia_lab.Queue.Rows.{find_row, update_where, count_where, HasUniqueIds}
use operaia_lab.Queue.Settle.{
  complete, settle, owns, to_completed, get_or_throw, promote_ready_dependents,
}
use operaia_lab.Queue.Monad.{◌>>=◌}
use operaia_lab.Queue.InMemory.{in_memory}
use operaia_lab.Queue.Enqueue.{append_event}
use operaia_lab.Queue.Claim.{claim}
use operaia_lab.Queue.Claim.Selection.{Claimed, claim-Claimed}
use operaia_lab.Queue.Fencing.{completion, failing, settle_with, settle_once}
use operaia_lab.Queue.Lifecycle.{Evolves, here}
use operaia_lab.Queue.Lifecycle.WellFormed.{IsWellFormed}
use operaia_lab.Queue.Recovery.{recover_failed_retryable}
use operaia_lab.Queue.System.{
  Call, enqueues, claims, settles, run, run-Evolves, run-IsWellFormed,
  recover_failed_retryable_idle,
}

abbrev demand : EnqueueMissionInput
demand = record {
  workspace_id = "nexo";
  project_id = none;
  objective = "review";
  priority = some urgent;
  owner_employee_id = none;
  required_specialization = none;
  parent_mission_id = none;
  mission_kind = none;
  scheduled_at = none;
  max_attempts = none;
  readiness = none;
  dedupe = true;
}

abbrev empty : Tables
empty = record { missions = []; events = []; dependencies = []; heartbeats = [] }

abbrev ceo : ClaimCriteria
ceo = record { employee_id = ceo_employee_id; specialization = "MANAGEMENT" }

abbrev calls : List Call
calls = enqueues demand 0 ∷ claims ceo 1 ∷ settles "m" 1 (failing "no answer" 2) ∷ []

run-Evolves_example : Evolves [] (run in_memory (λ s. s) calls empty).missions
run-Evolves_example = run-Evolves in_memory (λ s. s) calls empty tt

run-IsWellFormed_example : All IsWellFormed (run in_memory (λ s. s) calls empty).missions
run-IsWellFormed_example = run-IsWellFormed in_memory (λ s. s) calls empty tt tt

recover_failed_retryable_idle_example :
    recover_failed_retryable in_memory 9 (run in_memory (λ s. s) calls empty)
    ≡ (ok 0, run in_memory (λ s. s) calls empty)
recover_failed_retryable_idle_example =
    recover_failed_retryable_idle in_memory (λ s. s) calls empty 9 tt tt

-- A table where the CEO works on the mission "m" under its first lease.
abbrev working : Mission
working = record {
  id = "m";
  workspace_id = "nexo";
  project_id = none;
  objective = "review";
  objective_hash = "h";
  mission_kind = coordinate;
  priority = urgent;
  status = running;
  readiness = ready;
  owner_employee_id = ceo_employee_id;
  required_specialization = none;
  parent_mission_id = none;
  progress = 10;
  attempt = 1;
  max_attempts = 3;
  lease_version = 1;
  scheduled_at = some 0;
  started_at = some 1;
  finished_at = none;
  last_error = none;
  result_json = none;
  created_at = 0;
}

abbrev office : Tables
office = record { missions = working ∷ []; events = []; dependencies = []; heartbeats = [] }

office_unique : HasUniqueIds office.missions
unfolding find_row
office_unique = (refl, tt)

abbrev finished : Tables
finished = (settle_with in_memory "m" 1 (completion null 5) office).1

completes_once :
    (settle_with in_memory "m" 1 (completion null 5) office).0 ≡ ok (to_completed null 5 working)
unfolding settle_with complete settle owns to_completed get_or_throw append_event
    promote_ready_dependents in_memory ◌>>=◌ find_row update_where count_where
completes_once = refl

settle_once_example :
    settle_with in_memory "m" 1 (failing "late" 9) finished
    ≡ (err (stale_ownership "m" 1), finished)
settle_once_example =
    settle_once in_memory "m" 1 (completion null 5) (failing "late" 9) office finished office_unique
      completes_once here

claim-Claimed_example :
    Claimed in_memory ceo 1 office (claim in_memory ceo 1 office).0 (claim in_memory ceo 1 office).1
claim-Claimed_example = claim-Claimed in_memory ceo 1 office office_unique
