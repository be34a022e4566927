-- ===== src/Actions/Ledger.antt =====
-- `InMemoryExecutionLedger` of packages/action-runtime/src/ledgers/execution-ledger.ts, as a list
-- of records. A new id and the time are arguments.
use operaia_lab.Common.{
  ℕ, String, List, [], ◌∷◌, Option, none, some, ◌==◌, string_same, if◌then◌else◌,
}
use operaia_lab.Json.{Json}

pub data ActionExecutionStatus : Type 0 where
  requested : ActionExecutionStatus
  approved : ActionExecutionStatus
  running : ActionExecutionStatus
  success : ActionExecutionStatus
  failed : ActionExecutionStatus
  denied : ActionExecutionStatus

pub record ActionExecutionRecord : Type 0 where
  pub id : String
  pub workspace_id : String
  pub employee_id : String
  pub action_id : String
  pub target : String
  pub status : ActionExecutionStatus
  pub requested_at : ℕ
  pub started_at : Option ℕ
  pub finished_at : Option ℕ
  pub result : Option Json
  pub error : Option String

abbrev pub Ledger : Type 0
Ledger = List ActionExecutionRecord

unfoldable pub find_record : String → Ledger → Option ActionExecutionRecord
find_record id [] = none
find_record id (r ∷ rs) = if r.id == id then some r else find_record id rs

-- A patch is the change that it makes to the record beside its status.
abbrev pub patched :
    ActionExecutionStatus
    → (ActionExecutionRecord → ActionExecutionRecord)
    → ActionExecutionRecord
    → ActionExecutionRecord
patched status patch r = record (patch r) { status = status }

-- `updateStatus`, which throws where the id is not there.
unfoldable pub update_status :
    String
    → ActionExecutionStatus
    → (ActionExecutionRecord → ActionExecutionRecord)
    → Ledger
    → Option Ledger
update_status id status patch [] = none
update_status id status patch (r ∷ rs) =
    if r.id == id
    then some (patched status patch r ∷ rs)
    else elim (update_status id status patch rs) [ none ↦ none | some updated ↦ some (r ∷ updated) ]

unfoldable pub create_execution :
    String → ℕ → String → String → String → String → ActionExecutionRecord
create_execution id now workspace_id employee_id action_id target = record {
  id = id;
  workspace_id = workspace_id;
  employee_id = employee_id;
  action_id = action_id;
  target = target;
  status = requested;
  requested_at = now;
  started_at = none;
  finished_at = none;
  result = none;
  error = none;
}
