-- ===== src/Actions/Executor.antt =====
-- `ActionExecutor` of packages/action-runtime/src/action-executor.ts over the ledger in memory.
-- `none` is the exception of a ledger that has lost the record.
use operaia_lab.Common.{
  ℕ, String, Bool, true, false, not, ◌||◌, List, [], ◌∷◌, ◌++◌, Option, none, some, string_same,
  if◌then◌else◌, ℤ, difference,
}
use operaia_lab.Common.Effects.{Result, ok, err}
use operaia_lab.Json.{Json}
use operaia_lab.Actions.Policy.{
  ActionPolicy, ActionPolicyDecision, decide, text, includes, is_known_action_id,
}
use operaia_lab.Actions.Ledger.{
  ActionExecutionStatus, approved, running, success, failed, denied, ActionExecutionRecord, Ledger,
  update_status, create_execution,
}

pub record ActionRequest : Type 0 where
  pub workspace_id : String
  pub requested_by : String
  pub action_id : String
  pub target : String
  pub parameters : Option Json

-- What an adapter answers; its own metadata is `details`.
pub record AdapterResult : Type 0 where
  pub success : Bool
  pub action_id : String
  pub output : Option Json
  pub error : Option String
  pub details : Json

pub data AdapterReply : Type 0 where
  returned : AdapterResult → AdapterReply
  threw : String → AdapterReply

-- An adapter acts on a world `W` outside.
pub record ActionAdapter (W : Type 0) : Type 0 where
  pub supported_actions : List String
  pub execute_action : ActionRequest → W → AdapterReply × W

pub record ActionResult : Type 0 where
  pub success : Bool
  pub action_id : String
  pub output : Option Json
  pub error : Option String
  pub details : Option Json
  pub execution_id : String
  pub status : ActionExecutionStatus
  pub workspace_id : String
  pub target : String
  pub duration_ms : Option ℤ

-- How `execute` ends: it answers, or it throws what the policy or the scope has thrown.
pub data Reply : Type 0 where
  answered : ActionResult → Reply
  rejected : String → Reply

pub record ActionExecutor (W : Type 0) : Type 0 where
  pub policy : ActionPolicy
  pub scope : Option (String → String → W → Result String Bool × W)
  pub adapters : List (ActionAdapter W)

pub record Site (W : Type 0) : Type 0 where
  pub ledger : Ledger
  pub world : W

-- The new id and the readings of the clock.
pub record Stamp : Type 0 where
  pub id : String
  pub requested_at : ℕ
  pub started_at : ℕ
  pub finished_at : ℕ

infixl 5 ◌>>=◌
abbrev pub ◌>>=◌ : {A B : Type 0} → Option A → (A → Option B) → Option B
none >>= f = none
some a >>= f = f a

-- `adapterByAction`: the last adapter that supports the action.
unfoldable pub adapter_for :
    {W : Type 0} → List (ActionAdapter W) → String → Option (ActionAdapter W)
adapter_for [] action_id = none
adapter_for (a ∷ rest) action_id = elim (adapter_for rest action_id) [
  | some later ↦ some later
  | none ↦ if includes a.supported_actions action_id then some a else none
]

-- Without a scope every target is allowed. `isTargetAllowed` may reject.
unfoldable pub in_scope :
    {W : Type 0}
    → Option (String → String → W → Result String Bool × W)
    → ActionRequest
    → W
    → Result String Bool × W
in_scope none request w = (ok true, w)
in_scope (some is_target_allowed) request w =
    is_target_allowed request.workspace_id request.target w

abbrev pub finish : ℕ → Json → Option String → ActionExecutionRecord → ActionExecutionRecord
finish at result error r = record r { finished_at = some at; result = some result; error = error }

abbrev pub give_up : ℕ → String → ActionExecutionRecord → ActionExecutionRecord
give_up at error r = record r { finished_at = some at; error = some error }

abbrev pub action_fail :
    ActionRequest → Stamp → ActionExecutionStatus → String → Option ℤ → ActionResult
action_fail request stamp status error duration = record {
  success = false;
  action_id = request.action_id;
  output = none;
  error = some error;
  details = none;
  execution_id = stamp.id;
  status = status;
  workspace_id = request.workspace_id;
  target = request.target;
  duration_ms = duration;
}

abbrev pub action_done :
    ActionRequest → Stamp → ActionExecutionStatus → AdapterResult → ActionResult
action_done request stamp status result = record {
  success = result.success;
  action_id = result.action_id;
  output = result.output;
  error = result.error;
  details = some result.details;
  execution_id = stamp.id;
  status = status;
  workspace_id = request.workspace_id;
  target = request.target;
  duration_ms = some (difference stamp.finished_at stamp.started_at);
}

abbrev pub status_of : AdapterResult → ActionExecutionStatus
status_of result = if result.success then success else failed

abbrev pub created : ActionRequest → Stamp → ActionExecutionRecord
created request stamp =
    create_execution stamp.id stamp.requested_at request.workspace_id request.requested_by
      request.action_id request.target

module _ {W : Type 0} (result_json : AdapterResult → Json) where
  -- The end of an execution that does not reach an adapter.
  unfoldable pub refuse :
      ActionRequest
      → Stamp
      → ActionExecutionStatus
      → String
      → Site W
      → Option (ActionResult × Site W)
  refuse request stamp status reason s = do
    ledger ← update_status stamp.id status (give_up stamp.finished_at reason) s.ledger
    some (action_fail request stamp status reason none, record s { ledger = ledger })

  -- What is written when the adapter has answered.
  unfoldable pub conclude :
      ActionRequest → Stamp → Ledger → AdapterReply × W → Option (ActionResult × Site W)
  conclude request stamp ledger (returned result, w) = do
    written ←
        update_status stamp.id (status_of result)
          (finish stamp.finished_at (result_json result) result.error) ledger
    some (
      action_done request stamp (status_of result) result,
      record { ledger = written; world = w },
    )
  conclude request stamp ledger (threw message, w) = do
    written ← update_status stamp.id failed (give_up stamp.finished_at message) ledger
    some (
      action_fail request stamp failed message
          (some (difference stamp.finished_at stamp.started_at)),
      record { ledger = written; world = w },
    )

  unfoldable pub perform :
      ActionRequest → Stamp → ActionAdapter W → Site W → Option (ActionResult × Site W)
  unfolding conclude
  perform request stamp adapter s = do
    approved_ledger ← update_status stamp.id approved (λ r. r) s.ledger
    running_ledger ←
        update_status stamp.id running (λ r. record r { started_at = some stamp.started_at })
          approved_ledger
    conclude request stamp running_ledger (adapter.execute_action request s.world)

  abbrev pub answer_by : Option (ActionResult × Site W) → Option (Reply × Site W)
  answer_by none = none
  answer_by (some (answer, s)) = some (answered answer, s)

  -- What follows the scope.
  unfoldable pub execute_scoped :
      ActionExecutor W
      → ActionRequest
      → Stamp
      → Ledger
      → Result String Bool × W
      → Option (Reply × Site W)
  unfolding refuse perform
  execute_scoped executor request stamp ledger (err e, w) =
      some (rejected e, record { ledger = ledger; world = w })
  execute_scoped executor request stamp ledger (ok false, w) = answer_by (
      refuse request stamp denied
        (text ("Target fora do workspace " ∷ request.workspace_id ∷ ": " ∷ request.target ∷ []))
        (record { ledger = ledger; world = w }))
  execute_scoped executor request stamp ledger (ok true, w) =
      answer_by (elim (adapter_for executor.adapters request.action_id) [
        | none ↦
            refuse request stamp failed (text ("Adapter ausente para " ∷ request.action_id ∷ []))
              (record { ledger = ledger; world = w })
        | some adapter ↦ perform request stamp adapter (record { ledger = ledger; world = w })
      ])

  -- What follows the policy.
  unfoldable pub execute_decided :
      ActionExecutor W
      → ActionRequest
      → Stamp
      → Result String ActionPolicyDecision
      → Site W
      → Option (Reply × Site W)
  unfolding execute_scoped
  execute_decided executor request stamp (err e) s = some (rejected e, s)
  execute_decided executor request stamp (ok decision) s =
      if not decision.allowed || not (is_known_action_id request.action_id)
      then answer_by (refuse request stamp denied decision.reason s)
      else execute_scoped executor request stamp s.ledger (in_scope executor.scope request s.world)

  unfoldable pub execute_created :
      ActionExecutor W → ActionRequest → Stamp → Site W → Option (Reply × Site W)
  unfolding execute_decided
  execute_created executor request stamp s =
      execute_decided executor request stamp
        (decide executor.policy request.requested_by request.action_id request.workspace_id) s

  unfoldable pub execute :
      ActionExecutor W → ActionRequest → Stamp → Site W → Option (Reply × Site W)
  unfolding execute_created create_execution
  execute executor request stamp s =
      execute_created executor request stamp
        (record s { ledger = s.ledger ++ (created request stamp ∷ []) })
