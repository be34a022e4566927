-- ===== src/Signals/Service.antt =====
-- `DomainSignalService` of packages/domain-signals/src/domain-signal-service.ts over the store in
-- memory. Each method checks first and writes once. `redactPayload` and `computeSignalHash` are
-- parameters; new ids and the time are arguments.
use operaia_lab.Common.{
  ℕ, String, Bool, true, false, not, List, [], Option, none, some, ◌==◌, string_same, if◌then◌else◌,
  map, is_blank, trim,
}
use operaia_lab.Json.{Json}
use operaia_lab.Signals.Model.{
  DomainSignalStatus, evaluated, converted, resolved, ignored, expired,
  DomainSignalEvaluationDecision, convert_candidate, ignore, defer, DomainSignalRecord,
  WorkspaceSourceBindingRecord, EvaluationAudit, IngestSignalInput, EvaluateSignalInput, created,
  duplicate_delivery, IngestSignalResult, SignalError, missing_workspace_id, missing_source_type,
  missing_type, missing_delivery_id, missing_policy, missing_reason, missing_mission_id,
  binding_not_found, binding_diverges, binding_disabled, signal_not_found, invalid_transition,
  not_evaluated, not_convertible, is_same_status, can_transition,
}
use operaia_lab.Signals.Store.{
  Result, ok, err, Store, or_else, find_by_id, find_binding_by_id, find_by_delivery,
  CreateDomainSignalData, create_signal, update_signal, find_by_signal_hash,
}

infixl 5 ◌>>=◌
abbrev pub ◌>>=◌ : {A B : Type 0} → Result A → (A → Result B) → Result B
ok a >>= f = f a
err e >>= f = err e

infixl 5 ◌>>◌
abbrev pub ◌>>◌ : {B : Type 0} → Result Unit → Result B → Result B
m >> k = m >>= λ _. k

abbrev pub require : Bool → SignalError → Result Unit
require true e = ok tt
require false e = err e

unfoldable pub assert_transition : DomainSignalStatus → DomainSignalStatus → Result Unit
assert_transition from to = require (can_transition from to) (invalid_transition from to)

unfoldable pub require_signal : String → Store → Result DomainSignalRecord
require_signal id s = elim (find_by_id id s) [
  | none ↦ err (signal_not_found id)
  | some signal ↦ ok signal
]

-- The write after the checks, or their error.
abbrev pub write_signal :
    Result DomainSignalRecord
    → ℕ
    → (DomainSignalRecord → DomainSignalRecord)
    → Store
    → Result DomainSignalRecord × Store
write_signal (ok signal) now patch s = update_signal signal.id now patch s
write_signal (err e) now patch s = (err e, s)

unfoldable pub similar_ids : DomainSignalRecord → Store → List String
similar_ids signal s =
    map (λ row. row.id) (find_by_signal_hash signal.workspace_id signal.signal_hash signal.id 10 s)

abbrev pub next_status : DomainSignalEvaluationDecision → DomainSignalStatus
next_status ignore = ignored
next_status other = evaluated

unfoldable pub check_evaluate : EvaluateSignalInput → Store → Result DomainSignalRecord
unfolding require_signal assert_transition
check_evaluate input s = do
  signal ← require_signal input.signal_id s
  assert_transition signal.status evaluated
  require (not (is_blank input.policy)) missing_policy
  require (not (is_blank input.reason)) missing_reason
  if is_same_status (next_status input.decision) ignored
      then assert_transition signal.status ignored
      else ok tt
  ok signal

abbrev pub evaluation_of : EvaluateSignalInput → ℕ → Store → DomainSignalRecord → EvaluationAudit
evaluation_of input now s signal = record {
  decision = input.decision;
  policy = input.policy;
  reason = input.reason;
  applied_at = now;
  inputs = input.inputs;
  similar_signal_ids = if input.include_similar then similar_ids signal s else [];
}

unfoldable pub to_evaluated :
    EvaluateSignalInput → ℕ → Store → DomainSignalRecord → DomainSignalRecord
to_evaluated input now s signal = record signal {
  status = next_status input.decision;
  evaluation_decision = some input.decision;
  evaluation_policy = some input.policy;
  evaluation_reason = some input.reason;
  evaluation_json = some (evaluation_of input now s signal);
  evaluated_at = some now;
}

unfoldable pub evaluate : EvaluateSignalInput → ℕ → Store → Result DomainSignalRecord × Store
unfolding check_evaluate
evaluate input now s = write_signal (check_evaluate input s) now (to_evaluated input now s) s

abbrev pub is_convertible : Option DomainSignalEvaluationDecision → Bool
is_convertible (some convert_candidate) = true
is_convertible (some defer) = true
is_convertible other = false

unfoldable pub check_converted : String → String → Store → Result DomainSignalRecord
unfolding require_signal assert_transition
check_converted id mission_id s = do
  signal ← require_signal id s
  require (is_same_status signal.status evaluated) (not_evaluated signal.status)
  require (is_convertible signal.evaluation_decision) not_convertible
  require (not (is_blank mission_id)) missing_mission_id
  assert_transition signal.status converted
  ok signal

unfoldable pub to_converted : String → ℕ → DomainSignalRecord → DomainSignalRecord
to_converted mission_id now signal = record signal {
  status = converted;
  mission_id = some mission_id;
  converted_at = some now;
}

unfoldable pub mark_converted : String → String → ℕ → Store → Result DomainSignalRecord × Store
unfolding check_converted
mark_converted id mission_id now s =
    write_signal (check_converted id mission_id s) now (to_converted mission_id now) s

unfoldable pub check_closed : String → DomainSignalStatus → Store → Result DomainSignalRecord
unfolding require_signal assert_transition
check_closed id status s = do
  signal ← require_signal id s
  assert_transition signal.status status
  ok signal

unfoldable pub to_closed : DomainSignalStatus → ℕ → DomainSignalRecord → DomainSignalRecord
to_closed status now signal = record signal { status = status; resolved_at = some now }

unfoldable pub mark_resolved : String → ℕ → Store → Result DomainSignalRecord × Store
unfolding check_closed to_closed
mark_resolved id now s = write_signal (check_closed id resolved s) now (to_closed resolved now) s

unfoldable pub mark_expired : String → ℕ → Store → Result DomainSignalRecord × Store
unfolding check_closed to_closed
mark_expired id now s = write_signal (check_closed id expired s) now (to_closed expired now) s

unfoldable pub check_ingest : IngestSignalInput → Result Unit
check_ingest input = do
  require (not (is_blank input.workspace_id)) missing_workspace_id
  require (not (is_blank input.source_type)) missing_source_type
  require (not (is_blank input.type)) missing_type
  require (not (is_blank input.delivery_id)) missing_delivery_id

abbrev pub check_found :
    IngestSignalInput → String → Option WorkspaceSourceBindingRecord → Result Unit
check_found input id none = err (binding_not_found id)
check_found input id (some binding) = do
  require (binding.workspace_id == input.workspace_id) binding_diverges
  require binding.enabled binding_disabled

-- `if (input.bindingId)`: an empty id is no id.
unfoldable pub check_binding : IngestSignalInput → Store → Result Unit
check_binding input s = elim input.binding_id [
  | none ↦ ok tt
  | some id ↦ if id == "" then ok tt else check_found input id (find_binding_by_id id s)
]

-- `text?.trim() || fallback`
abbrev pub text_or : Option String → String → String
text_or none fallback = fallback
text_or (some text) fallback = if trim text == "" then fallback else trim text

abbrev pub ingested : Result DomainSignalRecord × Store → Result IngestSignalResult × Store
ingested (ok signal, s) = (ok (record { kind = created; signal = signal }), s)
ingested (err e, s) = (err e, s)

module _ (redact_payload : Json → Json)
    (compute_signal_hash : IngestSignalInput → Json → String) where
  abbrev pub create_data : IngestSignalInput → String → String → ℕ → CreateDomainSignalData
  create_data input id correlation now =
      let payload : Json = redact_payload input.payload in
      record {
        id = id;
        now = now;
        workspace_id = input.workspace_id;
        binding_id = input.binding_id;
        source_type = input.source_type;
        source_id = input.source_id;
        type = input.type;
        delivery_id = input.delivery_id;
        signal_hash = text_or input.signal_hash (compute_signal_hash input payload);
        correlation_id = text_or input.correlation_id correlation;
        payload_json = payload;
        metadata_json = input.metadata;
        occurred_at = input.occurred_at;
        expires_at = input.expires_at;
        payload_version = or_else input.payload_version 1;
      }

  -- The part of `ingest` for a delivery that is not in the store.
  unfoldable pub ingest_new :
      IngestSignalInput → String → String → ℕ → Store → Result IngestSignalResult × Store
  ingest_new input id correlation now s = elim (check_binding input s) [
    | err e ↦ (err e, s)
    | ok _ ↦ ingested (create_signal (create_data input id correlation now) s)
  ]

  unfoldable pub ingest :
      IngestSignalInput → String → String → ℕ → Store → Result IngestSignalResult × Store
  unfolding ingest_new check_ingest
  ingest input id correlation now s = elim (check_ingest input) [
    | err e ↦ (err e, s)
    | ok _ ↦ elim (find_by_delivery input.source_type input.delivery_id s) [
      | some existing ↦ (ok (record { kind = duplicate_delivery; signal = existing }), s)
      | none ↦ ingest_new input id correlation now s
    ]
  ]
