-- ===== src/Signals/Examples.antt =====
-- One workspace, one binding, and one delivery that is evaluated, converted and delivered again.
use operaia_lab.Common.{
  String, true, false, List, [], ◌∷◌, Option, none, some, ◌≡◌, ◌≢◌, refl, is_blank, trim,
}
use operaia_lab.Json.{Json, null}
use operaia_lab.Signals.Model.{
  DomainSignalRecord, WorkspaceSourceBindingRecord, IngestSignalInput, EvaluateSignalInput,
  convert_candidate, created, duplicate_delivery, converted, can_transition, DomainSignalStatus,
}
use operaia_lab.Signals.Store.{
  Store, ok, find_signal, put_signal, find_delivery, find_binding_by_id, new_signal, create_signal,
  update_signal,
}
use operaia_lab.Signals.Service.{
  check_ingest, check_binding, create_data, ingest, evaluate, mark_converted, check_evaluate,
  check_converted, to_evaluated, to_converted, similar_ids, require_signal, assert_transition,
}
use operaia_lab.Signals.Status.{AllMoved}
use operaia_lab.Signals.System.{
  Call, ingests, evaluates, converts, expires, step, run, run-AllMoved,
}
use operaia_lab.Signals.Delivery.{ingest_again, ingest_isolated}

abbrev keep_payload : Json → Json
keep_payload p = p

abbrev hash_type : IngestSignalInput → Json → String
hash_type input p = input.type

abbrev binding : WorkspaceSourceBindingRecord
binding = record {
  id = "b";
  workspace_id = "w";
  source_type = "github";
  external_ref = "repo";
  enabled = true;
  config_json = none;
  secret_ref = none;
  created_at = 0;
  updated_at = 0;
}

abbrev empty : Store
empty = record { bindings = binding ∷ []; signals = [] }

abbrev opened : IngestSignalInput
opened = record {
  workspace_id = "w";
  source_type = "github";
  type = "github.pr.opened";
  delivery_id = "d";
  payload = null;
  source_id = none;
  binding_id = some "b";
  external_ref = none;
  correlation_id = none;
  signal_hash = none;
  metadata = none;
  occurred_at = none;
  expires_at = none;
  payload_version = none;
}

abbrev signal : DomainSignalRecord
signal = new_signal (create_data keep_payload hash_type opened "s" "c" 1)

abbrev received : Store
received = record { bindings = binding ∷ []; signals = signal ∷ [] }

ingest_test :
    ingest keep_payload hash_type opened "s" "c" 1 empty
    ≡ (ok (record { kind = created; signal = signal }), received)
unfolding ingest check_ingest check_binding create_signal find_delivery find_binding_by_id is_blank
    trim
ingest_test = refl

opened_is_complete : check_ingest opened ≡ ok tt
unfolding check_ingest is_blank
opened_is_complete = refl

ingest_again_example :
    ingest keep_payload hash_type opened "s2" "c2" 9 received
    ≡ (ok (record { kind = duplicate_delivery; signal = signal }), received)
ingest_again_example =
    ingest_again keep_payload hash_type opened opened "s" "c" "s2" "c2" 1 9 empty received
      (record { kind = created; signal = signal }) ingest_test refl refl opened_is_complete

abbrev binding_id : String
binding_id = "b"

abbrev no_id : String
no_id = ""

b_is_an_id : binding_id ≢ no_id
b_is_an_id e = cc

ingest_isolated_example :
    (b : WorkspaceSourceBindingRecord) × (find_binding_by_id "b" empty ≡ some b)
    × (b.workspace_id ≡ signal.workspace_id)
    × (b.enabled ≡ true)
ingest_isolated_example =
    ingest_isolated keep_payload hash_type opened "s" "c" 1 empty received
      (record { kind = created; signal = signal }) "b" ingest_test refl refl b_is_an_id

abbrev assessed : EvaluateSignalInput
assessed = record {
  signal_id = "s";
  decision = convert_candidate;
  policy = "p";
  reason = "r";
  inputs = none;
  include_similar = false;
}

abbrev calls : List Call
calls = evaluates assessed 2 ∷ converts "s" "m" 3 ∷ ingests opened "s2" "c2" 4 ∷ expires "s" 5 ∷ []

abbrev status_of : Option DomainSignalRecord → Option (DomainSignalStatus × Option String)
status_of none = none
status_of (some r) = some (r.status, r.mission_id)

run_test :
    status_of (find_signal "s" (run keep_payload hash_type calls received).signals)
    ≡ some (converted, some "m")
unfolding run step ingest evaluate mark_converted check_ingest is_blank find_delivery find_signal
    put_signal update_signal check_evaluate check_converted to_evaluated to_converted can_transition
    new_signal operaia_lab.Signals.Service.mark_expired
run_test = refl

run-AllMoved_example : AllMoved received.signals (run keep_payload hash_type calls received).signals
run-AllMoved_example = run-AllMoved keep_payload hash_type calls received
