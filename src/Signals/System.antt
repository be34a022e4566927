-- ===== src/Signals/System.antt =====
-- Sequences of calls of the service: what becomes of a signal, and of a second delivery.
use operaia_lab.Common.{
  ℕ, String, true, List, [], ◌∷◌, ◌++◌, some, ◌≡◌, refl, ap, ◌∙◌, ◌⊎◌, inl, inr, string_same, arith,
}
use operaia_lab.Json.{Json}
use operaia_lab.Signals.Model.{
  DomainSignalStatus, evaluated, resolved, expired, DomainSignalRecord, EvaluateSignalInput,
  UpsertBindingInput, IngestSignalInput, can_transition,
}
use operaia_lab.Signals.Store.{
  Store, Result, ok, err, find_signal, update_signal, upsert_binding, create_signal, new_signal,
}
use operaia_lab.Signals.Service.{
  require_signal, assert_transition, check_evaluate, to_evaluated, check_converted, to_converted,
  check_closed, to_closed, write_signal, evaluate, mark_converted, mark_resolved, mark_expired,
  create_data, ingest,
}
use operaia_lab.Signals.Status.{
  is_later, Moved, AllMoved, AllMoved-refl, AllMoved-trans, AllMoved-append, AllMoved-put_signal,
  find_signal-id,
}

-- A write of a checked signal, whose patch moves it on.
write_signal-AllMoved :
    (id : String) (checked : Result DomainSignalRecord) (now : ℕ)
    (patch : DomainSignalRecord → DomainSignalRecord) (s : Store)
    → ((r : DomainSignalRecord)
        → checked ≡ ok r
        → (find_signal id s.signals ≡ some r) × Moved r (record (patch r) { updated_at = now }))
    → AllMoved s.signals (write_signal checked now patch s).1.signals
unfolding update_signal
write_signal-AllMoved id (err e) now patch s h = AllMoved-refl s.signals
write_signal-AllMoved id (ok r) now patch s h =
    let (found, moved) = h r refl in
    let there : find_signal r.id s.signals ≡ some r =
      ap (λ k. find_signal k s.signals) (find_signal-id id s.signals r found) ∙ found in
    rw (update_signal, there)
      (AllMoved-put_signal r.id s.signals r (record (patch r) { updated_at = now }) there moved)

require_signal-found :
    (id : String) (s : Store) (r : DomainSignalRecord)
    → require_signal id s ≡ ok r
    → find_signal id s.signals ≡ some r
unfolding require_signal
require_signal-found id s r h = ground arith

check_evaluate-ok :
    (input : EvaluateSignalInput) (s : Store) (r : DomainSignalRecord)
    → check_evaluate input s ≡ ok r
    → (find_signal input.signal_id s.signals ≡ some r) × (is_later r.status evaluated ≡ true)
unfolding check_evaluate assert_transition require_signal can_transition
check_evaluate-ok input s r h = ground arith

check_converted-ok :
    (id mission_id : String) (s : Store) (r : DomainSignalRecord)
    → check_converted id mission_id s ≡ ok r
    → (find_signal id s.signals ≡ some r) × (r.status ≡ evaluated)
unfolding check_converted assert_transition require_signal can_transition
check_converted-ok id mission_id s r h = ground arith

check_closed-ok :
    (id : String) (status : DomainSignalStatus) (s : Store) (r : DomainSignalRecord)
    → check_closed id status s ≡ ok r
    → (find_signal id s.signals ≡ some r) × (can_transition r.status status ≡ true)
unfolding check_closed assert_transition require_signal
check_closed-ok id status s r h = ground arith

Moved-to_evaluated :
    (input : EvaluateSignalInput) (now : ℕ) (s : Store) (r : DomainSignalRecord)
    → is_later r.status evaluated ≡ true
    → Moved r (record (to_evaluated input now s r) { updated_at = now })
unfolding to_evaluated
Moved-to_evaluated input now s r h = record {
  id = refl;
  workspace_id = refl;
  source_type = refl;
  delivery_id = refl;
  status = ground arith;
  mission = λ m. refl;
}

Moved-to_converted :
    (mission_id : String) (now : ℕ) (r : DomainSignalRecord)
    → r.status ≡ evaluated
    → Moved r (record (to_converted mission_id now r) { updated_at = now })
unfolding to_converted
Moved-to_converted mission_id now r h = record {
  id = refl;
  workspace_id = refl;
  source_type = refl;
  delivery_id = refl;
  status = rw h refl;
  mission = λ m. ground arith;
}

Moved-to_closed :
    (status : DomainSignalStatus) (now : ℕ) (r : DomainSignalRecord)
    → is_later r.status status ≡ true
    → Moved r (record (to_closed status now r) { updated_at = now })
unfolding to_closed
Moved-to_closed status now r h = record {
  id = refl;
  workspace_id = refl;
  source_type = refl;
  delivery_id = refl;
  status = h;
  mission = λ m. refl;
}

resolved-is_later :
    (a : DomainSignalStatus) → can_transition a resolved ≡ true → is_later a resolved ≡ true
unfolding can_transition
resolved-is_later a h = ground arith

expired-is_later :
    (a : DomainSignalStatus) → can_transition a expired ≡ true → is_later a expired ≡ true
unfolding can_transition
expired-is_later a h = ground arith

-- A call of the service, with its new ids and its time.
pub data Call : Type 0 where
  upserts : UpsertBindingInput → String → ℕ → Call
  ingests : IngestSignalInput → String → String → ℕ → Call
  evaluates : EvaluateSignalInput → ℕ → Call
  converts : String → String → ℕ → Call
  resolves : String → ℕ → Call
  expires : String → ℕ → Call

module _ (redact : Json → Json) (hash : IngestSignalInput → Json → String) where
  unfoldable pub step : Call → Store → Store
  step (upserts input id now) s = (upsert_binding input id now s).1
  step (ingests input id correlation now) s = (ingest redact hash input id correlation now s).1
  step (evaluates input now) s = (evaluate input now s).1
  step (converts id mission_id now) s = (mark_converted id mission_id now s).1
  step (resolves id now) s = (mark_resolved id now s).1
  step (expires id now) s = (mark_expired id now s).1

  unfoldable pub run : List Call → Store → Store
  unfolding step
  run [] s = s
  run (c ∷ cs) s = run cs (step c s)

  -- An ingest leaves the signals as they are, or adds one at their end.
  ingest_signals :
      (input : IngestSignalInput) (id correlation : String) (now : ℕ) (s : Store)
      → ((ingest redact hash input id correlation now s).1.signals ≡ s.signals)
        ⊎ ((ingest redact hash input id correlation now s).1.signals
            ≡ s.signals ++ (new_signal (create_data redact hash input id correlation now) ∷ []))
  unfolding ingest create_signal
  ingest_signals input id correlation now s = ground arith

  ingest-AllMoved :
      (input : IngestSignalInput) (id correlation : String) (now : ℕ) (s : Store)
      → AllMoved s.signals (ingest redact hash input id correlation now s).1.signals
  ingest-AllMoved input id correlation now s = elim (ingest_signals input id correlation now s) [
    | inl same ↦ rw same (AllMoved-refl s.signals)
    | inr added ↦ rw added (AllMoved-append s.signals _)
  ]

  upsert_binding-signals :
      (input : UpsertBindingInput) (id : String) (now : ℕ) (s : Store)
      → (upsert_binding input id now s).1.signals ≡ s.signals
  unfolding upsert_binding
  upsert_binding-signals input id now s = ground arith

  step-AllMoved : (c : Call) (s : Store) → AllMoved s.signals (step c s).signals
  unfolding step evaluate mark_converted mark_resolved mark_expired
  step-AllMoved (upserts input id now) s =
      rw (upsert_binding-signals input id now s) (AllMoved-refl s.signals)
  step-AllMoved (ingests input id correlation now) s = ingest-AllMoved input id correlation now s
  step-AllMoved (evaluates input now) s = write_signal-AllMoved input.signal_id _ now _ s (λ r h.
      let (found, later) = check_evaluate-ok input s r h in
      (found, Moved-to_evaluated input now s r later))
  step-AllMoved (converts id mission_id now) s = write_signal-AllMoved id _ now _ s (λ r h.
      let (found, at) = check_converted-ok id mission_id s r h in
      (found, Moved-to_converted mission_id now r at))
  step-AllMoved (resolves id now) s = write_signal-AllMoved id _ now _ s (λ r h.
      let (found, may) = check_closed-ok id resolved s r h in
      (found, Moved-to_closed resolved now r (resolved-is_later r.status may)))
  step-AllMoved (expires id now) s = write_signal-AllMoved id _ now _ s (λ r h.
      let (found, may) = check_closed-ok id expired s r h in
      (found, Moved-to_closed expired now r (expired-is_later r.status may)))

  -- After any calls of the service, those that throw included, a signal that was in the store is
  -- there: with its workspace, source and delivery, with a status that may come later, never an
  -- earlier one, and, once it is CONVERTED or RESOLVED, with its mission.
  pub run-AllMoved : (cs : List Call) (s : Store) → AllMoved s.signals (run cs s).signals
  unfolding run
  run-AllMoved [] s = AllMoved-refl s.signals
  run-AllMoved (c ∷ cs) s =
      AllMoved-trans s.signals (step c s).signals (run cs (step c s)).signals (step-AllMoved c s)
        (run-AllMoved cs (step c s))
