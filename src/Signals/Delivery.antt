-- ===== src/Signals/Delivery.antt =====
-- Deliveries that come twice, and the binding of a new signal: `ingest` of
-- packages/domain-signals/src/domain-signal-service.ts.
use operaia_lab.Common.{
  ℕ, String, true, List, [], ◌∷◌, ◌++◌, none, some, ◌≡◌, ◌≢◌, Option-cases, refl, sym, ap, ◌∙◌, ◌⊎◌,
  inl, inr, string_same, str_iff, arith,
}
use operaia_lab.Json.{Json}
use operaia_lab.Signals.Model.{
  WorkspaceSourceBindingRecord, DomainSignalRecord, IngestSignalInput, IngestSignalResult,
  duplicate_delivery, created,
}
use operaia_lab.Signals.Store.{
  Store, ok, create_signal, find_by_delivery, find_delivery, new_signal, find_binding_by_id,
}
use operaia_lab.Signals.Service.{check_ingest, check_binding, create_data, ingest}

find_delivery-append :
    (source_type delivery_id : String) (rs : List DomainSignalRecord) (r : DomainSignalRecord)
    → find_delivery source_type delivery_id rs ≡ none
    → r.source_type ≡ source_type
    → r.delivery_id ≡ delivery_id
    → find_delivery source_type delivery_id (rs ++ (r ∷ [])) ≡ some r
unfolding find_delivery
find_delivery-append source_type delivery_id [] r h e f =
    ground (arith, str_iff r.source_type source_type, str_iff r.delivery_id delivery_id)
find_delivery-append source_type delivery_id (x ∷ rs) r h e f =
    ground (arith, find_delivery-append source_type delivery_id rs r)

check_binding-ok :
    (input : IngestSignalInput) (s : Store) (bid : String)
    → input.binding_id ≡ some bid
    → bid ≢ ""
    → check_binding input s ≡ ok tt
    → (b : WorkspaceSourceBindingRecord) × (find_binding_by_id bid s ≡ some b)
      × (b.workspace_id ≡ input.workspace_id)
      × (b.enabled ≡ true)
unfolding check_binding
check_binding-ok input s bid given real h = elim (Option-cases (find_binding_by_id bid s)) [
  | inl absent ↦ ground (arith, str_iff bid "")
  | inr (b, found) ↦ (
    b,
    found,
    ground (arith, str_iff bid "", str_iff b.workspace_id input.workspace_id),
    ground (arith, str_iff bid ""),
  )
]

module _ (redact : Json → Json) (hash : IngestSignalInput → Json → String) where
  module _ (input : IngestSignalInput) (id correlation : String) (now : ℕ) (s t : Store)
      (r : IngestSignalResult)
      (done : ingest redact hash input id correlation now s ≡ (ok r, t)) where
    abbrev fresh : DomainSignalRecord
    fresh = new_signal (create_data redact hash input id correlation now)

    ingest_cases :
        ((find_by_delivery input.source_type input.delivery_id s ≡ some r.signal) × (t ≡ s))
        ⊎ ((find_by_delivery input.source_type input.delivery_id s ≡ none)
            × (r.signal ≡ fresh)
            × (check_binding input s ≡ ok tt)
            × (t ≡ record s { signals = s.signals ++ (fresh ∷ []) }))
    unfolding ingest create_signal
    ingest_cases = ground arith

    pub ingest_found : find_by_delivery input.source_type input.delivery_id t ≡ some r.signal
    unfolding new_signal
    ingest_found = elim ingest_cases [
      | inl (found, same) ↦ rw same found
      | inr (absent, new, bound, added) ↦
          rw (added, new)
            (find_delivery-append input.source_type input.delivery_id s.signals fresh absent refl
              refl)
    ]

    check_binding_of_created :
        r.kind ≡ created → (check_binding input s ≡ ok tt) × (r.signal ≡ fresh)
    unfolding ingest create_signal
    check_binding_of_created kind = ground arith

  -- Once an ingest has returned a signal, an ingest of the same source and delivery whose
  -- required texts are given, whatever else it holds, answers `duplicate_delivery` with that
  -- signal and writes nothing.
  pub ingest_again :
      (input again : IngestSignalInput) (id correlation next_id next_correlation : String)
      (now later : ℕ) (s t : Store) (r : IngestSignalResult)
      → ingest redact hash input id correlation now s ≡ (ok r, t)
      → again.source_type ≡ input.source_type
      → again.delivery_id ≡ input.delivery_id
      → check_ingest again ≡ ok tt
      → ingest redact hash again next_id next_correlation later t
        ≡ (ok (record { kind = duplicate_delivery; signal = r.signal }), t)
  unfolding ingest
  ingest_again input again id correlation next_id next_correlation now later s t r done e f
        checked =
      rw (ingest, checked, e, f, ingest_found input id correlation now s t r done) refl

  -- An ingest that creates a signal under a binding found that binding in the store, enabled and
  -- of the signal's own workspace.
  pub ingest_isolated :
      (input : IngestSignalInput) (id correlation : String) (now : ℕ) (s t : Store)
      (r : IngestSignalResult) (bid : String)
      → ingest redact hash input id correlation now s ≡ (ok r, t)
      → r.kind ≡ created
      → input.binding_id ≡ some bid
      → bid ≢ ""
      → (b : WorkspaceSourceBindingRecord) × (find_binding_by_id bid s ≡ some b)
        × (b.workspace_id ≡ r.signal.workspace_id)
        × (b.enabled ≡ true)
  unfolding new_signal
  ingest_isolated input id correlation now s t r bid done kind given real =
      let checked = check_binding_of_created input id correlation now s t r done kind in
      let (b, found, same, on) = check_binding-ok input s bid given real checked.0 in
      (b, found, same ∙ ap (λ x. x.workspace_id) (sym checked.1), on)
