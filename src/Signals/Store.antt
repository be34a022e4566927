-- ===== src/Signals/Store.antt =====
-- `InMemoryDomainSignalStore` of packages/domain-signals/src/in-memory-domain-signal-store.ts: its
-- two maps as lists of rows in the order of insertion. A new id and the time are arguments.
use operaia_lab.Common.{
  ℕ, String, Bool, true, not, ◌&&◌, List, [], ◌∷◌, ◌++◌, Option, none, some, ◌==◌, string_same,
  if◌then◌else◌, ltb, keep, find_by, take,
}
use operaia_lab.Json.{Json}
use operaia_lab.Signals.Model.{
  DomainSignalRecord, WorkspaceSourceBindingRecord, UpsertBindingInput, SignalError,
  signal_not_found, delivery_exists, detected,
}

pub data Result (A : Type 0) : Type 0 where
  ok : A → Result A
  err : SignalError → Result A

pub record Store : Type 0 where
  pub bindings : List WorkspaceSourceBindingRecord
  pub signals : List DomainSignalRecord

abbrev pub or_else {ℓ} : {A : Type ℓ} → Option A → A → A
or_else none d = d
or_else (some a) d = a

unfoldable pub find_signal : String → List DomainSignalRecord → Option DomainSignalRecord
find_signal id [] = none
find_signal id (r ∷ rs) = if r.id == id then some r else find_signal id rs

abbrev pub find_by_id : String → Store → Option DomainSignalRecord
find_by_id id s = find_signal id s.signals

-- `map.set(id, row)` where the key is there.
unfoldable pub put_signal :
    String → DomainSignalRecord → List DomainSignalRecord → List DomainSignalRecord
put_signal id row [] = []
put_signal id row (r ∷ rs) = if r.id == id then row ∷ rs else r ∷ put_signal id row rs

unfoldable pub put_binding :
    WorkspaceSourceBindingRecord
    → List WorkspaceSourceBindingRecord
    → List WorkspaceSourceBindingRecord
put_binding row [] = []
put_binding row (b ∷ bs) = if b.id == row.id then row ∷ bs else b ∷ put_binding row bs

abbrev pub binds : String → String → String → WorkspaceSourceBindingRecord → Bool
binds workspace_id source_type external_ref row =
    row.workspace_id == workspace_id
    && row.source_type == source_type
    && row.external_ref == external_ref

unfoldable pub find_binding : String → String → String → Store → Option WorkspaceSourceBindingRecord
find_binding workspace_id source_type external_ref s =
    find_by (binds workspace_id source_type external_ref) s.bindings

unfoldable pub find_binding_by_id : String → Store → Option WorkspaceSourceBindingRecord
find_binding_by_id id s = find_by (λ row. row.id == id) s.bindings

abbrev updated_binding :
    UpsertBindingInput → ℕ → WorkspaceSourceBindingRecord → WorkspaceSourceBindingRecord
updated_binding input now existing = record existing {
  enabled = or_else input.enabled existing.enabled;
  config_json = or_else input.config_json existing.config_json;
  secret_ref = or_else input.secret_ref existing.secret_ref;
  updated_at = now;
}

abbrev created_binding : UpsertBindingInput → String → ℕ → WorkspaceSourceBindingRecord
created_binding input id now = record {
  id = id;
  workspace_id = input.workspace_id;
  source_type = input.source_type;
  external_ref = input.external_ref;
  enabled = or_else input.enabled true;
  config_json = or_else input.config_json none;
  secret_ref = or_else input.secret_ref none;
  created_at = now;
  updated_at = now;
}

unfoldable pub upsert_binding :
    UpsertBindingInput → String → ℕ → Store → WorkspaceSourceBindingRecord × Store
unfolding find_binding put_binding
upsert_binding input id now s =
    elim (find_binding input.workspace_id input.source_type input.external_ref s) [
      | some existing ↦
          let updated = updated_binding input now existing in
          (updated, record s { bindings = put_binding updated s.bindings })
      | none ↦
          let fresh = created_binding input id now in
          (fresh, record s { bindings = s.bindings ++ (fresh ∷ []) })
    ]

unfoldable pub find_delivery : String → String → List DomainSignalRecord → Option DomainSignalRecord
find_delivery source_type delivery_id [] = none
find_delivery source_type delivery_id (r ∷ rs) =
    if r.source_type == source_type && r.delivery_id == delivery_id
    then some r
    else find_delivery source_type delivery_id rs

abbrev pub find_by_delivery : String → String → Store → Option DomainSignalRecord
find_by_delivery source_type delivery_id s = find_delivery source_type delivery_id s.signals

-- What `createSignal` is given, with the row's id and time.
pub record CreateDomainSignalData : Type 0 where
  pub id : String
  pub now : ℕ
  pub workspace_id : String
  pub binding_id : Option String
  pub source_type : String
  pub source_id : Option String
  pub type : String
  pub delivery_id : String
  pub signal_hash : String
  pub correlation_id : String
  pub payload_json : Json
  pub metadata_json : Option Json
  pub occurred_at : Option ℕ
  pub expires_at : Option ℕ
  pub payload_version : ℕ

unfoldable pub new_signal : CreateDomainSignalData → DomainSignalRecord
new_signal d = record {
  id = d.id;
  workspace_id = d.workspace_id;
  binding_id = d.binding_id;
  source_type = d.source_type;
  source_id = d.source_id;
  type = d.type;
  delivery_id = d.delivery_id;
  signal_hash = d.signal_hash;
  correlation_id = d.correlation_id;
  status = detected;
  payload_json = d.payload_json;
  metadata_json = d.metadata_json;
  evaluation_decision = none;
  evaluation_policy = none;
  evaluation_reason = none;
  evaluation_json = none;
  evaluated_at = none;
  mission_id = none;
  payload_version = d.payload_version;
  occurred_at = d.occurred_at;
  received_at = d.now;
  converted_at = none;
  resolved_at = none;
  expires_at = d.expires_at;
  created_at = d.now;
  updated_at = d.now;
}

-- The id is a new UUID, which no row has: `map.set` adds the row at the end.
unfoldable pub create_signal : CreateDomainSignalData → Store → Result DomainSignalRecord × Store
create_signal d s = elim (find_by_delivery d.source_type d.delivery_id s) [
  | some dup ↦ (err (delivery_exists d.source_type d.delivery_id), s)
  | none ↦ (ok (new_signal d), record s { signals = s.signals ++ (new_signal d ∷ []) })
]

-- A patch is the change that it makes to a row; `updatedAt` is set beside it.
unfoldable pub update_signal :
    String
    → ℕ
    → (DomainSignalRecord → DomainSignalRecord)
    → Store
    → Result DomainSignalRecord × Store
update_signal id now patch s = elim (find_by_id id s) [
  | none ↦ (err (signal_not_found id), s)
  | some existing ↦
      let updated : DomainSignalRecord = record (patch existing) { updated_at = now } in
      (ok updated, record s { signals = put_signal id updated s.signals })
]

-- The sort by `receivedAt`, the latest first; rows of one time keep their order.
unfoldable pub insert_latest :
    DomainSignalRecord → List DomainSignalRecord → List DomainSignalRecord
insert_latest r [] = r ∷ []
insert_latest r (x ∷ xs) =
    if ltb r.received_at x.received_at then x ∷ insert_latest r xs else r ∷ x ∷ xs

unfoldable pub sort_latest : List DomainSignalRecord → List DomainSignalRecord
unfolding insert_latest
sort_latest [] = []
sort_latest (x ∷ xs) = insert_latest x (sort_latest xs)

abbrev is_similar : String → String → String → DomainSignalRecord → Bool
is_similar workspace_id signal_hash exclude_id row =
    row.workspace_id == workspace_id && row.signal_hash == signal_hash && not (row.id == exclude_id)

unfoldable pub find_by_signal_hash : String → String → String → ℕ → Store → List DomainSignalRecord
unfolding sort_latest
find_by_signal_hash workspace_id signal_hash exclude_id limit s =
    take limit (sort_latest (keep (is_similar workspace_id signal_hash exclude_id) s.signals))
