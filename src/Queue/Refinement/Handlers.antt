-- ===== src/Queue/Refinement/Handlers.antt =====
-- `enqueue`, `claim` and the consolidation refine the state machine.
use operaia_lab.Common.{
  not, ℕ, String, Bool, true, false, Option, none, some, ◌≡◌, arith, refl, Memᴰ,
}
use operaia_lab.Json.{Json}
use operaia_lab.Queue.Model.{
  Mission, MissionKind, coordinate, execute, consolidate, Tables, EnqueueMissionInput,
  ClaimCriteria, ok, or_else, is_waiting,
}
use operaia_lab.Queue.Contract.{ResolvedEnqueueContract, resolve_kind, resolve_enqueue_contract}
use operaia_lab.Queue.Rows.Laws.{find_row_of_Memᴰ}
use operaia_lab.Queue.Client.{PrismaClient}
use operaia_lab.Queue.Enqueue.{new_mission, reuse_or_create, should_dedupe, enqueue}
use operaia_lab.Queue.Claim.{claimable, lease_to, lease_row, claim_first, claim}
use operaia_lab.Queue.Claim.Selection.{Selects, query_raw-Selects}
use operaia_lab.Queue.Settle.{to_completed}
use operaia_lab.Queue.Consolidate.{
  complete_consolidation, enqueue_consolidation, note_consolidation, consolidation_of, work_is_done,
  consolidate_once, consolidate_root, maybe_enqueue_consolidation, consolidate_children,
}
use operaia_lab.Queue.Lifecycle.{claims, consolidates, IsNew, HasContract}
use operaia_lab.Queue.Refinement.Rules.{
  require-Follows, FollowsAt, Follows, bind-Follows, bind-FollowsAt, return-Follows, read-Follows,
  lift-Follows, or_throw-Follows, append_event-Follows, create-Follows, update-FollowsAt,
  read_returns, lift_returns, if_Follows,
}
use operaia_lab.Queue.Refinement.Settling.{complete-Follows, update_row-Follows}

resolve_kind-contract :
    (k : MissionKind) (input : EnqueueMissionInput) (hash id : String) (now : ℕ)
    {c : ResolvedEnqueueContract}
    → resolve_kind k input ≡ ok c
    → HasContract (new_mission input c hash now id) c.mission_kind
unfolding resolve_kind
resolve_kind-contract coordinate input hash id now h = ground arith
resolve_kind-contract execute input hash id now h = ground arith
resolve_kind-contract consolidate input hash id now h = ground arith

-- What `enqueue` inserts meets the contract of its kind.
pub new_mission-IsNew :
    (input : EnqueueMissionInput) (hash id : String) (now : ℕ) {c : ResolvedEnqueueContract}
    → resolve_enqueue_contract input ≡ ok c
    → IsNew (new_mission input c hash now id)
unfolding resolve_enqueue_contract
new_mission-IsNew input hash id now h = record {
  is_queued = refl;
  no_attempt = refl;
  no_lease = refl;
  no_progress = refl;
  contract = resolve_kind-contract (or_else input.mission_kind coordinate) input hash id now h;
}

module _ (db : PrismaClient) where
  reuse_or_create-Follows :
      (existing : Option Mission) (row : String → Mission)
      → ((id : String) → IsNew (row id))
      → ((id : String) → (row id).id ≡ id)
      → Follows (reuse_or_create db existing row)
  reuse_or_create-Follows none row new keyed =
      bind-Follows _ _ (create-Follows db row new keyed) (λ mission.
        bind-Follows _ _ (append_event-Follows db _ _ _) (λ v. return-Follows (mission, true)))
  reuse_or_create-Follows (some twin) row new keyed = return-Follows (twin, false)

  pub enqueue-Follows :
      (sha256_hex : String → String) (input : EnqueueMissionInput) (now : ℕ)
      → Follows (enqueue db sha256_hex input now)
  unfolding enqueue
  enqueue-Follows sha input now ts = lift_returns (resolve_enqueue_contract input) _ ts (λ c r.
      bind-Follows _ _
        (if_Follows (should_dedupe input c.mission_kind) _ _ (read-Follows _) (return-Follows none))
        (λ existing.
          reuse_or_create-Follows existing _ (λ id. new_mission-IsNew input _ id now r)
            (λ id. refl))
        ts)

  lease_row-FollowsAt :
      (c : ClaimCriteria) (now : ℕ) (row : Mission) (ts : Tables)
      → Memᴰ row ts.missions
      → claimable c now row ≡ true
      → FollowsAt (lease_row db c now (some row)) ts
  unfolding lease_to
  lease_row-FollowsAt c now row ts mem e =
      bind-FollowsAt _ _ ts
        (update-FollowsAt db row.id (lease_to c.employee_id now) ts
          (λ u m m_mem same.
            claims c now
              (cc (e, find_row_of_Memᴰ ts.missions u mem, find_row_of_Memᴰ ts.missions u m_mem)))
          (λ m. refl))
        (λ written. bind-Follows _ _ (or_throw-Follows _ written) (λ updated.
          bind-Follows _ _ (append_event-Follows db _ _ _) (λ v. return-Follows (some updated))))

  lease_selected-FollowsAt :
      (c : ClaimCriteria) (now : ℕ) (row : Option Mission) (ts : Tables)
      → Selects (claimable c now) (db.locked ts) ts.missions row
      → FollowsAt (lease_row db c now row) ts
  lease_selected-FollowsAt c now none ts s = return-Follows none ts
  lease_selected-FollowsAt c now (some row) ts s = lease_row-FollowsAt c now row ts s.0 s.1

  claim_first-Follows : (c : ClaimCriteria) (now : ℕ) → Follows (claim_first db c now)
  unfolding claim_first
  claim_first-Follows c now ts =
      read_returns _ _ ts (lease_selected-FollowsAt c now _ ts (query_raw-Selects db c now ts))

  pub claim-Follows : (c : ClaimCriteria) (now : ℕ) → Follows (claim db c now)
  unfolding claim
  claim-Follows c now =
      bind-Follows _ _ (read-Follows _)
        (λ rejects. bind-Follows _ _ (require-Follows _ _) (λ u. claim_first-Follows c now))

  pub complete_consolidation-Follows :
      (id root : String) (result : Json) (lease now : ℕ)
      → Follows (complete_consolidation db id root result lease now)
  unfolding complete_consolidation to_completed
  complete_consolidation-Follows id root result lease now =
      bind-Follows _ _ (read-Follows _) (λ row. bind-Follows _ _ (or_throw-Follows _ row) (λ before.
        bind-Follows _ _ (lift-Follows _) (λ merged.
          bind-Follows _ _ (complete-Follows db id merged lease now) (λ done.
            bind-Follows _ _
              (update_row-Follows db root (to_completed merged now) (λ m. consolidates merged now)
                (λ m. refl))
              (λ top.
                bind-Follows _ _ (append_event-Follows db root _ _)
                  (λ v. return-Follows (done, top)))))))

  module _ (sha256_hex : String → String) where
    note_consolidation-Follows :
        (root : String) (made : Bool) → Follows (note_consolidation db sha256_hex root made)
    note_consolidation-Follows root false = return-Follows false
    note_consolidation-Follows root true =
        bind-Follows _ _ (append_event-Follows db root _ _) (λ u. return-Follows true)

    consolidate_once-Follows :
        (root : Mission) (existing : Option Mission) (now : ℕ)
        → Follows (consolidate_once db sha256_hex root existing now)
    unfolding enqueue_consolidation
    consolidate_once-Follows root none now =
        bind-Follows _ _ (enqueue-Follows sha256_hex (consolidation_of root) now)
          (λ answer. note_consolidation-Follows root.id answer.1)
    consolidate_once-Follows root (some e) now = return-Follows false

    consolidate_root-Follows :
        (root : Option Mission) (now : ℕ) → Follows (consolidate_root db sha256_hex root now)
    unfolding consolidate_children
    consolidate_root-Follows none now = return-Follows false
    consolidate_root-Follows (some root) now =
        if_Follows (not (is_waiting root.status)) _ _ (return-Follows false) (
          bind-Follows _ _ (read-Follows _) (λ children.
            if_Follows (not (work_is_done children)) _ _ (return-Follows false) (
              bind-Follows _ _ (read-Follows _)
                (λ existing. consolidate_once-Follows root existing now))))

    pub maybe_enqueue_consolidation-Follows :
        (root : String) (now : ℕ) → Follows (maybe_enqueue_consolidation db sha256_hex root now)
    unfolding maybe_enqueue_consolidation
    maybe_enqueue_consolidation-Follows root now =
        bind-Follows _ _ (read-Follows _) (λ row. consolidate_root-Follows row now)
