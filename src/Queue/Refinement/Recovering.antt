-- ===== src/Queue/Refinement/Recovering.antt =====
-- The recoveries refine the state machine.
use operaia_lab.Common.{
  ℕ, ◌+◌, String, true, List, [], ◌∷◌, ◌≡◌, arith, refl, Memᴰ, if◌then◌else◌, All, ◌==◌, nat_same,
  string_same, str_iff, All-map, All-keep, All-of_Memᴰ,
}
use operaia_lab.Queue.Model.{Mission, Tables, is_failed}
use operaia_lab.Queue.Rows.{HasUniqueIds}
use operaia_lab.Queue.Rows.Laws.{find_row_of_Memᴰ}
use operaia_lab.Queue.Client.{PrismaClient}
use operaia_lab.Queue.Recovery.{
  to_recovered, to_requeued, still_failed, is_retryable, recover_running_rows,
  recover_stale_running, recover_failed_rows, recover_failed_retryable, consolidate_rows,
  recover_waiting_parents, unblock_rows, recover_blocked_dag,
}
use operaia_lab.Queue.Lifecycle.{RowStep, recovers, requeues, Evolves}
use operaia_lab.Queue.Lifecycle.Evolution.{At-of_find_row, find_row_of_At}
use operaia_lab.Queue.Lifecycle.Leases.{SameIdentity, Kept, Evolves-Kept}
use operaia_lab.Queue.Refinement.Rules.{
  FollowsAt, Follows, bind-Follows, bind-FollowsAt, bind_follows_from, return-Follows, read-Follows,
  read_returns, append_event-Follows, update_many-FollowsAt, elim-Follows, elim-FollowsAt,
  follows_unique,
}
use operaia_lab.Queue.Refinement.Settling.{owns-running, unblock-Follows}
use operaia_lab.Queue.Refinement.Handlers.{maybe_enqueue_consolidation-Follows}

module _ (db : PrismaClient) where
  recover_running_rows-Follows :
      (now recovered : ℕ) (rows : List Mission)
      → Follows (recover_running_rows db now recovered rows)
  unfolding recover_running_rows to_recovered
  recover_running_rows-Follows now recovered [] ts = return-Follows recovered ts
  recover_running_rows-Follows now recovered (m ∷ ms) ts =
      bind-FollowsAt _ _ ts
        (update_many-FollowsAt db _ (to_recovered now) ts
          (λ u x mem e. recovers now (owns-running m.id m.lease_version x e)) (λ x. refl))
        (λ count.
          elim-Follows (count == 1) _ _
            (bind-Follows _ _ (append_event-Follows db m.id _ _)
              (λ v. recover_running_rows-Follows now (recovered + 1) ms))
            (recover_running_rows-Follows now recovered ms))

  pub recover_stale_running-Follows :
      (stale_after now : ℕ) → Follows (recover_stale_running db stale_after now)
  unfolding recover_stale_running
  recover_stale_running-Follows stale_after now =
      bind-Follows _ _ (read-Follows _) (λ rows. recover_running_rows-Follows now 0 rows)

  -- A listed row that is written is still the row that was tested.
  requeue_step :
      (now : ℕ) (m x : Mission) (ts : Tables)
      → Kept m ts.missions
      → is_retryable now m ≡ true
      → HasUniqueIds ts.missions
      → Memᴰ x ts.missions
      → still_failed m.id m.attempt x ≡ true
      → RowStep x (to_requeued now x)
  unfolding still_failed
  requeue_step now m x ts kept r u mem e =
      let (y, found, same) = find_row_of_At (SameIdentity m) m.id ts.missions kept in
      requeues now (ground arith)
        (ground (arith, str_iff x.id m.id, find_row_of_Memᴰ ts.missions u mem))

  Kept-later :
      (rows : List Mission) {ms ns : List Mission}
      → Evolves ms ns
      → All (λ m. Kept m ms) rows
      → All (λ m. Kept m ns) rows
  Kept-later rows {ms} {ns} h k =
      All-map (λ m. Kept m ms) (λ m. Kept m ns) rows (λ m. Evolves-Kept m h) k

  recover_failed_rows-Follows :
      (now recovered : ℕ) (rows : List Mission) (ts : Tables)
      → All (λ m. Kept m ts.missions) rows
      → FollowsAt (recover_failed_rows db now recovered rows) ts
  unfolding recover_failed_rows to_requeued
  recover_failed_rows-Follows now recovered [] ts k = return-Follows recovered ts
  recover_failed_rows-Follows now recovered (m ∷ ms) ts (kept, k) =
      elim-FollowsAt (is_retryable now m) _ _ ts
        (λ e.
          bind_follows_from _ _ ts
            (update_many-FollowsAt db _ (to_requeued now) ts
              (λ u x mem f. requeue_step now m x ts kept e u mem f) (λ x. refl))
            (λ count us h.
              elim-FollowsAt (count == 1) _ _ us
                (λ hit. bind_follows_from _ _ us (append_event-Follows db m.id _ _ us) (λ v vs h'.
                  recover_failed_rows-Follows now (recovered + 1) ms vs
                    (Kept-later ms h' (Kept-later ms h k))))
                (λ miss. recover_failed_rows-Follows now recovered ms us (Kept-later ms h k))))
        (λ e. recover_failed_rows-Follows now recovered ms ts k)

  All-Kept : (ms : List Mission) → HasUniqueIds ms → All (λ m. Kept m ms) ms
  All-Kept ms u =
      All-of_Memᴰ (λ m. Kept m ms) ms
        (λ m mem.
          At-of_find_row (SameIdentity m) m.id ms (find_row_of_Memᴰ ms u mem) (ground arith))

  pub recover_failed_retryable-Follows : (now : ℕ) → Follows (recover_failed_retryable db now)
  unfolding recover_failed_retryable
  recover_failed_retryable-Follows now ts = read_returns _ _ ts (
      follows_unique _ ts (λ u. rw (db.find_many_lem (λ m. is_failed m.status) ts) (
        recover_failed_rows-Follows now 0 _ ts (
          All-keep (λ m. Kept m ts.missions) (λ m. is_failed m.status) ts.missions
            (All-Kept ts.missions u)))))

  consolidate_rows-Follows :
      (sha256_hex : String → String) (now scheduled : ℕ) (roots : List Mission)
      → Follows (consolidate_rows db sha256_hex now scheduled roots)
  unfolding consolidate_rows
  consolidate_rows-Follows sha now scheduled [] = return-Follows scheduled
  consolidate_rows-Follows sha now scheduled (root ∷ roots) =
      bind-Follows _ _ (maybe_enqueue_consolidation-Follows db sha root.id now)
        (λ done. consolidate_rows-Follows sha now (if done then scheduled + 1 else scheduled) roots)

  pub recover_waiting_parents-Follows :
      (sha256_hex : String → String) (now : ℕ) → Follows (recover_waiting_parents db sha256_hex now)
  unfolding recover_waiting_parents
  recover_waiting_parents-Follows sha now =
      bind-Follows _ _ (read-Follows _) (λ roots. consolidate_rows-Follows sha now 0 roots)

  unblock_rows-Follows :
      (now promoted : ℕ) (rows : List Mission) → Follows (unblock_rows db now promoted rows)
  unfolding unblock_rows
  unblock_rows-Follows now promoted [] = return-Follows promoted
  unblock_rows-Follows now promoted (m ∷ ms) = bind-Follows _ _ (read-Follows _) (λ preds.
      bind-Follows _ _ (read-Follows _) (λ done.
        elim-Follows done _ _
          (bind-Follows _ _ (unblock-Follows db m.id now _)
            (λ v. unblock_rows-Follows now (promoted + 1) ms))
          (unblock_rows-Follows now promoted ms)))

  pub recover_blocked_dag-Follows : (now : ℕ) → Follows (recover_blocked_dag db now)
  unfolding recover_blocked_dag
  recover_blocked_dag-Follows now =
      bind-Follows _ _ (read-Follows _) (λ rows. unblock_rows-Follows now 0 rows)
