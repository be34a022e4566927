-- ===== src/Queue/Refinement/Settling.antt =====
-- The settlements and the dependency graph refine the state machine.
use operaia_lab.Common.{
  ℕ, ◌+◌, String, true, List, [], ◌∷◌, none, some, ◌≡◌, arith, refl, Memᴰ, ◌==◌, ◌&&◌, nat_same,
  string_same, str_iff, Option-cases, Bool-cases, inl, inr,
}
use operaia_lab.Json.{Json}
use operaia_lab.Queue.Model.{
  Mission, MissionDependency, Tables, running, ok, err, not_found, stale_ownership, is_running,
}
use operaia_lab.Queue.Rows.{find_row, HasUniqueIds}
use operaia_lab.Queue.Rows.Laws.{find_row_of_Memᴰ}
use operaia_lab.Queue.Client.{PrismaClient, is_linked}
use operaia_lab.Queue.Enqueue.{append_event}
use operaia_lab.Queue.Monad.{M, ◌>>◌, return, ◌>>=◌, ask}
use operaia_lab.Queue.Settle.{
  owns, to_waiting, to_completed, to_retry, to_failed, to_ready, to_blocked, settle, get_or_throw,
  mark_waiting, update_row, link_dependency, promote_edges, unblock, promote_ready_dependents,
  complete, can_retry, failure, fail, fail_current,
}
use operaia_lab.Queue.Lifecycle.{RowStep, waits, completes, retries, fails, unblocks, blocks, here}
use operaia_lab.Queue.Refinement.Rules.{
  FollowsAt, Follows, bind-Follows, bind-FollowsAt, return-Follows, read-Follows, or_throw-Follows,
  require-Follows, append_event-Follows, update_many-FollowsAt, update-FollowsAt, elim-Follows,
  if_Follows, bind_returns, bind_throws,
}

pub owns-running :
    (id : String) (lease : ℕ) (m : Mission) → owns id lease m ≡ true → m.status ≡ running
unfolding owns
owns-running id lease m h = ground arith

pub owns-id : (id : String) (lease : ℕ) (m : Mission) → owns id lease m ≡ true → m.id ≡ id
unfolding owns
owns-id id lease m h = ground (arith, str_iff m.id id)

failure_step :
    (error : String) (now : ℕ) (m : Mission)
    → m.status ≡ running
    → RowStep m (failure m error now m)
failure_step error now m e = elim (Bool-cases (can_retry m)) [
  | inl r ↦ rw r (retries error now e (ground arith))
  | inr r ↦ rw r (fails error now e (ground arith))
]

pub failure-id :
    (current : Mission) (error : String) (now : ℕ) (m : Mission)
    → (failure current error now m).id ≡ m.id
unfolding to_retry to_failed
failure-id current error now m = ground arith

-- The row that `fail` writes is the row that it has read.
same_row :
    (id : String) (lease : ℕ) (ts : Tables) {current : Mission} (m : Mission)
    → HasUniqueIds ts.missions
    → find_row id ts.missions ≡ some current
    → Memᴰ m ts.missions
    → owns id lease m ≡ true
    → m ≡ current
same_row id lease ts m u found mem e = cc (owns-id id lease m e, find_row_of_Memᴰ ts.missions u mem)

module _ (db : PrismaClient) where
  settle-FollowsAt :
      (id : String) (lease : ℕ) (f : Mission → Mission) (ts : Tables)
      → (HasUniqueIds ts.missions
          → (m : Mission) → Memᴰ m ts.missions
          → owns id lease m ≡ true
          → RowStep m (f m))
      → ((m : Mission) → (f m).id ≡ m.id)
      → FollowsAt (settle db id lease f) ts
  unfolding settle
  settle-FollowsAt id lease f ts step keeps =
      bind-FollowsAt _ _ ts (update_many-FollowsAt db (owns id lease) f ts step keeps)
        (λ count. require-Follows _ _)

  pub get_or_throw-Follows : (id : String) → Follows (get_or_throw db id)
  unfolding get_or_throw
  get_or_throw-Follows id = bind-Follows _ _ (read-Follows _) (λ row. or_throw-Follows _ row)

  pub get_or_throw-some :
      (id : String) (ts : Tables) {m : Mission}
      → find_row id ts.missions ≡ some m
      → get_or_throw db id ts ≡ (ok m, ts)
  unfolding get_or_throw ◌>>=◌
  get_or_throw-some id ts e = rw (db.find_unique_lem id ts) (rw e refl)

  pub get_or_throw-none :
      (id : String) (ts : Tables)
      → find_row id ts.missions ≡ none
      → get_or_throw db id ts ≡ (err (not_found id), ts)
  unfolding get_or_throw ◌>>=◌
  get_or_throw-none id ts e = rw (db.find_unique_lem id ts) (rw e refl)

  -- What `markWaiting` and `fail` do once the row is written.
  abbrev pub reread : String → String → String → M Mission
  reread id type message = do
    mission ← get_or_throw db id
    append_event db id type message
    return mission

  pub reread-Follows : (id type message : String) → Follows (reread id type message)
  reread-Follows id type message =
      bind-Follows _ _ (get_or_throw-Follows id)
        (λ mission. bind-Follows _ _ (append_event-Follows db id _ _) (λ v. return-Follows mission))

  pub mark_waiting-Follows :
      (id : String) (partial : Json) (lease : ℕ) → Follows (mark_waiting db id partial lease)
  unfolding mark_waiting to_waiting
  mark_waiting-Follows id partial lease ts =
      bind-FollowsAt _ _ ts
        (settle-FollowsAt id lease (to_waiting partial) ts
          (λ u m mem e. waits partial (owns-running id lease m e)) (λ m. refl))
        (λ u. reread-Follows id _ _)

  pub update_row-Follows :
      (id : String) (f : Mission → Mission)
      → ((m : Mission) → RowStep m (f m))
      → ((m : Mission) → (f m).id ≡ m.id)
      → Follows (update_row db id f)
  unfolding update_row
  update_row-Follows id f step keeps =
      bind-Follows _ _ (λ ts. update-FollowsAt db id f ts (λ u m mem e. step m) keeps)
        (λ written. or_throw-Follows _ written)

  pub unblock-Follows :
      (id : String) (now : ℕ) (message : String) → Follows (unblock db id now message)
  unfolding unblock to_ready
  unblock-Follows id now message =
      bind-Follows _ _ (update_row-Follows id (to_ready now) (λ m. unblocks now) (λ m. refl))
        (λ written. append_event-Follows db id _ _)

  promote_edges-Follows :
      (now promoted : ℕ) (edges : List MissionDependency)
      → Follows (promote_edges db now promoted edges)
  unfolding promote_edges
  promote_edges-Follows now promoted [] = return-Follows promoted
  promote_edges-Follows now promoted (edge ∷ edges) = bind-Follows _ _ (read-Follows _) (λ done.
      elim-Follows done _ _
        (bind-Follows _ _ (unblock-Follows edge.mission_id now _)
          (λ u. promote_edges-Follows now (promoted + 1) edges))
        (promote_edges-Follows now promoted edges))

  pub promote_ready_dependents-Follows :
      (id : String) (now : ℕ) → Follows (promote_ready_dependents db id now)
  unfolding promote_ready_dependents
  promote_ready_dependents-Follows id now =
      bind-Follows _ _ (read-Follows _) (λ edges. promote_edges-Follows now 0 edges)

  -- What `complete` does once the row is written.
  abbrev pub complete_rest : String → ℕ → M Mission
  complete_rest id now = do
    mission ← get_or_throw db id
    append_event db id "completed" "Missao concluida"
    promoted ← promote_ready_dependents db id now
    return mission

  pub complete_rest-Follows : (id : String) (now : ℕ) → Follows (complete_rest id now)
  complete_rest-Follows id now = bind-Follows _ _ (get_or_throw-Follows id) (λ mission.
      bind-Follows _ _ (append_event-Follows db id _ _) (λ v.
        bind-Follows _ _ (promote_ready_dependents-Follows id now) (λ n. return-Follows mission)))

  pub complete-Follows :
      (id : String) (result : Json) (lease now : ℕ) → Follows (complete db id result lease now)
  unfolding complete to_completed
  complete-Follows id result lease now ts =
      bind-FollowsAt _ _ ts
        (settle-FollowsAt id lease (to_completed result now) ts
          (λ u m mem e. completes result now (owns-running id lease m e)) (λ m. refl))
        (λ u. complete_rest-Follows id now)

  upsert-Follows : (d : MissionDependency) → Follows (ask (db.dependency_upsert d))
  unfolding ◌>>=◌
  upsert-Follows d ts = record {
    evolves = λ u.
        rw (db.dependency_upsert_lem d ts)
          (elim (Bool-cases (is_linked d ts)) [ inl e ↦ rw e here | inr e ↦ rw e here ]);
  }

  pub link_dependency-Follows : (id on : String) → Follows (link_dependency db id on)
  unfolding link_dependency to_blocked
  link_dependency-Follows id on = if_Follows (id == on) _ _ (return-Follows tt) (
      bind-Follows _ _ (upsert-Follows _) (λ accepted.
        bind-Follows _ _ (require-Follows accepted _) (λ v.
          bind-Follows _ _ (update_row-Follows id to_blocked (λ m. blocks) (λ m. refl))
            (λ written. return-Follows tt))))

  fail_rest-Follows :
      (id error : String) (lease now : ℕ) (ts : Tables) (current : Mission)
      → find_row id ts.missions ≡ some current
      → FollowsAt (fail_current db id error lease now current) ts
  unfolding fail_current
  fail_rest-Follows id error lease now ts current e =
      elim (Bool-cases (is_running current.status && current.lease_version == lease)) [
        | inl owned ↦ bind_returns _ _ ts (rw owned (unfold ◌>>=◌ in refl)) (
            bind-FollowsAt _ _ ts
              (settle-FollowsAt id lease (failure current error now) ts
                (λ u m mem o.
                  rw (← same_row id lease ts m u e mem o)
                    (failure_step error now m (owns-running id lease m o)))
                (λ m. failure-id current error now m))
              (λ v. reread-Follows id _ _))
        | inr stale ↦
            bind_throws _ _ ts {e = stale_ownership id lease} (rw stale (unfold ◌>>=◌ in refl))
      ]

  pub fail-Follows : (id error : String) (lease now : ℕ) → Follows (fail db id error lease now)
  unfolding fail
  fail-Follows id error lease now ts = elim (Option-cases (find_row id ts.missions)) [
    | inl e ↦ bind_throws _ _ ts (get_or_throw-none id ts e)
    | inr (current, e) ↦
        bind_returns _ _ ts (get_or_throw-some id ts e)
          (fail_rest-Follows id error lease now ts current e)
  ]
