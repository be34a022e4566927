-- ===== src/Supervisor/Dispatch.antt =====
-- A dispatch and the latches that are CONSUMED when it starts.
use operaia_lab.Common.{
  ℕ, String, Bool, true, false, not, ◌&&◌, ◌||◌, List, [], ◌∷◌, ◌++◌, Option, none, some, ◌≡◌, refl,
  ◌==◌, string_same, if◌then◌else◌, inl, inr, arith, str_iff, Bool-cases,
}
use operaia_lab.Common.Effects.{
  Result, ok, err, return, try_catch, ◌>>=◌, Ends, bind-Ends, if_Ends, return-Ends, throw-Ends,
  try_catch-Ends,
}
use operaia_lab.Supervisor.Types.{CoordinationRequest}
use operaia_lab.Supervisor.Latch.{
  CoordinationLatchKey, coordination_latch_key_of, CoordinationAcquireResult, not_acquired,
  acquired, AcquireMode, fresh, reclaim, is_exhausted_mission_latch_reason, has_key, find_latch,
}
use operaia_lab.Supervisor.Calls.{try_acquire-consumed}
use operaia_lab.Supervisor.Exclusion.{
  LatchCall, acquires, releases, releases_absent, completes, latch_step, keeps, IsConsumedLatch,
  latch_step-IsConsumedLatch,
}
use operaia_lab.Supervisor.Dispatcher.{
  DispatcherPorts, Dispatching, EnqueueResult, latch_key_for, D, ask, try_acquire_latch,
  release_latch, complete_latch, release_absent_latches, find_existing, record_created,
  settle_enqueued, enqueue_request, dispatch_acquired, dispatch_request, dispatch_requests, look_up,
  complete_or_enqueue, dispatch_gated,
}

-- The request has a latch of another key.
abbrev is_other : CoordinationLatchKey → CoordinationRequest → Bool
is_other key req =
    not (coordination_latch_key_of (latch_key_for req) == coordination_latch_key_of key)

-- No request of the list has the latch of this key.
abbrev pub none_for : CoordinationLatchKey → List CoordinationRequest → Bool
none_for key [] = true
none_for key (req ∷ requests) = is_other key req && none_for key requests

none_for-append :
    (key : CoordinationLatchKey) (requests : List CoordinationRequest) (req : CoordinationRequest)
    → none_for key requests ≡ true
    → is_other key req ≡ true
    → none_for key (requests ++ (req ∷ [])) ≡ true
none_for-append key [] req h k = ground (arith, k)
none_for-append key (r ∷ requests) req h k = ground (arith, k, h, none_for-append key requests req)

module _ {W : Type 0} (ports : DispatcherPorts W) (key : CoordinationLatchKey) where
  -- The latch is consumed and no coordination of its key was created.
  pub record Shut (s : Dispatching W) : Type 0 where
    pub latch : IsConsumedLatch key s.latches
    pub untouched : none_for key s.coordinations ≡ true

  abbrev pub KeepsShut : {A : Type 0} → D ports A → Type 0
  KeepsShut m = (s : Dispatching W) → Shut s → Ends (λ a t. Shut t) (λ e t. Shut t) (m s)

  pub return-KeepsShut : {A : Type 0} (a : A) → KeepsShut (return a)
  return-KeepsShut a s h = return-Ends a s h

  pub bind-KeepsShut :
      {A B : Type 0} (m : D ports A) (f : A → D ports B)
      → KeepsShut m
      → ((a : A) → KeepsShut (f a))
      → KeepsShut (m >>= f)
  bind-KeepsShut m f h k s i = bind-Ends (λ a t. Shut t) m f s (h s i) (λ a t j. k a t j)

  if_KeepsShut :
      {A : Type 0} (b : Bool) (m n : D ports A)
      → KeepsShut m
      → KeepsShut n
      → KeepsShut (if b then m else n)
  if_KeepsShut b m n h k s i = if_Ends b m n s (λ e. h s i) (λ e. k s i)

  try_catch-KeepsShut :
      {A : Type 0} (m : D ports A) (f : String → D ports A)
      → KeepsShut m
      → ((e : String) → KeepsShut (f e))
      → KeepsShut (try_catch m f)
  try_catch-KeepsShut m f h k s i = try_catch-Ends (λ e t. Shut t) m f s (h s i) (λ e t j. k e t j)

  pub ask-KeepsShut : {A : Type 0} (f : W → Result String A × W) → KeepsShut (ask ports f)
  unfolding ask
  ask-KeepsShut {A} f s h = answered (f s.world).0
    where
      answered :
          (r : Result String A)
          → Ends (λ a t. Shut t) (λ e t. Shut t) (r, record s { world = (f s.world).1 })
      answered (ok a) = record { holds = record { latch = h.latch; untouched = h.untouched } }
      answered (err e) = record { holds = record { latch = h.latch; untouched = h.untouched } }

  -- A call of the store that keeps the latch.
  latch_step-Shut :
      (c : LatchCall) (s : Dispatching W)
      → keeps key (is_exhausted_mission_latch_reason key.reason) c ≡ true
      → Shut s
      → Shut (record s { latches = latch_step c s.latches })
  latch_step-Shut c s kept h = record {
    latch = latch_step-IsConsumedLatch key c s.latches kept h.latch;
    untouched = h.untouched;
  }

  complete_latch-KeepsShut :
      (k : CoordinationLatchKey) (id : String) → KeepsShut (complete_latch ports k id)
  unfolding complete_latch latch_step keeps
  complete_latch-KeepsShut k id s h = record {
    holds = latch_step-Shut (completes k id (ports.clock s.world)) s refl h;
  }

  pub release_absent_latches-KeepsShut :
      (keys : List CoordinationLatchKey)
      → is_exhausted_mission_latch_reason key.reason || has_key (coordination_latch_key_of key) keys
        ≡ true
      → KeepsShut (release_absent_latches ports keys)
  unfolding release_absent_latches latch_step keeps
  release_absent_latches-KeepsShut keys k s h = record {
    holds = latch_step-Shut (releases_absent keys) s k h;
  }

  look_up-KeepsShut :
      (req : CoordinationRequest) (latched_at : ℕ)
      (find : Option (String → String → ℕ → W → Result String (Option String) × W))
      → KeepsShut (look_up ports req latched_at find)
  look_up-KeepsShut req latched_at none = return-KeepsShut none
  look_up-KeepsShut req latched_at (some find) = ask-KeepsShut _

  find_existing-KeepsShut :
      (req : CoordinationRequest) (mode : AcquireMode) (latched_at : ℕ)
      → KeepsShut (find_existing ports req mode latched_at)
  unfolding find_existing
  find_existing-KeepsShut req fresh latched_at = return-KeepsShut none
  find_existing-KeepsShut req reclaim latched_at =
      look_up-KeepsShut req latched_at ports.find_by_objective_hash

  module _ (req : CoordinationRequest) (other : is_other key req ≡ true) where
    release_latch-KeepsShut : KeepsShut (release_latch ports (latch_key_for req))
    unfolding release_latch latch_step keeps
    release_latch-KeepsShut s h = record {
      holds = latch_step-Shut (releases (latch_key_for req)) s other h;
    }

    record_created-KeepsShut : KeepsShut (record_created ports req)
    unfolding record_created
    record_created-KeepsShut s h = record {
      holds = record {
        latch = h.latch;
        untouched = none_for-append key s.coordinations req h.untouched other;
      };
    }

    settle_enqueued-KeepsShut :
        (result : EnqueueResult) → KeepsShut (settle_enqueued ports req result)
    unfolding settle_enqueued
    settle_enqueued-KeepsShut result = if_KeepsShut (result.id == "") _ _ release_latch-KeepsShut (
        bind-KeepsShut _ _ (complete_latch-KeepsShut (latch_key_for req) result.id)
          (λ _. if_KeepsShut result.created _ _ record_created-KeepsShut (return-KeepsShut tt)))

    enqueue_request-KeepsShut : KeepsShut (enqueue_request ports req)
    unfolding enqueue_request
    enqueue_request-KeepsShut = bind-KeepsShut _ _ (ask-KeepsShut _) settle_enqueued-KeepsShut

    complete_or_enqueue-KeepsShut :
        (existing : Option String) → KeepsShut (complete_or_enqueue ports req existing)
    complete_or_enqueue-KeepsShut none = enqueue_request-KeepsShut
    complete_or_enqueue-KeepsShut (some id) = complete_latch-KeepsShut (latch_key_for req) id

    dispatch_acquired-KeepsShut :
        (mode : AcquireMode) (latched_at : ℕ)
        → KeepsShut (dispatch_acquired ports req mode latched_at)
    unfolding dispatch_acquired
    dispatch_acquired-KeepsShut mode latched_at =
        bind-KeepsShut _ _ (find_existing-KeepsShut req mode latched_at)
          complete_or_enqueue-KeepsShut

    dispatch_gated-KeepsShut :
        (gate : CoordinationAcquireResult) → KeepsShut (dispatch_gated ports req gate)
    dispatch_gated-KeepsShut not_acquired = return-KeepsShut tt
    dispatch_gated-KeepsShut (acquired latched_at mode) =
        try_catch-KeepsShut _ _ (dispatch_acquired-KeepsShut mode latched_at)
          (λ e. bind-KeepsShut _ _ release_latch-KeepsShut (λ _ s h. throw-Ends e s h))

  -- What the gate answers for a request of this key.
  abbrev Gated : CoordinationRequest → CoordinationAcquireResult → Dispatching W → Type 0
  Gated req gate t = Shut t × (is_other key req ≡ false → gate ≡ not_acquired)

  try_acquire_latch-Gated :
      (req : CoordinationRequest) (s : Dispatching W)
      → Shut s
      → Ends (Gated req) (λ e t. Shut t) (try_acquire_latch ports (latch_key_for req) s)
  unfolding try_acquire_latch latch_step keeps
  try_acquire_latch-Gated req s h = record {
    holds = (
      latch_step-Shut (acquires (latch_key_for req) ports.pending_stale_ms (ports.clock s.world)) s
          refl h,
      λ same.
          let own : find_latch (coordination_latch_key_of (latch_key_for req)) s.latches
              ≡ some h.latch.latch =
            ground (
              arith,
              same,
              h.latch.found,
              str_iff (coordination_latch_key_of (latch_key_for req))
                  (coordination_latch_key_of key),
            ) in
          rw
            (try_acquire-consumed (latch_key_for req) ports.pending_stale_ms (ports.clock s.world)
              h.latch.latch s.latches own h.latch.status)
            refl,
    );
  }

  Gated-KeepsShut :
      (req : CoordinationRequest) (gate : CoordinationAcquireResult) (t : Dispatching W)
      → Gated req gate t
      → Ends (λ a t. Shut t) (λ e t. Shut t) (dispatch_gated ports req gate t)
  Gated-KeepsShut req gate t (h, skips) = elim (Bool-cases (is_other key req)) [
    | inl other ↦ dispatch_gated-KeepsShut req other gate t h
    | inr same ↦ rw (skips same) (return-KeepsShut tt t h)
  ]

  dispatch_request-KeepsShut : (req : CoordinationRequest) → KeepsShut (dispatch_request ports req)
  unfolding dispatch_request
  dispatch_request-KeepsShut req s h =
      bind-Ends (Gated req) _ _ s (try_acquire_latch-Gated req s h) (Gated-KeepsShut req)

  pub dispatch_requests-KeepsShut :
      (requests : List CoordinationRequest) → KeepsShut (dispatch_requests ports requests)
  unfolding dispatch_requests
  dispatch_requests-KeepsShut [] = return-KeepsShut tt
  dispatch_requests-KeepsShut (req ∷ requests) =
      bind-KeepsShut _ _ (dispatch_request-KeepsShut req)
        (λ _. dispatch_requests-KeepsShut requests)
