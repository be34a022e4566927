-- ===== src/Supervisor/Cycle.antt =====
-- A whole dispatch: the keys that it keeps, and a latch that is CONSUMED when it starts.
use operaia_lab.Common.{
  String, true, false, not, ◌||◌, List, [], ◌∷◌, ◌++◌, map, ◌≡◌, refl, string_same, inl, inr, arith,
  str_iff, Bool-cases,
}
use operaia_lab.Common.Effects.{
  Ends, Ends-map, bind-Ends, if_Ends, return-Ends, gets-Ends, try_catch-Ends,
}
use operaia_lab.Supervisor.Types.{CoordinationRequest, DispatchResult}
use operaia_lab.Supervisor.Latch.{
  CoordinationLatchKey, coordination_latch_key_of, Latches, is_exhausted_mission_latch_reason,
  has_key,
}
use operaia_lab.Supervisor.Exclusion.{IsConsumedLatch}
use operaia_lab.Supervisor.Requests.{collect_coordination_requests, exhausted_latch_keys}
use operaia_lab.Supervisor.Dispatcher.{
  DispatcherPorts, Dispatching, DispatchInput, latch_key_for, put_key, put_keys, open_keys,
  build_active_latch_keys, dispatch_collected, dispatch_result, dispatch_input, dispatch,
}
use operaia_lab.Supervisor.Dispatch.{
  none_for, Shut, KeepsShut, ask-KeepsShut, release_absent_latches-KeepsShut,
  dispatch_requests-KeepsShut,
}

has_key-append :
    (id : String) (keys more : List CoordinationLatchKey)
    → has_key id keys ≡ true
    → has_key id (keys ++ more) ≡ true
has_key-append id [] more h = ground arith
has_key-append id (k ∷ keys) more h = ground (arith, h, has_key-append id keys more)

has_key-append_own :
    (k : CoordinationLatchKey) (keys : List CoordinationLatchKey)
    → has_key (coordination_latch_key_of k) (keys ++ (k ∷ [])) ≡ true
has_key-append_own k [] =
    ground (arith, str_iff (coordination_latch_key_of k) (coordination_latch_key_of k))
has_key-append_own k (j ∷ keys) = ground (arith, has_key-append_own k keys)

has_key-put_key :
    (id : String) (k : CoordinationLatchKey) (keys : List CoordinationLatchKey)
    → has_key id keys ≡ true
    → has_key id (put_key k keys) ≡ true
has_key-put_key id k keys h = ground (arith, h, has_key-append id keys (k ∷ []))

has_key-put_keys :
    (id : String) (more keys : List CoordinationLatchKey)
    → has_key id keys ≡ true
    → has_key id (put_keys more keys) ≡ true
has_key-put_keys id [] keys h = h
has_key-put_keys id (k ∷ more) keys h =
    has_key-put_keys id more (put_key k keys) (has_key-put_key id k keys h)

has_key-put_key_own :
    (k : CoordinationLatchKey) (keys : List CoordinationLatchKey)
    → has_key (coordination_latch_key_of k) (put_key k keys) ≡ true
has_key-put_key_own k keys = ground (arith, has_key-append_own k keys)

-- The keys of the requests are among those put.
requested-has_key :
    (key : CoordinationLatchKey) (requests : List CoordinationRequest)
    (keys : List CoordinationLatchKey)
    → none_for key requests ≡ false
    → has_key (coordination_latch_key_of key) (put_keys (map latch_key_for requests) keys) ≡ true
requested-has_key key [] keys h = ground arith
requested-has_key key (req ∷ requests) keys h = ground (
  arith,
  h,
  str_iff (coordination_latch_key_of (latch_key_for req)) (coordination_latch_key_of key),
  has_key-put_keys (coordination_latch_key_of key) (map latch_key_for requests)
      (put_key (latch_key_for req) keys),
  has_key-put_key_own (latch_key_for req) keys,
  requested-has_key key requests (put_key (latch_key_for req) keys),
)

module _ {W : Type 0} (ports : DispatcherPorts W) (key : CoordinationLatchKey) where
  abbrev HasKey : List CoordinationLatchKey → Type 0
  HasKey keys = has_key (coordination_latch_key_of key) keys ≡ true

  -- The active keys hold every key of a request, whether the queue lists its missions or throws.
  build_active-Shut :
      (requests : List CoordinationRequest) (extra_keep : List CoordinationLatchKey)
      (s : Dispatching W)
      → Shut ports key s
      → none_for key requests ≡ false
      → Ends
          (λ keys t. Shut ports key t × HasKey keys)
          (λ e t. Shut ports key t)
          (build_active_latch_keys ports requests extra_keep s)
  unfolding build_active_latch_keys
  build_active-Shut requests extra_keep s h asked =
      let keys = put_keys extra_keep (put_keys (map latch_key_for requests) []) in
      let mine : HasKey keys =
        has_key-put_keys _ extra_keep _ (requested-has_key key requests [] asked) in
      try_catch-Ends (λ e t. Shut ports key t) _ _ s
        (bind-Ends (λ a t. Shut ports key t) _ _ s (ask-KeepsShut ports key (ports.list 200) s h)
          (λ missions t i. return-Ends _ t (i, has_key-put_keys _ (open_keys missions) keys mine)))
        (λ e t i. return-Ends keys t (i, mine))

  build_active-KeepsShut :
      (requests : List CoordinationRequest) (extra_keep : List CoordinationLatchKey)
      → KeepsShut ports key (build_active_latch_keys ports requests extra_keep)
  unfolding build_active_latch_keys
  build_active-KeepsShut requests extra_keep s h =
      try_catch-Ends (λ e t. Shut ports key t) _ _ s
        (bind-Ends (λ a t. Shut ports key t) _ _ s (ask-KeepsShut ports key (ports.list 200) s h)
          (λ missions t i. return-Ends _ t i))
        (λ e t i. return-Ends _ t i)

  -- What a dispatch returns is what it has created.
  abbrev Reports : DispatchResult → Dispatching W → Type 0
  Reports result t = Shut ports key t × (none_for key result.coordinations ≡ true)

  abbrev Kept : List CoordinationRequest → Type 0
  Kept requests = is_exhausted_mission_latch_reason key.reason || not (none_for key requests) ≡ true

  active-Kept :
      (requests : List CoordinationRequest) (extra_keep : List CoordinationLatchKey)
      (s : Dispatching W)
      → Kept requests
      → Shut ports key s
      → Ends
          (λ keys t.
            Shut ports key t
            × (is_exhausted_mission_latch_reason key.reason
                  || has_key (coordination_latch_key_of key) keys
                ≡ true))
          (λ e t. Shut ports key t)
          (build_active_latch_keys ports requests extra_keep s)
  active-Kept requests extra_keep s k h = elim (Bool-cases (none_for key requests)) [
    | inl unasked ↦
        Ends-map _ (build_active-KeepsShut requests extra_keep s h)
          (λ keys t i. (i, ground (arith, k, unasked))) (λ e t i. i)
    | inr asked ↦
        Ends-map _ (build_active-Shut requests extra_keep s h asked)
          (λ keys t i. (i.0, ground (arith, i.1))) (λ e t i. i)
  ]

  dispatch_collected-Reports :
      (input : DispatchInput) (requests : List CoordinationRequest) (s : Dispatching W)
      → Kept requests
      → Shut ports key s
      → Ends Reports (λ e t. Shut ports key t) (dispatch_collected ports input requests s)
  dispatch_collected-Reports input [] s k h =
      bind-Ends (λ a t. Shut ports key t) _ _ s
        (release_absent_latches-KeepsShut ports key (exhausted_latch_keys input.missions) ground
          arith s h)
        (λ a t i. return-Ends _ t (i, refl))
  dispatch_collected-Reports input (req ∷ requests) s k h =
      bind-Ends _ _ _ s (active-Kept (req ∷ requests) (exhausted_latch_keys input.missions) s k h)
        (λ active t i.
          bind-Ends (λ a t. Shut ports key t) _ _ t
            (release_absent_latches-KeepsShut ports key active i.1 t i.0)
            (λ a t' j.
              bind-Ends (λ a t. Shut ports key t) _ _ t'
                (dispatch_requests-KeepsShut ports key (req ∷ requests) t' j)
                (λ b u l. gets-Ends (dispatch_result ports input) u (l, l.untouched))))

-- A dispatch, whether it returns or throws, leaves a CONSUMED latch CONSUMED and creates no
-- coordination of its key, where the latch is that of an exhausted mission or a request of this
-- dispatch has its key.
pub dispatch-IsConsumedLatch :
    {W : Type 0} (ports : DispatcherPorts W) (key : CoordinationLatchKey) (input : DispatchInput)
    (latches : Latches) (world : W)
    → is_exhausted_mission_latch_reason key.reason
        || not (
            none_for key
              (collect_coordination_requests input.workspaces input.missions input.queue))
      ≡ true
    → IsConsumedLatch key latches
    → Ends
        (λ result t. IsConsumedLatch key t.latches × (none_for key result.coordinations ≡ true))
        (λ error t. IsConsumedLatch key t.latches × (none_for key t.coordinations ≡ true))
        (dispatch ports input latches world)
unfolding dispatch dispatch_input
dispatch-IsConsumedLatch ports key input latches world k h =
    let start : Dispatching _ = record {
      latches = latches;
      world = world;
      dispatched = 0;
      details = [];
      coordinations = [];
    } in
    let shut : Shut ports key start = record { latch = h; untouched = refl } in
    let requests = collect_coordination_requests input.workspaces input.missions input.queue in
    Ends-map _
      (if_Ends input.health_ok _ _ start
        (λ e. dispatch_collected-Reports ports key input requests start k shut)
        (λ e. return-Ends _ start (shut, refl)))
      (λ result t i. (i.0.latch, i.1)) (λ error t i. (i.latch, i.untouched))
