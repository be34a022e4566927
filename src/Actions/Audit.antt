-- ===== src/Actions/Audit.antt =====
-- What an execution leaves in the ledger and in the world, by the cases of its checks.
use operaia_lab.Common.{
  String, Bool, true, false, not, ◌||◌, [], ◌∷◌, ◌++◌, Option, none, some, ◌≡◌, ◌↔◌, refl, sym, ap,
  if◌then◌else◌, ◌∙◌, ◌⊎◌, string_same, Bool-cases, Option-cases, inl, inr, arith,
}
use operaia_lab.Json.{Json}
use operaia_lab.Common.Effects.{Result, ok, err}
use operaia_lab.Actions.Policy.{ActionPolicyDecision, decide, text, is_known_action_id}
use operaia_lab.Actions.Ledger.{
  ActionExecutionStatus, requested, success, failed, denied, ActionExecutionRecord, find_record,
  create_execution,
}
use operaia_lab.Actions.Executor.{
  ActionRequest, ActionResult, AdapterResult, AdapterReply, returned, threw, ActionAdapter,
  ActionExecutor, Reply, answered, rejected, Site, Stamp, adapter_for, in_scope, action_fail,
  answer_by, refuse, perform, execute_scoped, execute_decided, execute_created, created, execute,
}
use operaia_lab.Actions.Records.{refused, refuse-some, concluded, conclude-some, perform-some}

abbrev pub is_closed : ActionExecutionStatus → Bool
is_closed success = true
is_closed failed = true
is_closed denied = true
is_closed other = false

-- What the policy, the known actions and the scope say of a request, in their order, and the world
-- after the scope was asked.
abbrev verdict_of :
    {W : Type 0}
    → ActionExecutor W
    → ActionRequest
    → Result String ActionPolicyDecision
    → W
    → Result String Bool × W
verdict_of executor request (err e) w = (err e, w)
verdict_of executor request (ok decision) w =
    if not decision.allowed || not (is_known_action_id request.action_id)
    then (ok false, w)
    else in_scope executor.scope request w

abbrev pub verdict : {W : Type 0} → ActionExecutor W → ActionRequest → W → Result String Bool × W
verdict executor request w =
    verdict_of executor request
      (decide executor.policy request.requested_by request.action_id request.workspace_id) w

-- An answer, whose record is closed.
pub record Answers {W : Type 0} (executor : ActionExecutor W) (request : ActionRequest) (w : W)
    (answer : ActionResult) (entry : ActionExecutionRecord) (after : Site W) : Type 0 where
  pub allowed : Bool
  pub decided : (verdict executor request w).0 ≡ ok allowed
  pub status : entry.status ≡ answer.status
  pub closed : is_closed entry.status ≡ true
  pub success_iff : (answer.success ≡ true) ↔ (entry.status ≡ success)
  pub denied_iff : (entry.status ≡ denied) ↔ (allowed ≡ false)
  pub untouched : allowed ≡ false → after.world ≡ (verdict executor request w).1

-- An exception, which leaves the record as it was created.
pub record Rejects {W : Type 0} (executor : ActionExecutor W) (request : ActionRequest) (w : W)
    (error : String) (entry : ActionExecutionRecord) (after : Site W) : Type 0 where
  pub thrown : (verdict executor request w).0 ≡ err error
  pub open_record : entry.status ≡ requested
  pub untouched : after.world ≡ (verdict executor request w).1

abbrev pub Ends :
    {W : Type 0}
    → ActionExecutor W
    → ActionRequest
    → W
    → Reply
    → ActionExecutionRecord
    → Site W
    → Type 0
Ends executor request w (answered answer) entry after =
    Answers executor request w answer entry after
Ends executor request w (rejected error) entry after = Rejects executor request w error entry after

-- What an execution leaves: `entry` is the one record that it adds.
pub record Audited {W : Type 0} (executor : ActionExecutor W) (request : ActionRequest)
    (stamp : Stamp) (s : Site W) (out : Option (Reply × Site W)) : Type 0 where
  pub reply : Reply
  pub after : Site W
  pub entry : ActionExecutionRecord
  pub returned : out ≡ some (reply, after)
  pub ledger : after.ledger ≡ s.ledger ++ (entry ∷ [])
  pub id : entry.id ≡ stamp.id
  pub employee : entry.employee_id ≡ request.requested_by
  pub action : entry.action_id ≡ request.action_id
  pub ends : Ends executor request s.world reply entry after

module _ {W : Type 0} (json : AdapterResult → Json) (executor : ActionExecutor W)
    (request : ActionRequest) (stamp : Stamp) where
  abbrev begun : Site W → W → Site W
  begun s w = record { ledger = s.ledger ++ (created request stamp ∷ []); world = w }

  rejected-Audited :
      (s : Site W) (w : W) (error : String) (out : Option (Reply × Site W))
      → out ≡ some (rejected error, begun s w)
      → verdict executor request s.world ≡ (err error, w)
      → Audited executor request stamp s out
  unfolding create_execution
  rejected-Audited s w error out e says = record {
    reply = rejected error;
    after = begun s w;
    entry = created request stamp;
    returned = e;
    ledger = refl;
    id = refl;
    employee = refl;
    action = refl;
    ends = record {
      thrown = ap (λ v. v.0) says;
      open_record = refl;
      untouched = sym (ap (λ v. v.1) says);
    };
  }

  refused-Audited :
      (s : Site W) (w : W) (status : ActionExecutionStatus) (reason : String) (allowed : Bool)
      (out : Option (Reply × Site W))
      → find_record stamp.id s.ledger ≡ none
      → out ≡ answer_by json (refuse json request stamp status reason (begun s w))
      → verdict executor request s.world ≡ (ok allowed, w)
      → (status ≡ denied) ⊎ (status ≡ failed)
      → ((status ≡ denied) ↔ (allowed ≡ false))
      → Audited executor request stamp s out
  unfolding create_execution
  refused-Audited s w status reason allowed out fresh e says ends iff = record {
    reply = answered (action_fail request stamp status reason none);
    after = record {
      ledger = s.ledger ++ (refused W json request stamp s.ledger fresh status reason ∷ []);
      world = w;
    };
    entry = refused W json request stamp s.ledger fresh status reason;
    returned =
        e ∙ ap (answer_by json) (refuse-some W json request stamp s.ledger fresh status reason w);
    ledger = refl;
    id = refl;
    employee = refl;
    action = refl;
    ends = record {
      allowed = allowed;
      decided = ap (λ v. v.0) says;
      status = refl;
      closed = elim ends [ inl d ↦ rw d refl | inr f ↦ rw f refl ];
      success_iff = ((λ h. cc), (λ h. elim ends [ inl d ↦ cc | inr f ↦ cc ]));
      denied_iff = iff;
      untouched = λ h. sym (ap (λ v. v.1) says);
    };
  }

  performed-Audited :
      (s : Site W) (w : W) (adapter : ActionAdapter W) (out : Option (Reply × Site W))
      → find_record stamp.id s.ledger ≡ none
      → out ≡ answer_by json (perform json request stamp adapter (begun s w))
      → verdict executor request s.world ≡ (ok true, w)
      → Audited executor request stamp s out
  unfolding create_execution
  performed-Audited s w adapter out fresh e says =
      replied-Audited (adapter.execute_action request w) (
        e
        ∙ ap (answer_by json) (
            perform-some W json request stamp s.ledger fresh adapter w
            ∙ conclude-some W json request stamp s.ledger fresh (adapter.execute_action request w)))
    where
      replied-Audited :
          (reply : AdapterReply × W)
          → out
            ≡ some (
              answered (concluded W json request stamp s.ledger fresh reply.0).0,
              record {
                ledger =
                    s.ledger ++ ((concluded W json request stamp s.ledger fresh reply.0).1 ∷ []);
                world = reply.1;
              },
            )
          → Audited executor request stamp s out
      replied-Audited (returned result, v) eq = record {
        reply = _;
        after = _;
        entry = _;
        returned = eq;
        ledger = refl;
        id = refl;
        employee = refl;
        action = refl;
        ends = record {
          allowed = true;
          decided = ap (λ v. v.0) says;
          status = refl;
          closed = ground arith;
          success_iff = ground arith;
          denied_iff = ground arith;
          untouched = λ h. cc h;
        };
      }
      replied-Audited (threw message, v) eq = record {
        reply = _;
        after = _;
        entry = _;
        returned = eq;
        ledger = refl;
        id = refl;
        employee = refl;
        action = refl;
        ends = record {
          allowed = true;
          decided = ap (λ v. v.0) says;
          status = refl;
          closed = refl;
          success_iff = ground arith;
          denied_iff = ground arith;
          untouched = λ h. cc h;
        };
      }

  scoped-Audited :
      (s : Site W) (scope : Result String Bool × W)
      → find_record stamp.id s.ledger ≡ none
      → verdict executor request s.world ≡ scope
      → Audited executor request stamp s
          (execute_scoped json executor request stamp (begun s s.world).ledger scope)
  unfolding execute_scoped
  scoped-Audited s (err e, w) fresh says = rejected-Audited s w e _ refl says
  scoped-Audited s (ok false, w) fresh says =
      refused-Audited s w denied _ false _ fresh refl says (inl refl) ((λ h. refl), (λ h. refl))
  scoped-Audited s (ok true, w) fresh says =
      elim (Option-cases (adapter_for executor.adapters request.action_id)) [
        | inl absent ↦
            refused-Audited s w failed (text ("Adapter ausente para " ∷ request.action_id ∷ []))
              true _ fresh (rw absent refl) says (inr refl) ((λ h. cc h), (λ h. cc h))
        | inr (adapter, there) ↦ performed-Audited s w adapter _ fresh (rw there refl) says
      ]

  decided-Audited :
      (s : Site W) (decision : Result String ActionPolicyDecision)
      → find_record stamp.id s.ledger ≡ none
      → verdict executor request s.world ≡ verdict_of executor request decision s.world
      → Audited executor request stamp s
          (execute_decided json executor request stamp decision (begun s s.world))
  unfolding execute_decided
  decided-Audited s (err e) fresh says = rejected-Audited s s.world e _ refl says
  decided-Audited s (ok d) fresh says =
      elim (Bool-cases (not d.allowed || not (is_known_action_id request.action_id))) [
        | inl bad ↦
            refused-Audited s s.world denied d.reason false _ fresh (rw (execute_decided, bad) refl)
              (says ∙ rw bad refl) (inl refl) ((λ h. refl), (λ h. refl))
        | inr good ↦
            rw (execute_decided, good)
              (scoped-Audited s (in_scope executor.scope request s.world) fresh
                (says ∙ rw good refl))
      ]

  -- An execution under a new id adds exactly one record to the ledger, with the id, the employee and
  -- the action of the request, and never loses it. Where the policy or the scope throws, the
  -- execution throws that error and the record stays REQUESTED. Otherwise it answers, and the record
  -- has a closed status: it reports success exactly where the record says SUCCESS; the record says
  -- DENIED exactly where the policy, the known actions or the scope do not allow the request. Where
  -- it throws or is denied, the world is as the scope has left it.
  pub execute-Audited :
      (s : Site W)
      → find_record stamp.id s.ledger ≡ none
      → Audited executor request stamp s (execute json executor request stamp s)
  unfolding execute execute_created
  execute-Audited s fresh =
      decided-Audited s
        (decide executor.policy request.requested_by request.action_id request.workspace_id) fresh
        refl
