-- ===== src/Actions/Records.antt =====
-- The record of one execution of packages/action-runtime/src/action-executor.ts, step by step.
use operaia_lab.Common.{
  String, [], ◌∷◌, ◌++◌, none, some, ◌≡◌, refl, string_same, str_iff, arith, difference,
}
use operaia_lab.Json.{Json}
use operaia_lab.Actions.Ledger.{
  ActionExecutionStatus, approved, running, failed, ActionExecutionRecord, Ledger, find_record,
  patched, update_status, create_execution,
}
use operaia_lab.Actions.Executor.{
  ActionRequest, ActionResult, AdapterResult, AdapterReply, returned, threw, ActionAdapter, Stamp,
  finish, give_up, action_fail, action_done, status_of, refuse, conclude, perform, created,
}

-- An update of the record just created finds it at the end of the ledger.
update_status-created :
    (id : String) (status : ActionExecutionStatus)
    (patch : ActionExecutionRecord → ActionExecutionRecord) (l : Ledger) (r : ActionExecutionRecord)
    → find_record id l ≡ none
    → r.id ≡ id
    → update_status id status patch (l ++ (r ∷ [])) ≡ some (l ++ (patched status patch r ∷ []))
unfolding find_record update_status
update_status-created id status patch [] r h e = ground (arith, str_iff r.id id)
update_status-created id status patch (x ∷ l) r h e =
    ground (arith, update_status-created id status patch l r)

module _ (W : Type 0) (json : AdapterResult → Json) (request : ActionRequest) (stamp : Stamp)
    (l : Ledger) (fresh : find_record stamp.id l ≡ none) where
  -- The ledger with the record of this execution, as it is now.
  abbrev pub with_entry : ActionExecutionRecord → Ledger
  with_entry r = l ++ (r ∷ [])

  abbrev pub refused : ActionExecutionStatus → String → ActionExecutionRecord
  refused status reason = patched status (give_up stamp.finished_at reason) (created request stamp)

  pub refuse-some :
      (status : ActionExecutionStatus) (reason : String) (w : W)
      → refuse json request stamp status reason
          (record { ledger = with_entry (created request stamp); world = w })
        ≡ some (
          action_fail request stamp status reason none,
          record { ledger = with_entry (refused status reason); world = w },
        )
  unfolding refuse create_execution
  refuse-some status reason w =
      rw
        (update_status-created stamp.id status (give_up stamp.finished_at reason) l
          (created request stamp) fresh refl)
        refl

  abbrev pub started : ActionExecutionRecord
  started =
      patched running (λ r. record r { started_at = some stamp.started_at })
        (patched approved (λ r. r) (created request stamp))

  -- The answer and the record when an adapter has replied.
  abbrev pub concluded : AdapterReply → ActionResult × ActionExecutionRecord
  concluded (returned result) = (
    action_done request stamp (status_of result) result,
    patched (status_of result) (finish stamp.finished_at (json result) result.error) started,
  )
  concluded (threw message) = (
    action_fail request stamp failed message (some (difference stamp.finished_at stamp.started_at)),
    patched failed (give_up stamp.finished_at message) started,
  )

  pub conclude-some :
      (reply : AdapterReply × W)
      → conclude json request stamp (with_entry started) reply
        ≡ some (
          (concluded reply.0).0,
          record { ledger = with_entry (concluded reply.0).1; world = reply.1 },
        )
  unfolding conclude create_execution
  conclude-some (returned result, w) =
      rw
        (update_status-created stamp.id (status_of result)
          (finish stamp.finished_at (json result) result.error) l started fresh refl)
        refl
  conclude-some (threw message, w) =
      rw
        (update_status-created stamp.id failed (give_up stamp.finished_at message) l started fresh
          refl)
        refl

  pub perform-some :
      (adapter : ActionAdapter W) (w : W)
      → perform json request stamp adapter
          (record { ledger = with_entry (created request stamp); world = w })
        ≡ conclude json request stamp (with_entry started) (adapter.execute_action request w)
  unfolding perform create_execution
  perform-some adapter w =
      rw
        (
          update_status-created stamp.id approved (λ r. r) l (created request stamp) fresh refl,
          update_status-created stamp.id running
              (λ r. record r { started_at = some stamp.started_at }) l
              (patched approved (λ r. r) (created request stamp)) fresh refl,
        )
        refl
