-- ===== src/Execution/Refusal.antt =====
-- The error of a plan that is not valid: that of its first action that offends.
use operaia_lab.Common.{
  String, true, List, [], ◌∷◌, ◌++◌, ◌≡◌, ◌≢◌, refl, ◌∙◌, string_same, str_iff, All, ◌⊎◌, inl, inr,
  arith,
}
use operaia_lab.Json.{Json}
use operaia_lab.Common.Effects.{err, ◌>>=◌}
use operaia_lab.Execution.Model.{
  Action, ExecutionError, action_without_id, action_without_type, duplicate_action_id,
  ExecutionEngine,
}
use operaia_lab.Execution.Engine.{
  has_id, check_actions, validate_plan, execute, execute_plan, check_plan, now,
}
use operaia_lab.Execution.Plan.{IsNamed, HasDistinctIds, Unseen, All-Unseen, none_seen, given}

abbrev no_text : String
no_text = ""

-- Some action of the list has the id.
abbrev HasAction : String → List Action → Type 0
HasAction id [] = ⊥
HasAction id (a ∷ actions) = (a.id ≡ id) ⊎ HasAction id actions

-- The action offends where it comes after these, and what is thrown for it.
pub data Offends (before : List Action) (a : Action) : ExecutionError → Type 0 where
  without_id : a.id ≡ no_text → Offends before a action_without_id
  without_type : a.id ≢ no_text → a.type ≡ no_text → Offends before a (action_without_type a.id)
  twice : IsNamed a → HasAction a.id before → Offends before a (duplicate_action_id a.id)

-- The ids seen after a list of actions.
abbrev push_ids : List Action → List String → List String
push_ids [] ids = ids
push_ids (b ∷ before) ids = push_ids before (b.id ∷ ids)

has_id-push_ids :
    (id : String) (before : List Action) (ids : List String)
    → has_id id ids ≡ true
    → has_id id (push_ids before ids) ≡ true
has_id-push_ids id [] ids h = h
has_id-push_ids id (b ∷ before) ids h = has_id-push_ids id before (b.id ∷ ids) ground (arith, h)

HasAction-push_ids :
    (id : String) (before : List Action) (ids : List String)
    → HasAction id before
    → has_id id (push_ids before ids) ≡ true
HasAction-push_ids id [] ids h = absurd h
HasAction-push_ids id (b ∷ before) ids (inl e) =
    has_id-push_ids id before (b.id ∷ ids) ground (arith, str_iff b.id id, e)
HasAction-push_ids id (b ∷ before) ids (inr h) = HasAction-push_ids id before (b.id ∷ ids) h

check_actions-append :
    (ids : List String) (before rest : List Action)
    → All IsNamed before
    → HasDistinctIds before
    → All (Unseen ids) before
    → check_actions ids (before ++ rest) ≡ check_actions (push_ids before ids) rest
unfolding check_actions
check_actions-append ids [] rest n d u = refl
check_actions-append ids (b ∷ before) rest ((i, t), n) (d, ds) (u, us) = ground (
  arith,
  str_iff b.id "",
  str_iff b.type "",
  check_actions-append (b.id ∷ ids) before rest n ds (All-Unseen b.id ids before d us),
)

Offends-check_actions :
    (before : List Action) (a : Action) (after : List Action) (e : ExecutionError)
    → Offends before a e
    → check_actions (push_ids before []) (a ∷ after) ≡ err e
unfolding check_actions
Offends-check_actions before a after e (without_id i) = ground (arith, str_iff a.id "", i)
Offends-check_actions before a after e (without_type i t) =
    ground (arith, str_iff a.id "", str_iff a.type "", i, t)
Offends-check_actions before a after e (twice (i, t) h) =
    ground (arith, str_iff a.id "", str_iff a.type "", i, t, HasAction-push_ids a.id before [] h)

-- Of a plan whose first actions have ids and types and no id twice, and whose next action has no id,
-- no type, or the id of one before it, an execution throws the error of that action, whatever comes
-- after it; and it has called no port but the clock.
pub execute-refuses :
    {W : Type 0} (engine : ExecutionEngine W) (id : String) (metadata : Json) (before : List Action)
    (a : Action) (after : List Action) (e : ExecutionError) (execution_id : String) (w : W)
    → All IsNamed before
    → HasDistinctIds before
    → Offends before a e
    → execute engine
        (given (record { id = id; actions = before ++ (a ∷ after); metadata = metadata }))
        execution_id
        w
      ≡ (err e, record { logs = []; world = (engine.now w).1 })
unfolding execute execute_plan check_plan now ◌>>=◌ validate_plan
execute-refuses engine id metadata before a after e execution_id w named distinct offends =
    let refused : check_actions [] (before ++ (a ∷ after)) ≡ err e =
      check_actions-append [] before (a ∷ after) named distinct (none_seen before)
      ∙ Offends-check_actions before a after e offends in
    rw refused refl
