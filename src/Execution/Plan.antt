-- ===== src/Execution/Plan.antt =====
-- `validatePlan` of packages/execution-engine/src/execution/execution-engine.ts against what a
-- valid plan is.
use operaia_lab.Common.{
  Option, none, some, ap, subst, String, false, List, [], ◌∷◌, ◌≡◌, ◌≢◌, ◌↔◌, refl, string_same,
  str_iff, All, All-map, arith,
}
use operaia_lab.Common.Effects.{Result, ok, err}
use operaia_lab.Execution.Model.{Action, ExecutionPlan, PlanInput, ExecutionError}
use operaia_lab.Execution.Engine.{has_id, check_actions, checked, check_list, validate_plan}

abbrev no_text : String
no_text = ""

abbrev pub IsNamed : Action → Type 0
IsNamed a = (a.id ≢ no_text) × (a.type ≢ no_text)

-- No two actions have one id.
abbrev pub HasDistinctIds : List Action → Type 0
HasDistinctIds [] = Unit
HasDistinctIds (a ∷ actions) = All (λ b. a.id ≢ b.id) actions × HasDistinctIds actions

abbrev pub Unseen : List String → Action → Type 0
Unseen ids a = has_id a.id ids ≡ false

Unseen-cons :
    (x : String) (ids : List String) (a : Action) → Unseen (x ∷ ids) a → (x ≢ a.id) × Unseen ids a
Unseen-cons x ids a h = (λ e. ground (arith, str_iff x a.id), ground arith)

cons-Unseen :
    (x : String) (ids : List String) (a : Action) → x ≢ a.id → Unseen ids a → Unseen (x ∷ ids) a
cons-Unseen x ids a n h = ground (arith, str_iff x a.id)

pub All-Unseen :
    (x : String) (ids : List String) (actions : List Action)
    → All (λ b. x ≢ b.id) actions
    → All (Unseen ids) actions
    → All (Unseen (x ∷ ids)) actions
All-Unseen x ids [] h k = tt
All-Unseen x ids (a ∷ actions) (n, h) (u, k) =
    (cons-Unseen x ids a n u, All-Unseen x ids actions h k)

check_actions-accepts :
    (ids : List String) (actions : List Action)
    → All IsNamed actions
    → HasDistinctIds actions
    → All (Unseen ids) actions
    → check_actions ids actions ≡ ok tt
unfolding check_actions
check_actions-accepts ids [] n d u = refl
check_actions-accepts ids (a ∷ actions) ((i, t), n) (d, ds) (u, us) = ground (
  arith,
  str_iff a.id "",
  str_iff a.type "",
  check_actions-accepts (a.id ∷ ids) actions n ds (All-Unseen a.id ids actions d us),
)

check_actions-head :
    (ids : List String) (a : Action) (actions : List Action)
    → check_actions ids (a ∷ actions) ≡ ok tt
    → IsNamed a × Unseen ids a × (check_actions (a.id ∷ ids) actions ≡ ok tt)
unfolding check_actions
check_actions-head ids a actions h = (
  (λ e. ground (arith, str_iff a.id ""), λ e. ground (arith, str_iff a.type "")),
  ground arith,
  ground arith,
)

check_actions-IsNamed :
    (ids : List String) (actions : List Action)
    → check_actions ids actions ≡ ok tt
    → All IsNamed actions × All (Unseen ids) actions × HasDistinctIds actions
check_actions-IsNamed ids [] h = (tt, tt, tt)
check_actions-IsNamed ids (a ∷ actions) h =
    let (named, unseen, rest) = check_actions-head ids a actions h in
    let (ns, us, ds) = check_actions-IsNamed (a.id ∷ ids) actions rest in
    (
      (named, ns),
      (unseen, All-map _ _ actions (λ b u. (Unseen-cons a.id ids b u).1) us),
      (All-map _ _ actions (λ b u. (Unseen-cons a.id ids b u).0) us, ds),
    )

pub none_seen : (actions : List Action) → All (Unseen []) actions
none_seen [] = tt
none_seen (a ∷ actions) = (refl, none_seen actions)

-- What `execute` is given for a plan.
abbrev pub given : ExecutionPlan → Option PlanInput
given plan = some (record { id = plan.id; actions = some plan.actions; metadata = plan.metadata })

checked-ok :
    (p plan : ExecutionPlan) (r : Result ExecutionError (Unit {0}))
    → checked p r ≡ ok plan
    → (p ≡ plan) × (r ≡ ok tt)
checked-ok p plan (ok u) h = (cc h, refl)
checked-ok p plan (err e) h = cc h

check_list-ok :
    (i : PlanInput) (actions : Option (List Action)) (plan : ExecutionPlan)
    → check_list i actions ≡ ok plan
    → (some (record { id = i.id; actions = actions; metadata = i.metadata }) ≡ given plan)
      × (check_actions [] plan.actions ≡ ok tt)
check_list-ok i none plan h = cc h
check_list-ok i (some actions) plan h =
    let (same, accepted) =
      checked-ok (record { id = i.id; actions = actions; metadata = i.metadata }) plan
        (check_actions [] actions) h in
    (ap given same, subst (λ p. check_actions [] p.actions ≡ ok tt) same accepted)

validate_plan-ok :
    (input : Option PlanInput) (plan : ExecutionPlan)
    → validate_plan input ≡ ok plan
    → (input ≡ given plan) × (check_actions [] plan.actions ≡ ok tt)
unfolding validate_plan
validate_plan-ok none plan h = cc h
validate_plan-ok (some i) plan h = check_list-ok i i.actions plan h

validate_plan-given :
    (plan : ExecutionPlan)
    → check_actions [] plan.actions ≡ ok tt
    → validate_plan (given plan) ≡ ok plan
unfolding validate_plan
validate_plan-given plan h = rw h refl

-- An input is accepted exactly where it is a plan with a list of actions, which may be empty, of
-- which each has an id and a type and no id comes twice; it is accepted as this plan.
pub validate_plan_iff :
    (input : Option PlanInput) (plan : ExecutionPlan)
    → (validate_plan input ≡ ok plan)
      ↔ ((input ≡ given plan) × (All IsNamed plan.actions × HasDistinctIds plan.actions))
validate_plan_iff input plan = (
  λ h.
      let (same, accepted) = validate_plan-ok input plan h in
      let (named, unseen, distinct) = check_actions-IsNamed [] plan.actions accepted in
      (same, (named, distinct)),
  λ (same, (named, distinct)). rw same (
      validate_plan-given plan
        (check_actions-accepts [] plan.actions named distinct (none_seen plan.actions))),
)
