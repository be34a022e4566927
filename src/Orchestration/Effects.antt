-- ===== src/Orchestration/Effects.antt =====
-- A step of the loop changes the orchestration's state and the world behind the ports. It
-- returns, throws, or, where the model's fuel is spent, has diverged.
use operaia_lab.Common.{ℕ, Bool}
use operaia_lab.Orchestration.Model.{
  ExecutionSummary, OrchestrationState, ProposedPlan, RuntimeRequest, RuntimeOutcome,
  OrchestrationEvent, Failure,
}

pub data Reply (A : Type 0) : Type 0 where
  value : A → Reply A
  rejected : Failure → Reply A

-- The ports of packages/orchestration-engine/src/ports, the sleep of the timer and the abort
-- signal, over a world `W` that each call may change.
pub record Ports (W : Type 0) : Type 0 where
  pub run_runtime : RuntimeRequest → W → Reply RuntimeOutcome × W
  pub execute_plan : ProposedPlan → W → Reply ExecutionSummary × W
  pub save : OrchestrationState → W → Reply Unit × W
  pub publish : OrchestrationEvent → W → Reply Unit × W
  pub now : W → ℕ × W
  pub sleep : ℕ → W → W
  pub is_aborted : W → Bool

pub data Outcome (A : Type 0) : Type 0 where
  ok : A → Outcome A
  thrown : Failure → Outcome A
  diverged : Outcome A

pub record Store (W : Type 0) : Type 0 where
  pub state : OrchestrationState
  pub world : W

abbrev pub M : Type 0 → Type 0 → Type 0
M W A = Store W → Outcome A × Store W

module _ {W A : Type 0} where
  pub return : A → M W A
  return a s = (ok a, s)

  pub throw : Failure → M W A
  throw e s = (thrown e, s)

  pub diverge : M W A
  diverge s = (diverged, s)

  pub get_state : (OrchestrationState → A) → M W A
  get_state f s = (ok (f s.state), s)

  pub get_world : (W → A) → M W A
  get_world f s = (ok (f s.world), s)

  abbrev pub answer : OrchestrationState → Reply A × W → Outcome A × Store W
  answer s (value a, w) = (ok a, record { state = s; world = w })
  answer s (rejected e, w) = (thrown e, record { state = s; world = w })

  -- A call of a port that may reject.
  pub call : (W → Reply A × W) → M W A
  call f s = answer s.state (f s.world)

  -- A call that cannot fail.
  pub effect : (W → A × W) → M W A
  effect f s = (ok (f s.world).0, record { state = s.state; world = (f s.world).1 })

  abbrev pub handle : Outcome A × Store W → (Failure → M W A) → Outcome A × Store W
  handle (ok a, s) h = (ok a, s)
  handle (thrown e, s) h = h e s
  handle (diverged, s) h = (diverged, s)

  -- `try { … } catch (error) { … }`
  pub try_catch : M W A → (Failure → M W A) → M W A
  try_catch m h s = handle (m s) h

pub modify : {W : Type 0} → (OrchestrationState → OrchestrationState) → M W Unit
modify f s = (ok tt, record { state = f s.state; world = s.world })

module _ {W A B : Type 0} where
  abbrev pub continue : Outcome A × Store W → (A → M W B) → Outcome B × Store W
  continue (ok a, s) f = f a s
  continue (thrown e, s) f = (thrown e, s)
  continue (diverged, s) f = (diverged, s)

  infixl 5 ◌>>=◌
  -- To open this opens every construct above.
  unfoldable pub ◌>>=◌ : M W A → (A → M W B) → M W B
  unfolding return throw diverge get_state get_world call effect try_catch modify
  ◌>>=◌ m f s = continue (m s) f

infixl 5 ◌>>◌
abbrev pub ◌>>◌ : {W B : Type 0} → M W Unit → M W B → M W B
m >> k = m >>= λ _. k
