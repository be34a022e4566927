-- ===== src/Health/Isolation.antt =====
-- The failures of a non-critical operation.
use operaia_lab.Common.{String, Option, none, some, ◌≡◌, refl, ◌⊎◌, inl, inr}
use operaia_lab.Common.Effects.{Result, ok, err, Steps, return, continue, handle, ◌>>=◌, ◌>>◌}
use operaia_lab.Health.Policy.{
  OperationCriticality, critical, non_critical, classify_operation, decide, NonCriticalRunInput,
  call_on_failure, run_non_critical, refusal,
}

-- The handler of failures, if there is one, never throws.
abbrev Handles : {W T : Type 0} → NonCriticalRunInput W T → Type 0
Handles {W} {T} input =
    (f : String → Steps String W (Unit {0}))
    → input.on_failure ≡ some f
    → (error : String) (w : W) → (f error w).0 ≡ ok tt

abbrev pub contained :
    {T : Type 0} → String → OperationCriticality → Result String T → Result String (Option T)
contained operation critical reply = err (refusal operation)
contained operation non_critical (ok a) = ok (some a)
contained operation non_critical (err error) = ok none

handled :
    {W T : Type 0} (on_failure : Option (String → Steps String W (Unit {0}))) (error : String)
    (w : W)
    → ((f : String → Steps String W (Unit {0}))
        → on_failure ≡ some f
        → (error : String) (w : W) → (f error w).0 ≡ ok tt)
    → ((call_on_failure on_failure error >> return {A = Option T} none) w).0 ≡ ok none
unfolding ◌>>=◌
handled none error w h = refl
handled {W} {T} (some f) error w h = after (f error w) (h f refl error w)
  where
    after :
        (r : Result String (Unit {0}) × W)
        → r.0 ≡ ok tt
        → (continue r (λ _. return {A = Option T} none)).0 ≡ ok none
    after (ok a, v) e = refl
    after (err m, v) e = cc e

class_cases : (c : OperationCriticality) → (c ≡ critical) ⊎ (c ≡ non_critical)
class_cases critical = inl refl
class_cases non_critical = inr refl

run_contained :
    {W T : Type 0} (input : NonCriticalRunInput W T) (r : Result String T × W)
    → Handles input
    → (handle (continue r (λ a. return (some a))) (λ error w.
        (call_on_failure input.on_failure error >> return {A = Option T} none)
          (input.log_failure error w))).0
      ≡ contained input.operation non_critical r.0
unfolding ◌>>=◌
run_contained input (ok a, w) h = refl
run_contained {W} {T} input (err error, w) h =
    handled {W = W} {T = T} input.on_failure error (input.log_failure error w) h

-- Of a non-critical operation, what it returned is returned, and nothing where it threw, whatever it
-- threw, provided that the handler of failures does not throw. A critical one is refused.
pub run_non_critical-contained :
    {W T : Type 0} (input : NonCriticalRunInput W T) (w : W)
    → Handles input
    → (run_non_critical input w).0
      ≡ contained input.operation (classify_operation input.operation) (input.run_operation w).0
unfolding run_non_critical decide ◌>>=◌
run_non_critical-contained {W} {T} input w h =
    elim (class_cases (classify_operation input.operation)) [
      | inl c ↦ rw c refl
      | inr n ↦ rw n (run_contained input (input.run_operation w) h)
    ]
