-- ===== src/Common/Effects.antt =====
-- Steps that read and write a state and return or throw, and what holds of a step that returns.
-- What was written before a throw stays written.
use mathlib.Core.Path.{◌≡◌, refl, subst}
use mathlib.Core.Bool.{Bool, true, false}
use operaia_lab.Common.Tests.{if◌then◌else◌}

pub data Result {ℓ} (E : Type ℓ) (A : Type ℓ) : Type ℓ where
  ok : A → Result E A
  err : E → Result E A

abbrev pub Steps : Type 0 → Type 0 → Type 0 → Type 0
Steps E S A = S → Result E A × S

module _ {E S A : Type 0} where
  pub return : A → Steps E S A
  return a s = (ok a, s)

  pub throw : E → Steps E S A
  throw e s = (err e, s)

  pub gets : (S → A) → Steps E S A
  gets f s = (ok (f s), s)

  -- A change of the state that answers.
  pub act : (S → Result E A × S) → Steps E S A
  act f = f

  abbrev pub handle : Result E A × S → (E → Steps E S A) → Result E A × S
  handle (ok a, s) h = (ok a, s)
  handle (err e, s) h = h e s

  -- `try { … } catch (error) { … }`
  pub try_catch : Steps E S A → (E → Steps E S A) → Steps E S A
  try_catch m h s = handle (m s) h

pub modify : {E S : Type 0} → (S → S) → Steps E S (Unit {0})
modify f s = (ok tt, f s)

module _ {E S A B : Type 0} where
  abbrev pub continue : Result E A × S → (A → Steps E S B) → Result E B × S
  continue (ok a, s) f = f a s
  continue (err e, s) f = (err e, s)

  infixl 5 ◌>>=◌
  -- To open this opens every construct above.
  unfoldable pub ◌>>=◌ : Steps E S A → (A → Steps E S B) → Steps E S B
  unfolding return throw gets act try_catch modify
  ◌>>=◌ m f s = continue (m s) f

infixl 5 ◌>>◌
abbrev pub ◌>>◌ : {E S B : Type 0} → Steps E S (Unit {0}) → Steps E S B → Steps E S B
m >> k = m >>= λ _. k

-- `Ends Q X r`: where `r` returned, `Q` holds of its value and state, and where it threw, `X`.
module _ {E S A : Type 0} where
  abbrev pub Holds : (A → S → Type 0) → (E → S → Type 0) → Result E A × S → Type 0
  Holds Q X (ok a, s) = Q a s
  Holds Q X (err e, s) = X e s

  pub record Ends (Q : A → S → Type 0) (X : E → S → Type 0) (r : Result E A × S) : Type 0 where
    pub holds : Holds Q X r

  pub Ends-map :
      {Q R : A → S → Type 0} {X Y : E → S → Type 0} (r : Result E A × S)
      → Ends Q X r
      → ((a : A) (s : S) → Q a s → R a s)
      → ((e : E) (s : S) → X e s → Y e s)
      → Ends R Y r
  Ends-map (ok a, s) h q x = record { holds = q a s h.holds }
  Ends-map (err e, s) h q x = record { holds = x e s h.holds }

  pub Ends-eq_ok :
      {Q : A → S → Type 0} {X : E → S → Type 0} (r : Result E A × S) {a : A} {s : S}
      → Ends Q X r
      → r ≡ (ok a, s)
      → Q a s
  Ends-eq_ok {Q} {X} r {a} {s} h e =
      let k : Ends Q X (ok a, s) = subst (λ x. Ends Q X x) e h in k.holds

  handle-Ends :
      {Q : A → S → Type 0} {X Y : E → S → Type 0} (r : Result E A × S) (h : E → Steps E S A)
      → Ends Q X r
      → ((e : E) (s : S) → X e s → Ends Q Y (h e s))
      → Ends Q Y (handle r h)
  handle-Ends (ok a, s) h m k = record { holds = m.holds }
  handle-Ends (err e, s) h m k = k e s m.holds

  pub try_catch-Ends :
      {Q : A → S → Type 0} (X : E → S → Type 0) {Y : E → S → Type 0} (m : Steps E S A)
      (h : E → Steps E S A) (s : S)
      → Ends Q X (m s)
      → ((e : E) (t : S) → X e t → Ends Q Y (h e t))
      → Ends Q Y (try_catch m h s)
  unfolding ◌>>=◌
  try_catch-Ends X m h s k j = handle-Ends (m s) h k j

  pub if_Ends :
      {Q : A → S → Type 0} {X : E → S → Type 0} (b : Bool) (m n : Steps E S A) (s : S)
      → (b ≡ true → Ends Q X (m s))
      → (b ≡ false → Ends Q X (n s))
      → Ends Q X ((if b then m else n) s)
  if_Ends true m n s hm hn = hm refl
  if_Ends false m n s hm hn = hn refl

  pub return-Ends :
      {Q : A → S → Type 0} {X : E → S → Type 0} (a : A) (s : S) → Q a s → Ends Q X (return a s)
  unfolding ◌>>=◌
  return-Ends a s h = record { holds = h }

  pub gets-Ends :
      {Q : A → S → Type 0} {X : E → S → Type 0} (f : S → A) (s : S)
      → Q (f s) s
      → Ends Q X (gets f s)
  unfolding ◌>>=◌
  gets-Ends f s h = record { holds = h }

  pub throw-Ends :
      {Q : A → S → Type 0} {X : E → S → Type 0} (e : E) (s : S) → X e s → Ends Q X (throw e s)
  unfolding ◌>>=◌
  throw-Ends e s h = record { holds = h }

module _ {E S A B : Type 0} where
  continue-Ends :
      {Q : A → S → Type 0} {R : B → S → Type 0} {X : E → S → Type 0} (r : Result E A × S)
      (f : A → Steps E S B)
      → Ends Q X r
      → ((a : A) (s : S) → Q a s → Ends R X (f a s))
      → Ends R X (continue r f)
  continue-Ends (ok a, s) f m k = k a s m.holds
  continue-Ends (err e, s) f m k = record { holds = m.holds }

  pub bind-Ends :
      (Q : A → S → Type 0) {R : B → S → Type 0} {X : E → S → Type 0} (m : Steps E S A)
      (f : A → Steps E S B) (s : S)
      → Ends Q X (m s)
      → ((a : A) (t : S) → Q a t → Ends R X (f a t))
      → Ends R X ((m >>= f) s)
  unfolding ◌>>=◌
  bind-Ends Q m f s h k = continue-Ends (m s) f h k
