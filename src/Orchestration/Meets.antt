-- ===== src/Orchestration/Meets.antt =====
-- Total correctness of a step of the loop: `Meets Q E r` says that `r` has returned with `Q` or
-- thrown with `E`, and has not diverged. One rule for each construct.
use operaia_lab.Common.{Bool, true, false, ◌≡◌, refl, ◌∙◌, if◌then◌else◌}
use operaia_lab.Orchestration.Model.{OrchestrationState, Failure}
use operaia_lab.Orchestration.Effects.{
  Reply, value, rejected, Outcome, ok, thrown, diverged, Store, M, continue, handle, answer, call,
  effect, get_state, get_world, modify, return, throw, try_catch, ◌>>=◌,
}

module _ {W A : Type 0} where
  abbrev pub Holds :
      (A → Store W → Type 0) → (Failure → Store W → Type 0) → Outcome A × Store W → Type 0
  Holds Q E (ok a, s) = Q a s
  Holds Q E (thrown e, s) = E e s
  Holds Q E (diverged, s) = ⊥

  pub record Meets (Q : A → Store W → Type 0) (E : Failure → Store W → Type 0)
      (r : Outcome A × Store W) : Type 0 where
    pub holds : Holds Q E r

  pub weaken_Meets :
      {Q R : A → Store W → Type 0} {E F : Failure → Store W → Type 0} (r : Outcome A × Store W)
      → Meets Q E r
      → ((a : A) (s : Store W) → Q a s → R a s)
      → ((e : Failure) (s : Store W) → E e s → F e s)
      → Meets R F r
  weaken_Meets (ok a, s) h q e = record { holds = q a s h.holds }
  weaken_Meets (thrown x, s) h q e = record { holds = e x s h.holds }
  weaken_Meets (diverged, s) h q e = elim h.holds [ ]

  handle-Meets :
      {Q : A → Store W → Type 0} {E F : Failure → Store W → Type 0} (r : Outcome A × Store W)
      (h : Failure → M W A)
      → Meets Q E r
      → ((e : Failure) (s : Store W) → E e s → Meets Q F (h e s))
      → Meets Q F (handle r h)
  handle-Meets (ok a, s) h m k = record { holds = m.holds }
  handle-Meets (thrown e, s) h m k = k e s m.holds
  handle-Meets (diverged, s) h m k = elim m.holds [ ]

  pub try_catch-Meets :
      {Q : A → Store W → Type 0} (E : Failure → Store W → Type 0) {F : Failure → Store W → Type 0}
      (m : M W A) (h : Failure → M W A) (s : Store W)
      → Meets Q E (m s)
      → ((e : Failure) (t : Store W) → E e t → Meets Q F (h e t))
      → Meets Q F (try_catch m h s)
  unfolding ◌>>=◌
  try_catch-Meets E m h s meets k = handle-Meets (m s) h meets k

module _ {W A B : Type 0} where
  continue-Meets :
      {Q : A → Store W → Type 0} {R : B → Store W → Type 0} {E : Failure → Store W → Type 0}
      (r : Outcome A × Store W) (f : A → M W B)
      → Meets Q E r
      → ((a : A) (s : Store W) → Q a s → Meets R E (f a s))
      → Meets R E (continue r f)
  continue-Meets (ok a, s) f m k = k a s m.holds
  continue-Meets (thrown e, s) f m k = record { holds = m.holds }
  continue-Meets (diverged, s) f m k = elim m.holds [ ]

  pub bind-Meets :
      (Q : A → Store W → Type 0) {R : B → Store W → Type 0} {E : Failure → Store W → Type 0}
      (m : M W A) (f : A → M W B) (s : Store W)
      → Meets Q E (m s)
      → ((a : A) (t : Store W) → Q a t → Meets R E (f a t))
      → Meets R E ((m >>= f) s)
  unfolding ◌>>=◌
  bind-Meets Q m f s meets k = continue-Meets (m s) f meets k

-- A view of the state that a step leaves as it is, whether it returns or throws.
module _ {W V : Type 0} (view : OrchestrationState → V) where
  abbrev pub Keeps : {A : Type 0} → M W A → Type 0
  Keeps m =
      (s : Store W)
      → Meets (λ a t. view t.state ≡ view s.state) (λ e t. view t.state ≡ view s.state) (m s)

  pub return-Keeps : {A : Type 0} (a : A) → Keeps (return a)
  unfolding ◌>>=◌
  return-Keeps a s = record { holds = refl }

  pub throw-Keeps : {A : Type 0} (e : Failure) → Keeps (throw {W = W} {A = A} e)
  unfolding ◌>>=◌
  throw-Keeps e s = record { holds = refl }

  pub get_state-Keeps : {A : Type 0} (f : OrchestrationState → A) → Keeps (get_state f)
  unfolding ◌>>=◌
  get_state-Keeps f s = record { holds = refl }

  pub get_world-Keeps : {A : Type 0} (f : W → A) → Keeps (get_world f)
  unfolding ◌>>=◌
  get_world-Keeps f s = record { holds = refl }

  pub effect-Keeps : {A : Type 0} (f : W → A × W) → Keeps (effect f)
  unfolding ◌>>=◌
  effect-Keeps f s = record { holds = refl }

  pub modify-Keeps :
      (f : OrchestrationState → OrchestrationState)
      → ((s : OrchestrationState) → view (f s) ≡ view s)
      → Keeps (modify f)
  unfolding ◌>>=◌
  modify-Keeps f h s = record { holds = h s.state }

  answer-Keeps :
      {A : Type 0} (s : OrchestrationState) (r : Reply A × W)
      → Meets (λ a t. view t.state ≡ view s) (λ e t. view t.state ≡ view s) (answer s r)
  answer-Keeps s (value a, w) = record { holds = refl }
  answer-Keeps s (rejected e, w) = record { holds = refl }

  pub call-Keeps : {A : Type 0} (f : W → Reply A × W) → Keeps (call f)
  unfolding ◌>>=◌
  call-Keeps f s = answer-Keeps s.state (f s.world)

  -- What holds of the rest holds from the state before, the view being the same.
  pub after_Keeps :
      {A : Type 0} (m : M W A) (s t : Store W)
      → Keeps m
      → view t.state ≡ view s.state
      → Meets (λ a u. view u.state ≡ view s.state) (λ e u. view u.state ≡ view s.state) (m t)
  after_Keeps m s t k same = weaken_Meets (m t) (k t) (λ a u e. e ∙ same) (λ x u e. e ∙ same)

  pub bind-Keeps :
      {A B : Type 0} (m : M W A) (f : A → M W B)
      → Keeps m
      → ((a : A) → Keeps (f a))
      → Keeps (m >>= f)
  bind-Keeps m f hm hf s = bind-Meets _ m f s (hm s) (λ a t same. after_Keeps (f a) s t (hf a) same)

  pub try_catch-Keeps :
      {A : Type 0} (m : M W A) (h : Failure → M W A)
      → Keeps m
      → ((e : Failure) → Keeps (h e))
      → Keeps (try_catch m h)
  try_catch-Keeps m h hm hh s =
      try_catch-Meets _ m h s (hm s) (λ e t same. after_Keeps (h e) s t (hh e) same)

  pub if_Keeps :
      {A : Type 0} (b : Bool) (m n : M W A) → Keeps m → Keeps n → Keeps (if b then m else n)
  if_Keeps true m n hm hn = hm
  if_Keeps false m n hm hn = hn

pub if_Meets :
    {W A : Type 0} {Q : A → Store W → Type 0} {E : Failure → Store W → Type 0} (b : Bool)
    (m n : M W A) (s : Store W)
    → (b ≡ true → Meets Q E (m s))
    → (b ≡ false → Meets Q E (n s))
    → Meets Q E ((if b then m else n) s)
if_Meets true m n s hm hn = hm refl
if_Meets false m n s hm hn = hn refl
