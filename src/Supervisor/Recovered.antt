-- ===== src/Supervisor/Recovered.antt =====
-- What the report of a recovery counts and asks for.
use operaia_lab.Common.{
  ℕ, ◌+◌, ◌≤◌, suc, String, Bool, true, false, ◌&&◌, ◌||◌, List, [], ◌∷◌, ◌++◌, ◌≡◌, refl, sym, ap,
  ◌∙◌, nat_same, if◌then◌else◌, ltb, length, arith,
}
use operaia_lab.Common.Effects.{
  Result, ok, err, return, ◌>>=◌, Ends, Ends-map, bind-Ends, if_Ends, return-Ends, gets-Ends,
}
use operaia_lab.Supervisor.Types.{MissionScanItem, QueueScanReport, RecoveryAction}
use operaia_lab.Supervisor.Recovery.{
  RecoveryPorts, Recovering, max, count_of, or_count, is_stalled, is_blocked, is_exhausted,
  coordinations_of, recover_by, push_action, stale_action, recover_stale, waiting_action,
  recover_waiting, blocked_action, recover_blocked, retry_action, recover_retryable,
  exhausted_action, escalate_exhausted, recover_all, recover,
}

abbrev pub total : List RecoveryAction → ℕ
total [] = 0
total (a ∷ actions) = a.count + total actions

abbrev pub all_counted : List RecoveryAction → Bool
all_counted [] = true
all_counted (a ∷ actions) = ltb 0 a.count && all_counted actions

-- What a list of actions gains by one more.
record Gains (actions : List RecoveryAction) (a : RecoveryAction) : Type 0 where
  sum : total (actions ++ (a ∷ [])) ≡ total actions + a.count
  size : length (actions ++ (a ∷ [])) ≡ suc (length actions)
  counted : all_counted (actions ++ (a ∷ [])) ≡ (all_counted actions && ltb 0 a.count)
  asked :
      ltb 0 (coordinations_of (actions ++ (a ∷ [])))
      ≡ (ltb 0 (coordinations_of actions) || a.create_coordination)

append-Gains : (actions : List RecoveryAction) (a : RecoveryAction) → Gains actions a
append-Gains [] a = record {
  sum = ground arith;
  size = refl;
  counted = ground arith;
  asked = ground arith;
}
append-Gains (b ∷ actions) a =
    let rest = append-Gains actions a in
    record {
      sum = ground (arith, rest.sum);
      size = ground (arith, rest.size);
      counted = ground (arith, rest.counted);
      asked = ground (arith, rest.asked);
    }

-- What holds of an error that a port has thrown.
abbrev OfPort : {W : Type 0} → (String → Type 0) → (W → Result String ℕ × W) → Type 0
OfPort {W} X f = (w : W) (e : String) → (f w).0 ≡ err e → X e

pub record PortThrows {W : Type 0} (ports : RecoveryPorts W) (X : String → Type 0) : Type 0 where
  pub stale : OfPort X (ports.recover_stale_running ports.stale_running_ms)
  pub waiting : OfPort X ports.recover_waiting_parents
  pub blocked : OfPort X ports.recover_blocked_dag
  pub retryable : OfPort X ports.recover_failed_retryable

module _ {W : Type 0} (ports : RecoveryPorts W) (X : String → Type 0)
    (thrown : PortThrows ports X) where
  -- At most `k` actions, each of which counts something; they count all that was recovered; and
  -- `asks` is whether one of them asks for coordination.
  record Counts (k : ℕ) (asks : Bool) (s : Recovering W) : Type 0 where
    few : length s.actions ≤ k
    counted : all_counted s.actions ≡ true
    recovered : s.infra_recovered ≤ total s.actions
    asked : ltb 0 (coordinations_of s.actions) ≡ asks

  abbrev Throws : String → Recovering W → Type 0
  Throws e t = X e

  push_action-Counts :
      (n : ℕ) (a : RecoveryAction) (k : ℕ) (asks : Bool) (s : Recovering W)
      → ltb 0 a.count ≡ true
      → n ≤ a.count
      → Counts k asks s
      → Ends
          (λ u t. Counts (suc k) (asks || a.create_coordination) t)
          Throws
          (push_action ports n a s)
  unfolding push_action
  push_action-Counts n a k asks s positive bound h =
      let gain = append-Gains s.actions a in
      record {
        holds = record {
          few = ground (arith, gain.size, h.few);
          counted = ground (arith, gain.counted, h.counted, positive);
          recovered = ground (arith, gain.sum, h.recovered, bound);
          asked = ground (arith, gain.asked, h.asked);
        };
      }

  recover_by-Counts :
      (f : W → Result String ℕ × W) (k : ℕ) (asks : Bool) (s : Recovering W)
      → OfPort X f
      → Counts k asks s
      → Ends (λ n t. Counts k asks t) Throws (recover_by ports f s)
  unfolding recover_by
  recover_by-Counts f k asks s x h = answered (f s.world).0 refl
    where
      answered :
          (r : Result String ℕ)
          → (f s.world).0 ≡ r
          → Ends (λ n t. Counts k asks t) Throws (r, record s { world = (f s.world).1 })
      answered (ok n) same = record {
        holds = record {
          few = h.few;
          counted = h.counted;
          recovered = h.recovered;
          asked = h.asked;
        };
      }
      answered (err e) same = record { holds = x s.world e same }

  -- Nothing was done.
  skipped-Counts :
      (k : ℕ) (asks more : Bool) (s : Recovering W)
      → more ≡ false
      → Counts k asks s
      → Counts (suc k) (asks || more) s
  skipped-Counts k asks more s e h = record {
    few = ground (arith, h.few);
    counted = h.counted;
    recovered = h.recovered;
    asked = ground (arith, h.asked, e);
  }

  as_asked :
      (t : Recovering W) (a b : Bool) (k : ℕ) (asks : Bool)
      → a ≡ b
      → Counts (suc k) (asks || a) t
      → Counts (suc k) (asks || b) t
  as_asked t a b k asks e h = record {
    few = h.few;
    counted = h.counted;
    recovered = h.recovered;
    asked = h.asked ∙ ap (λ x. asks || x) e;
  }

  -- A recovery that counts at least `m` where there are `m` missions to recover.
  counted_by-Counts :
      (f : W → Result String ℕ × W) (action : ℕ → RecoveryAction) (m k : ℕ) (asks : Bool)
      (s : Recovering W)
      → OfPort X f
      → ((n : ℕ) → (action n).count ≡ max n m)
      → ((n : ℕ) → ltb 0 m ≡ true → (action n).create_coordination ≡ true)
      → Counts k asks s
      → Ends
          (λ u t. Counts (suc k) (asks || ltb 0 m) t)
          Throws
          ((if ltb 0 m
              then (recover_by ports f >>= (λ n. push_action ports n (action n)))
              else return tt)
            s)
  counted_by-Counts f action m k asks s x count asks_for h =
      if_Ends (ltb 0 m) _ _ s
        (λ yes.
          bind-Ends (λ n t. Counts k asks t) _ _ s (recover_by-Counts f k asks s x h)
            (λ n t i.
              Ends-map _
                (push_action-Counts n (action n) k asks t ground (arith, count n, yes) ground
                  (arith, count n) i)
                (λ u t' j.
                  as_asked t' (action n).create_coordination (ltb 0 m) k asks
                    (asks_for n yes ∙ sym yes) j)
                (λ e t' j. j)))
        (λ no. return-Ends tt s (skipped-Counts k asks (ltb 0 m) s no h))

  recover_stale-Counts :
      (m k : ℕ) (asks : Bool) (s : Recovering W)
      → Counts k asks s
      → Ends (λ u t. Counts (suc k) (asks || ltb 0 m) t) Throws (recover_stale ports m s)
  unfolding recover_stale
  recover_stale-Counts m k asks s h =
      counted_by-Counts (ports.recover_stale_running ports.stale_running_ms)
        (λ n. stale_action ports n m) m k asks s thrown.stale (λ n. refl) (λ n e. refl) h

  recover_waiting-Counts :
      (m k : ℕ) (asks : Bool) (s : Recovering W)
      → Counts k asks s
      → Ends (λ u t. Counts (suc k) (asks || ltb 0 m) t) Throws (recover_waiting ports m s)
  unfolding recover_waiting
  recover_waiting-Counts m k asks s h =
      counted_by-Counts ports.recover_waiting_parents (λ n. waiting_action ports n m) m k asks s
        thrown.waiting (λ n. refl) (λ n e. ground (arith, e)) h

  recover_blocked-Counts :
      (m k : ℕ) (asks : Bool) (s : Recovering W)
      → Counts k asks s
      → Ends (λ u t. Counts (suc k) (asks || ltb 0 m) t) Throws (recover_blocked ports m s)
  unfolding recover_blocked
  recover_blocked-Counts m k asks s h =
      counted_by-Counts ports.recover_blocked_dag (λ n. blocked_action ports n m) m k asks s
        thrown.blocked (λ n. refl) (λ n e. refl) h

  weaker : (k : ℕ) (asks : Bool) (s : Recovering W) → Counts k asks s → Counts (suc k) asks s
  weaker k asks s h = record {
    few = ground (arith, h.few);
    counted = h.counted;
    recovered = h.recovered;
    asked = h.asked;
  }

  -- An eligible failure that is queued again asks for nothing.
  recover_retryable-Counts :
      (m k : ℕ) (asks : Bool) (s : Recovering W)
      → Counts k asks s
      → Ends (λ u t. Counts (suc k) asks t) Throws (recover_retryable ports m s)
  unfolding recover_retryable
  recover_retryable-Counts m k asks s h =
      if_Ends (ltb 0 m) _ _ s
        (λ yes.
          bind-Ends (λ n t. Counts k asks t) _ _ s
            (recover_by-Counts ports.recover_failed_retryable k asks s thrown.retryable h)
            (λ n t i.
              if_Ends (ltb 0 n) _ _ t
                (λ some_back.
                  Ends-map _
                    (push_action-Counts n (retry_action ports n) k asks t some_back ground arith i)
                    (λ u t' j. unasked t' k j) (λ e t' j. j))
                (λ none_back. return-Ends tt t (weaker k asks t i))))
        (λ no. return-Ends tt s (weaker k asks s h))
    where
      unasked :
          (t : Recovering W) (k : ℕ) → Counts (suc k) (asks || false) t → Counts (suc k) asks t
      unasked t k j = record {
        few = j.few;
        counted = j.counted;
        recovered = j.recovered;
        asked = j.asked ∙ ground arith;
      }

  escalate_exhausted-Counts :
      (m k : ℕ) (asks : Bool) (s : Recovering W)
      → Counts k asks s
      → Ends (λ u t. Counts (suc k) (asks || ltb 0 m) t) Throws (escalate_exhausted ports m s)
  unfolding escalate_exhausted
  escalate_exhausted-Counts m k asks s h =
      if_Ends (ltb 0 m) _ _ s
        (λ yes.
          Ends-map _ (push_action-Counts 0 (exhausted_action ports m) k asks s yes ground arith h)
            (λ u t j. as_asked t true (ltb 0 m) k asks (sym yes) j) (λ e t j. j))
        (λ no. return-Ends tt s (skipped-Counts k asks (ltb 0 m) s no h))

-- Missions are stalled, waiting, blocked, or FAILED with no attempt left, no resume possible and
-- coordination still needed.
abbrev pub calls_for_coordination : List MissionScanItem → QueueScanReport → Bool
calls_for_coordination missions queue =
    (((false || ltb 0 (or_count (count_of is_stalled missions) queue.stuck)) || ltb 0 queue.waiting)
      || ltb 0 (count_of is_blocked missions))
    || ltb 0 (count_of is_exhausted missions)

-- A recovery returns, or throws what a port has thrown, so with X empty it returns. Its report has at
-- most five actions, each of which counts at least one mission; what was recovered is at most what
-- they count; and coordination is requested exactly where missions are stalled, waiting or blocked,
-- or one is FAILED, cannot be resumed, has used up its attempts and still needs coordination.
pub recover-bounds :
    {W : Type 0} (ports : RecoveryPorts W) (missions : List MissionScanItem)
    (queue : QueueScanReport) (w : W) (X : String → Type 0)
    → PortThrows ports X
    → Ends
        (λ report t.
          (length report.actions ≤ 5)
          × ((all_counted report.actions ≡ true)
              × ((report.infra_recovered ≤ total report.actions)
                  × (ltb 0 report.coordinations_requested
                      ≡ calls_for_coordination missions queue))))
        (λ error t. X error)
        (recover ports missions queue w)
unfolding recover recover_all
recover-bounds {W} ports missions queue w X thrown =
    let start : Recovering W = record { actions = []; infra_recovered = 0; world = w } in
    let counts : Counts ports X thrown 0 false start = record {
      few = ground arith;
      counted = refl;
      recovered = ground arith;
      asked = refl;
    } in
    bind-Ends (λ u t. Counts ports X thrown 5 (calls_for_coordination missions queue) t) _ _ start
      (bind-Ends _ _ _ start (recover_stale-Counts ports X thrown _ 0 false start counts)
        (λ u₁ t₁ h₁.
          bind-Ends _ _ _ t₁ (recover_waiting-Counts ports X thrown _ 1 _ t₁ h₁) (λ u₂ t₂ h₂.
            bind-Ends _ _ _ t₂ (recover_blocked-Counts ports X thrown _ 2 _ t₂ h₂) (λ u₃ t₃ h₃.
              bind-Ends _ _ _ t₃ (recover_retryable-Counts ports X thrown _ 3 _ t₃ h₃)
                (λ u₄ t₄ h₄. escalate_exhausted-Counts ports X thrown _ 4 _ t₄ h₄)))))
      (λ u t h. gets-Ends _ t (h.few, (h.counted, (h.recovered, h.asked))))
