-- ===== src/Queue/Fencing.antt =====
-- Settling a lease, apps/api/src/modules/runtime/mission-queue.ts: `markWaiting`, `complete` and
-- `fail` accept the caller that holds the lease, and refuse every other.
use Prim.Native.String
use operaia_lab.Common.{
  ℕ, String, Bool, true, false, List, none, some, ◌≡◌, arith, refl, ◌∙◌, ap, if◌then◌else◌,
  Bool-cases, Option-cases, inl, inr, ◌==◌, ◌&&◌, nat_same, string_same, str_iff,
}
use operaia_lab.Json.{Json}
use operaia_lab.Queue.Model.{
  Mission, Tables, QueueError, ok, err, not_found, stale_ownership, is_running,
}
use operaia_lab.Queue.Rows.{find_row, update_where, count_where, HasUniqueIds}
use operaia_lab.Queue.Rows.Laws.{
  find_row-id, count_where_key, update_where_none, find_row-update_where, HasUniqueIds-update_where,
}
use operaia_lab.Queue.Client.{PrismaClient}
use operaia_lab.Queue.Monad.{M, ◌>>=◌, ◌>>◌}
use operaia_lab.Queue.Settle.{
  owns, settle, mark_waiting, complete, fail, to_waiting, to_completed, to_retry, to_failed,
  failure, can_retry,
}
use operaia_lab.Queue.Lifecycle.{Evolves}
use operaia_lab.Queue.Lifecycle.Evolution.{Evolves-unique, At-of_find_row, find_row_of_At}
use operaia_lab.Queue.Lifecycle.Leases.{IsSpent, Spent, Evolves-Spent}
use operaia_lab.Queue.Refinement.Rules.{Follows}
use operaia_lab.Queue.Refinement.Settling.{
  reread, reread-Follows, complete_rest-Follows, get_or_throw-some, get_or_throw-none,
  mark_waiting-Follows, complete-Follows, fail-Follows, failure-id,
}

-- The three ways to give a lease back.
pub data Settlement : Type 0 where
  waiting_for : Json → Settlement
  completion : Json → ℕ → Settlement
  failing : String → ℕ → Settlement

abbrev flag : Bool → ℕ
flag true = 1
flag false = 0

count_owned :
    (id : String) (lease : ℕ) (ms : List Mission) {m : Mission}
    → HasUniqueIds ms
    → find_row id ms ≡ some m
    → count_where (owns id lease) ms ≡ flag (owns id lease m)
unfolding owns
count_owned id lease ms {m} u found = ground (
  arith,
  count_where_key id (λ x. is_running x.status && x.lease_version == lease) ms u,
  str_iff m.id id,
  find_row-id id ms found,
)

module _ (db : PrismaClient) where
  unfoldable pub settle_with : String → ℕ → Settlement → M Mission
  settle_with id lease (waiting_for partial) = mark_waiting db id partial lease
  settle_with id lease (completion result now) = complete db id result lease now
  settle_with id lease (failing error now) = fail db id error lease now

  module _ (id : String) (lease : ℕ) (f : Mission → Mission) (ts : Tables) where
    -- Not the row, or not under this lease: nothing is written.
    settle_refused :
        {m : Mission}
        → HasUniqueIds ts.missions
        → find_row id ts.missions ≡ some m
        → owns id lease m ≡ false
        → settle db id lease f ts ≡ (err (stale_ownership id lease), ts)
    unfolding settle ◌>>=◌
    settle_refused u found e =
        let none_hit = count_owned id lease ts.missions u found ∙ ap flag e in
        rw (db.update_many_lem (owns id lease) f ts)
          (rw (update_where_none (owns id lease) f ts.missions none_hit, none_hit) refl)

    settle_accepted :
        {m : Mission}
        → HasUniqueIds ts.missions
        → find_row id ts.missions ≡ some m
        → owns id lease m ≡ true
        → settle db id lease f ts
          ≡ (ok tt, record ts { missions = update_where (owns id lease) f ts.missions })
    unfolding settle ◌>>=◌
    settle_accepted u found e =
        rw (db.update_many_lem (owns id lease) f ts)
          (rw (count_owned id lease ts.missions u found ∙ ap flag e) refl)

  IsSpent-owns : (id : String) (lease : ℕ) (m : Mission) → IsSpent lease m → owns id lease m ≡ false
  unfolding owns
  IsSpent-owns id lease m s = ground arith

  -- `throw` passes through the rest of a handler.
  bind_err :
      {A B : Type 0} (act : M A) (k : A → M B) (ts : Tables) {e : QueueError}
      → act ts ≡ (err e, ts)
      → (act >>= k) ts ≡ (err e, ts)
  unfolding ◌>>=◌
  bind_err act k ts h = rw h refl

  bind_ok :
      {A B : Type 0} (act : M A) (k : A → M B) (ts us : Tables) {a : A}
      → act ts ≡ (ok a, us)
      → (act >>= k) ts ≡ k a us
  unfolding ◌>>=◌
  bind_ok act k ts us h = rw h refl

  module _ (id : String) (lease : ℕ) (ts : Tables) where
    fail_refused :
        (error : String) (now : ℕ) {m : Mission}
        → find_row id ts.missions ≡ some m
        → owns id lease m ≡ false
        → fail db id error lease now ts ≡ (err (stale_ownership id lease), ts)
    unfolding fail owns
    fail_refused error now {m} found e =
        let test : (is_running m.status && m.lease_version == lease) ≡ false =
          ground (arith, find_row-id id ts.missions found, str_iff m.id id) in
        bind_ok _ _ ts ts (get_or_throw-some db id ts found)
        ∙ bind_err _ _ ts (rw test (unfold ◌>>=◌ in refl))

    -- A handler whose caller does not hold the lease of the row throws and writes nothing.
    settle_with_refused :
        (s : Settlement) {m : Mission}
        → HasUniqueIds ts.missions
        → find_row id ts.missions ≡ some m
        → owns id lease m ≡ false
        → settle_with id lease s ts ≡ (err (stale_ownership id lease), ts)
    unfolding settle_with mark_waiting complete
    settle_with_refused (waiting_for partial) u found e =
        bind_err _ _ ts (settle_refused id lease (to_waiting partial) ts u found e)
    settle_with_refused (completion result now) u found e =
        bind_err _ _ ts (settle_refused id lease (to_completed result now) ts u found e)
    settle_with_refused (failing error now) u found e = fail_refused error now found e

    pub settle_with_stale :
        (s : Settlement)
        → HasUniqueIds ts.missions
        → Spent id lease ts.missions
        → settle_with id lease s ts ≡ (err (stale_ownership id lease), ts)
    settle_with_stale s u spent =
        let (m, found, sm) = find_row_of_At (IsSpent lease) id ts.missions spent in
        settle_with_refused s u found (IsSpent-owns id lease m sm)

  -- The row that an accepted settlement leaves.
  abbrev pub outcome : Settlement → Mission → Mission → Mission
  outcome (waiting_for partial) m = to_waiting partial
  outcome (completion result now) m = to_completed result now
  outcome (failing error now) m = failure m error now

  outcome-IsSpent :
      (id : String) (lease : ℕ) (s : Settlement) (m : Mission)
      → owns id lease m ≡ true
      → IsSpent lease (outcome s m m)
  unfolding owns to_waiting to_completed to_retry to_failed
  outcome-IsSpent id lease (waiting_for partial) m e = ground arith
  outcome-IsSpent id lease (completion result now) m e = ground arith
  outcome-IsSpent id lease (failing error now) m e = ground arith

  outcome-id : (s : Settlement) (current m : Mission) → (outcome s current m).id ≡ m.id
  unfolding to_waiting to_completed
  outcome-id (waiting_for partial) current m = refl
  outcome-id (completion result now) current m = refl
  outcome-id (failing error now) current m = failure-id current error now m

  module _ (id : String) (lease : ℕ) (ts : Tables) (s : Settlement) (m : Mission)
      (u : HasUniqueIds ts.missions) (found : find_row id ts.missions ≡ some m)
      (e : owns id lease m ≡ true) where
    abbrev settled : Tables
    settled = record ts { missions = update_where (owns id lease) (outcome s m) ts.missions }

    find_row-settled : find_row id settled.missions ≡ some (outcome s m m)
    find_row-settled =
        rw
          (
            find_row-update_where (owns id lease) (outcome s m) id ts.missions (outcome-id s m),
            found,
          )
          (rw e refl)

    settled-Spent : Spent id lease settled.missions
    settled-Spent =
        At-of_find_row (IsSpent lease) id settled.missions find_row-settled
          (outcome-IsSpent id lease s m e)

    settled_unique : HasUniqueIds settled.missions
    settled_unique =
        HasUniqueIds-update_where (owns id lease) (outcome s m) ts.missions (outcome-id s m) u

    bind_Spent :
        {A B : Type 0} (act : M A) (k : A → M B) (a : A)
        → act ts ≡ (ok a, settled)
        → Follows (k a)
        → Spent id lease ((act >>= k) ts).1.missions
    bind_Spent act k a h follows =
        rw (bind_ok act k ts settled h)
          (Evolves-Spent id lease ((follows settled).evolves settled_unique) settled-Spent)

  fail_accepted :
      (id : String) (lease : ℕ) (ts : Tables) (error : String) (now : ℕ) (m : Mission)
      → find_row id ts.missions ≡ some m
      → owns id lease m ≡ true
      → fail db id error lease now ts
        ≡ (settle db id lease (failure m error now)
              >> reread db id
                  (if can_retry m then "requeued" else "failed")
                  (String.◌++◌ (if can_retry m then "Retry agendado: " else "Falha final: ") error))
            ts
  unfolding fail owns
  fail_accepted id lease ts error now m found e =
      let test : (is_running m.status && m.lease_version == lease) ≡ true = ground arith in
      bind_ok _ _ ts ts (get_or_throw-some db id ts found)
      ∙ bind_ok _ _ ts ts (rw test (unfold ◌>>=◌ in refl))

  -- Whatever else the handler does, the lease is spent when it is over.
  settle_with-Spent :
      (id : String) (lease : ℕ) (ts : Tables) (s : Settlement) (m : Mission)
      → HasUniqueIds ts.missions
      → find_row id ts.missions ≡ some m
      → owns id lease m ≡ true
      → Spent id lease (settle_with id lease s ts).1.missions
  unfolding settle_with mark_waiting complete
  settle_with-Spent id lease ts (waiting_for partial) m u found e =
      bind_Spent id lease ts (waiting_for partial) m u found e _ _ tt
        (settle_accepted id lease _ ts u found e) (λ us. reread-Follows db id _ _ us)
  settle_with-Spent id lease ts (completion result now) m u found e =
      bind_Spent id lease ts (completion result now) m u found e _ _ tt
        (settle_accepted id lease _ ts u found e) (λ us. complete_rest-Follows db id now us)
  settle_with-Spent id lease ts (failing error now) m u found e =
      rw (fail_accepted id lease ts error now m found e) (
        bind_Spent id lease ts (failing error now) m u found e _ _ tt
          (settle_accepted id lease _ ts u found e) (λ us. reread-Follows db id _ _ us))

  -- A handler that returns held the lease.
  held :
      (id : String) (lease : ℕ) (ts : Tables) (s : Settlement) {m : Mission} {r : Mission}
      → HasUniqueIds ts.missions
      → find_row id ts.missions ≡ some m
      → (settle_with id lease s ts).0 ≡ ok r
      → owns id lease m ≡ true
  held id lease ts s {m} u found h = elim (Bool-cases (owns id lease m)) [
    | inl e ↦ e
    | inr e ↦ cc (ap (λ p. p.0) (settle_with_refused id lease ts s u found e))
  ]

  settle_absent :
      (id : String) (lease : ℕ) (f : Mission → Mission) (ts : Tables)
      → HasUniqueIds ts.missions
      → find_row id ts.missions ≡ none
      → settle db id lease f ts ≡ (err (stale_ownership id lease), ts)
  unfolding settle ◌>>=◌ owns
  settle_absent id lease f ts u absent =
      let none_hit : count_where (owns id lease) ts.missions ≡ 0 = ground (
        arith,
        count_where_key id (λ x. is_running x.status && x.lease_version == lease) ts.missions u,
      ) in
      rw (db.update_many_lem (owns id lease) f ts)
        (rw (update_where_none (owns id lease) f ts.missions none_hit, none_hit) refl)

  -- Without the row every settlement throws.
  settle_with_absent :
      (id : String) (lease : ℕ) (ts : Tables) (s : Settlement)
      → HasUniqueIds ts.missions
      → find_row id ts.missions ≡ none
      → (e : QueueError) × (settle_with id lease s ts ≡ (err e, ts))
  unfolding settle_with mark_waiting complete fail
  settle_with_absent id lease ts (waiting_for partial) u absent =
      (stale_ownership id lease, bind_err _ _ ts (settle_absent id lease _ ts u absent))
  settle_with_absent id lease ts (completion result now) u absent =
      (stale_ownership id lease, bind_err _ _ ts (settle_absent id lease _ ts u absent))
  settle_with_absent id lease ts (failing error now) u absent =
      (not_found id, bind_err _ _ ts (get_or_throw-none db id ts absent))

  returned-Spent :
      (id : String) (lease : ℕ) (ts : Tables) (s : Settlement) {r : Mission}
      → HasUniqueIds ts.missions
      → (settle_with id lease s ts).0 ≡ ok r
      → Spent id lease (settle_with id lease s ts).1.missions
  returned-Spent id lease ts s u h = elim (Option-cases (find_row id ts.missions)) [
    | inl absent ↦
        let (e, threw) = settle_with_absent id lease ts s u absent in cc (ap (λ p. p.0) threw)
    | inr (m, found) ↦ settle_with-Spent id lease ts s m u found (held id lease ts s u found h)
  ]

  pub settle_with-Follows :
      (id : String) (lease : ℕ) (s : Settlement) → Follows (settle_with id lease s)
  unfolding settle_with
  settle_with-Follows id lease (waiting_for partial) ts =
      mark_waiting-Follows db id partial lease ts
  settle_with-Follows id lease (completion result now) ts =
      complete-Follows db id result lease now ts
  settle_with-Follows id lease (failing error now) ts = fail-Follows db id error lease now ts

  -- From a table with a primary key: after `markWaiting`, `complete` or `fail` has returned for a row
  -- under a lease, and whatever writes of the queue come after it, each of the three throws
  -- StaleMissionOwnership for that row and lease, and leaves the tables as they are.
  pub settle_once :
      (id : String) (lease : ℕ) (s t : Settlement) (ts us : Tables) {r : Mission}
      → HasUniqueIds ts.missions
      → (settle_with id lease s ts).0 ≡ ok r
      → Evolves (settle_with id lease s ts).1.missions us.missions
      → settle_with id lease t us ≡ (err (stale_ownership id lease), us)
  settle_once id lease s t ts us u h after =
      settle_with_stale id lease us t
        (Evolves-unique after (Evolves-unique ((settle_with-Follows id lease s ts).evolves u) u))
        (Evolves-Spent id lease after (returned-Spent id lease ts s u h))
