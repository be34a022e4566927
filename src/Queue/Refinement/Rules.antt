-- ===== src/Queue/Refinement/Rules.antt =====
-- `Follows act`: from a table with a primary key, whatever `act` returns or throws, the mission
-- table has evolved by the writes of the state machine. One rule for each construct of a handler.
use operaia_lab.Common.{
  String, Bool, true, false, List, Option, none, some, ◌≡◌, refl, Memᴰ, if◌then◌else◌, string_same,
  str_iff,
}
use operaia_lab.Queue.Model.{Mission, Tables, QueueError, Result, ok, err}
use operaia_lab.Queue.Rows.{HasUniqueIds}
use operaia_lab.Queue.Client.{PrismaClient}
use operaia_lab.Queue.Monad.{M, ◌>>=◌, continue, return, read, ask, require, or_throw, lift}
use operaia_lab.Queue.Enqueue.{append_event}
use operaia_lab.Queue.Lifecycle.{RowStep, IsNew, updates, inserts, Evolves, here, later}
use operaia_lab.Queue.Lifecycle.Evolution.{Evolves-trans, Evolves-unique}

pub record FollowsAt {ℓ} {A : Type ℓ} (act : M A) (ts : Tables) : Type 0 where
  pub evolves : HasUniqueIds ts.missions → Evolves ts.missions (act ts).1.missions

abbrev pub Follows {ℓ} : {A : Type ℓ} → M A → Type 0
Follows act = (ts : Tables) → FollowsAt act ts

module _ {ℓ κ} {A : Type ℓ} {B : Type κ} where
  continue_from :
      (ms : List Mission) (r : Result A × Tables) (f : A → M B)
      → HasUniqueIds ms
      → Evolves ms r.1.missions
      → ((a : A) (us : Tables) → Evolves ms us.missions → FollowsAt (f a) us)
      → Evolves ms (continue r f).1.missions
  continue_from ms (ok a, ts) f u h k = Evolves-trans h ((k a ts h).evolves (Evolves-unique h u))
  continue_from ms (err e, ts) f u h k = h

  continue-Follows :
      (ms : List Mission) (r : Result A × Tables) (f : A → M B)
      → HasUniqueIds ms
      → Evolves ms r.1.missions
      → ((a : A) → Follows (f a))
      → Evolves ms (continue r f).1.missions
  continue-Follows ms (ok a, ts) f u h k = Evolves-trans h ((k a ts).evolves (Evolves-unique h u))
  continue-Follows ms (err e, ts) f u h k = h

  pub bind-FollowsAt :
      (act : M A) (f : A → M B) (ts : Tables)
      → FollowsAt act ts
      → ((a : A) → Follows (f a))
      → FollowsAt (act >>= f) ts
  unfolding ◌>>=◌
  bind-FollowsAt act f ts h k = record {
    evolves = λ u. continue-Follows ts.missions (act ts) f u (h.evolves u) k;
  }

  pub bind-Follows :
      (act : M A) (f : A → M B) → Follows act → ((a : A) → Follows (f a)) → Follows (act >>= f)
  bind-Follows act f h k ts = bind-FollowsAt act f ts (h ts) k

  -- The rest may use that the tables have evolved from those of the start.
  pub bind_follows_from :
      (act : M A) (f : A → M B) (ts : Tables)
      → FollowsAt act ts
      → ((a : A) (us : Tables) → Evolves ts.missions us.missions → FollowsAt (f a) us)
      → FollowsAt (act >>= f) ts
  unfolding ◌>>=◌
  bind_follows_from act f ts h k = record {
    evolves = λ u. continue_from ts.missions (act ts) f u (h.evolves u) k;
  }

  pub read_returns :
      (f : Tables → A) (g : A → M B) (ts : Tables)
      → FollowsAt (g (f ts)) ts
      → FollowsAt (read f >>= g) ts
  unfolding ◌>>=◌
  read_returns f g ts h = record { evolves = h.evolves }

  pub lift_returns :
      (r : Result A) (g : A → M B) (ts : Tables)
      → ((a : A) → r ≡ ok a → FollowsAt (g a) ts)
      → FollowsAt (lift r >>= g) ts
  unfolding ◌>>=◌
  lift_returns (ok a) g ts h = record { evolves = (h a refl).evolves }
  lift_returns (err e) g ts h = record { evolves = λ u. here }

  -- A first part that is known to return, or to throw, and to write nothing.
  pub bind_returns :
      (act : M A) (f : A → M B) (ts : Tables) {a : A}
      → act ts ≡ (ok a, ts)
      → FollowsAt (f a) ts
      → FollowsAt (act >>= f) ts
  unfolding ◌>>=◌
  bind_returns act f ts e h = record { evolves = λ u. rw e (h.evolves u) }

  pub bind_throws :
      (act : M A) (f : A → M B) (ts : Tables) {e : QueueError}
      → act ts ≡ (err e, ts)
      → FollowsAt (act >>= f) ts
  unfolding ◌>>=◌
  bind_throws act f ts h = record { evolves = λ u. rw h here }

module _ {ℓ} {A : Type ℓ} where
  pub return-Follows : (a : A) → Follows (return a)
  unfolding ◌>>=◌
  return-Follows a ts = record { evolves = λ u. here }

  pub read-Follows : (f : Tables → A) → Follows (read f)
  unfolding ◌>>=◌
  read-Follows f ts = record { evolves = λ u. here }

  pub lift-Follows : (r : Result A) → Follows (lift r)
  unfolding ◌>>=◌
  lift-Follows r ts = record { evolves = λ u. here }

  pub or_throw-Follows : (e : QueueError) (o : Option A) → Follows (or_throw e o)
  unfolding ◌>>=◌
  or_throw-Follows e none ts = record { evolves = λ u. here }
  or_throw-Follows e (some a) ts = record { evolves = λ u. here }

  pub elim-Follows :
      (b : Bool) (x y : M A) → Follows x → Follows y → Follows (elim b [ true ↦ x | false ↦ y ])
  elim-Follows true x y h k = h
  elim-Follows false x y h k = k

  pub elim-FollowsAt :
      (b : Bool) (x y : M A) (ts : Tables)
      → (b ≡ true → FollowsAt x ts)
      → (b ≡ false → FollowsAt y ts)
      → FollowsAt (elim b [ true ↦ x | false ↦ y ]) ts
  elim-FollowsAt true x y ts h k = h refl
  elim-FollowsAt false x y ts h k = k refl

  -- A handler that follows from every table with a primary key.
  pub follows_unique :
      (act : M A) (ts : Tables) → (HasUniqueIds ts.missions → FollowsAt act ts) → FollowsAt act ts
  follows_unique act ts h = record { evolves = λ u. (h u).evolves u }

  pub if_Follows : (b : Bool) (x y : M A) → Follows x → Follows y → Follows (if b then x else y)
  if_Follows true x y h k = h
  if_Follows false x y h k = k

pub require-Follows : (b : Bool) (e : QueueError) → Follows (require b e)
unfolding ◌>>=◌
require-Follows true e ts = record { evolves = λ u. here }
require-Follows false e ts = record { evolves = λ u. here }

module _ (db : PrismaClient) where
  pub create-Follows :
      (row : String → Mission)
      → ((id : String) → IsNew (row id))
      → ((id : String) → (row id).id ≡ id)
      → Follows (ask (db.mission_create row))
  unfolding ◌>>=◌
  create-Follows row new keyed ts = record {
    evolves = λ u.
        let id = db.new_id ts in
        rw (db.create_lem row ts)
          (later here (inserts (row id) (new id) (rw (keyed id) (db.new_id_lem ts))));
  }

  pub append_event-Follows : (id type message : String) → Follows (append_event db id type message)
  unfolding append_event ◌>>=◌
  append_event-Follows id type message ts = record {
    evolves = λ u.
        rw (db.event_create_lem (record { mission_id = id; type = type; message = message }) ts)
          here;
  }

  pub update_many-FollowsAt :
      (p : Mission → Bool) (f : Mission → Mission) (ts : Tables)
      → (HasUniqueIds ts.missions
          → (m : Mission) → Memᴰ m ts.missions
          → p m ≡ true
          → RowStep m (f m))
      → ((m : Mission) → (f m).id ≡ m.id)
      → FollowsAt (ask (db.mission_update_many p f)) ts
  unfolding ◌>>=◌
  update_many-FollowsAt p f ts step keeps = record {
    evolves = λ u. rw (db.update_many_lem p f ts) (later here (updates p f (step u) keeps));
  }

  pub update-FollowsAt :
      (id : String) (f : Mission → Mission) (ts : Tables)
      → (HasUniqueIds ts.missions
          → (m : Mission) → Memᴰ m ts.missions
          → m.id ≡ id
          → RowStep m (f m))
      → ((m : Mission) → (f m).id ≡ m.id)
      → FollowsAt (ask (db.mission_update id f)) ts
  unfolding ◌>>=◌
  update-FollowsAt id f ts step keeps = record {
    evolves = λ u.
        rw (db.update_lem id f ts)
          (later here (updates _ f (λ m mem e. step u m mem ((str_iff m.id id).0 e)) keeps));
  }
