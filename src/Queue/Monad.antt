-- ===== src/Queue/Monad.antt =====
-- A method of the queue: it reads and writes the tables, and returns or throws. What was written
-- before a throw stays written.
use operaia_lab.Common.{Bool, true, false, Option, none, some}
use operaia_lab.Queue.Model.{Tables, QueueError, Result, ok, err}

abbrev pub M {ℓ} : Type ℓ → Type ℓ
M A = Tables → Result A × Tables

module _ {ℓ} {A : Type ℓ} where
  pub return : A → M A
  return a ts = (ok a, ts)

  pub read : (Tables → A) → M A
  read f ts = (ok (f ts), ts)

  -- A write that also answers.
  pub ask : (Tables → A × Tables) → M A
  ask f ts = (ok (f ts).0, (f ts).1)

  -- `findUniqueOrThrow`, and `update` on a primary key that is not there.
  pub or_throw : QueueError → Option A → M A
  or_throw e none ts = (err e, ts)
  or_throw e (some a) ts = (ok a, ts)

  pub lift : Result A → M A
  lift r ts = (r, ts)

pub write : (Tables → Tables) → M (Unit {0})
write f ts = (ok tt, f ts)

pub require : Bool → QueueError → M (Unit {0})
require true e ts = (ok tt, ts)
require false e ts = (err e, ts)

module _ {ℓ κ} {A : Type ℓ} {B : Type κ} where
  abbrev pub continue : Result A × Tables → (A → M B) → Result B × Tables
  continue (ok a, ts) f = f a ts
  continue (err e, ts) f = (err e, ts)

  infixl 5 ◌>>=◌
  -- To open this opens every construct above.
  unfoldable pub ◌>>=◌ : M A → (A → M B) → M B
  unfolding return read ask or_throw lift write require
  ◌>>=◌ m f ts = continue (m ts) f

infixl 5 ◌>>◌
abbrev pub ◌>>◌ {ℓ} : {B : Type ℓ} → M (Unit {0}) → M B → M B
m >> k = m >>= λ _. k
