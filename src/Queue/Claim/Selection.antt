-- ===== src/Queue/Claim/Selection.antt =====
-- Which row `claim` leases, apps/api/src/modules/runtime/mission-queue.ts.
use operaia_lab.Common.{
  ℕ, ◌≤◌, ◌<◌, Bool, true, false, List, Option, none, some, ◌≡◌, ◌⊎◌, ◌↔◌, refl, Memᴰ, str_iff,
  arith, not, ◌&&◌, Bool-cases, inl, inr,
}
use operaia_lab.Queue.Model.{Mission, ClaimCriteria, Tables, Result, ok, err, transaction_rejected}
use operaia_lab.Queue.Rows.{HasUniqueIds}
use operaia_lab.Queue.Rows.Laws.{find_row-update_where, find_row_of_Memᴰ}
use operaia_lab.Queue.Select.{Best, best-Best}
use operaia_lab.Queue.Client.{PrismaClient, is_in_order, run_select}
use operaia_lab.Queue.Monad.{◌>>=◌}
use operaia_lab.Queue.Enqueue.{append_event}
use operaia_lab.Queue.Claim.{
  claimable, priority_rank, claim_query, lease_to, lease_row, claim_first, claim,
}

-- `a` does not stand behind `b` in the order of `claim`.
abbrev pub ClaimsBefore : Mission → Mission → Type 0
ClaimsBefore a b =
    (priority_rank a.priority < priority_rank b.priority)
    ⊎ (priority_rank a.priority ≡ priority_rank b.priority) × (a.created_at ≤ b.created_at)

-- What `claim` selects among the rows that no other transaction has locked.
abbrev pub Selects : (Mission → Bool) → (Mission → Bool) → List Mission → Option Mission → Type 0
Selects p locked ms none = (m : Mission) → Memᴰ m ms → p m ≡ true → locked m ≡ true
Selects p locked ms (some row) =
    Memᴰ row ms
    × (p row ≡ true)
    × (locked row ≡ false)
    × ((m : Mission) → Memᴰ m ms → p m ≡ true → locked m ≡ false → ClaimsBefore row m)

claims_before : Mission → Mission → Bool
claims_before a b =
    is_in_order (priority_rank a.priority, a.created_at) (priority_rank b.priority, b.created_at)

claims_before-ClaimsBefore : (a b : Mission) → claims_before a b ≡ true → ClaimsBefore a b
unfolding claims_before
claims_before-ClaimsBefore a b h = ground arith

ClaimsBefore_of_behind : (a b : Mission) → claims_before a b ≡ false → ClaimsBefore b a
unfolding claims_before
ClaimsBefore_of_behind a b h = ground arith

ClaimsBefore-refl : (a : Mission) → ClaimsBefore a a
ClaimsBefore-refl a = ground arith

ClaimsBefore-trans : (a b c : Mission) → ClaimsBefore a b → ClaimsBefore b c → ClaimsBefore a c
ClaimsBefore-trans a b c h k = ground arith

-- A query answers from the rows as it scans them; they are the table's rows.
Selects-of_Best :
    (p locked : Mission → Bool) (scanned ms : List Mission)
    → ((m : Mission) → Memᴰ m scanned ↔ Memᴰ m ms)
    → (r : Option Mission)
    → Best ClaimsBefore claims_before claims_before-ClaimsBefore ClaimsBefore_of_behind
        ClaimsBefore-refl ClaimsBefore-trans
        (λ m. p m && not (locked m))
        scanned
        r
    → Selects p locked ms r
Selects-of_Best p locked scanned ms same none h = λ m mem e. is_locked m e (h m ((same m).1 mem))
  where
    is_locked : (m : Mission) → p m ≡ true → p m && not (locked m) ≡ false → locked m ≡ true
    is_locked m e q = ground arith
Selects-of_Best p locked scanned ms same (some row) (mem, e, h) =
    ((same row).0 mem, holds e, free e, λ m t q l. h m ((same m).1 t) (both m q l))
  where
    holds : p row && not (locked row) ≡ true → p row ≡ true
    holds q = ground arith

    free : p row && not (locked row) ≡ true → locked row ≡ false
    free q = ground arith

    both : (m : Mission) → p m ≡ true → locked m ≡ false → p m && not (locked m) ≡ true
    both m q l = ground arith

pub query_raw-Selects :
    (db : PrismaClient) (c : ClaimCriteria) (now : ℕ) (ts : Tables)
    → Selects (claimable c now) (db.locked ts) ts.missions (db.query_raw (claim_query c now) ts)
unfolding run_select claims_before
query_raw-Selects db c now ts = rw (db.query_raw_lem (claim_query c now) ts) (
    Selects-of_Best (claimable c now) (db.locked ts) (db.scan ts) ts.missions
      (λ m. db.scan_lem m ts) _
      (best-Best ClaimsBefore claims_before claims_before-ClaimsBefore ClaimsBefore_of_behind
        ClaimsBefore-refl ClaimsBefore-trans (λ m. claimable c now m && not (db.locked ts m))
        (db.scan ts)))

-- The row that a claim has leased: it was claimable and not locked, no claimable row that was not
-- locked stands before it in the order of priority and age, and the caller gets it leased.
pub record IsClaimed (db : PrismaClient) (c : ClaimCriteria) (now : ℕ) (ts : Tables) (m : Mission)
    : Type 0 where
  pub row : Mission
  pub listed : Memᴰ row ts.missions
  pub matches : claimable c now row ≡ true
  pub not_locked : db.locked ts row ≡ false
  pub first :
      (x : Mission)
      → Memᴰ x ts.missions
      → claimable c now x ≡ true
      → db.locked ts x ≡ false
      → ClaimsBefore row x
  pub leased : m ≡ lease_to c.employee_id now row

-- What a claim answers, and what it leaves in the tables.
abbrev pub Claimed :
    PrismaClient → ClaimCriteria → ℕ → Tables → Result (Option Mission) → Tables → Type 0
Claimed db c now ts (ok (some m)) after = IsClaimed db c now ts m
Claimed db c now ts (ok none) after =
    (after ≡ ts)
    × ((x : Mission) → Memᴰ x ts.missions → claimable c now x ≡ true → db.locked ts x ≡ true)
Claimed db c now ts (err e) after =
    (db.transaction_rejects ts ≡ true) × (e ≡ transaction_rejected) × (after ≡ ts)

module _ (db : PrismaClient) (c : ClaimCriteria) (now : ℕ) (ts : Tables)
    (u : HasUniqueIds ts.missions) where
  leased_row :
      (row : Mission)
      → Memᴰ row ts.missions
      → (lease_row db c now (some row) ts).0 ≡ ok (some (lease_to c.employee_id now row))
  unfolding ◌>>=◌ append_event lease_to
  leased_row row mem = rw (db.update_lem row.id (lease_to c.employee_id now) ts) (
      rw
        (
          find_row-update_where _ (lease_to c.employee_id now) row.id ts.missions (λ m. refl),
          find_row_of_Memᴰ ts.missions u mem,
          (str_iff row.id row.id).1 refl,
        )
        refl)

  selected :
      (row : Option Mission)
      → Selects (claimable c now) (db.locked ts) ts.missions row
      → Claimed db c now ts (lease_row db c now row ts).0 (lease_row db c now row ts).1
  unfolding ◌>>=◌
  selected none s = (refl, s)
  selected (some row) (mem, e, free, first) = rw (leased_row row mem) (record {
    row = row;
    listed = mem;
    matches = e;
    not_locked = free;
    first = first;
    leased = refl;
  })

  -- From a table with a primary key `claim` throws only where the database rejects its transaction,
  -- and then it writes nothing. Else it answers a row that was claimable for the caller and not
  -- locked, before every other such row in the order of priority and then creation, leased to the
  -- caller; or nothing, and then every claimable row is locked and nothing is written.
  pub claim-Claimed : Claimed db c now ts (claim db c now ts).0 (claim db c now ts).1
  unfolding claim claim_first ◌>>=◌
  claim-Claimed = elim (Bool-cases (db.transaction_rejects ts)) [
    | inl e ↦ rw e (e, refl, refl)
    | inr e ↦ rw e (selected _ (query_raw-Selects db c now ts))
  ]
