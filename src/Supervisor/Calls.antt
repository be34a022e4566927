-- ===== src/Supervisor/Calls.antt =====
-- Single calls of the store of latches: what they do to the latch of a key, and of another.
use operaia_lab.Common.{
  ℕ, String, true, false, not, ◌||◌, List, some, ◌≡◌, refl, ap, ◌==◌, string_same, arith, str_iff,
}
use operaia_lab.Supervisor.Latch.{
  CoordinationLatchKey, coordination_latch_key_of, LatchRecord, Latches, consumed, not_acquired,
  find_latch, set_latch, should_preserve_consumed_exhausted_latch, acquire_existing, try_acquire,
  release, has_key, release_absent, release_all, complete, completed, new_latch,
}
use operaia_lab.Supervisor.Keys.{find_latch-set_latch, find_latch-drop_latches}

pub set_latch-other :
    (id j : String) (r : LatchRecord) (ls : Latches)
    → id == j ≡ false
    → find_latch j (set_latch id r ls) ≡ find_latch j ls
set_latch-other id j r ls h = rw (find_latch-set_latch id j r ls, h) refl

pub set_latch-own :
    (id : String) (r : LatchRecord) (ls : Latches) → find_latch id (set_latch id r ls) ≡ some r
set_latch-own id r ls = ground (arith, str_iff id id, find_latch-set_latch id id r ls)

-- Calls for one key leave the latch of another as it is.
pub acquire_existing-other :
    (id j : String) (r : LatchRecord) (stale_after now : ℕ) (ls : Latches)
    → id == j ≡ false
    → find_latch j (acquire_existing id r stale_after now ls).1 ≡ find_latch j ls
unfolding acquire_existing
acquire_existing-other id j r stale_after now ls h = ground (
  arith,
  set_latch-other id j (record r { status = consumed }) ls h,
  set_latch-other id j (record r { updated_at = now }) ls h,
)

pub try_acquire-other :
    (k : CoordinationLatchKey) (j : String) (stale_after now : ℕ) (ls : Latches)
    → coordination_latch_key_of k == j ≡ false
    → find_latch j (try_acquire k stale_after now ls).1 ≡ find_latch j ls
unfolding try_acquire
try_acquire-other k j stale_after now ls h = grind (
  arith,
  set_latch-other (coordination_latch_key_of k) j (new_latch k now) ls h,
  λ (r : LatchRecord).
      acquire_existing-other (coordination_latch_key_of k) j r stale_after now ls h,
)

pub complete-other :
    (k : CoordinationLatchKey) (j mission_id : String) (now : ℕ) (ls : Latches)
    → coordination_latch_key_of k == j ≡ false
    → find_latch j (complete k mission_id now ls) ≡ find_latch j ls
unfolding complete
complete-other k j mission_id now ls h = grind (
  arith,
  λ (r : LatchRecord).
      set_latch-other (coordination_latch_key_of k) j (completed r mission_id now) ls h,
)

-- A call that keeps the latch of a key, whose record is `r`, and that is not an acquire or a
-- complete of this key, finds it as it was.
pub release-kept :
    (key k : CoordinationLatchKey) (r : LatchRecord) (ls : Latches)
    → find_latch (coordination_latch_key_of key) ls ≡ some r
    → coordination_latch_key_of k == coordination_latch_key_of key ≡ false
    → find_latch (coordination_latch_key_of key) (release k ls) ≡ some r
unfolding release
release-kept key k r ls h n =
    find_latch-drop_latches (λ i r. i == coordination_latch_key_of k) _ r ls h ground
      (
        arith,
        str_iff (coordination_latch_key_of k) (coordination_latch_key_of key),
        str_iff (coordination_latch_key_of key) (coordination_latch_key_of k),
      )

pub release_absent-kept :
    (key : CoordinationLatchKey) (active : List CoordinationLatchKey) (r : LatchRecord)
    (ls : Latches)
    → find_latch (coordination_latch_key_of key) ls ≡ some r
    → has_key (coordination_latch_key_of key) active
        || should_preserve_consumed_exhausted_latch r.key.reason r.status
      ≡ true
    → find_latch (coordination_latch_key_of key) (release_absent active ls) ≡ some r
unfolding release_absent
release_absent-kept key active r ls h k =
    find_latch-drop_latches
      (λ i r.
        not (has_key i active || should_preserve_consumed_exhausted_latch r.key.reason r.status))
      _ r ls h (ap not k)

pub release_all-kept :
    (key : CoordinationLatchKey) (r : LatchRecord) (ls : Latches)
    → find_latch (coordination_latch_key_of key) ls ≡ some r
    → should_preserve_consumed_exhausted_latch r.key.reason r.status ≡ true
    → find_latch (coordination_latch_key_of key) (release_all ls) ≡ some r
unfolding release_all
release_all-kept key r ls h k =
    find_latch-drop_latches
      (λ i r. not (should_preserve_consumed_exhausted_latch r.key.reason r.status)) _ r ls h
      (ap not k)

pub try_acquire-consumed :
    (k : CoordinationLatchKey) (stale_after now : ℕ) (r : LatchRecord) (ls : Latches)
    → find_latch (coordination_latch_key_of k) ls ≡ some r
    → r.status ≡ consumed
    → try_acquire k stale_after now ls ≡ (not_acquired, ls)
unfolding try_acquire acquire_existing
try_acquire-consumed k stale_after now r ls h c = rw (try_acquire, h, acquire_existing, c) refl

pub complete-own :
    (k : CoordinationLatchKey) (mission_id : String) (now : ℕ) (r : LatchRecord) (ls : Latches)
    → find_latch (coordination_latch_key_of k) ls ≡ some r
    → find_latch (coordination_latch_key_of k) (complete k mission_id now ls)
      ≡ some (completed r mission_id now)
unfolding complete
complete-own k mission_id now r ls h =
    rw (complete, h) (set_latch-own (coordination_latch_key_of k) (completed r mission_id now) ls)
