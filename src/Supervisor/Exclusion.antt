-- ===== src/Supervisor/Exclusion.antt =====
-- Sequences of calls of the store of latches: what becomes of a latch that is held or consumed.
use operaia_lab.Common.{
  ℕ, String, Bool, true, not, ◌&&◌, ◌||◌, List, [], ◌∷◌, some, ◌≡◌, refl, ◌∙◌, ◌==◌, string_same,
  inl, inr, arith, str_iff, Bool-cases,
}
use operaia_lab.Supervisor.Latch.{
  CoordinationLatchKey, coordination_latch_key_of, LatchRecord, Latches, consumed, not_acquired,
  find_latch, is_exhausted_mission_latch_reason, should_preserve_consumed_exhausted_latch,
  try_acquire, release, has_key, release_absent, release_all, is_consumed, complete, completed,
}
use operaia_lab.Supervisor.Calls.{
  try_acquire-other, complete-other, release-kept, release_absent-kept, release_all-kept,
  try_acquire-consumed, complete-own,
}

-- A call of the store, with the age from which a latch is stale and the time.
pub data LatchCall : Type 0 where
  acquires : CoordinationLatchKey → ℕ → ℕ → LatchCall
  releases : CoordinationLatchKey → LatchCall
  releases_absent : List CoordinationLatchKey → LatchCall
  releases_all : LatchCall
  completes : CoordinationLatchKey → String → ℕ → LatchCall

unfoldable pub latch_step : LatchCall → Latches → Latches
latch_step (acquires key stale_after now) ls = (try_acquire key stale_after now ls).1
latch_step (releases key) ls = release key ls
latch_step (releases_absent active) ls = release_absent active ls
latch_step releases_all ls = release_all ls
latch_step (completes key mission_id now) ls = complete key mission_id now ls

unfoldable pub latch_run : List LatchCall → Latches → Latches
unfolding latch_step
latch_run [] ls = ls
latch_run (c ∷ cs) ls = latch_run cs (latch_step c ls)

-- The call releases no latch of this key, one that `releaseAbsent` and `releaseAll` preserve where
-- `preserved` is true.
unfoldable pub keeps : CoordinationLatchKey → Bool → LatchCall → Bool
keeps key preserved (acquires k stale_after now) = true
keeps key preserved (releases k) =
    not (coordination_latch_key_of k == coordination_latch_key_of key)
keeps key preserved (releases_absent active) =
    preserved || has_key (coordination_latch_key_of key) active
keeps key preserved releases_all = preserved
keeps key preserved (completes k mission_id now) = true

unfoldable pub all_keep : CoordinationLatchKey → Bool → List LatchCall → Bool
unfolding keeps
all_keep key preserved [] = true
all_keep key preserved (c ∷ cs) = keeps key preserved c && all_keep key preserved cs

-- A latch of the key is there, with this key in its record and CONSUMED.
pub record IsConsumedLatch (key : CoordinationLatchKey) (ls : Latches) : Type 0 where
  pub latch : LatchRecord
  pub found : find_latch (coordination_latch_key_of key) ls ≡ some latch
  pub reason : latch.key.reason ≡ key.reason
  pub status : latch.status ≡ consumed

module _ (key : CoordinationLatchKey) where
  abbrev preserved_reason : Bool
  preserved_reason = is_exhausted_mission_latch_reason key.reason

  acquires-IsConsumedLatch :
      (k : CoordinationLatchKey) (stale_after now : ℕ) (ls : Latches)
      → IsConsumedLatch key ls
      → IsConsumedLatch key (try_acquire k stale_after now ls).1
  acquires-IsConsumedLatch k stale_after now ls h =
      elim (Bool-cases (coordination_latch_key_of k == coordination_latch_key_of key)) [
        | inl same ↦
            (let own : find_latch (coordination_latch_key_of k) ls ≡ some h.latch = ground (
              arith,
              str_iff (coordination_latch_key_of k) (coordination_latch_key_of key),
              h.found,
            ) in
              rw (try_acquire-consumed k stale_after now h.latch ls own h.status) h)
        | inr other ↦ record {
          latch = h.latch;
          found =
              try_acquire-other k (coordination_latch_key_of key) stale_after now ls other
              ∙ h.found;
          reason = h.reason;
          status = h.status;
        }
      ]

  completes-IsConsumedLatch :
      (k : CoordinationLatchKey) (mission_id : String) (now : ℕ) (ls : Latches)
      → IsConsumedLatch key ls
      → IsConsumedLatch key (complete k mission_id now ls)
  completes-IsConsumedLatch k mission_id now ls h =
      elim (Bool-cases (coordination_latch_key_of k == coordination_latch_key_of key)) [
        | inl same ↦ record {
          latch = completed h.latch mission_id now;
          found = ground (
            arith,
            str_iff (coordination_latch_key_of k) (coordination_latch_key_of key),
            h.found,
            complete-own k mission_id now h.latch ls,
          );
          reason = h.reason;
          status = refl;
        }
        | inr other ↦ record {
          latch = h.latch;
          found =
              complete-other k (coordination_latch_key_of key) mission_id now ls other ∙ h.found;
          reason = h.reason;
          status = h.status;
        }
      ]

  pub latch_step-IsConsumedLatch :
      (c : LatchCall) (ls : Latches)
      → keeps key preserved_reason c ≡ true
      → IsConsumedLatch key ls
      → IsConsumedLatch key (latch_step c ls)
  unfolding latch_step keeps should_preserve_consumed_exhausted_latch
  latch_step-IsConsumedLatch (acquires k stale_after now) ls kept h =
      acquires-IsConsumedLatch k stale_after now ls h
  latch_step-IsConsumedLatch (releases k) ls kept h = record {
    latch = h.latch;
    found = release-kept key k h.latch ls h.found ground arith;
    reason = h.reason;
    status = h.status;
  }
  latch_step-IsConsumedLatch (releases_absent active) ls kept h = record {
    latch = h.latch;
    found =
        release_absent-kept key active h.latch ls h.found ground (arith, h.reason, h.status, kept);
    reason = h.reason;
    status = h.status;
  }
  latch_step-IsConsumedLatch releases_all ls kept h = record {
    latch = h.latch;
    found = release_all-kept key h.latch ls h.found ground (arith, h.reason, h.status, kept);
    reason = h.reason;
    status = h.status;
  }
  latch_step-IsConsumedLatch (completes k mission_id now) ls kept h =
      completes-IsConsumedLatch k mission_id now ls h

  latch_run-IsConsumedLatch :
      (cs : List LatchCall) (ls : Latches)
      → all_keep key preserved_reason cs ≡ true
      → IsConsumedLatch key ls
      → IsConsumedLatch key (latch_run cs ls)
  unfolding latch_run all_keep
  latch_run-IsConsumedLatch [] ls kept h = h
  latch_run-IsConsumedLatch (c ∷ cs) ls kept h =
      latch_run-IsConsumedLatch cs (latch_step c ls) ground arith
        (latch_step-IsConsumedLatch c ls ground arith h)

-- A CONSUMED latch is acquired at no time, over any calls of the store that neither release its
-- key nor, unless it is the latch of an exhausted mission, leave its key out of a `releaseAbsent`
-- or release all: and the store says that it is consumed.
pub consumed-never_acquired :
    (key : CoordinationLatchKey) (cs : List LatchCall) (ls : Latches) (stale_after now : ℕ)
    → all_keep key (is_exhausted_mission_latch_reason key.reason) cs ≡ true
    → IsConsumedLatch key ls
    → ((try_acquire key stale_after now (latch_run cs ls)).0 ≡ not_acquired)
      × (is_consumed key (latch_run cs ls) ≡ true)
unfolding is_consumed
consumed-never_acquired key cs ls stale_after now kept h =
    let after = latch_run-IsConsumedLatch key cs ls kept h in
    (
      rw (try_acquire-consumed key stale_after now after.latch _ after.found after.status) refl,
      rw (is_consumed, after.found, after.status) refl,
    )
