-- ===== src/Supervisor/Reclaim.antt =====
-- A latch that was acquired and then left alone: when it is acquired again.
use operaia_lab.Common.{
  ℕ, ◌+◌, Bool, true, false, not, ◌&&◌, ◌||◌, List, [], ◌∷◌, some, ◌≡◌, refl, ◌∙◌, ◌==◌,
  string_same, if◌then◌else◌, ltb, inl, inr, arith, str_iff, Bool-cases, Option-cases,
}
use operaia_lab.Supervisor.Latch.{
  CoordinationLatchKey, coordination_latch_key_of, LatchRecord, Latches, pending, not_acquired,
  acquired, AcquireMode, reclaim, find_latch, set_latch, acquire_existing, try_acquire, has_mission,
  new_latch,
}
use operaia_lab.Supervisor.Exclusion.{
  LatchCall, acquires, releases, releases_absent, releases_all, completes, latch_step, latch_run,
  keeps,
}
use operaia_lab.Supervisor.Calls.{
  set_latch-own, try_acquire-other, complete-other, release-kept, release_absent-kept,
}

-- The call neither releases nor completes the latch of the key, and acquires it only before it is
-- stale, counted from `since`.
unfoldable pub leaves : CoordinationLatchKey → ℕ → LatchCall → Bool
unfolding keeps
leaves key since (acquires k stale_after now) =
    not (coordination_latch_key_of k == coordination_latch_key_of key)
    || ltb now (since + stale_after)
leaves key since (completes k mission_id now) =
    not (coordination_latch_key_of k == coordination_latch_key_of key)
leaves key since (releases k) = keeps key false (releases k)
leaves key since (releases_absent active) = keeps key false (releases_absent active)
leaves key since releases_all = false

unfoldable pub all_leave : CoordinationLatchKey → ℕ → List LatchCall → Bool
unfolding leaves
all_leave key since [] = true
all_leave key since (c ∷ cs) = leaves key since c && all_leave key since cs

-- The latch of the key is PENDING without a mission, latched and written at these times.
record IsHeld (key : CoordinationLatchKey) (latched since : ℕ) (ls : Latches) : Type 0 where
  latch : LatchRecord
  found : find_latch (coordination_latch_key_of key) ls ≡ some latch
  status : latch.status ≡ pending
  mission : has_mission latch.last_mission_id ≡ false
  latched_at : latch.latched_at ≡ latched
  updated_at : latch.updated_at ≡ since

try_acquire-held :
    (key : CoordinationLatchKey) (stale_after now : ℕ) (r : LatchRecord) (ls : Latches)
    → find_latch (coordination_latch_key_of key) ls ≡ some r
    → r.status ≡ pending
    → has_mission r.last_mission_id ≡ false
    → try_acquire key stale_after now ls ≡ (
        if ltb now (r.updated_at + stale_after) then (not_acquired, ls) else (
          acquired r.latched_at reclaim,
          set_latch (coordination_latch_key_of key) (record r { updated_at = now }) ls,
        ))
unfolding try_acquire acquire_existing
try_acquire-held key stale_after now r ls h p m = rw (try_acquire, h, acquire_existing, p, m) refl

-- What an acquire leaves.
try_acquire-IsHeld :
    (key : CoordinationLatchKey) (stale_after now latched : ℕ) (mode : AcquireMode) (ls : Latches)
    → (try_acquire key stale_after now ls).0 ≡ acquired latched mode
    → IsHeld key latched now (try_acquire key stale_after now ls).1
unfolding try_acquire acquire_existing
try_acquire-IsHeld key stale_after now latched mode ls h =
    elim (Option-cases (find_latch (coordination_latch_key_of key) ls)) [
      | inl missing ↦ record {
        latch = new_latch key now;
        found = rw (try_acquire, missing) (set_latch-own _ (new_latch key now) ls);
        status = refl;
        mission = refl;
        latched_at = ground (arith, missing, h);
        updated_at = refl;
      }
      | inr (r, there) ↦
          (let own =
              set_latch-own (coordination_latch_key_of key) (record r { updated_at = now }) ls in
            record {
              latch = record r { updated_at = now };
              found = ground (arith, there, h, own);
              status = ground (arith, there, h);
              mission = ground (arith, there, h);
              latched_at = ground (arith, there, h);
              updated_at = refl;
            })
    ]

module _ (key : CoordinationLatchKey) (latched since : ℕ) where
  -- The latch of the key is found as it was.
  found-IsHeld :
      (ls ls' : Latches) (h : IsHeld key latched since ls)
      → find_latch (coordination_latch_key_of key) ls' ≡ some h.latch
      → IsHeld key latched since ls'
  found-IsHeld ls ls' h e = record {
    latch = h.latch;
    found = e;
    status = h.status;
    mission = h.mission;
    latched_at = h.latched_at;
    updated_at = h.updated_at;
  }

  acquires-IsHeld :
      (k : CoordinationLatchKey) (stale_after now : ℕ) (ls : Latches)
      → leaves key since (acquires k stale_after now) ≡ true
      → IsHeld key latched since ls
      → IsHeld key latched since (try_acquire k stale_after now ls).1
  unfolding leaves
  acquires-IsHeld k stale_after now ls left h =
      elim (Bool-cases (coordination_latch_key_of k == coordination_latch_key_of key)) [
        | inl same ↦
            (let id_same : coordination_latch_key_of k ≡ coordination_latch_key_of key =
                (str_iff (coordination_latch_key_of k) (coordination_latch_key_of key)).0 same in
              let own : find_latch (coordination_latch_key_of k) ls ≡ some h.latch =
                cc (id_same, h.found) in
              let early : ltb now (h.latch.updated_at + stale_after) ≡ true =
                ground (arith, same, left, h.updated_at) in
              rw (try_acquire-held k stale_after now h.latch ls own h.status h.mission, early) h)
        | inr other ↦
            found-IsHeld ls (try_acquire k stale_after now ls).1 h (
              try_acquire-other k (coordination_latch_key_of key) stale_after now ls other
              ∙ h.found)
      ]

  latch_step-IsHeld :
      (c : LatchCall) (ls : Latches)
      → leaves key since c ≡ true
      → IsHeld key latched since ls
      → IsHeld key latched since (latch_step c ls)
  unfolding latch_step leaves
  latch_step-IsHeld (acquires k stale_after now) ls left h =
      acquires-IsHeld k stale_after now ls left h
  latch_step-IsHeld (releases k) ls left h =
      found-IsHeld ls (latch_step (releases k) ls) h
        (release-kept key k h.latch ls h.found ground arith)
  latch_step-IsHeld (releases_absent active) ls left h =
      found-IsHeld ls (latch_step (releases_absent active) ls) h
        (release_absent-kept key active h.latch ls h.found ground arith)
  latch_step-IsHeld releases_all ls left h = ground arith
  latch_step-IsHeld (completes k mission_id now) ls left h =
      found-IsHeld ls (latch_step (completes k mission_id now) ls) h
        (complete-other k (coordination_latch_key_of key) mission_id now ls ground arith ∙ h.found)

  latch_run-IsHeld :
      (cs : List LatchCall) (ls : Latches)
      → all_leave key since cs ≡ true
      → IsHeld key latched since ls
      → IsHeld key latched since (latch_run cs ls)
  unfolding latch_run all_leave
  latch_run-IsHeld [] ls left h = h
  latch_run-IsHeld (c ∷ cs) ls left h =
      latch_run-IsHeld cs (latch_step c ls) ground arith (latch_step-IsHeld c ls ground arith h)

-- After an acquire, and any calls that neither release nor complete the key nor acquire it when it
-- is stale, an acquire fails while less than `stale_after` has passed since the first, and from then
-- on it reclaims the latch with its time of creation: a latch whose holder is gone is never lost.
pub acquired-reclaimed_when_stale :
    (key : CoordinationLatchKey) (ls : Latches) (cs : List LatchCall)
    (stale_after now latched later_stale later : ℕ) (mode : AcquireMode)
    → (try_acquire key stale_after now ls).0 ≡ acquired latched mode
    → all_leave key now cs ≡ true
    → (try_acquire key later_stale later (latch_run cs (try_acquire key stale_after now ls).1)).0
      ≡ (if ltb later (now + later_stale) then not_acquired else acquired latched reclaim)
acquired-reclaimed_when_stale key ls cs stale_after now latched later_stale later mode h left =
    let first = try_acquire-IsHeld key stale_after now latched mode ls h in
    let after =
      latch_run-IsHeld key latched now cs (try_acquire key stale_after now ls).1 left first in
    let last =
      try_acquire-held key later_stale later after.latch _ after.found after.status after.mission in
    ground (arith, last, after.latched_at, after.updated_at)
