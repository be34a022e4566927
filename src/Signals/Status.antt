-- ===== src/Signals/Status.antt =====
-- How a signal may change: `Moved r t` says that the row `t` is the signal `r` later in its life.
use operaia_lab.Common.{
  String, Bool, true, false, List, [], ◌∷◌, ◌++◌, some, ◌≡◌, refl, sym, ◌∙◌, inl, inr, ◌==◌,
  string_same, str_iff, Bool-cases, arith,
}
use operaia_lab.Signals.Model.{
  DomainSignalStatus, detected, evaluated, converted, resolved, ignored, expired,
  DomainSignalRecord,
}
use operaia_lab.Signals.Store.{find_signal, put_signal}

-- The statuses a signal may have after others: DETECTED before EVALUATED, then CONVERTED before
-- RESOLVED, and IGNORED and EXPIRED at the end of either of the first two.
abbrev pub is_later : DomainSignalStatus → DomainSignalStatus → Bool
is_later detected t = true
is_later evaluated detected = false
is_later evaluated t = true
is_later converted converted = true
is_later converted resolved = true
is_later resolved resolved = true
is_later ignored ignored = true
is_later expired expired = true
is_later r t = false

-- The statuses of a signal that a mission has taken.
abbrev pub has_mission : DomainSignalStatus → Bool
has_mission converted = true
has_mission resolved = true
has_mission other = false

pub record Moved (r t : DomainSignalRecord) : Type 0 where
  pub id : t.id ≡ r.id
  pub workspace_id : t.workspace_id ≡ r.workspace_id
  pub source_type : t.source_type ≡ r.source_type
  pub delivery_id : t.delivery_id ≡ r.delivery_id
  pub status : is_later r.status t.status ≡ true
  pub mission : has_mission r.status ≡ true → t.mission_id ≡ r.mission_id

is_later_refl : (s : DomainSignalStatus) → is_later s s ≡ true
is_later_refl s = ground arith

is_later_trans :
    (a b c : DomainSignalStatus) → is_later a b ≡ true → is_later b c ≡ true → is_later a c ≡ true
is_later_trans a b c h k = ground arith

has_mission-later :
    (a b : DomainSignalStatus) → is_later a b ≡ true → has_mission a ≡ true → has_mission b ≡ true
has_mission-later a b h k = ground arith

pub Moved-refl : (r : DomainSignalRecord) → Moved r r
Moved-refl r = record {
  id = refl;
  workspace_id = refl;
  source_type = refl;
  delivery_id = refl;
  status = is_later_refl r.status;
  mission = λ h. refl;
}

pub Moved-trans : (a b c : DomainSignalRecord) → Moved a b → Moved b c → Moved a c
Moved-trans a b c h k = record {
  id = k.id ∙ h.id;
  workspace_id = k.workspace_id ∙ h.workspace_id;
  source_type = k.source_type ∙ h.source_type;
  delivery_id = k.delivery_id ∙ h.delivery_id;
  status = is_later_trans a.status b.status c.status h.status k.status;
  mission = λ m. k.mission (has_mission-later a.status b.status h.status m) ∙ h.mission m;
}

-- Every signal of `rs` is in `ts`, later in its life.
pub record AllMoved (rs ts : List DomainSignalRecord) : Type 0 where
  pub moved :
      (id : String) (r : DomainSignalRecord)
      → find_signal id rs ≡ some r
      → (t : DomainSignalRecord) × (find_signal id ts ≡ some t) × Moved r t

pub AllMoved-refl : (rs : List DomainSignalRecord) → AllMoved rs rs
AllMoved-refl rs = record { moved = λ id r h. (r, h, Moved-refl r) }

pub AllMoved-trans : (a b c : List DomainSignalRecord) → AllMoved a b → AllMoved b c → AllMoved a c
AllMoved-trans a b c h k = record {
  moved = λ id r found.
      let (t, found_t, m) = h.moved id r found in
      let (u, found_u, n) = k.moved id t found_t in (u, found_u, Moved-trans r t u m n);
}

pub find_signal-id :
    (id : String) (rs : List DomainSignalRecord) (r : DomainSignalRecord)
    → find_signal id rs ≡ some r
    → r.id ≡ id
unfolding find_signal
find_signal-id id [] r h = cc
find_signal-id id (x ∷ rs) r h = ground (arith, str_iff x.id id, find_signal-id id rs r)

find_signal-append :
    (id : String) (rs ts : List DomainSignalRecord) (r : DomainSignalRecord)
    → find_signal id rs ≡ some r
    → find_signal id (rs ++ ts) ≡ some r
unfolding find_signal
find_signal-append id [] ts r h = cc
find_signal-append id (x ∷ rs) ts r h = ground (arith, find_signal-append id rs ts r)

pub AllMoved-append : (rs ts : List DomainSignalRecord) → AllMoved rs (rs ++ ts)
AllMoved-append rs ts = record {
  moved = λ id r h. (r, find_signal-append id rs ts r h, Moved-refl r);
}

find_signal-put_same :
    (id : String) (rs : List DomainSignalRecord) (r row : DomainSignalRecord)
    → find_signal id rs ≡ some r
    → row.id ≡ id
    → find_signal id (put_signal id row rs) ≡ some row
unfolding find_signal put_signal
find_signal-put_same id [] r row h e = cc
find_signal-put_same id (x ∷ rs) r row h e = elim (Bool-cases (x.id == id)) [
  | inl y ↦ rw (y, (str_iff row.id id).1 e) refl
  | inr n ↦ rw (n, n) (find_signal-put_same id rs r row (ground arith) e)
]

find_signal-put_other :
    (id k : String) (rs : List DomainSignalRecord) (row : DomainSignalRecord)
    → row.id ≡ k
    → (k == id) ≡ false
    → find_signal id (put_signal k row rs) ≡ find_signal id rs
unfolding find_signal put_signal
find_signal-put_other id k [] row e n = refl
find_signal-put_other id k (x ∷ rs) row e n = ground (
  arith,
  str_iff x.id k,
  str_iff row.id id,
  str_iff x.id id,
  str_iff k id,
  find_signal-put_other id k rs row e n,
)

pub AllMoved-put_signal :
    (k : String) (rs : List DomainSignalRecord) (r row : DomainSignalRecord)
    → find_signal k rs ≡ some r
    → Moved r row
    → AllMoved rs (put_signal k row rs)
AllMoved-put_signal k rs r row found m =
    let same : row.id ≡ k = m.id ∙ find_signal-id k rs r found in
    record {
      moved = λ id x h. elim (Bool-cases (k == id)) [
        | inl y ↦
            let e : id ≡ k = sym ((str_iff k id).0 y) in
            let x_r : x ≡ r = some_injective (sym h ∙ rw e found) in
            (row, rw e (find_signal-put_same k rs r row found same), rw x_r m)
        | inr n ↦ (x, find_signal-put_other id k rs row same n ∙ h, Moved-refl x)
      ];
    }
  where
    some_injective : {a b : DomainSignalRecord} → some a ≡ some b → a ≡ b
    some_injective h = cc
