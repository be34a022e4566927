-- ===== src/Queue/Client.antt =====
-- Prisma and PostgreSQL, which the queue calls and the repository does not hold: the client's
-- methods as parameters, with their documented behaviour as laws. The state is the tables; rows come
-- in the table's order, but those of a raw query in an order that is not specified. What a raw query
-- answers is computed from its condition and its order.
use operaia_lab.Common.{
  ℕ, ◌≤◌, String, Bool, true, false, List, [], ◌∷◌, ◌++◌, Option, none, some, ◌≡◌, Memᴰ, keep, ◌==◌,
  ◌||◌, ◌↔◌, not, ltb, leb, nat_same, string_same, ◌&&◌, if◌then◌else◌,
}
use operaia_lab.Queue.Model.{Mission, MissionEvent, MissionDependency, WorkerHeartbeat, Tables}
use operaia_lab.Queue.Select.{best}
use operaia_lab.Queue.Rows.{find_row, update_where, count_where}

-- A raw query `SELECT … WHERE … ORDER BY … FOR UPDATE SKIP LOCKED LIMIT 1`: its condition and the
-- two keys of its order, ascending.
pub record SelectQuery : Type 0 where
  pub where_clause : Mission → Bool
  pub order_by : Mission → ℕ × ℕ

abbrev pub is_in_order : ℕ × ℕ → ℕ × ℕ → Bool
is_in_order a b = ltb a.0 b.0 || (a.0 == b.0 && leb a.1 b.1)

-- Its row, from the rows as they are scanned.
unfoldable pub run_select : SelectQuery → (Mission → Bool) → List Mission → Option Mission
run_select q locked rows =
    best (λ a b. is_in_order (q.order_by a) (q.order_by b))
      (λ m. q.where_clause m && not (locked m)) rows

-- What `findFirst` with `orderBy: { createdAt: "desc" }` selects.
abbrev pub SelectsNewest : (Mission → Bool) → List Mission → Option Mission → Type 0
SelectsNewest p ms none = (m : Mission) → Memᴰ m ms → p m ≡ false
SelectsNewest p ms (some row) =
    Memᴰ row ms
    × (p row ≡ true)
    × ((m : Mission) → Memᴰ m ms → p m ≡ true → m.created_at ≤ row.created_at)

-- `upsert` on the unique pair of ids, with nothing to update.
unfoldable pub upsert : MissionDependency → List MissionDependency → List MissionDependency
upsert d [] = d ∷ []
upsert d (e ∷ es) =
    if e.mission_id == d.mission_id && e.depends_on_mission_id == d.depends_on_mission_id
    then e ∷ es
    else e ∷ upsert d es

abbrev has_row : Option Mission → Bool
has_row none = false
has_row (some m) = true

-- Both missions of an edge are there.
unfoldable pub is_linked : MissionDependency → Tables → Bool
is_linked d ts =
    has_row (find_row d.mission_id ts.missions)
    && has_row (find_row d.depends_on_mission_id ts.missions)

pub record PrismaClient : Type 0 where
  pub mission_find_unique : String → Tables → Option Mission
  pub mission_find_first : (Mission → Bool) → Tables → Option Mission
  pub mission_find_many : (Mission → Bool) → Tables → List Mission
  pub mission_count : (Mission → Bool) → Tables → ℕ
  -- The identifier that the database draws for the next row.
  pub new_id : Tables → String
  pub mission_create : (String → Mission) → Tables → Mission × Tables
  pub mission_update_many : (Mission → Bool) → (Mission → Mission) → Tables → ℕ × Tables
  pub mission_update : String → (Mission → Mission) → Tables → Option Mission × Tables
  pub dependency_find_many : (MissionDependency → Bool) → Tables → List MissionDependency
  -- Whether the edge was accepted: it is rejected where it breaks a foreign key.
  pub dependency_upsert : MissionDependency → Tables → Bool × Tables
  pub event_create : MissionEvent → Tables → Tables
  pub event_find_first : (MissionEvent → Bool) → Tables → Option MissionEvent
  pub heartbeat_find_many : (WorkerHeartbeat → Bool) → Tables → List WorkerHeartbeat
  pub locked : Tables → Mission → Bool
  -- The rows of the table as a query scans them, in an order that is not specified.
  pub scan : Tables → List Mission
  pub query_raw : SelectQuery → Tables → Option Mission
  -- A transaction that is rejected writes nothing.
  pub transaction_rejects : Tables → Bool
  pub find_unique_lem :
      (id : String) (ts : Tables) → mission_find_unique id ts ≡ find_row id ts.missions
  pub find_first_lem :
      (p : Mission → Bool) (ts : Tables) → SelectsNewest p ts.missions (mission_find_first p ts)
  pub find_many_lem :
      (p : Mission → Bool) (ts : Tables) → mission_find_many p ts ≡ keep p ts.missions
  pub count_lem :
      (p : Mission → Bool) (ts : Tables) → mission_count p ts ≡ count_where p ts.missions
  pub create_lem :
      (row : String → Mission) (ts : Tables)
      → mission_create row ts
        ≡ (row (new_id ts), record ts { missions = ts.missions ++ row (new_id ts) ∷ [] })
  pub new_id_lem : (ts : Tables) → find_row (new_id ts) ts.missions ≡ none
  pub update_many_lem :
      (p : Mission → Bool) (f : Mission → Mission) (ts : Tables)
      → mission_update_many p f ts
        ≡ (count_where p ts.missions, record ts { missions = update_where p f ts.missions })
  -- `update` writes the row of a primary key and returns what it reads there afterwards.
  pub update_lem :
      (id : String) (f : Mission → Mission) (ts : Tables)
      → mission_update id f ts ≡ (
        find_row id (update_where (λ m. m.id == id) f ts.missions),
        record ts { missions = update_where (λ m. m.id == id) f ts.missions },
      )
  pub dependency_find_many_lem :
      (p : MissionDependency → Bool) (ts : Tables)
      → dependency_find_many p ts ≡ keep p ts.dependencies
  pub dependency_upsert_lem :
      (d : MissionDependency) (ts : Tables)
      → dependency_upsert d ts ≡ (
        is_linked d ts,
        if is_linked d ts then record ts { dependencies = upsert d ts.dependencies } else ts,
      )
  pub event_create_lem :
      (e : MissionEvent) (ts : Tables)
      → event_create e ts ≡ record ts { events = ts.events ++ e ∷ [] }
  pub heartbeat_find_many_lem :
      (p : WorkerHeartbeat → Bool) (ts : Tables) → heartbeat_find_many p ts ≡ keep p ts.heartbeats
  pub scan_lem : (m : Mission) (ts : Tables) → Memᴰ m (scan ts) ↔ Memᴰ m ts.missions
  pub query_raw_lem :
      (q : SelectQuery) (ts : Tables) → query_raw q ts ≡ run_select q (locked ts) (scan ts)
