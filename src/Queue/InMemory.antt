-- ===== src/Queue/InMemory.antt =====
-- A client that keeps the laws of `Client`: the tables as lists, queries by evaluation, no other
-- transaction. It runs the examples.
use Prim.Native.String
use text.Mathlib.TextLemmas.{nil-append, cons-append}
use operaia_lab.Common.{
  ℕ, suc, ◌+◌, ◌≤◌, ◌<◌, String, Bool, true, false, List, [], ◌∷◌, ◌++◌, Option, none, some, ◌≡◌,
  arith, refl, if◌then◌else◌, leb, ◌==◌, nat_same, string_same, str_iff, keep, find_by,
}
use operaia_lab.Queue.Model.{Mission, Tables}
use operaia_lab.Queue.Rows.{find_row, update_where, count_where}
use operaia_lab.Queue.Select.{best, Best, best-Best}
use operaia_lab.Queue.Client.{PrismaClient, run_select, is_linked, SelectsNewest, upsert}

-- A key longer than every key of the table.
pub str_length : String → ℕ
str_length String.[] = 0
str_length (String.◌∷◌ c s) = suc (str_length s)

length-append : (s t : String) → str_length (String.◌++◌ s t) ≡ str_length s + str_length t
unfolding str_length
length-append String.[] t = rw nil-append (omega arith)
length-append (String.◌∷◌ c s) t = rw cons-append (omega (arith, length-append s t))

pub longer_id : List Mission → String
longer_id [] = "m"
longer_id (m ∷ ms) = String.◌++◌ m.id (longer_id ms)

longer_id-pos : (ms : List Mission) → 0 < str_length (longer_id ms)
unfolding longer_id str_length
longer_id-pos [] = omega arith
longer_id-pos (m ∷ ms) = omega (arith, length-append m.id (longer_id ms), longer_id-pos ms)

pub absent_of_longer :
    (id : String) (ms : List Mission)
    → str_length (longer_id ms) ≤ str_length id
    → find_row id ms ≡ none
unfolding find_row longer_id
absent_of_longer id [] h = refl
absent_of_longer id (m ∷ ms) h = ground (
  arith,
  str_iff m.id id,
  length-append m.id (longer_id ms),
  longer_id-pos ms,
  absent_of_longer id ms,
)

abbrev IsNewer : Mission → Mission → Type 0
IsNewer a b = b.created_at ≤ a.created_at

pub newer : Mission → Mission → Bool
newer a b = leb b.created_at a.created_at

newer-IsNewer : (a b : Mission) → newer a b ≡ true → IsNewer a b
unfolding newer
newer-IsNewer a b h = ground arith

IsNewer_of_older : (a b : Mission) → newer a b ≡ false → IsNewer b a
unfolding newer
IsNewer_of_older a b h = ground arith

pub unlocked : Tables → Mission → Bool
unlocked ts m = false

SelectsNewest-of_Best :
    (p : Mission → Bool) (ms : List Mission) (r : Option Mission)
    → Best IsNewer newer newer-IsNewer IsNewer_of_older
        (λ a. omega arith)
        (λ a b c h k. omega arith)
        p
        ms
        r
    → SelectsNewest p ms r
SelectsNewest-of_Best p ms none h = h
SelectsNewest-of_Best p ms (some row) h = h

pub find_newest : (p : Mission → Bool) (ms : List Mission) → SelectsNewest p ms (best newer p ms)
find_newest p ms = SelectsNewest-of_Best p ms (best newer p ms) (
    best-Best IsNewer newer newer-IsNewer IsNewer_of_older (λ a. omega arith)
      (λ a b c h k. omega arith) p ms)

append_row : (String → Mission) → Tables → Mission × Tables
append_row row ts = (
  row (longer_id ts.missions),
  record ts { missions = ts.missions ++ row (longer_id ts.missions) ∷ [] },
)

update_rows : (Mission → Bool) → (Mission → Mission) → Tables → ℕ × Tables
update_rows p f ts =
    (count_where p ts.missions, record ts { missions = update_where p f ts.missions })

update_key : String → (Mission → Mission) → Tables → Option Mission × Tables
update_key id f ts = (
  find_row id (update_where (λ m. m.id == id) f ts.missions),
  record ts { missions = update_where (λ m. m.id == id) f ts.missions },
)

unfoldable pub in_memory : PrismaClient
unfolding append_row update_rows update_key longer_id unlocked newer
in_memory = record {
  mission_find_unique = λ id ts. find_row id ts.missions;
  mission_find_first = λ p ts. best newer p ts.missions;
  mission_find_many = λ p ts. keep p ts.missions;
  mission_count = λ p ts. count_where p ts.missions;
  new_id = λ ts. longer_id ts.missions;
  mission_create = append_row;
  mission_update_many = update_rows;
  mission_update = update_key;
  dependency_find_many = λ p ts. keep p ts.dependencies;
  dependency_upsert = λ d ts. (
    is_linked d ts,
    if is_linked d ts then record ts { dependencies = upsert d ts.dependencies } else ts,
  );
  event_create = λ e ts. record ts { events = ts.events ++ e ∷ [] };
  event_find_first = λ p ts. find_by p ts.events;
  heartbeat_find_many = λ p ts. keep p ts.heartbeats;
  locked = unlocked;
  scan = λ ts. ts.missions;
  query_raw = λ q ts. run_select q (unlocked ts) ts.missions;
  transaction_rejects = λ ts. false;
  find_unique_lem = λ id ts. refl;
  find_first_lem = λ p ts. find_newest p ts.missions;
  find_many_lem = λ p ts. refl;
  count_lem = λ p ts. refl;
  create_lem = λ row ts. refl;
  new_id_lem = λ ts. absent_of_longer (longer_id ts.missions) ts.missions (omega arith);
  update_many_lem = λ p f ts. refl;
  update_lem = λ id f ts. refl;
  dependency_find_many_lem = λ p ts. refl;
  dependency_upsert_lem = λ d ts. refl;
  event_create_lem = λ e ts. refl;
  heartbeat_find_many_lem = λ p ts. refl;
  scan_lem = λ m ts. ((λ h. h), (λ h. h));
  query_raw_lem = λ q ts. refl;
}
