-- ===== src/Queue/Rows/Laws.antt =====
-- What holds of reads and writes on rows with a primary key.
use operaia_lab.Common.{
  ℕ, String, Bool, List, [], ◌∷◌, ◌++◌, Option, none, some, ◌≡◌, refl, ◌≢◌, inl, inr, Memᴰ, arith,
  ◌==◌, string_same, str_iff, if◌then◌else◌, Bool-cases, ◌&&◌,
}
use operaia_lab.Queue.Model.{Mission}
use operaia_lab.Queue.Rows.{find_row, update_where, count_where, HasUniqueIds}

pub find_row-id :
    (id : String) (ms : List Mission) {m : Mission} → find_row id ms ≡ some m → m.id ≡ id
unfolding find_row
find_row-id id [] h = cc
find_row-id id (x ∷ ms) {m} h = ground (arith, str_iff x.id id, find_row-id id ms {m = m})

pub find_row-Memᴰ :
    (id : String) (ms : List Mission) {m : Mission} → find_row id ms ≡ some m → Memᴰ m ms
unfolding find_row
find_row-Memᴰ id [] h = cc
find_row-Memᴰ id (x ∷ ms) h = elim (Bool-cases (x.id == id)) [
  | inl e ↦ Memᴰ.head (ground arith)
  | inr e ↦ Memᴰ.tail (find_row-Memᴰ id ms (ground arith))
]

find_row-ne-none : (ms : List Mission) {m : Mission} → Memᴰ m ms → find_row m.id ms ≢ none
unfolding find_row
find_row-ne-none [] m = elim m [ ]
find_row-ne-none (x ∷ ms) {m} (Memᴰ.head e) = ground (arith, str_iff x.id m.id)
find_row-ne-none (x ∷ ms) {m} (Memᴰ.tail t) = ground (arith, find_row-ne-none ms t)

-- With a primary key, the row that a key finds is the row that carries it.
pub find_row_of_Memᴰ :
    (ms : List Mission) {m : Mission} → HasUniqueIds ms → Memᴰ m ms → find_row m.id ms ≡ some m
unfolding find_row
find_row_of_Memᴰ [] u m = elim m [ ]
find_row_of_Memᴰ (x ∷ ms) {m} u (Memᴰ.head e) = ground (arith, str_iff x.id m.id)
find_row_of_Memᴰ (x ∷ ms) {m} (fresh, u) (Memᴰ.tail t) =
    ground (arith, str_iff x.id m.id, find_row-ne-none ms t, find_row_of_Memᴰ ms u t)

abbrev pub write_row : (Mission → Bool) → (Mission → Mission) → Mission → Mission
write_row p f m = if p m then f m else m

-- An update that keeps ids, on the rows that it touches.
module _ (p : Mission → Bool) (f : Mission → Mission) where
  pub find_row-update_where :
      (id : String) (ms : List Mission)
      → ((m : Mission) → (f m).id ≡ m.id)
      → find_row id (update_where p f ms)
        ≡ elim (find_row id ms) [ none ↦ none | some m ↦ some (write_row p f m) ]
  unfolding find_row update_where
  find_row-update_where id [] keeps = refl
  find_row-update_where id (x ∷ ms) keeps =
      ground (arith, keeps x, find_row-update_where id ms keeps)

  pub Memᴰ-update_where :
      (ms : List Mission) {n : Mission}
      → Memᴰ n (update_where p f ms)
      → (m : Mission) × Memᴰ m ms × (n ≡ write_row p f m)
  unfolding update_where
  Memᴰ-update_where [] m = elim m [ ]
  Memᴰ-update_where (x ∷ ms) (Memᴰ.head e) = (x, Memᴰ.head refl, e)
  Memᴰ-update_where (x ∷ ms) (Memᴰ.tail t) =
      let (m, mem, e) = Memᴰ-update_where ms t in (m, Memᴰ.tail mem, e)

-- A selection by primary key counts the row that the key finds.
module _ (id : String) (q : Mission → Bool) where
  abbrev pub at_key : Mission → Bool
  at_key m = m.id == id && q m

  abbrev pub hits : Option Mission → ℕ
  hits none = 0
  hits (some m) = if q m then 1 else 0

  count_where_absent : (ms : List Mission) → find_row id ms ≡ none → count_where at_key ms ≡ 0
  unfolding find_row count_where
  count_where_absent [] h = refl
  count_where_absent (x ∷ ms) h = ground (arith, count_where_absent ms)

  pub count_where_key :
      (ms : List Mission) → HasUniqueIds ms → count_where at_key ms ≡ hits (find_row id ms)
  unfolding find_row count_where
  count_where_key [] u = refl
  count_where_key (x ∷ ms) (fresh, u) = elim (Bool-cases (x.id == id)) [
    | inl e ↦
        let same : x.id ≡ id = (str_iff x.id id).0 e in
        rw e (rw (count_where_absent ms (rw same at fresh)) (ground arith))
    | inr e ↦ rw e (count_where_key ms u)
  ]

-- An update that hits no row writes nothing.
pub update_where_none :
    (p : Mission → Bool) (f : Mission → Mission) (ms : List Mission)
    → count_where p ms ≡ 0
    → update_where p f ms ≡ ms
unfolding count_where update_where
update_where_none p f [] h = refl
update_where_none p f (x ∷ ms) h = ground (arith, update_where_none p f ms)

pub find_row-append :
    (id : String) (ms : List Mission) (m : Mission)
    → find_row id (ms ++ m ∷ [])
      ≡ elim (find_row id ms) [ none ↦ if m.id == id then some m else none | some x ↦ some x ]
unfolding find_row
find_row-append id [] m = refl
find_row-append id (x ∷ ms) m = ground (arith, find_row-append id ms m)

pub HasUniqueIds-append :
    (ms : List Mission) (m : Mission)
    → HasUniqueIds ms
    → find_row m.id ms ≡ none
    → HasUniqueIds (ms ++ m ∷ [])
unfolding find_row
HasUniqueIds-append [] m u h = (refl, tt)
HasUniqueIds-append (x ∷ ms) m (fresh, u) h = (
  ground (arith, find_row-append x.id ms m, str_iff x.id m.id, str_iff m.id x.id),
  HasUniqueIds-append ms m u (ground arith),
)

pub HasUniqueIds-update_where :
    (p : Mission → Bool) (f : Mission → Mission) (ms : List Mission)
    → ((m : Mission) → (f m).id ≡ m.id)
    → HasUniqueIds ms
    → HasUniqueIds (update_where p f ms)
unfolding update_where
HasUniqueIds-update_where p f [] keeps u = tt
HasUniqueIds-update_where p f (x ∷ ms) keeps (fresh, u) = (
  ground (arith, keeps x, find_row-update_where p f x.id ms keeps),
  HasUniqueIds-update_where p f ms keeps u,
)
