-- ===== src/Queue/Lifecycle/Evolution.antt =====
-- Histories of the mission table: they compose, keep the primary key, and keep what each write keeps.
use operaia_lab.Common.{
  String, Bool, true, List, Option, none, some, ◌≡◌, inl, inr, Bool-cases, Option-cases,
}
use operaia_lab.Queue.Model.{Mission}
use operaia_lab.Queue.Rows.{find_row, HasUniqueIds}
use operaia_lab.Queue.Rows.Laws.{
  find_row-update_where, find_row-append, find_row-Memᴰ, HasUniqueIds-append,
  HasUniqueIds-update_where, write_row,
}
use operaia_lab.Queue.Lifecycle.{RowStep, Writes, updates, inserts, Evolves, here, later}

pub Evolves-trans : {ms ns os : List Mission} → Evolves ms ns → Evolves ns os → Evolves ms os
Evolves-trans h here = h
Evolves-trans h (later k w) = later (Evolves-trans h k) w

Writes-unique : {ms ns : List Mission} → Writes ms ns → HasUniqueIds ms → HasUniqueIds ns
Writes-unique {ms} (updates p f step keeps) u = HasUniqueIds-update_where p f ms keeps u
Writes-unique {ms} (inserts m new fresh) u = HasUniqueIds-append ms m u fresh

pub Evolves-unique : {ms ns : List Mission} → Evolves ms ns → HasUniqueIds ms → HasUniqueIds ns
Evolves-unique here u = u
Evolves-unique (later h w) u = Writes-unique w (Evolves-unique h u)

abbrev HoldsFor : (Mission → Type 0) → Option Mission → Type 0
HoldsFor Q none = ⊥
HoldsFor Q (some m) = Q m

-- The row with key `id` is there, and satisfies `Q`.
abbrev pub At : (Mission → Type 0) → String → List Mission → Type 0
At Q id ms = HoldsFor Q (find_row id ms)

pub At-of_find_row :
    (Q : Mission → Type 0) (id : String) (ms : List Mission) {m : Mission}
    → find_row id ms ≡ some m
    → Q m
    → At Q id ms
At-of_find_row Q id ms e q = rw e q

pub find_row_of_At :
    (Q : Mission → Type 0) (id : String) (ms : List Mission)
    → At Q id ms
    → (m : Mission) × (find_row id ms ≡ some m) × Q m
find_row_of_At Q id ms q = elim (Option-cases (find_row id ms)) [
  | inl e ↦ absurd (rw e at q)
  | inr (m, e) ↦ (m, e, rw e at q)
]

-- What every write on a row keeps, every history keeps.
module _ (Q : Mission → Type 0) (closed : (m n : Mission) → RowStep m n → Q m → Q n)
    (id : String) where
  At-write_row :
      (p : Mission → Bool) (f : Mission → Mission) (m : Mission)
      → (p m ≡ true → RowStep m (f m))
      → Q m
      → Q (write_row p f m)
  At-write_row p f m step q = elim (Bool-cases (p m)) [
    | inl e ↦ rw e (closed m (f m) (step e) q)
    | inr e ↦ rw e q
  ]

  Writes-At : {ms ns : List Mission} → Writes ms ns → At Q id ms → At Q id ns
  Writes-At {ms} (updates p f step keeps) q =
      let (m, e, qm) = find_row_of_At Q id ms q in
      rw (find_row-update_where p f id ms keeps, e)
        (At-write_row p f m (step m (find_row-Memᴰ id ms e)) qm)
  Writes-At {ms} (inserts m new fresh) q =
      let (x, e, qx) = find_row_of_At Q id ms q in rw (find_row-append id ms m, e) qx

  pub Evolves-At : {ms ns : List Mission} → Evolves ms ns → At Q id ms → At Q id ns
  Evolves-At here q = q
  Evolves-At (later h w) q = Writes-At w (Evolves-At h q)
