-- ===== src/Queue/Rows.antt =====
-- Tables as lists of rows: what a query on a primary key finds, and what an update writes.
pub mod Laws
use operaia_lab.Common.{
  ℕ, suc, String, Bool, List, [], ◌∷◌, Option, none, some, ◌≡◌, ◌==◌, string_same, if◌then◌else◌,
}
use operaia_lab.Queue.Model.{Mission}

-- The row with a primary key.
unfoldable pub find_row : String → List Mission → Option Mission
find_row id [] = none
find_row id (m ∷ ms) = if m.id == id then some m else find_row id ms

-- `UPDATE … SET f WHERE p`.
unfoldable pub update_where : (Mission → Bool) → (Mission → Mission) → List Mission → List Mission
update_where p f [] = []
update_where p f (m ∷ ms) = (if p m then f m else m) ∷ update_where p f ms

-- How many rows `p` selects.
unfoldable pub count_where : (Mission → Bool) → List Mission → ℕ
count_where p [] = 0
count_where p (m ∷ ms) = let n = count_where p ms in if p m then suc n else n

-- `id` is a primary key.
abbrev pub HasUniqueIds : List Mission → Type 0
HasUniqueIds [] = Unit
HasUniqueIds (m ∷ ms) = (find_row m.id ms ≡ none) × HasUniqueIds ms
