-- ===== src/Queue/Select.antt =====
-- The first row that a query selects under an order, and that it is one.
use operaia_lab.Common.{
  Bool, true, false, List, [], ◌∷◌, Option, none, some, ◌≡◌, refl, sym, ap, Memᴰ, if◌then◌else◌,
  Bool-cases, inl, inr, subst,
}
use operaia_lab.Queue.Model.{Mission}

abbrev better : (Mission → Mission → Bool) → Mission → Option Mission → Option Mission
better before m none = some m
better before m (some b) = if before m b then some m else some b

-- The first row of a selection under an order, where the last of several equal ones stands first.
unfoldable pub best : (Mission → Mission → Bool) → (Mission → Bool) → List Mission → Option Mission
best before p [] = none
best before p (m ∷ ms) = if p m then better before m (best before p ms) else best before p ms

-- The order is reflexive and transitive, and `before` decides it one way or the other.
module _ (R : Mission → Mission → Type 0) (before : Mission → Mission → Bool)
    (is_before : (a b : Mission) → before a b ≡ true → R a b)
    (is_behind : (a b : Mission) → before a b ≡ false → R b a) (R_refl : (a : Mission) → R a a)
    (R_trans : (a b c : Mission) → R a b → R b c → R a c) where
  abbrev pub Best : (Mission → Bool) → List Mission → Option Mission → Type 0
  Best p ms none = (m : Mission) → Memᴰ m ms → p m ≡ false
  Best p ms (some row) =
      Memᴰ row ms × (p row ≡ true) × ((m : Mission) → Memᴰ m ms → p m ≡ true → R row m)

  Best-skip :
      (p : Mission → Bool) (m : Mission) (ms : List Mission) (r : Option Mission)
      → p m ≡ false
      → Best p ms r
      → Best p (m ∷ ms) r
  Best-skip p m ms none e h = others
    where
      others : (x : Mission) → Memᴰ x (m ∷ ms) → p x ≡ false
      others x (Memᴰ.head q) = rw q e
      others x (Memᴰ.tail t) = h x t
  Best-skip p m ms (some row) e (mem, pr, h) = (Memᴰ.tail mem, pr, others)
    where
      others : (x : Mission) → Memᴰ x (m ∷ ms) → p x ≡ true → R row x
      others x (Memᴰ.head q) px = cc (ap p q)
      others x (Memᴰ.tail t) px = h x t px

  Best-better :
      (p : Mission → Bool) (m : Mission) (ms : List Mission) (r : Option Mission)
      → p m ≡ true
      → Best p ms r
      → Best p (m ∷ ms) (better before m r)
  Best-better p m ms none e h = (Memᴰ.head refl, e, others)
    where
      others : (x : Mission) → Memᴰ x (m ∷ ms) → p x ≡ true → R m x
      others x (Memᴰ.head q) px = subst (R m) (sym q) (R_refl m)
      others x (Memᴰ.tail t) px = cc (h x t)
  Best-better p m ms (some b) e (mem, pb, h) = elim (Bool-cases (before m b)) [
    | inl c ↦ rw c (Memᴰ.head refl, e, first c)
    | inr c ↦ rw c (Memᴰ.tail mem, pb, second c)
  ]
    where
      first : before m b ≡ true → (x : Mission) → Memᴰ x (m ∷ ms) → p x ≡ true → R m x
      first c x (Memᴰ.head q) px = subst (R m) (sym q) (R_refl m)
      first c x (Memᴰ.tail t) px = R_trans m b x (is_before m b c) (h x t px)

      second : before m b ≡ false → (x : Mission) → Memᴰ x (m ∷ ms) → p x ≡ true → R b x
      second c x (Memᴰ.head q) px = subst (R b) (sym q) (is_behind m b c)
      second c x (Memᴰ.tail t) px = h x t px

  pub best-Best : (p : Mission → Bool) (ms : List Mission) → Best p ms (best before p ms)
  unfolding best
  best-Best p [] = λ x m. elim m [ ]
  best-Best p (m ∷ ms) = elim (Bool-cases (p m)) [
    | inl e ↦ rw e (Best-better p m ms (best before p ms) e (best-Best p ms))
    | inr e ↦ rw e (Best-skip p m ms (best before p ms) e (best-Best p ms))
  ]
