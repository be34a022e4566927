-- ===== src/Supervisor/Keys.antt =====
-- Reads and writes of the map of latches, and its keys.
use Prim.Native.Char.{nul}
use Prim.Native.String
use text.Mathlib.TextLemmas.{nil-append, cons-append, head-eq_of_cons-eq, tail-eq_of_cons-eq}
use operaia_lab.Common.{
  String, Bool, false, [], ◌∷◌, some, ◌≡◌, ◌≢◌, refl, sym, ◌∙◌, ◌==◌, string_same, str_iff,
  if◌then◌else◌, Bool-cases, inl, inr, arith,
}
use operaia_lab.Supervisor.Latch.{
  CoordinationLatchKey, coordination_latch_key_of, LatchRecord, Latches, find_latch, set_latch,
  drop_latches,
}

-- A write is seen by a read of its key only.
pub find_latch-set_latch :
    (id j : String) (r : LatchRecord) (ls : Latches)
    → find_latch j (set_latch id r ls) ≡ (if id == j then some r else find_latch j ls)
unfolding find_latch set_latch
find_latch-set_latch id j r [] = refl
find_latch-set_latch id j r ((i, q) ∷ ls) =
    ground (arith, str_iff id j, str_iff i id, str_iff i j, find_latch-set_latch id j r ls)

-- What a deletion leaves alone is found again.
pub find_latch-drop_latches :
    (p : String → LatchRecord → Bool) (id : String) (r : LatchRecord) (ls : Latches)
    → find_latch id ls ≡ some r
    → p id r ≡ false
    → find_latch id (drop_latches p ls) ≡ some r
unfolding find_latch drop_latches
find_latch-drop_latches p id r [] h k = cc
find_latch-drop_latches p id r ((i, q) ∷ ls) h k = elim (Bool-cases (i == id)) [
  | inl same ↦ ground (arith, str_iff i id)
  | inr other ↦ ground (arith, find_latch-drop_latches p id r ls)
]

abbrev NulFree : String → Type 0
NulFree String.[] = Unit
NulFree (String.◌∷◌ c s) = (c ≢ nul) × NulFree s

-- A text up to its first NUL, and what stands after it.
split_at_nul :
    (s t u v : String)
    → NulFree s
    → NulFree t
    → String.◌++◌ s (String.◌∷◌ nul u) ≡ String.◌++◌ t (String.◌∷◌ nul v)
    → (s ≡ t) × (u ≡ v)
split_at_nul String.[] String.[] u v hs ht e =
    (refl, tail-eq_of_cons-eq (sym (nil-append _) ∙ e ∙ nil-append _))
split_at_nul String.[] (String.◌∷◌ c t) u v hs (n, ht) e =
    absurd (n (sym (head-eq_of_cons-eq (sym (nil-append _) ∙ e ∙ cons-append c t _))))
split_at_nul (String.◌∷◌ c s) String.[] u v (n, hs) ht e =
    absurd (n (head-eq_of_cons-eq (sym (cons-append c s _) ∙ e ∙ nil-append _)))
split_at_nul (String.◌∷◌ c s) (String.◌∷◌ d t) u v (n, hs) (m, ht) e =
    let whole = sym (cons-append c s _) ∙ e ∙ cons-append d t _ in
    let (same, rest) = split_at_nul s t u v hs ht (tail-eq_of_cons-eq whole) in
    (cc (head-eq_of_cons-eq whole, same), rest)

-- Two keys whose workspace ids hold no NUL have one text only where they are equal.
pub coordination_latch_key_of_inj :
    (k l : CoordinationLatchKey)
    → NulFree k.workspace_id
    → NulFree l.workspace_id
    → coordination_latch_key_of k ≡ coordination_latch_key_of l
    → k ≡ l
unfolding coordination_latch_key_of
coordination_latch_key_of_inj k l hk hl e =
    let (w, r) = split_at_nul k.workspace_id l.workspace_id k.reason l.reason hk hl e in cc (w, r)
