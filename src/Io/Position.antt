-- ===== src/Io/Position.antt =====
-- The first occurrence of a byte, which the memchr crate promises to find.
use cache_action.Base.{
  ℕ, zero, suc, ◌+◌, ◌≡◌, List, [], ◌∷◌, ◌++◌, Option, none, some, length, take, drop, ◌==◌,
  if◌then◌else◌, arith, ==_iff,
}
use mathlib.Core.Option

abbrev pub position : ℕ → List ℕ → Option ℕ
position c [] = none
position c (x ∷ xs) = if x == c then some 0 else Option.map suc (position c xs)

-- At the first occurrence the list splits, and the part before it has none.
pub position-split :
    (c : ℕ) (bs : List ℕ) (i : ℕ)
    → position c bs ≡ some i
    → (bs ≡ take i bs ++ c ∷ drop (suc i) bs)
      × (position c (take i bs) ≡ none)
      × (length (take i bs) ≡ i)
      × (length bs ≡ i + 1 + length (drop (suc i) bs))
position-split c [] i h = absurd cc
position-split c (x ∷ xs) zero h = ground (arith, ==_iff x c)
position-split c (x ∷ xs) (suc i) h = ground (arith, position-split c xs i)
