-- ===== src/NixStore/WriteNar/Names.antt =====
-- The sort of a directory's names in src/nix_store.rs.
use cache_action.Base.{
  ◌≡◌, ◌≢◌, refl, true, false, List, [], ◌∷◌, ==_iff, arith, Bool-cases, inl, inr,
}
use cache_action.Io.{Bytes}
use cache_action.NixStore.WriteNar.{Named, le_name, insert, sort}

le_name_total : (s t : Bytes) → le_name s t ≡ false → le_name t s ≡ true
unfolding le_name
le_name_total [] t h = absurd cc
le_name_total (b ∷ s) [] h = refl
le_name_total (b ∷ s) (c ∷ t) h = ground (arith, ==_iff b c, ==_iff c b, le_name_total s t)

le_name_antisym : (s t : Bytes) → le_name s t ≡ true → le_name t s ≡ true → s ≡ t
unfolding le_name
le_name_antisym [] [] h k = refl
le_name_antisym [] (c ∷ t) h k = absurd cc
le_name_antisym (b ∷ s) [] h k = absurd cc
le_name_antisym (b ∷ s) (c ∷ t) h k = ground (arith, ==_iff b c, ==_iff c b, le_name_antisym s t)

le_name_trans : (s t u : Bytes) → le_name s t ≡ true → le_name t u ≡ true → le_name s u ≡ true
unfolding le_name
le_name_trans [] t u h k = refl
le_name_trans (b ∷ s) [] u h k = absurd cc
le_name_trans (b ∷ s) (c ∷ t) [] h k = absurd cc
le_name_trans (b ∷ s) (c ∷ t) (d ∷ u) h k =
    ground (arith, ==_iff b c, ==_iff c d, ==_iff b d, le_name_trans s t u)

-- Two entries with different names may be put in in either order.
insert-insert :
    (x y : Named) (zs : List Named) → x.0 ≢ y.0 → insert x (insert y zs) ≡ insert y (insert x zs)
unfolding insert
insert-insert x y [] h = elim (Bool-cases (le_name x.0 y.0)) [
  | inl le ↦ elim (Bool-cases (le_name y.0 x.0)) [
    | inl ge ↦ absurd (h (le_name_antisym x.0 y.0 le ge))
    | inr lt ↦ rw (le, lt) refl
  ]
  | inr gt ↦ let ge = le_name_total x.0 y.0 gt in rw (gt, ge) refl
]
insert-insert x y (z ∷ zs) h = ground (
  arith,
  le_name_total x.0 y.0,
  le_name_total x.0 z.0,
  le_name_total y.0 z.0,
  le_name_antisym x.0 y.0,
  le_name_trans x.0 y.0 z.0,
  le_name_trans y.0 x.0 z.0,
  le_name_trans x.0 z.0 y.0,
  le_name_trans y.0 z.0 x.0,
  insert-insert x y zs h,
  h,
)

pub sort-swap : (x y : Named) (zs : List Named) → x.0 ≢ y.0 → sort (x ∷ y ∷ zs) ≡ sort (y ∷ x ∷ zs)
unfolding sort
sort-swap x y zs h = insert-insert x y (sort zs) h
