-- ===== src/Base/Slices.antt =====
-- Ranges of a fixed-size buffer: `buf[start..end]`, and writes into its front part.
use Prim.Native.Nat.{ℕ, zero, suc, ◌+◌, ◌-◌, ◌≤◌}
use native.Mathlib.Nat.{zero-add, add-zero, suc-add}
use mathlib.Core.Path.{◌≡◌, refl, ap, sym, ◌∙◌}
use mathlib.Core.List.{List, [], ◌∷◌, ◌++◌}
use native.Mathlib.Omega.{arith}
use cache_action.Base.Lists.{length, take, drop, length-take, length-drop, take-append-drop}

module _ {ℓ} {A : Type ℓ} where
  -- `buf[start..end]`
  abbrev pub slice : ℕ → ℕ → List A → List A
  slice start end buf = take (end - start) (drop start buf)

  pub length-slice :
      (start end : ℕ) (buf : List A)
      → start ≤ end
      → end ≤ length buf
      → length (slice start end buf) ≡ end - start
  length-slice start end buf h k =
      omega (arith, length-take (end - start) (drop start buf), length-drop start buf)

  pub take-length-append : (xs ys : List A) → take (length xs) (xs ++ ys) ≡ xs
  take-length-append [] ys = refl
  take-length-append (x ∷ xs) ys = ap (◌∷◌ x) (take-length-append xs ys)

  pub drop-length-append : (xs ys : List A) → drop (length xs) (xs ++ ys) ≡ ys
  drop-length-append [] ys = refl
  drop-length-append (x ∷ xs) ys = drop-length-append xs ys

  pub slice-length-append : (xs ys : List A) → slice 0 (length xs) (xs ++ ys) ≡ xs
  slice-length-append xs ys =
      let e : length xs - 0 ≡ length xs = omega arith in rw e (take-length-append xs ys)

  take-nil : (n : ℕ) → ◌≡◌ {A = List A} (take n []) []
  take-nil zero = refl
  take-nil (suc n) = refl

  pub drop-drop : (a b : ℕ) (xs : List A) → drop b (drop a xs) ≡ drop (a + b) xs
  drop-drop zero b xs = rw zero-add
  drop-drop (suc a) zero [] = rw add-zero
  drop-drop (suc a) (suc b) [] = rw suc-add
  drop-drop (suc a) b (x ∷ xs) = rw suc-add (drop-drop a b xs)

  drop-take : (k n : ℕ) (xs : List A) → drop k (take n xs) ≡ take (n - k) (drop k xs)
  drop-take zero n xs = let e : n - 0 ≡ n = omega arith in rw e
  drop-take (suc k) zero xs = let e : 0 - suc k ≡ 0 = omega arith in rw e
  drop-take (suc k) (suc n) [] = sym (take-nil (suc n - suc k))
  drop-take (suc k) (suc n) (x ∷ xs) =
      let e : suc n - suc k ≡ n - k = omega arith in rw e (drop-take k n xs)

  pub slice_advance :
      (start k end : ℕ) (buf : List A) → slice (start + k) end buf ≡ drop k (slice start end buf)
  slice_advance start k end buf =
      let e : end - start - k ≡ end - (start + k) = omega arith in
      sym (drop-take k (end - start) (drop start buf) ∙ rw (e, drop-drop start k buf))

  pub take-length-take : (n : ℕ) (xs : List A) → take (length (take n xs)) xs ≡ take n xs
  take-length-take zero xs = refl
  take-length-take (suc n) [] = refl
  take-length-take (suc n) (x ∷ xs) = ap (◌∷◌ x) (take-length-take n xs)

  pub take-length : (xs : List A) → take (length xs) xs ≡ xs
  take-length [] = refl
  take-length (x ∷ xs) = ap (◌∷◌ x) (take-length xs)

  pub drop_all : (n : ℕ) (xs : List A) → length xs ≤ n → drop n xs ≡ []
  drop_all zero [] h = refl
  drop_all zero (x ∷ xs) h = absurd (omega arith)
  drop_all (suc n) [] h = refl
  drop_all (suc n) (x ∷ xs) h = drop_all n xs (omega arith)

  pub take-append-drop-drop :
      (n k : ℕ) (xs : List A) → take k (drop n xs) ++ drop (n + k) xs ≡ drop n xs
  take-append-drop-drop n k xs = rw (← drop-drop n k xs) (take-append-drop k (drop n xs))
