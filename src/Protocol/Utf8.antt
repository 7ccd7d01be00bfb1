-- ===== src/Protocol/Utf8.antt =====
-- `str::from_utf8` of the standard library, as src/protocol.rs and src/nix_store.rs use it: which
-- byte sequences are UTF-8.
use cache_action.Base.{
  ℕ, Bool, true, false, ◌&&◌, List, [], ◌∷◌, Option, none, some, leb, ltb, if◌then◌else◌,
}

-- The ranges in which the bytes after a first byte have to lie.
abbrev continuations : ℕ → Option (List (ℕ × ℕ))
continuations c =
    if ltb c 0x80
    then some []
    else if leb 0xC2 c && leb c 0xDF
    then some ((0x80, 0xBF) ∷ [])
    else if leb 0xE0 c && leb c 0xE0
    then some ((0xA0, 0xBF) ∷ (0x80, 0xBF) ∷ [])
    else if leb 0xE1 c && leb c 0xEC
    then some ((0x80, 0xBF) ∷ (0x80, 0xBF) ∷ [])
    else if leb 0xED c && leb c 0xED
    then some ((0x80, 0x9F) ∷ (0x80, 0xBF) ∷ [])
    else if leb 0xEE c && leb c 0xEF
    then some ((0x80, 0xBF) ∷ (0x80, 0xBF) ∷ [])
    else if leb 0xF0 c && leb c 0xF0
    then some ((0x90, 0xBF) ∷ (0x80, 0xBF) ∷ (0x80, 0xBF) ∷ [])
    else if leb 0xF1 c && leb c 0xF3
    then some ((0x80, 0xBF) ∷ (0x80, 0xBF) ∷ (0x80, 0xBF) ∷ [])
    else if leb 0xF4 c && leb c 0xF4
    then some ((0x80, 0x8F) ∷ (0x80, 0xBF) ∷ (0x80, 0xBF) ∷ [])
    else none

check : List (ℕ × ℕ) → List ℕ → Bool
check [] [] = true
check (r ∷ rs) [] = false
check [] (c ∷ cs) = elim (continuations c) [ none ↦ false | some rs ↦ check rs cs ]
check ((lo, hi) ∷ rs) (c ∷ cs) = leb lo c && leb c hi && check rs cs

unfoldable pub is_utf8 : List ℕ → Bool
unfolding check
is_utf8 = check []
