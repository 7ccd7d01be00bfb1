-- ===== src/Protocol/StoreDirs.antt =====
-- `StoreDir` of src/protocol.rs with its `Display` and `FromStr`. The text of
-- `nix_types::NixStoreLiteral` and the `memchr` crate are parameters.
use cache_action.Base.{
  refl, ℕ, ◌≡◌, ◌≢◌, ◌↔◌, Bool, true, false, ◌&&◌, [], ◌∷◌, none, some, length, ◌==◌, ==_iff,
  if◌then◌else◌, Result, ok, err, arith,
}
use cache_action.Io.{Bytes}
use cache_action.Io.Position.{position}
use cache_action.Protocol.{Crates}

pub data StoreDir : Type 0 where
  nix_store : StoreDir
  other : Bytes → StoreDir

-- `FromBytesWithNulError`, in the one form that is made.
pub data NulError : Type 0 where
  interior_nul : ℕ → NulError

-- `==` on `str`, byte for byte.
same_text : Bytes → Bytes → Bool
same_text [] t = length t == 0
same_text (b ∷ s) [] = false
same_text (b ∷ s) (c ∷ t) = same_text s t && b == c

same_text_iff : (s t : Bytes) → (same_text s t ≡ true) ↔ (s ≡ t)
unfolding same_text
same_text_iff [] t = ground (arith, ==_iff (length t) 0)
same_text_iff (b ∷ s) [] = ground arith
same_text_iff (b ∷ s) (c ∷ t) = let tails = same_text_iff s t in ground (arith, tails, ==_iff b c)

module _ (crates : Crates) (literal : Bytes) where
  open crates use {memchr, memchr_first}

  pub display_dir : StoreDir → Bytes
  display_dir nix_store = literal
  display_dir (other s) = s

  unfoldable pub from_str : Bytes → Result StoreDir NulError
  unfolding same_text
  from_str s =
      if same_text s literal
      then ok nix_store
      else elim (memchr 0 s) [ some position ↦ err (interior_nul position) | none ↦ ok (other s) ]

  -- A directory as `from_str` makes it.
  abbrev pub IsCanonical : StoreDir → Type 0
  IsCanonical nix_store = Unit {0}
  IsCanonical (other s) = (s ≢ literal) × (position 0 s ≡ none)

  -- What parsing gives for a text.
  abbrev pub Parsed : Bytes → Result StoreDir NulError → Type 0
  Parsed s (ok d) = (display_dir d ≡ s) × IsCanonical d
  Parsed s (err (interior_nul i)) = (s ≢ literal) × (position 0 s ≡ some i)

  result-Parsed : (s : Bytes) (r : Result StoreDir NulError) → from_str s ≡ r → Parsed s r
  unfolding display_dir from_str
  result-Parsed s (ok d) h = ground (arith, same_text_iff s literal, memchr_first 0 s)
  result-Parsed s (err (interior_nul i)) h =
      ground (arith, same_text_iff s literal, memchr_first 0 s)

  -- A text that parses is what its directory is displayed as, and the directory is in canonical form:
  -- no other one than the literal's stands for it, and no other one holds a NUL. Parsing fails only for
  -- a text that is not the literal, and then tells where its first NUL stands.
  pub from_str-Parsed : (s : Bytes) → Parsed s (from_str s)
  from_str-Parsed s = result-Parsed s (from_str s) refl

  -- A directory in canonical form is read back from its text.
  pub from_str-display_dir : (d : StoreDir) → IsCanonical d → from_str (display_dir d) ≡ ok d
  unfolding display_dir from_str
  from_str-display_dir nix_store h = ground (arith, same_text_iff literal literal)
  from_str-display_dir (other s) h = ground (arith, same_text_iff s literal, memchr_first 0 s)
