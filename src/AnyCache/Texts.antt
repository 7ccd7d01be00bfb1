-- ===== src/AnyCache/Texts.antt =====
-- The texts of an `AnyCacheError` of src/any_cache.rs. The no-op cache has no errors.
use cache_action.Base.{[], ◌∷◌}
use cache_action.Io.{Bytes}
use cache_action.ErrorText.{ErrorText, caused}
use cache_action.AnyCache.{AnyCacheError, noop_error, sub60_error}

abbrev pub noop_text : Bytes
noop_text =
    b'n' ∷ b'o' ∷ b'-' ∷ b'o' ∷ b'p' ∷ b' ' ∷ b'c' ∷ b'a' ∷ b'c' ∷ b'h' ∷ b'e' ∷ b' ' ∷ b'e' ∷ b'r'
    ∷ b'r' ∷ b'o' ∷ b'r' ∷ []

abbrev pub sub60_text : Bytes
sub60_text =
    b'S' ∷ b'u' ∷ b'b' ∷ b'6' ∷ b'0' ∷ b' ' ∷ b'c' ∷ b'a' ∷ b'c' ∷ b'h' ∷ b'e' ∷ b' ' ∷ b'e' ∷ b'r'
    ∷ b'r' ∷ b'o' ∷ b'r' ∷ []

module _ {N S : Type 0} (noop_cache_error : N → ErrorText) (sub60_cache_error : S → ErrorText) where
  abbrev pub any_cache_error : AnyCacheError N S → ErrorText
  any_cache_error (noop_error e) = caused noop_text (noop_cache_error e)
  any_cache_error (sub60_error e) = caused sub60_text (sub60_cache_error e)
