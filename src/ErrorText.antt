-- ===== src/ErrorText.antt =====
-- What is written of an error of the repository: its own text, and those of the errors that it was
-- caused by, as `core::error::Error` gives them.
use cache_action.Base.{
  Bool, true, false, ◌==◌, if◌then◌else◌, ◌++◌, arith, count-append, ℕ, ◌≡◌, List, [], ◌∷◌, count,
}
use cache_action.Io.{Bytes}

abbrev pub ErrorText : Type 0
ErrorText = Bytes × List Bytes

-- An error whose source is another.
abbrev pub caused : Bytes → ErrorText → ErrorText
caused text (cause, causes) = (text, cause ∷ causes)

abbrev pub alone : Bytes → ErrorText
alone text = (text, [])

-- No line ends in a text.
abbrev pub IsLine : Bytes → Type 0
IsLine s = count b'\n' s ≡ 0

abbrev pub AllLines : List Bytes → Type 0
AllLines [] = Unit
AllLines (s ∷ ss) = IsLine s × AllLines ss

abbrev pub AreLines : ErrorText → Type 0
AreLines (text, causes) = IsLine text × AllLines causes

pub IsLine-append : (s t : Bytes) → IsLine s → IsLine t → IsLine (s ++ t)
IsLine-append s t line last = omega (arith, count-append b'\n' s t, line, last)

pub IsLine-cons : (b : ℕ) (s : Bytes) → (b == b'\n') ≡ false → IsLine s → IsLine (b ∷ s)
IsLine-cons b s other line = ground arith

pub IsLine-if : (c : Bool) (s t : Bytes) → IsLine s → IsLine t → IsLine (if c then s else t)
IsLine-if true s t first second = first
IsLine-if false s t first second = second
