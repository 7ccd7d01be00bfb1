-- ===== src/StopProgress/Texts.antt =====
-- The texts of src/real_stop_progress_reporter.rs, and its byte sizes.
pub mod Units
pub mod Lines
use cache_action.Base.{
  ℕ, zero, suc, ◌+◌, ◌*◌, ◌/◌, ◌%◌, ◌^◌, Bool, true, false, ◌&&◌, ◌||◌, List, [], ◌∷◌, ◌++◌, ltb,
  leb, ◌==◌, if◌then◌else◌,
}
use cache_action.Io.{Bytes}

abbrev pub there : Bytes
there = b'T' ∷ b'h' ∷ b'e' ∷ b'r' ∷ b'e' ∷ b' ' ∷ []

abbrev pub is_still : Bytes
is_still = b'i' ∷ b's' ∷ b' ' ∷ b's' ∷ b't' ∷ b'i' ∷ b'l' ∷ b'l' ∷ b' ' ∷ []

abbrev pub are_still : Bytes
are_still = b'a' ∷ b'r' ∷ b'e' ∷ b' ' ∷ b's' ∷ b't' ∷ b'i' ∷ b'l' ∷ b'l' ∷ b' ' ∷ []

abbrev pub store_path_text : Bytes
store_path_text = b' ' ∷ b's' ∷ b't' ∷ b'o' ∷ b'r' ∷ b'e' ∷ b' ' ∷ b'p' ∷ b'a' ∷ b't' ∷ b'h' ∷ []

abbrev pub left_text : Bytes
left_text =
    b' ' ∷ b'l' ∷ b'e' ∷ b'f' ∷ b't' ∷ b' ' ∷ b't' ∷ b'o' ∷ b' ' ∷ b'h' ∷ b'a' ∷ b'n' ∷ b'd' ∷ b'l'
    ∷ b'e' ∷ b'\n' ∷ []

abbrev pub pushed_text : Bytes
pushed_text = b'P' ∷ b'u' ∷ b's' ∷ b'h' ∷ b'e' ∷ b'd' ∷ b' ' ∷ []

abbrev pub skipped_text : Bytes
skipped_text = b'S' ∷ b'k' ∷ b'i' ∷ b'p' ∷ b'p' ∷ b'e' ∷ b'd' ∷ b' ' ∷ []

abbrev pub failed_text : Bytes
failed_text =
    b'F' ∷ b'a' ∷ b'i' ∷ b'l' ∷ b'e' ∷ b'd' ∷ b' ' ∷ b'h' ∷ b'a' ∷ b'n' ∷ b'd' ∷ b'l' ∷ b'i' ∷ b'n'
    ∷ b'g' ∷ b' ' ∷ []

abbrev pub was_text : Bytes
was_text = b'w' ∷ b'a' ∷ b's' ∷ b' ' ∷ []

abbrev pub were_text : Bytes
were_text = b'w' ∷ b'e' ∷ b'r' ∷ b'e' ∷ b' ' ∷ []

abbrev pub skipped_line : Bytes
skipped_line = b's' ∷ b'k' ∷ b'i' ∷ b'p' ∷ b'p' ∷ b'e' ∷ b'd' ∷ b'\n' ∷ []

abbrev pub pushed_word : Bytes
pushed_word = b'p' ∷ b'u' ∷ b's' ∷ b'h' ∷ b'e' ∷ b'd' ∷ []

abbrev pub totalling : Bytes
totalling = b',' ∷ b' ' ∷ b't' ∷ b'o' ∷ b't' ∷ b'a' ∷ b'l' ∷ b'l' ∷ b'i' ∷ b'n' ∷ b'g' ∷ b' ' ∷ []

abbrev pub not_handled : Bytes
not_handled =
    b' ' ∷ b'c' ∷ b'o' ∷ b'u' ∷ b'l' ∷ b'd' ∷ b' ' ∷ b'n' ∷ b'o' ∷ b't' ∷ b' ' ∷ b'b' ∷ b'e' ∷ b' '
    ∷ b'h' ∷ b'a' ∷ b'n' ∷ b'd' ∷ b'l' ∷ b'e' ∷ b'd' ∷ b':' ∷ b'\n' ∷ []

abbrev pub colon : Bytes
colon = b':' ∷ b' ' ∷ []

abbrev pub caused_by : Bytes
caused_by =
    b'\n' ∷ b' ' ∷ b' ' ∷ b'c' ∷ b'a' ∷ b'u' ∷ b's' ∷ b'e' ∷ b'd' ∷ b' ' ∷ b'b' ∷ b'y' ∷ b':' ∷ b' '
    ∷ []

-- The decimal digits of a number, on fuel.
pub digits : ℕ → ℕ → Bytes
digits zero n = []
digits (suc fuel) n =
    let more = digits fuel (n / 10) in
    if ltb n 10 then (48 + n) ∷ [] else more ++ (48 + n % 10) ∷ []

unfoldable pub decimal : ℕ → Bytes
unfolding digits
decimal n = digits (suc n) n

-- "B", "KiB", "MiB", "GiB", "TiB", "PiB"
abbrev pub unit_text : ℕ → Bytes
unit_text k =
    if k == 0
    then b'B' ∷ []
    else (if k == 1
        then b'K'
        else if k == 2
        then b'M'
        else if k == 3
        then b'G'
        else if k == 4
        then b'T'
        else b'P')
      ∷ b'i'
      ∷ b'B'
      ∷ []

-- The loop over the units. The value after `k` divisions is `value / 1024 ^ k`, with no rounding, so
-- that it is at least 1024 if `value` is at least `1024 ^ (k + 1)`. Five rounds reach the last unit.
pub unit_from : ℕ → ℕ → ℕ → ℕ
unit_from zero k value = k
unit_from (suc left) k value =
    let next = unit_from left (k + 1) value in if leb (1024 ^ (k + 1)) value then next else k

unfoldable pub unit_of : ℕ → ℕ
unfolding unit_from
unit_of value = unit_from 5 0 value

-- `a / b` to the nearest integer, and to the even one of two that are as near.
abbrev pub nearest : ℕ → ℕ → ℕ
nearest a b =
    if ltb (2 * (a % b)) b || (2 * (a % b) == b && a / b % 2 == 0) then a / b else a / b + 1

-- `{value:.1}`, from the tenths.
abbrev pub one_decimal : ℕ → Bytes
one_decimal tenths = decimal (tenths / 10) ++ b'.' ∷ (48 + tenths % 10) ∷ []

-- `HumanReadableByteSize`; `as_f64` is the number that `as f64` makes of a `u64`, an integer too.
unfoldable pub human_readable : (ℕ → ℕ) → ℕ → Bytes
unfolding decimal unit_of
human_readable as_f64 n =
    let k = unit_of (as_f64 n) in
    if k == 0
    then decimal n ++ b' ' ∷ unit_text k
    else one_decimal (nearest (10 * as_f64 n) (1024 ^ k)) ++ b' ' ∷ unit_text k
