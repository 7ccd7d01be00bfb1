-- ===== src/StopProgress/Texts/Lines.antt =====
-- The lines in numbers and sizes as src/real_stop_progress_reporter.rs writes them.
use cache_action.Base.{
  ℕ, zero, suc, ◌+◌, ◌*◌, ◌/◌, ◌%◌, ◌^◌, refl, ◌==◌, Bool-cases, inl, inr, [], ◌∷◌, ◌++◌, ltb,
  arith,
}
use cache_action.ErrorText.{IsLine, IsLine-append, IsLine-cons, IsLine-if}
use cache_action.StopProgress.Texts.{
  digits, decimal, unit_text, unit_of, nearest, one_decimal, human_readable,
}

digit-IsLine : (d : ℕ) → IsLine ((48 + d) ∷ [])
digit-IsLine d = ground arith

digits-IsLine : (fuel n : ℕ) → IsLine (digits fuel n)
unfolding digits
digits-IsLine zero n = refl
digits-IsLine (suc fuel) n = elim (Bool-cases (ltb n 10)) [
  | inl last ↦ rw last (digit-IsLine n)
  | inr more ↦ rw more (
      IsLine-append (digits fuel (n / 10)) ((48 + n % 10) ∷ []) (digits-IsLine fuel (n / 10))
        (digit-IsLine (n % 10)))
]

pub decimal-IsLine : (n : ℕ) → IsLine (decimal n)
unfolding decimal
decimal-IsLine n = digits-IsLine (suc n) n

unit_text-IsLine : (k : ℕ) → IsLine (unit_text k)
unit_text-IsLine k = ground arith

one_decimal-IsLine : (tenths : ℕ) → IsLine (one_decimal tenths)
one_decimal-IsLine tenths =
    IsLine-append (decimal (tenths / 10)) (b'.' ∷ (48 + tenths % 10) ∷ [])
      (decimal-IsLine (tenths / 10))
      (IsLine-cons b'.' ((48 + tenths % 10) ∷ []) refl (digit-IsLine (tenths % 10)))

pub human_readable-IsLine : (as_f64 : ℕ → ℕ) (n : ℕ) → IsLine (human_readable as_f64 n)
unfolding human_readable
human_readable-IsLine as_f64 n =
    let k = unit_of (as_f64 n) in
    let value = one_decimal (nearest (10 * as_f64 n) (1024 ^ k)) in
    let unit = IsLine-cons b' ' (unit_text k) refl (unit_text-IsLine k) in
    IsLine-if (k == 0) (decimal n ++ b' ' ∷ unit_text k) (value ++ b' ' ∷ unit_text k)
      (IsLine-append (decimal n) (b' ' ∷ unit_text k) (decimal-IsLine n) unit)
      (IsLine-append value (b' ' ∷ unit_text k)
        (one_decimal-IsLine (nearest (10 * as_f64 n) (1024 ^ k))) unit)
