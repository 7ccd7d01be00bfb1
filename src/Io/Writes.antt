-- ===== src/Io/Writes.antt =====
-- What one poll of a writer does to the bytes that it has taken.
use cache_action.Base.{
  ℕ, zero, suc, ◌≤◌, ◌<◌, ◌≡◌, refl, Bool, List, [], ◌∷◌, ◌++◌, length, take, length-take, Result,
  ok, err, arith,
}
use cache_action.Base.Slices.{take-length-take, take-length}
use cache_action.Io.{
  Bytes, IoError, Poll, ready, pending, Writer, WriteEvent, accepts, stalls, breaks_down, write_on,
  settle_on, IsWilling,
}

-- The result of a poll that offered `bytes`.
abbrev pub Wrote : Bytes → Writer → Poll (Result ℕ IoError) × Writer → Type 0
Wrote bytes w (ready (ok n), v) =
    (v.output ≡ w.output ++ take n bytes)
    × (n ≤ length bytes)
    × (IsWilling w.polls → IsWilling v.polls)
    × (IsWilling w.polls → 0 < length bytes → 0 < n)
    × (length v.polls ≤ length w.polls)
Wrote bytes w (ready (err e), v) = (v.output ≡ w.output) × (¬ IsWilling w.polls)
Wrote bytes w (pending, v) =
    (v.output ≡ w.output)
    × (IsWilling w.polls → IsWilling v.polls)
    × (length v.polls < length w.polls)

pub write_on-Wrote :
    (es : List WriteEvent) (bytes : Bytes) (w : Writer)
    → w.polls ≡ es
    → Wrote bytes w (write_on es bytes w)
unfolding write_on
write_on-Wrote [] bytes w e = (rw (take-length bytes), omega arith, λ h. tt, λ h k. k, omega arith)
write_on-Wrote (accepts zero ∷ es) bytes w e = (
  rw (take-length-take 0 bytes),
  omega arith,
  λ h. absurd (rw e at h),
  λ h. absurd (rw e at h),
  rw e (omega arith),
)
write_on-Wrote (accepts (suc n) ∷ es) bytes w e = (
  rw (take-length-take (suc n) bytes),
  omega (arith, length-take (suc n) bytes),
  λ h. (rw e at h),
  λ h k. omega (arith, length-take (suc n) bytes),
  rw e (omega arith),
)
write_on-Wrote (stalls ∷ es) bytes w e = (refl, λ h. (rw e at h), rw e (omega arith))
write_on-Wrote (breaks_down f ∷ es) bytes w e = (refl, λ h. (rw e at h))

-- The result of a flush or a close.
abbrev pub Settled : Bool → Writer → Poll (Result (Unit {0}) IoError) × Writer → Type 0
Settled close w (ready (ok t), v) = (v.output ≡ w.output) × (IsWilling w.polls → IsWilling v.polls)
Settled close w (ready (err e), v) = (v.output ≡ w.output) × (¬ IsWilling w.polls)
Settled close w (pending, v) =
    (v.output ≡ w.output)
    × (IsWilling w.polls → IsWilling v.polls)
    × (length v.polls < length w.polls)

pub settle_on-Settled :
    (es : List WriteEvent) (close : Bool) (w : Writer)
    → w.polls ≡ es
    → Settled close w (settle_on es close w)
unfolding settle_on
settle_on-Settled [] close w e = (refl, λ h. (h))
settle_on-Settled (accepts zero ∷ es) close w e = (refl, λ h. absurd (rw e at h))
settle_on-Settled (accepts (suc n) ∷ es) close w e = (refl, λ h. (rw e at h))
settle_on-Settled (stalls ∷ es) close w e = (refl, λ h. (rw e at h), rw e (omega arith))
settle_on-Settled (breaks_down f ∷ es) close w e = (refl, λ h. (rw e at h))
