-- ===== src/Protocol/Sender/Drain.antt =====
-- `drain_buf` of src/protocol.rs: the bytes that the writer has, followed by those that it is still
-- to get, stay the same.
use cache_action.Base.{
  ℕ, zero, suc, ◌+◌, ◌-◌, ◌≤◌, ◌<◌, ◌≡◌, refl, sym, ap, ◌∙◌, [], ◌++◌, none, some, length, take,
  drop, length-drop, append-nil, append_assoc, ltb, Result, ok, err, arith, Bool-cases, inl, inr,
}
use cache_action.Base.Slices.{take-append-drop-drop, drop_all}
use cache_action.Io.{Bytes, IoError, Poll, ready, pending, Writer, IsWilling}
use cache_action.Io.Writes.{Wrote, write_on-Wrote}
use cache_action.Protocol.Sender.{Sender, Polled, on_write, drain_loop, drain_buf}

-- All bytes sent so far: those that the writer has, and those in the buffer behind them.
abbrev pub stream : Sender → Bytes
stream s = s.writer.output ++ drop s.num_written s.buf

abbrev pub polls : Sender → ℕ
polls s = length s.writer.polls

abbrev pub Keeps : Sender → Sender → Type 0
Keeps s t =
    (stream t ≡ stream s)
    × (t.num_written ≤ length t.buf)
    × (IsWilling s.writer.polls → IsWilling t.writer.polls)
    × (polls t ≤ polls s)

-- What a poll of `drain_buf` does.
abbrev pub Drained : Sender → Polled → Type 0
Drained s (none, t) = ⊥
Drained s (some (ready (ok u)), t) = Keeps s t × (t.buf ≡ [])
Drained s (some (ready (err e)), t) =
    (stream t ≡ stream s) × (t.num_written ≤ length t.buf) × (¬ IsWilling s.writer.polls)
Drained s (some pending, t) = Keeps s t × (polls t < polls s)

Drained-Keeps : (s t : Sender) (p : Polled) → Keeps s t → Drained t p → Drained s p
Drained-Keeps s t (none, u) k d = d
Drained-Keeps s t (some (ready (ok x)), u) k d =
    ((d.0.0 ∙ k.0, d.0.1, λ h. d.0.2 (k.2 h), omega (arith, k.3, d.0.3)), d.1)
Drained-Keeps s t (some (ready (err e)), u) k d = (d.0 ∙ k.0, d.1, λ h. d.2 (k.2 h))
Drained-Keeps s t (some pending, u) k d =
    ((d.0.0 ∙ k.0, d.0.1, λ h. d.0.2 (k.2 h), omega (arith, k.3, d.0.3)), omega (arith, k.3, d.1))

on_write-Drained :
    (fuel : ℕ) (s : Sender)
    → ((t : Sender)
        → t.num_written ≤ length t.buf
        → length t.buf - t.num_written < fuel
        → Drained t (drain_loop fuel t))
    → s.num_written < length s.buf
    → length s.buf - s.num_written < suc fuel
    → (r : Poll (Result ℕ IoError) × Writer) → Wrote (drop s.num_written s.buf) s.writer r
    → Drained s (on_write (drain_loop fuel) s r)
unfolding on_write
on_write-Drained fuel s ih h k (pending, w) wrote = (
  (ap (λ o. o ++ drop s.num_written s.buf) wrote.0, omega arith, wrote.1, omega (arith, wrote.2)),
  wrote.2,
)
on_write-Drained fuel s ih h k (ready (err e), w) wrote =
    (ap (λ o. o ++ drop s.num_written s.buf) wrote.0, omega arith, wrote.1)
on_write-Drained fuel s ih h k (ready (ok zero), w) wrote = (
  ap (λ o. o ++ drop s.num_written s.buf) (wrote.0 ∙ append-nil s.writer.output),
  omega arith,
  λ willing. absurd (omega (arith, wrote.3 willing, length-drop s.num_written s.buf)),
)
on_write-Drained fuel s ih h k (ready (ok (suc n)), w) wrote =
    let t : Sender = record s { num_written = s.num_written + suc n; writer = w } in
    let left = length-drop s.num_written s.buf in
    Drained-Keeps s t _
      (
        ap (λ o. o ++ drop (s.num_written + suc n) s.buf) wrote.0
            ∙ append_assoc s.writer.output (take (suc n) (drop s.num_written s.buf))
                (drop (s.num_written + suc n) s.buf)
            ∙ ap (◌++◌ s.writer.output) (take-append-drop-drop s.num_written (suc n) s.buf),
        omega (arith, wrote.1, left),
        wrote.2,
        wrote.4,
      )
      (ih t (omega (arith, wrote.1, left)) (omega (arith, wrote.1, left)))

drain_loop-Drained :
    (fuel : ℕ) (s : Sender)
    → s.num_written ≤ length s.buf
    → length s.buf - s.num_written < fuel
    → Drained s (drain_loop fuel s)
unfolding drain_loop
drain_loop-Drained zero s h k = absurd (omega arith)
drain_loop-Drained (suc fuel) s h k = elim (Bool-cases (ltb s.num_written (length s.buf))) [
  | inl more ↦ rw more (
      on_write-Drained fuel s (drain_loop-Drained fuel) (ground arith) k _
        (write_on-Wrote s.writer.polls _ s.writer refl))
  | inr done ↦ rw done (
      let nothing = drop_all s.num_written s.buf (ground arith) in
      ((ap (◌++◌ s.writer.output) (sym nothing), omega arith, λ w. w, omega arith), refl))
]

pub drain_buf-Drained : (s : Sender) → s.num_written ≤ length s.buf → Drained s (drain_buf s)
unfolding drain_buf
drain_buf-Drained s h = drain_loop-Drained (suc (length s.buf)) s h (omega arith)
