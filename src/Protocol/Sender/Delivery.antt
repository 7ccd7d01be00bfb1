-- ===== src/Protocol/Sender/Delivery.antt =====
-- Feeding messages to the `Sender` of src/protocol.rs and closing it, as src/push.rs does.
use cache_action.Base.{
  ℕ, zero, suc, ◌≤◌, ◌<◌, ◌≡◌, refl, sym, ap, ◌∙◌, Bool, true, false, List, [], ◌∷◌, ◌++◌, Option,
  none, some, length, drop, flatten, map, append-nil, append_assoc, Result, ok, err, arith,
}
use cache_action.Base.Slices.{drop_all}
use cache_action.Io.{Bytes, IoError, Poll, ready, pending, Writer, IsWilling, settle_on}
use cache_action.Io.Writes.{Settled, settle_on-Settled}
use cache_action.Protocol.{Crates, Message}
use cache_action.Protocol.Sender.{
  Sender, new, Polled, drain_buf, then_settle, sink_close, sink_flush, flush, encode, start_send,
  feed_all, on_settled, close,
}
use cache_action.Protocol.Sender.Drain.{stream, polls, Keeps, Drained, drain_buf-Drained}

-- What a poll of `poll_close` does.
abbrev Settles : Sender → Polled → Type 0
Settles s (none, t) = ⊥
Settles s (some (ready (ok u)), t) = t.writer.output ≡ stream s
Settles s (some (ready (err e)), t) = (stream t ≡ stream s) × (¬ IsWilling s.writer.polls)
Settles s (some pending, t) = Keeps s t × (polls t < polls s)

after_settling-Settles :
    (finish : Bool) (s t : Sender)
    → Keeps s t
    → t.buf ≡ []
    → (r : Poll (Result (Unit {0}) IoError) × Writer) → Settled finish t.writer r
    → Settles s (some r.0, record t { writer = r.1 })
after_settling-Settles finish s t k e (ready (ok u), w) d =
    let nothing = drop_all t.num_written t.buf (rw e (omega arith)) in
    d.0 ∙ sym (append-nil t.writer.output) ∙ ap (◌++◌ t.writer.output) (sym nothing) ∙ k.0
after_settling-Settles finish s t k e (ready (err f), w) d =
    (ap (λ o. o ++ drop t.num_written t.buf) d.0 ∙ k.0, λ h. d.1 (k.2 h))
after_settling-Settles finish s t k e (pending, w) d = (
  (
    ap (λ o. o ++ drop t.num_written t.buf) d.0 ∙ k.0,
    k.1,
    λ h. d.1 (k.2 h),
    omega (arith, d.2, k.3),
  ),
  omega (arith, d.2, k.3),
)

then_after_settling-Settles :
    (finish : Bool) (s : Sender) (p : Polled)
    → Drained s p
    → Settles s (then_settle (λ w. settle_on w.polls finish w) p)
unfolding then_settle
then_after_settling-Settles finish s (none, t) d = absurd d
then_after_settling-Settles finish s (some pending, t) d = d
then_after_settling-Settles finish s (some (ready (err e)), t) d = (d.0, d.2)
then_after_settling-Settles finish s (some (ready (ok u)), t) d =
    after_settling-Settles finish s t d.0 d.1 _
      (settle_on-Settled t.writer.polls finish t.writer refl)

sink_close-Settles : (s : Sender) → s.num_written ≤ length s.buf → Settles s (sink_close s)
unfolding sink_close
sink_close-Settles s h = then_after_settling-Settles true s (drain_buf s) (drain_buf-Drained s h)

sink_flush-Settles : (s : Sender) → s.num_written ≤ length s.buf → Settles s (sink_flush s)
unfolding sink_flush
sink_flush-Settles s h = then_after_settling-Settles false s (drain_buf s) (drain_buf-Drained s h)

-- What awaiting the close, or a flush, comes to.
abbrev pub Closes : Sender → Option (Result (Unit {0}) IoError × Sender) → Type 0
Closes s none = ⊥
Closes s (some (ok u, t)) = t.writer.output ≡ stream s
Closes s (some (err e, t)) = (stream t ≡ stream s) × (¬ IsWilling s.writer.polls)

Closes-Keeps :
    (s t : Sender) (r : Option (Result (Unit {0}) IoError × Sender))
    → Keeps s t
    → Closes t r
    → Closes s r
Closes-Keeps s t none k c = c
Closes-Keeps s t (some (ok x, u)) k c = c ∙ k.0
Closes-Keeps s t (some (err e, u)) k c = (c.0 ∙ k.0, λ h. c.1 (k.2 h))

on_settled-Closes :
    (again : Sender → Option (Result (Unit {0}) IoError × Sender)) (fuel : ℕ) (s : Sender)
    → ((t : Sender) → t.num_written ≤ length t.buf → polls t < fuel → Closes t (again t))
    → polls s < suc fuel
    → (p : Polled) → Settles s p
    → Closes s (on_settled again p)
unfolding on_settled
on_settled-Closes again fuel s ih h (none, t) d = absurd d
on_settled-Closes again fuel s ih h (some pending, t) d =
    Closes-Keeps s t _ d.0 (ih t d.0.1 (omega (arith, d.1)))
on_settled-Closes again fuel s ih h (some (ready (ok u)), t) d = d
on_settled-Closes again fuel s ih h (some (ready (err e)), t) d = d

-- Closing finishes. If it succeeds, the writer has got all that was sent, in order; it fails only
-- if the writer fails or takes no byte when offered some, and then no byte is lost or doubled.
pub close-Closes :
    (fuel : ℕ) (s : Sender)
    → s.num_written ≤ length s.buf
    → polls s < fuel
    → Closes s (close fuel s)
unfolding close
close-Closes zero s h k = absurd (omega arith)
close-Closes (suc fuel) s h k =
    on_settled-Closes (close fuel) fuel s (close-Closes fuel) k (sink_close s)
      (sink_close-Settles s h)

-- So does flushing.
pub flush-Closes :
    (fuel : ℕ) (s : Sender)
    → s.num_written ≤ length s.buf
    → polls s < fuel
    → Closes s (flush fuel s)
unfolding flush
flush-Closes zero s h k = absurd (omega arith)
flush-Closes (suc fuel) s h k =
    on_settled-Closes (flush fuel) fuel s (flush-Closes fuel) k (sink_flush s)
      (sink_flush-Settles s h)

module _ (crates : Crates) where
  open crates use {StorePath}

  -- The bytes that stand for a sequence of messages.
  abbrev pub encoding : List (Message StorePath) → Bytes
  encoding ms = flatten (map (encode crates) ms)

  pub feed_all-buf :
      (s : Sender) (ms : List (Message StorePath))
      → (feed_all crates s ms).buf ≡ s.buf ++ encoding ms
  unfolding feed_all
  feed_all-buf s [] = sym (append-nil s.buf)
  feed_all-buf s (m ∷ ms) =
      feed_all-buf (start_send crates s m) ms ∙ append_assoc s.buf (encode crates m) (encoding ms)

  pub feed_all-rest :
      (s : Sender) (ms : List (Message StorePath))
      → ((feed_all crates s ms).num_written ≡ s.num_written)
        × ((feed_all crates s ms).writer ≡ s.writer)
  unfolding feed_all
  feed_all-rest s [] = (refl, refl)
  feed_all-rest s (m ∷ ms) = feed_all-rest (start_send crates s m) ms

  delivered :
      (w : Writer) (bytes : Bytes) (s : Sender) (r : Option (Result (Unit {0}) IoError × Sender))
      → stream s ≡ w.output ++ bytes
      → IsWilling s.writer.polls
      → Closes s r
      → (t : Sender) × (r ≡ some (ok tt, t)) × (t.writer.output ≡ w.output ++ bytes)
  delivered w bytes s none e h c = absurd c
  delivered w bytes s (some (ok u, t)) e h c = (t, refl, c ∙ e)
  delivered w bytes s (some (err f, t)) e h c = absurd (c.1 h)

  -- To a writer that never fails, feeding any messages and closing succeeds, and the writer gets
  -- just their bytes, in order, whatever amounts it takes at a time.
  pub close-feed_all :
      (w : Writer) (ms : List (Message StorePath)) (fuel : ℕ)
      → IsWilling w.polls
      → length w.polls < fuel
      → (t : Sender) × (close fuel (feed_all crates (new w) ms) ≡ some (ok tt, t))
        × (t.writer.output ≡ w.output ++ encoding ms)
  unfolding new
  close-feed_all w ms fuel h k =
      let start : Sender = record { buf = []; num_written = 0; writer = w } in
      let s = feed_all crates start ms in
      let (n, same) = feed_all-rest start ms in
      delivered w (encoding ms) s (close fuel s)
        (rw (same, n) (ap (◌++◌ w.output) (feed_all-buf start ms))) (rw same h)
        (close-Closes fuel s (rw n (omega arith)) (rw same k))
