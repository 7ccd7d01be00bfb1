-- ===== src/Protocol/Sender.antt =====
-- `Sender` of src/protocol.rs: messages are buffered by `start_send` and written out by
-- `drain_buf`, on a flush or a close; and src/push.rs, which feeds it and closes it.
pub mod Drain
pub mod Delivery
use cache_action.Base.{
  ℕ, zero, suc, ◌+◌, Bool, true, false, List, [], ◌∷◌, ◌++◌, Option, none, some, length, drop, ltb,
  if◌then◌else◌, Result, ok, err,
}
use cache_action.Io.{
  Bytes, IoError, write_zero, Poll, ready, pending, Writer, poll_write, poll_flush, poll_close,
}
use cache_action.Protocol.{
  Crates, Message, push_store_path, stop_daemon, path_separator, stop_sentinel,
}

pub record Sender : Type 0 where
  pub buf : Bytes
  pub num_written : ℕ
  pub writer : Writer

-- `Sender::new`
unfoldable pub new : Writer → Sender
new w = record { buf = []; num_written = 0; writer = w }

-- The result of a poll; `none` means that the fuel of a loop ran out.
abbrev pub Polled : Type 0
Polled = Option (Poll (Result (Unit {0}) IoError)) × Sender

-- The match on what `poll_write` gives.
pub on_write : (Sender → Polled) → Sender → Poll (Result ℕ IoError) × Writer → Polled
on_write again s (pending, w) = (some pending, record s { writer = w })
on_write again s (ready (err e), w) = (some (ready (err e)), record s { writer = w })
on_write again s (ready (ok zero), w) = (some (ready (err write_zero)), record s { writer = w })
on_write again s (ready (ok (suc n)), w) =
    again (record s { num_written = s.num_written + suc n; writer = w })

-- The loop of `drain_buf`.
pub drain_loop : ℕ → Sender → Polled
unfolding on_write
drain_loop zero s = (none, s)
drain_loop (suc fuel) s =
    let more = on_write (drain_loop fuel) s (poll_write (drop s.num_written s.buf) s.writer) in
    if ltb s.num_written (length s.buf)
    then more
    else (some (ready (ok tt)), record s { buf = []; num_written = 0 })

-- Each round writes at least a byte of the buffer, which bounds their number.
pub drain_buf : Sender → Polled
unfolding drain_loop
drain_buf s = drain_loop (suc (length s.buf)) s

abbrev after_settling : Sender → Poll (Result (Unit {0}) IoError) × Writer → Polled
after_settling s (p, w) = (some p, record s { writer = w })

pub then_settle : (Writer → Poll (Result (Unit {0}) IoError) × Writer) → Polled → Polled
then_settle settle (some (ready (ok t)), s) = after_settling s (settle s.writer)
then_settle settle (p, s) = (p, s)

-- `poll_flush` of the `Sink`.
pub sink_flush : Sender → Polled
unfolding drain_buf then_settle
sink_flush s = then_settle (λ w. poll_flush w) (drain_buf s)

-- `poll_close` of the `Sink`.
pub sink_close : Sender → Polled
unfolding drain_buf then_settle
sink_close s = then_settle (λ w. poll_close w) (drain_buf s)

module _ (crates : Crates) where
  open crates use {StorePath, display}

  -- The bytes that a message adds to the buffer.
  abbrev pub encode : Message StorePath → Bytes
  encode (push_store_path p) = display p ++ path_separator ∷ []
  encode stop_daemon = stop_sentinel ∷ []

  unfoldable pub start_send : Sender → Message StorePath → Sender
  start_send s m = record s { buf = s.buf ++ encode m }

  -- `feed`, message by message; the sink is always ready.
  unfoldable pub feed_all : Sender → List (Message StorePath) → Sender
  unfolding start_send
  feed_all s [] = s
  feed_all s (m ∷ ms) = feed_all (start_send s m) ms

-- `close().await` and `flush().await`: polls until the sink is done. A poll that is pending uses up fuel.
pub on_settled :
    (Sender → Option (Result (Unit {0}) IoError × Sender))
    → Polled
    → Option (Result (Unit {0}) IoError × Sender)
on_settled again (none, s) = none
on_settled again (some pending, s) = again s
on_settled again (some (ready r), s) = some (r, s)

pub close : ℕ → Sender → Option (Result (Unit {0}) IoError × Sender)
unfolding on_settled sink_close
close zero s = none
close (suc fuel) s = on_settled (close fuel) (sink_close s)

pub flush : ℕ → Sender → Option (Result (Unit {0}) IoError × Sender)
unfolding on_settled sink_flush
flush zero s = none
flush (suc fuel) s = on_settled (flush fuel) (sink_flush s)

module _ (crates : Crates) where
  -- `send(m).await`
  abbrev pub send :
      ℕ → Sender → Message (crates.StorePath) → Option (Result (Unit {0}) IoError × Sender)
  send fuel s m = flush fuel (start_send crates s m)
