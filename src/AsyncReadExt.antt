-- ===== src/AsyncReadExt.antt =====
-- `TryFill` of src/async_read_ext.rs: fills a buffer from a reader, as far as there are bytes.
pub mod Moves
pub mod Fills
use cache_action.Base.{
  ℕ, zero, suc, ◌+◌, ◌-◌, List, [], ◌∷◌, ◌++◌, Option, none, some, length, take, drop, ltb,
  if◌then◌else◌, Result, ok, err,
}
use cache_action.Io.{Bytes, IoError, Poll, ready, pending, ReadEvent, poll_read, weight}

pub record TryFill : Type 0 where
  pub reader : List ReadEvent
  pub buf : Bytes
  pub num_read : ℕ

-- The result of a poll; `none` means that the fuel of its loop ran out.
abbrev pub Polled : Type 0
Polled = Option (Poll (Result ℕ IoError)) × TryFill

-- The reader has written `chunk` behind the bytes that were read before.
pub fill : TryFill → Bytes → List ReadEvent → TryFill
fill t chunk reader = record {
  reader = reader;
  buf = take t.num_read t.buf ++ (chunk ++ drop (t.num_read + length chunk) t.buf);
  num_read = t.num_read + length chunk;
}

-- What follows `poll_read` in the loop.
pub on_read : (TryFill → Polled) → TryFill → Poll (Result Bytes IoError) × List ReadEvent → Polled
unfolding fill
on_read again t (pending, reader) = (some pending, record t { reader = reader })
on_read again t (ready (err e), reader) = (some (ready (err e)), record t { reader = reader })
on_read again t (ready (ok []), reader) =
    (some (ready (ok t.num_read)), record t { reader = reader })
on_read again t (ready (ok (b ∷ chunk)), reader) = again (fill t (b ∷ chunk) reader)

pub poll_loop : ℕ → TryFill → Polled
unfolding on_read
poll_loop zero t = (none, t)
poll_loop (suc fuel) t =
    let more = on_read (poll_loop fuel) t (poll_read (length t.buf - t.num_read) t.reader) in
    if ltb t.num_read (length t.buf) then more else (some (ready (ok t.num_read)), t)

-- Each round that goes on reads at least a byte into the buffer, which bounds their number.
pub poll : TryFill → Polled
unfolding poll_loop
poll t = poll_loop (suc (length t.buf)) t

-- `await`: polls until the future is ready.
pub on_poll :
    (TryFill → Option (Result ℕ IoError × TryFill)) → Polled → Option (Result ℕ IoError × TryFill)
on_poll again (none, t) = none
on_poll again (some pending, t) = again t
on_poll again (some (ready r), t) = some (r, t)

pub await : ℕ → TryFill → Option (Result ℕ IoError × TryFill)
unfolding on_poll poll poll_read
await zero t = none
await (suc fuel) t = on_poll (await fuel) (poll t)

-- `reader.try_fill(buf).await`. Each pending poll uses up an event of the reader.
unfoldable pub try_fill : List ReadEvent → Bytes → Option (Result ℕ IoError × TryFill)
unfolding await
try_fill reader buf =
    await (suc (weight reader)) (record { reader = reader; buf = buf; num_read = 0 })
