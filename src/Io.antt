-- ===== src/Io.antt =====
-- The asynchronous byte streams that the program is generic in: `AsyncRead` and `AsyncWrite` of
-- the futures crate, as used by src/protocol.rs, src/async_read_ext.rs and src/event_loop.rs.
-- A stream is the list of what its successive polls find.
pub mod Position
pub mod Reads
pub mod Writes
use cache_action.Base.{
  ℕ, zero, suc, ◌||◌, ◌+◌, Bool, true, false, List, [], ◌∷◌, ◌++◌, Option, none, some, length, take,
  drop, leb, if◌then◌else◌, Result, ok, err,
}

abbrev pub Bytes : Type 0
Bytes = List ℕ

-- `std::io::Error`, by the kinds that the program makes itself and the ones it passes on.
pub data IoError : Type 0 where
  write_zero invalid_data : IoError
  os : ℕ → IoError

pub data Poll (A : Type 0) : Type 0 where
  ready : A → Poll A
  pending : Poll A

-- What one poll of a reader finds: bytes that have arrived, nothing yet, or a failure.
pub data ReadEvent : Type 0 where
  arrived : Bytes → ReadEvent
  blocked : ReadEvent
  failed : IoError → ReadEvent

-- A read takes at most `room` bytes and leaves the others. Past the last event the stream has
-- ended, and a read returns no bytes.
unfoldable pub poll_read : ℕ → List ReadEvent → Poll (Result Bytes IoError) × List ReadEvent
poll_read room [] = (ready (ok []), [])
poll_read room (blocked ∷ es) = (pending, es)
poll_read room (failed e ∷ es) = (ready (err e), es)
poll_read room (arrived c ∷ es) =
    if leb (length c) room
    then (ready (ok c), es)
    else (ready (ok (take room c)), arrived (drop room c) ∷ es)

-- A read that returns no bytes means the end of the stream, so none arrive before it.
abbrev pub IsStream : List ReadEvent → Type 0
IsStream [] = Unit {0}
IsStream (arrived [] ∷ es) = ⊥
IsStream (arrived (b ∷ c) ∷ es) = IsStream es
IsStream (blocked ∷ es) = IsStream es
IsStream (failed e ∷ es) = IsStream es

-- The bytes that come before the end of the stream or its first failure.
abbrev pub contents : List ReadEvent → Bytes
contents [] = []
contents (arrived c ∷ es) = c ++ contents es
contents (blocked ∷ es) = contents es
contents (failed e ∷ es) = []

-- The failure that follows them, if one does.
abbrev pub failure : List ReadEvent → Option IoError
failure [] = none
failure (arrived c ∷ es) = failure es
failure (blocked ∷ es) = failure es
failure (failed e ∷ es) = some e

-- A bound on the number of polls that find something.
abbrev pub weight : List ReadEvent → ℕ
weight [] = 0
weight (arrived c ∷ es) = length c + 1 + weight es
weight (blocked ∷ es) = 1 + weight es
weight (failed e ∷ es) = 1 + weight es

-- What one poll of a writer finds: room for some bytes, no room yet, or a failure.
pub data WriteEvent : Type 0 where
  accepts : ℕ → WriteEvent
  stalls : WriteEvent
  breaks_down : IoError → WriteEvent

-- A writer, with the bytes that it has taken so far.
pub record Writer : Type 0 where
  pub polls : List WriteEvent
  pub output : Bytes
  pub closed : Bool

abbrev taken : Writer → List WriteEvent → Bytes → Poll (Result ℕ IoError) × Writer
taken w es bytes = (ready (ok (length bytes)), record w { polls = es; output = w.output ++ bytes })

-- Past the last event a writer takes all that it is given.
unfoldable pub write_on : List WriteEvent → Bytes → Writer → Poll (Result ℕ IoError) × Writer
write_on [] bytes w = taken w [] bytes
write_on (accepts n ∷ es) bytes w = taken w es (take n bytes)
write_on (stalls ∷ es) bytes w = (pending, record w { polls = es })
write_on (breaks_down e ∷ es) bytes w = (ready (err e), record w { polls = es })

abbrev pub poll_write : Bytes → Writer → Poll (Result ℕ IoError) × Writer
poll_write bytes w = write_on w.polls bytes w

-- `poll_flush`, and with `close` set `poll_close`.
pub settle_on : List WriteEvent → Bool → Writer → Poll (Result (Unit {0}) IoError) × Writer
settle_on [] close w = (ready (ok tt), record w { closed = close || w.closed })
settle_on (accepts n ∷ es) close w =
    (ready (ok tt), record w { polls = es; closed = close || w.closed })
settle_on (stalls ∷ es) close w = (pending, record w { polls = es })
settle_on (breaks_down e ∷ es) close w = (ready (err e), record w { polls = es })

abbrev pub poll_flush : Writer → Poll (Result (Unit {0}) IoError) × Writer
poll_flush w = settle_on w.polls false w

abbrev pub poll_close : Writer → Poll (Result (Unit {0}) IoError) × Writer
poll_close w = settle_on w.polls true w

-- No poll fails, and each that takes bytes takes at least one.
abbrev pub IsWilling : List WriteEvent → Type 0
IsWilling [] = Unit {0}
IsWilling (accepts zero ∷ es) = ⊥
IsWilling (accepts (suc n) ∷ es) = IsWilling es
IsWilling (stalls ∷ es) = IsWilling es
IsWilling (breaks_down e ∷ es) = ⊥
