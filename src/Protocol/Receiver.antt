-- ===== src/Protocol/Receiver.antt =====
-- `Receiver` of src/protocol.rs: the buffer, its range of unhandled bytes, and `poll_next`.
-- The reader is the list of what its polls find.
pub mod Buffer
pub mod Decode
mod Iteration
pub mod Refines
use cache_action.Base.{
  ℕ, zero, suc, ◌+◌, ◌-◌, Bool, true, false, List, [], ◌∷◌, ◌++◌, Option, none, some, length, take,
  drop, replicate, ◌==◌, if◌then◌else◌, Result, ok, err,
}
use cache_action.Base.Slices.{slice}
use cache_action.Io.{Bytes, IoError, invalid_data, Poll, ready, pending, ReadEvent, poll_read}
use cache_action.Protocol.Utf8.{is_utf8}
use cache_action.Protocol.{
  Crates, Message, push_store_path, stop_daemon, ReceiveError, io, invalid_store_path,
  path_separator, stop_sentinel,
}

-- `[u8; 1024]`
abbrev pub capacity : ℕ
capacity = 1024

pub record Receiver : Type 0 where
  pub is_done : Bool
  pub buf : Bytes
  pub start : ℕ
  pub end : ℕ
  pub reader : List ReadEvent

-- `Receiver::new`
unfoldable pub new : List ReadEvent → Receiver
new reader = record {
  is_done = false;
  buf = replicate capacity 0;
  start = 0;
  end = 0;
  reader = reader;
}

-- `this.buf[this.unhandled_range.clone()]`
abbrev pub unhandled : Receiver → Bytes
unhandled r = slice r.start r.end r.buf

abbrev pub is_stop : Bytes → Bool
is_stop [] = false
is_stop (b ∷ bs) = b == stop_sentinel

-- `copy_within` to the front, and the range that goes with it.
pub compact : Receiver → Receiver
compact r = record r {
  buf = unhandled r ++ drop (length (unhandled r)) r.buf;
  start = 0;
  end = length (unhandled r);
}

-- The reader has written `chunk` behind the unhandled bytes.
pub fill : Receiver → Bytes → List ReadEvent → Receiver
fill r chunk reader = record r {
  buf = take r.end r.buf ++ (chunk ++ drop (r.end + length chunk) r.buf);
  end = r.end + length chunk;
  reader = reader;
}

-- How an iteration of the loop in `poll_next` ends.
pub data Flow (A : Type 0) : Type 0 where
  continues : Flow A
  breaks : A → Flow A
  returns : Poll (Option A) → Flow A

module _ (crates : Crates) where
  open crates use {StorePath, ParseError, parse, memchr}

  abbrev pub Item : Type 0
  Item = Result (Message StorePath) (ReceiveError ParseError)

  -- The bytes of a line are decoded and parsed.
  unfoldable pub parse_line : Bytes → Item
  parse_line line =
      if is_utf8 line
      then elim (parse line) [ ok p ↦ ok (push_store_path p) | err e ↦ err (invalid_store_path e) ]
      else err (io invalid_data)

  -- `matches!(res, Ok(Message::StopDaemon) | Err(_))`
  abbrev pub ends : Item → Bool
  ends (ok (push_store_path p)) = false
  ends (ok stop_daemon) = true
  ends (err e) = true

  -- The match on what `poll_read` gives, for a compacted receiver.
  pub on_read : Receiver → Poll (Result Bytes IoError) × List ReadEvent → Flow Item × Receiver
  on_read r (pending, reader) = (returns pending, record r { reader = reader })
  on_read r (ready (err e), reader) = (breaks (err (io e)), record r { reader = reader })
  on_read r (ready (ok []), reader) = (returns (ready none), record r { reader = reader })
  on_read r (ready (ok (b ∷ chunk)), reader) = (continues, fill r (b ∷ chunk) reader)

  pub read_more : Receiver → Flow Item × Receiver
  read_more r = on_read (compact r) (poll_read (capacity - (compact r).end) r.reader)

  -- One iteration of the loop.
  pub iterate : Receiver → Flow Item × Receiver
  unfolding parse_line on_read read_more compact fill poll_read is_utf8
  iterate r =
      if is_stop (unhandled r)
      then (breaks (ok stop_daemon), r)
      else elim (memchr path_separator (unhandled r)) [
        | none ↦ read_more r
        | some offset ↦ (
          breaks (parse_line (take offset (unhandled r))),
          record r { start = r.start + (offset + 1) },
        )
      ]

  -- What `poll_next` returns; `none` means that the fuel of its loop ran out.
  abbrev pub Polled : Type 0
  Polled = Option (Poll (Option Item)) × Receiver

  pub after_iteration : (Receiver → Polled) → Flow Item × Receiver → Polled
  after_iteration again (continues, r) = again r
  after_iteration again (breaks item, r) =
      (some (ready (some item)), record r { is_done = ends item })
  after_iteration again (returns p, r) = (some p, r)

  unfoldable pub loop : ℕ → Receiver → Polled
  unfolding iterate after_iteration
  loop zero r = (none, r)
  loop (suc fuel) r = after_iteration (loop fuel) (iterate r)

  -- Each iteration that goes on adds at least a byte to the buffer, which bounds their number.
  pub poll_next : Receiver → Polled
  poll_next r = if r.is_done then (some (ready none), r) else loop (suc capacity) r

  -- `while let Some(item) = receiver.next().await`: polls until the stream ends. An item and a
  -- poll that is pending use up fuel.
  pub collect : (Receiver → Option (List Item)) → Polled → Option (List Item)
  collect again (none, r) = none
  collect again (some pending, r) = again r
  collect again (some (ready none), r) = some []
  collect again (some (ready (some item)), r) = elim (again r) [
    | none ↦ none
    | some items ↦ some (item ∷ items)
  ]

  unfoldable pub receive_all : ℕ → Receiver → Option (List Item)
  unfolding collect poll_next
  receive_all zero r = none
  receive_all (suc fuel) r = collect (receive_all fuel) (poll_next r)
