-- ===== src/Run/Streams.antt =====
-- `UnixStreams` of src/run.rs: the connections that the socket accepts. The listener is the list of what
-- its successive polls find.
use cache_action.Base.{
  ℕ, zero, suc, ◌≤◌, ◌≡◌, refl, ap, ◌∙◌, List, [], ◌∷◌, ◌++◌, Option, none, some, length, flatten,
  map, append_assoc, arith,
}
use cache_action.Io.{Bytes, IoError, Poll, ready, pending}
use cache_action.Run.Texts.{accept_text}

-- What `poll_accept` finds; past the last event it finds nothing.
pub data AcceptEvent (Stream : Type 0) : Type 0 where
  accepted : Stream → AcceptEvent Stream
  quiet : AcceptEvent Stream
  accept_failed : IoError → AcceptEvent Stream

-- The result of `poll_next`, the events that are left, and what was printed.
abbrev pub Polled : Type 0 → Type 0
Polled Stream = Poll (Option Stream) × List (AcceptEvent Stream) × Bytes

abbrev pub error_line : (IoError → Bytes) → IoError → Bytes
error_line io_text e = accept_text ++ io_text e ++ b'\n' ∷ []

abbrev printing : {Stream : Type 0} → Bytes → Polled Stream → Polled Stream
printing text (p, es, later) = (p, es, text ++ later)

abbrev pub streams_of : {Stream : Type 0} → List (AcceptEvent Stream) → List Stream
streams_of [] = []
streams_of (accepted stream ∷ es) = stream ∷ streams_of es
streams_of (quiet ∷ es) = streams_of es
streams_of (accept_failed e ∷ es) = streams_of es

abbrev pub failures_of : {Stream : Type 0} → List (AcceptEvent Stream) → List IoError
failures_of [] = []
failures_of (accepted stream ∷ es) = failures_of es
failures_of (quiet ∷ es) = failures_of es
failures_of (accept_failed e ∷ es) = e ∷ failures_of es

abbrev yields :
    {Stream : Type 0}
    → Polled Stream
    → (List (AcceptEvent Stream) → List Stream × Bytes)
    → List Stream × Bytes
yields (ready (some stream), es, text) again =
    let (streams, later) = again es in (stream ∷ streams, text ++ later)
yields (ready none, es, text) again = ([], text)
yields (pending, es, text) again = let (streams, later) = again es in (streams, text ++ later)

yields-printing :
    {Stream : Type 0} (text : Bytes) (p : Polled Stream)
    (again : List (AcceptEvent Stream) → List Stream × Bytes)
    → yields (printing text p) again ≡ ((yields p again).0, text ++ (yields p again).1)
yields-printing text (ready (some stream), es, said) again =
    ap (λ t. (stream ∷ (again es).0, t)) (append_assoc text said (again es).1)
yields-printing text (ready none, es, said) again = refl
yields-printing text (pending, es, said) again =
    ap (λ t. ((again es).0, t)) (append_assoc text said (again es).1)

module _ {Stream : Type 0} (io_text : IoError → Bytes) where
  -- A failure is printed, and the next one is looked for.
  pub poll_next : List (AcceptEvent Stream) → Polled Stream
  poll_next [] = (pending, [], [])
  poll_next (accepted stream ∷ es) = (ready (some stream), es, [])
  poll_next (accept_failed e ∷ es) = printing (error_line io_text e) (poll_next es)
  poll_next (quiet ∷ es) = (pending, es, [])

  -- `select_next_some`, as often as the fuel says, with what was printed.
  unfoldable pub accept_all : ℕ → List (AcceptEvent Stream) → List Stream × Bytes
  unfolding poll_next
  accept_all zero es = ([], [])
  accept_all (suc fuel) es = yields (poll_next es) (accept_all fuel)

  -- The stream of connections never ends: failures of the listener are printed, one line for each, and
  -- all connections that are accepted between and behind them are given, in order.
  pub accept_all-streams_of :
      (es : List (AcceptEvent Stream)) (fuel : ℕ)
      → length es ≤ fuel
      → accept_all fuel es ≡ (streams_of es, flatten (map (error_line io_text) (failures_of es)))
  unfolding accept_all poll_next
  accept_all-streams_of [] zero h = refl
  accept_all-streams_of [] (suc fuel) h = accept_all-streams_of [] fuel (omega arith)
  accept_all-streams_of (e ∷ es) zero h = absurd (omega (arith, h))
  accept_all-streams_of (accepted stream ∷ es) (suc fuel) h =
      ap (λ p. (stream ∷ p.0, p.1)) (accept_all-streams_of es fuel (omega (arith, h)))
  accept_all-streams_of (quiet ∷ es) (suc fuel) h = accept_all-streams_of es fuel (omega (arith, h))
  accept_all-streams_of (accept_failed e ∷ es) (suc fuel) h =
      yields-printing (error_line io_text e) (poll_next es) (accept_all fuel)
      ∙ ap (λ p. (p.0, error_line io_text e ++ p.1))
          (accept_all-streams_of es (suc fuel) (omega (arith, h)))
