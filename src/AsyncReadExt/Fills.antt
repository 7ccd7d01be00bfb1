-- ===== src/AsyncReadExt/Fills.antt =====
-- What `try_fill` of src/async_read_ext.rs comes to, for every reader.
use cache_action.Base.{
  ℕ, zero, suc, ◌+◌, ◌-◌, ◌≤◌, ◌<◌, ◌≡◌, refl, ◌⊎◌, sym, ap, ◌∙◌, List, [], ◌∷◌, ◌++◌, none, some,
  length, take, ltb, ltb_less, ltb_full, Result, ok, err, arith, Bool-cases, inl, inr, length-take,
  length-append,
}
use cache_action.Io.{
  Bytes, IoError, Poll, ready, pending, ReadEvent, poll_read, IsStream, contents, failure, weight,
}
use cache_action.Io.Reads.{Reads, poll_read-Reads}
use cache_action.AsyncReadExt.{
  TryFill, Polled, fill, on_read, poll_loop, poll, on_poll, await, try_fill,
}
use cache_action.AsyncReadExt.Moves.{
  filled, measure, Ends, Polls, Ends-Moves, Polls-Moves, fill-Moves, reader-Moves, IsFilling, Moves,
}

fill_num_read :
    (t : TryFill) (chunk : Bytes) (es : List ReadEvent)
    → (fill t chunk es).num_read ≡ t.num_read + length chunk
unfolding fill
fill_num_read t chunk es = refl

Moves-same : (t : TryFill) → IsFilling t → Moves t t
Moves-same t v = record {
  filling = v;
  bytes = refl;
  failure_eq = refl;
  room = refl;
  smaller = omega arith;
}

room-Reads :
    (room : ℕ) (es : List ReadEvent) → 0 < room → IsStream es → Reads room es (poll_read room es)
room-Reads zero es h s = absurd (omega arith)
room-Reads (suc k) es h s = poll_read-Reads k es s

on_read-Polls :
    (fuel : ℕ) (t : TryFill) (r : Poll (Result Bytes IoError) × List ReadEvent)
    → ((u : TryFill) → IsFilling u → length u.buf - u.num_read < fuel → Polls u (poll_loop fuel u))
    → IsFilling t
    → t.num_read < length t.buf
    → length t.buf - t.num_read < suc fuel
    → Reads (length t.buf - t.num_read) t.reader r
    → Polls t (on_read (poll_loop fuel) t r)
unfolding on_read
on_read-Polls fuel t (pending, es) ih v h k d =
    (reader-Moves t es v.within d.0 (omega (arith, d.1)), omega (arith, d.1))
on_read-Polls fuel t (ready (err e), es) ih v h k d = (
  d.1,
  omega (
    arith,
    length-append (filled t) (contents t.reader),
    ap length d.0,
    length-take t.num_read t.buf,
    h,
  ),
)
on_read-Polls fuel t (ready (ok []), es) ih v h k d =
    (reader-Moves t es v.within d.0 d.3, refl, λ _. (d.1, d.2))
on_read-Polls fuel t (ready (ok (b ∷ chunk)), es) ih v h k d =
    let m = fill-Moves t (b ∷ chunk) es (omega (arith, d.1, h)) d.0 d.2 in
    Polls-Moves t (fill t (b ∷ chunk) es) _ m (
      ih (fill t (b ∷ chunk) es) m.filling
        (omega (arith, m.room, fill_num_read t (b ∷ chunk) es, d.1, h, k)))

poll_loop-Polls :
    (fuel : ℕ) (t : TryFill)
    → IsFilling t
    → length t.buf - t.num_read < fuel
    → Polls t (poll_loop fuel t)
unfolding poll_loop
poll_loop-Polls zero t v k = absurd (omega arith)
poll_loop-Polls (suc fuel) t v k = elim (Bool-cases (ltb t.num_read (length t.buf))) [
  | inl more ↦ rw more (
      on_read-Polls fuel t _ (poll_loop-Polls fuel) v (ground arith) k
        (room-Reads (length t.buf - t.num_read) t.reader (ground arith) v.stream))
  | inr full ↦ rw full (Moves-same t v, refl, λ less. absurd (ground arith))
]

on_poll-Ends :
    (fuel : ℕ) (t : TryFill) (p : Polled)
    → ((u : TryFill)
        → IsFilling u
        → measure u < fuel
        → (r : Result ℕ IoError × TryFill) × (await fuel u ≡ some r) × Ends u r)
    → measure t < suc fuel
    → Polls t p
    → (r : Result ℕ IoError × TryFill) × (on_poll (await fuel) p ≡ some r) × Ends t r
unfolding on_poll
on_poll-Ends fuel t (none, u) ih k d = absurd d
on_poll-Ends fuel t (some pending, u) ih k d =
    let (r, e, ends) = ih u d.0.filling (omega (arith, d.1)) in (r, e, Ends-Moves t u r d.0 ends)
on_poll-Ends fuel t (some (ready r), u) ih k d = ((r, u), refl, d)

await-Ends :
    (fuel : ℕ) (t : TryFill)
    → IsFilling t
    → measure t < fuel
    → (r : Result ℕ IoError × TryFill) × (await fuel t ≡ some r) × Ends t r
unfolding await poll
await-Ends zero t v k = absurd (omega arith)
await-Ends (suc fuel) t v k =
    on_poll-Ends fuel t (poll t) (await-Ends fuel) k
      (poll_loop-Polls (suc (length t.buf)) t v (omega arith))

-- What `try_fill` says of a stream and a buffer.
abbrev pub Fills : List ReadEvent → Bytes → Result ℕ IoError × TryFill → Type 0
Fills events buf (ok n, t) =
    (contents events ≡ take n t.buf ++ contents t.reader)
    × (length t.buf ≡ length buf)
    × (n ≤ length buf)
    × ((n ≡ length buf) ⊎ ((contents t.reader ≡ []) × (failure events ≡ none)))
    × (failure t.reader ≡ failure events)
    × IsStream t.reader
Fills events buf (err e, t) = (failure events ≡ some e) × (length (contents events) < length buf)

-- A buffer that is not full is at the end of its stream.
pub ended : {E : Type 0} {n room : ℕ} → (n ≡ room) ⊎ E → n < room → E
ended (inl full) less = absurd (omega (arith, full, less))
ended (inr end) less = end

Ends-Fills :
    (events : List ReadEvent) (buf : Bytes) (r : Result ℕ IoError × TryFill)
    → Ends (record { reader = events; buf = buf; num_read = 0 }) r
    → Fills events buf r
Ends-Fills events buf (ok n, t) (m, e, last) = (
  rw e m.bytes,
  m.room,
  omega (arith, e, m.room, m.filling.within),
  elim (Bool-cases (ltb n (length buf))) [
    | inl less ↦
        let (nothing, whole) = last (omega (arith, m.room, ltb_less less)) in
        inr (nothing, m.failure_eq ∙ whole)
    | inr all ↦ inl (omega (arith, e, m.room, m.filling.within, ltb_full all))
  ],
  sym m.failure_eq,
  m.filling.stream,
)
Ends-Fills events buf (err e, t) d = d

-- For every stream, however its bytes are cut into reads: filling a buffer finishes. It gives the
-- next bytes of the stream, as many as fit, and fewer only if the stream ended there with no
-- failure; it fails only if the stream does before the buffer is full. The rest of the stream stays
-- to be read.
pub try_fill-Fills :
    (events : List ReadEvent) (buf : Bytes)
    → IsStream events
    → (r : Result ℕ IoError × TryFill) × (try_fill events buf ≡ some r) × Fills events buf r
unfolding try_fill
try_fill-Fills events buf s =
    let t : TryFill = record { reader = events; buf = buf; num_read = 0 } in
    let (r, e, ends) =
      await-Ends (suc (weight events)) t (record { within = omega arith; stream = s })
        (omega arith) in
    (r, e, Ends-Fills events buf r ends)
