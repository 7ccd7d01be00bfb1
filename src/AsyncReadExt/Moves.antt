-- ===== src/AsyncReadExt/Moves.antt =====
-- How `TryFill` of src/async_read_ext.rs moves bytes from its reader to its buffer.
use cache_action.Base.{
  ℕ, ◌+◌, ◌≤◌, ◌<◌, ◌≡◌, refl, sym, ap, ◌∙◌, List, [], ◌++◌, none, some, length, take, drop, Result,
  ok, err, arith, append_assoc, length-take, length-drop, length-append,
}
use cache_action.Base.Slices.{take-length-append}
use cache_action.Io.{Bytes, IoError, ready, pending, ReadEvent, IsStream, contents, failure, weight}
use cache_action.Io.Reads.{Leaves}
use cache_action.AsyncReadExt.{TryFill, Polled, fill}

-- The bytes in the filled part of the buffer.
abbrev pub filled : TryFill → Bytes
filled t = take t.num_read t.buf

abbrev pub measure : TryFill → ℕ
measure t = weight t.reader + t.num_read

pub record IsFilling (t : TryFill) : Type 0 where
  pub within : t.num_read ≤ length t.buf
  pub stream : IsStream t.reader

-- Bytes may have moved from the reader to the buffer, and nothing else has changed.
pub record Moves (s t : TryFill) : Type 0 where
  pub filling : IsFilling t
  pub bytes : filled s ++ contents s.reader ≡ filled t ++ contents t.reader
  pub failure_eq : failure s.reader ≡ failure t.reader
  pub room : length t.buf ≡ length s.buf
  pub smaller : measure t ≤ measure s

-- What a poll, or the whole future, comes to.
abbrev pub Ends : TryFill → Result ℕ IoError × TryFill → Type 0
Ends s (ok n, t) =
    Moves s t
    × (n ≡ t.num_read)
    × (n < length t.buf → (contents t.reader ≡ []) × (failure t.reader ≡ none))
Ends s (err e, t) =
    (failure s.reader ≡ some e) × (length (filled s ++ contents s.reader) < length s.buf)

abbrev pub Polls : TryFill → Polled → Type 0
Polls s (none, t) = ⊥
Polls s (some pending, t) = Moves s t × (measure t < measure s)
Polls s (some (ready r), t) = Ends s (r, t)

Moves-trans : (s t u : TryFill) → Moves s t → Moves t u → Moves s u
Moves-trans s t u a b = record {
  filling = b.filling;
  bytes = a.bytes ∙ b.bytes;
  failure_eq = a.failure_eq ∙ b.failure_eq;
  room = b.room ∙ a.room;
  smaller = omega (arith, a.smaller, b.smaller);
}

pub Ends-Moves : (s t : TryFill) (r : Result ℕ IoError × TryFill) → Moves s t → Ends t r → Ends s r
Ends-Moves s t (ok n, u) m (v, e, last) = (Moves-trans s t u m v, e, last)
Ends-Moves s t (err e, u) m (f, short) =
    (m.failure_eq ∙ f, omega (arith, short, ap length m.bytes, m.room))

pub Polls-Moves : (s t : TryFill) (p : Polled) → Moves s t → Polls t p → Polls s p
Polls-Moves s t (none, u) m d = d
Polls-Moves s t (some pending, u) m d = (Moves-trans s t u m d.0, omega (arith, m.smaller, d.1))
Polls-Moves s t (some (ready r), u) m d = Ends-Moves s t (r, u) m d

-- The filled part after a read.
filled-fill :
    (t : TryFill) (chunk : Bytes) (es : List ReadEvent)
    → t.num_read ≤ length t.buf
    → filled (fill t chunk es) ≡ filled t ++ chunk
unfolding fill
filled-fill t chunk es h =
    let n = length-append (filled t) chunk in
    let k : t.num_read + length chunk ≡ length (filled t ++ chunk) =
      omega (arith, n, length-take t.num_read t.buf, h) in
    ap (take (t.num_read + length chunk))
      (sym (append_assoc (filled t) chunk (drop (t.num_read + length chunk) t.buf)))
    ∙ ap (λ i. take i ((filled t ++ chunk) ++ drop (t.num_read + length chunk) t.buf)) k
    ∙ take-length-append (filled t ++ chunk) (drop (t.num_read + length chunk) t.buf)

length-fill :
    (t : TryFill) (chunk : Bytes) (es : List ReadEvent)
    → t.num_read + length chunk ≤ length t.buf
    → length (fill t chunk es).buf ≡ length t.buf
unfolding fill
length-fill t chunk es h = omega (
  arith,
  length-append (filled t) (chunk ++ drop (t.num_read + length chunk) t.buf),
  length-append chunk (drop (t.num_read + length chunk) t.buf),
  length-drop (t.num_read + length chunk) t.buf,
  length-take t.num_read t.buf,
)

pub fill-Moves :
    (t : TryFill) (chunk : Bytes) (es : List ReadEvent)
    → t.num_read + length chunk ≤ length t.buf
    → Leaves chunk t.reader es
    → length chunk + weight es ≤ weight t.reader
    → Moves t (fill t chunk es)
unfolding fill
fill-Moves t chunk es h l w = record {
  filling = record { within = rw (length-fill t chunk es h) h; stream = l.stream };
  bytes =
      ap (◌++◌ (filled t)) l.contents_eq
      ∙ sym (append_assoc (filled t) chunk (contents es))
      ∙ ap (λ bs. bs ++ contents es) (sym (filled-fill t chunk es (omega (arith, h))));
  failure_eq = l.failure_eq;
  room = length-fill t chunk es h;
  smaller = omega (arith, w);
}

-- A poll of the reader that brings no bytes.
pub reader-Moves :
    (t : TryFill) (es : List ReadEvent)
    → t.num_read ≤ length t.buf
    → Leaves [] t.reader es
    → weight es ≤ weight t.reader
    → Moves t (record t { reader = es })
reader-Moves t es h l w = record {
  filling = record { within = h; stream = l.stream };
  bytes = ap (◌++◌ (filled t)) l.contents_eq;
  failure_eq = l.failure_eq;
  room = refl;
  smaller = omega (arith, w);
}
