-- ===== src/Protocol/Receiver/Iteration.antt =====
-- What one iteration of the loop of `poll_next` in src/protocol.rs does to the bytes that are still
-- to be handled.
use cache_action.Base.{
  ℕ, zero, suc, ◌+◌, ◌-◌, ◌≤◌, ◌<◌, ◌≡◌, refl, sym, ap, ◌∙◌, true, false, List, [], ◌∷◌, ◌++◌,
  Option, none, some, length, take, drop, length-append, length-take, length-drop, append_assoc,
  take-append-drop, arith, Bool-cases, Option-cases, inl, inr, ◌⊎◌, leb,
}
use native.Mathlib.Numerals.{add-one}
use cache_action.Base.Slices.{slice_advance}
use cache_action.Io.{
  Bytes, IoError, ready, pending, ReadEvent, arrived, blocked, failed, poll_read, IsStream,
  contents, failure, weight,
}
use cache_action.Io.Position.{position, position-split}
use cache_action.Protocol.{Crates, path_separator}
use cache_action.Protocol.Receiver.{
  Receiver, Flow, continues, breaks, returns, Item, parse_line, ends, is_stop, capacity, unhandled,
  compact, fill, on_read, read_more, iterate,
}
use cache_action.Protocol.Receiver.Buffer.{
  compact_end, compact_is_done, fill_is_done, IsValid, length-unhandled, unhandled-compact,
  compact-IsValid, unhandled-fill, fill-IsValid, fill_reader,
}
use cache_action.Protocol.Receiver.Decode.{
  decode, unless_ended, decode_stop, decode-append, decode_line, decode_full, decode_end,
}

-- The bytes that the receiver has not handled, in the buffer and behind it.
abbrev pub unread : Receiver → Bytes
unread r = unhandled r ++ contents r.reader

abbrev pub measure : Receiver → ℕ
measure r = length (unhandled r) + weight r.reader

pub record IsReady (r : Receiver) : Type 0 where
  pub valid : IsValid r
  pub stream : IsStream r.reader

-- The same bytes are unread, and the same failure follows them.
pub record Same (r s : Receiver) : Type 0 where
  pub is_ready : IsReady s
  pub unread_eq : unread s ≡ unread r
  pub failure_eq : failure s.reader ≡ failure r.reader
  pub is_done_eq : s.is_done ≡ r.is_done

IsStream-arrived :
    (c : Bytes) (es : List ReadEvent) → 0 < length c → IsStream es → IsStream (arrived c ∷ es)
IsStream-arrived [] es h s = absurd (omega arith)
IsStream-arrived (b ∷ c) es h s = s

module _ (crates : Crates) where
  abbrev pub meaning : Receiver → List (Item crates)
  meaning r = decode crates [] (unread r) (failure r.reader)

  abbrev pub After : Receiver → Flow (Item crates) × Receiver → Type 0
  After r (continues, s) =
      Same r s × (length (unhandled r) < length (unhandled s)) × (measure s ≤ measure r)
  After r (breaks item, s) =
      IsReady s
      × (meaning r ≡ unless_ended crates item (meaning s))
      × ((ends crates item ≡ true) ⊎ (measure s < measure r))
  After r (returns pending, s) = Same r s × (measure s < measure r)
  After r (returns (ready none), s) = meaning r ≡ []
  After r (returns (ready (some item)), s) = ⊥

module _ (crates : Crates) (r : Receiver) (v : IsValid r)
    (no_separator : position path_separator (unhandled r) ≡ none)
    (no_stop : is_stop (unhandled r) ≡ false) where
  meaning-eq :
      (more : Bytes) (f : Option IoError)
      → decode crates [] (unhandled r ++ more) f ≡ decode crates (unhandled r) more f
  meaning-eq more f =
      decode-append crates [] (unhandled r) more f no_separator
        (omega (arith, length-unhandled r v, v.within)) (λ _. no_stop)

  -- Bytes are read into the buffer.
  fill-After :
      (b : ℕ) (chunk : Bytes) (es : List ReadEvent)
      → length (b ∷ chunk) ≤ capacity - (compact r).end
      → IsStream es
      → (b ∷ chunk) ++ contents es ≡ contents r.reader
      → failure es ≡ failure r.reader
      → length (b ∷ chunk) + weight es ≤ weight r.reader
      → After crates r (continues, fill (compact r) (b ∷ chunk) es)
  fill-After b chunk es fits stream same fails w =
      let u = unhandled-fill r (b ∷ chunk) es in
      let n = ap length u ∙ length-append (unhandled r) (b ∷ chunk) in
      let reads = fill_reader r (b ∷ chunk) es in
      (
        record {
          is_ready = record {
            valid = fill-IsValid r (b ∷ chunk) es v fits;
            stream = rw reads stream;
          };
          unread_eq =
              rw (u, reads)
                (append_assoc (unhandled r) (b ∷ chunk) (contents es)
                  ∙ ap (◌++◌ (unhandled r)) same);
          failure_eq = rw reads fails;
          is_done_eq = fill_is_done r (b ∷ chunk) es;
        },
        omega (arith, n),
        omega (arith, n, w, ap weight reads),
      )

  -- What is read is what fits, and a full buffer reads nothing.
  arrived-After :
      (room : ℕ) (b : ℕ) (chunk : Bytes) (es : List ReadEvent)
      → room ≡ capacity - (compact r).end
      → r.reader ≡ arrived (b ∷ chunk) ∷ es
      → IsStream es
      → After crates r (on_read crates (compact r) (poll_read room (arrived (b ∷ chunk) ∷ es)))
  unfolding on_read poll_read
  arrived-After zero b chunk es room e stream =
      let none_fit : leb (suc (length chunk)) 0 ≡ false = ground arith in
      rw none_fit (
        meaning-eq (contents r.reader) (failure r.reader)
        ∙ rw e (
            decode_full crates (unhandled r) b (chunk ++ contents es) (failure es)
              (omega (arith, room, compact_end r, length-unhandled r v, v.within))))
  arrived-After (suc k) b chunk es room e stream =
      elim (Bool-cases (leb (suc (length chunk)) (suc k))) [
        | inl fits ↦
            rw fits (fill-After b chunk es (ground arith) stream (rw e) (rw e) (rw e (omega arith)))
        | inr cut ↦
            let longer : k < length chunk = ground arith in
            let parts = take-append-drop k chunk in
            let left = length-drop k chunk in
            rw cut (
              fill-After b (take k chunk) (arrived (drop k chunk) ∷ es)
                (omega (arith, length-take k chunk))
                (IsStream-arrived (drop k chunk) es (omega (arith, left)) stream)
                (rw e (
                  ap (◌∷◌ b) (
                    sym (append_assoc (take k chunk) (drop k chunk) (contents es))
                    ∙ ap (λ c. c ++ contents es) parts)))
                (rw e) (rw e (omega (arith, left, length-take k chunk))))
      ]

  reader-compact-IsValid : (es : List ReadEvent) → IsValid (record (compact r) { reader = es })
  reader-compact-IsValid es =
      let c = compact-IsValid r v in
      record { sized = c.sized; ordered = c.ordered; within = c.within }

  -- With no line in the buffer the reader is polled, whatever it finds.
  on_read-After :
      (es : List ReadEvent)
      → r.reader ≡ es
      → IsStream es
      → After crates r (on_read crates (compact r) (poll_read (capacity - (compact r).end) es))
  unfolding on_read poll_read
  on_read-After [] e stream =
      meaning-eq (contents r.reader) (failure r.reader)
      ∙ rw e (decode_end crates (unhandled r) none)
  on_read-After (blocked ∷ es) e stream =
      let u = unhandled-compact r in
      (
        record {
          is_ready = record { valid = reader-compact-IsValid es; stream = stream };
          unread_eq = rw (u, e);
          failure_eq = rw e;
          is_done_eq = compact_is_done r;
        },
        omega (arith, ap length u, ap weight e),
      )
  on_read-After (failed f ∷ es) e stream = (
    record { valid = reader-compact-IsValid es; stream = stream },
    meaning-eq (contents r.reader) (failure r.reader)
        ∙ rw e (decode_end crates (unhandled r) (some f)),
    inl refl,
  )
  on_read-After (arrived [] ∷ es) e stream = absurd stream
  on_read-After (arrived (b ∷ chunk) ∷ es) e stream =
      arrived-After (capacity - (compact r).end) b chunk es refl e stream

is_stop-append :
    (xs : Bytes) (b : ℕ) (ys : Bytes) → is_stop (xs ++ b ∷ ys) ≡ false → is_stop xs ≡ false
is_stop-append [] b ys h = refl
is_stop-append (x ∷ xs) b ys h = h

-- A line in the buffer is taken off its front.
module _ (crates : Crates) (r : Receiver) (h : IsReady r) (i : ℕ)
    (no_stop : is_stop (unhandled r) ≡ false)
    (line : position path_separator (unhandled r) ≡ some i) where
  advanced : Receiver
  advanced = record r { start = r.start + (i + 1) }

  unhandled-advanced : unhandled advanced ≡ drop (suc i) (unhandled r)
  unfolding advanced
  unhandled-advanced = rw (slice_advance r.start (i + 1) r.end r.buf, add-one)

  line-meaning :
      meaning crates r
      ≡ unless_ended crates (parse_line crates (take i (unhandled r))) (meaning crates advanced)
  unfolding advanced
  line-meaning =
      let split = position-split path_separator (unhandled r) i line in
      let first = take i (unhandled r) in
      let rest = drop (suc i) (unhandled r) in
      let more = contents r.reader in
      ap (λ u. decode crates [] u (failure r.reader))
        (ap (λ u. u ++ more) split.0 ∙ append_assoc first (path_separator ∷ rest) more)
      ∙ decode_line crates first (rest ++ more) (failure r.reader) split.1
          (omega (arith, split.2, split.3, length-unhandled r h.valid, h.valid.within))
          (is_stop-append first path_separator rest (rw (← split.0) no_stop))
      ∙ rw unhandled-advanced

  line-After : After crates r (breaks (parse_line crates (take i (unhandled r))), advanced)
  unfolding advanced
  line-After =
      let v = h.valid in
      let n = length-unhandled r v in
      let split = position-split path_separator (unhandled r) i line in
      (
        record {
          valid = record {
            sized = v.sized;
            ordered = omega (arith, n, split.3);
            within = v.within;
          };
          stream = h.stream;
        },
        line-meaning,
        inr (omega (arith, ap length unhandled-advanced, split.3)),
      )

pub iterate-After : (crates : Crates) (r : Receiver) → IsReady r → After crates r (iterate crates r)
unfolding iterate read_more advanced
iterate-After crates r h = elim (Bool-cases (is_stop (unhandled r))) [
  | inl stop ↦
      rw stop
        (h, decode_stop crates (unhandled r) (contents r.reader) (failure r.reader) stop, inl refl)
  | inr no_stop ↦ rw no_stop (elim (Option-cases (position path_separator (unhandled r))) [
    | inl no_line ↦
        rw (crates.memchr_first, no_line)
          (on_read-After crates r h.valid no_line no_stop r.reader refl h.stream)
    | inr (i, line) ↦ rw (crates.memchr_first, line) (line-After crates r h i no_stop line)
  ])
]
