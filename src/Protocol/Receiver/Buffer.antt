-- ===== src/Protocol/Receiver/Buffer.antt =====
-- The buffer of the `Receiver` of src/protocol.rs: what moving it to the front and reading into it
-- do to its unhandled bytes.
use cache_action.Base.{
  ◌+◌, ◌-◌, ◌≤◌, ◌≡◌, refl, sym, ap, ◌∙◌, List, ◌++◌, length, drop, length-append, length-drop,
  append_assoc, arith,
}
use cache_action.Base.Slices.{length-slice, slice-length-append, take-length-append}
use cache_action.Io.{Bytes, ReadEvent}
use cache_action.Protocol.Receiver.{Receiver, capacity, unhandled, compact, fill}

pub record IsValid (r : Receiver) : Type 0 where
  pub sized : length r.buf ≡ capacity
  pub ordered : r.start ≤ r.end
  pub within : r.end ≤ capacity

pub length-unhandled : (r : Receiver) → IsValid r → length (unhandled r) ≡ r.end - r.start
length-unhandled r v = length-slice r.start r.end r.buf v.ordered (omega (arith, v.sized, v.within))

pub unhandled-compact : (r : Receiver) → unhandled (compact r) ≡ unhandled r
unfolding compact
unhandled-compact r = slice-length-append (unhandled r) _

pub compact_end : (r : Receiver) → (compact r).end ≡ length (unhandled r)
unfolding compact
compact_end r = refl

pub compact_is_done : (r : Receiver) → (compact r).is_done ≡ r.is_done
unfolding compact
compact_is_done r = refl

pub compact-IsValid : (r : Receiver) → IsValid r → IsValid (compact r)
unfolding compact
compact-IsValid r v = record {
  sized = omega (
    arith,
    length-append (unhandled r) (drop (length (unhandled r)) r.buf),
    length-drop (length (unhandled r)) r.buf,
    length-unhandled r v,
    v.sized,
    v.within,
  );
  ordered = omega arith;
  within = omega (arith, length-unhandled r v, v.within);
}

-- Reading appends the chunk to the unhandled bytes.
module _ (r : Receiver) (chunk : Bytes) (reader : List ReadEvent) where
  fill_buf :
      (fill (compact r) chunk reader).buf
      ≡ (unhandled r ++ chunk) ++ drop (length (unhandled r) + length chunk) (compact r).buf
  unfolding fill compact
  fill_buf =
      rw (take-length-append (unhandled r) (drop (length (unhandled r)) r.buf))
        (sym (append_assoc (unhandled r) chunk _))

  fill_end : (fill (compact r) chunk reader).end ≡ length (unhandled r ++ chunk)
  unfolding fill compact
  fill_end = sym (length-append (unhandled r) chunk)

  fill_start : (fill (compact r) chunk reader).start ≡ 0
  unfolding fill compact
  fill_start = refl

  pub unhandled-fill : unhandled (fill (compact r) chunk reader) ≡ unhandled r ++ chunk
  unhandled-fill =
      rw (fill_start, fill_end, fill_buf) (slice-length-append (unhandled r ++ chunk) _)

  pub fill-IsValid :
      IsValid r
      → length chunk ≤ capacity - (compact r).end
      → IsValid (fill (compact r) chunk reader)
  unfolding compact
  fill-IsValid v h =
      let sum = length-append (unhandled r) chunk in
      record {
        sized =
            ap length fill_buf
            ∙ omega (
              arith,
              length-append (unhandled r ++ chunk)
                  (drop (length (unhandled r) + length chunk) (compact r).buf),
              length-drop (length (unhandled r) + length chunk) (compact r).buf,
              length-unhandled r v,
              (compact-IsValid r v).sized,
              v.within,
              sum,
            );
        ordered = omega (arith, fill_start);
        within = omega (arith, fill_end, sum, length-unhandled r v, v.within);
      }

  pub fill_reader : (fill (compact r) chunk reader).reader ≡ reader
  unfolding fill
  fill_reader = refl

  pub fill_is_done : (fill (compact r) chunk reader).is_done ≡ r.is_done
  unfolding fill compact
  fill_is_done = refl
