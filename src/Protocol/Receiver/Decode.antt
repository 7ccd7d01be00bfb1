-- ===== src/Protocol/Receiver/Decode.antt =====
-- An independent description of the wire format of src/protocol.rs: what a stream of bytes says,
-- read byte by byte, with no buffer, no ranges and no reads.
use cache_action.Base.{
  ℕ, ◌+◌, ◌≤◌, ◌<◌, ◌≡◌, refl, ◌∙◌, true, false, List, [], ◌∷◌, ◌++◌, Option, none, some, length,
  ◌==◌, append-nil, append_assoc, arith, ok, err, length-append, ==_iff,
}
use cache_action.Io.{Bytes, IoError}
use cache_action.Io.Position.{position}
use cache_action.Protocol.{Crates, stop_daemon, io, path_separator, stop_sentinel}
use cache_action.Protocol.Receiver.{Item, parse_line, ends, capacity, is_stop}

module _ (crates : Crates) where
  -- The stream failed, or just ended.
  abbrev trailer : Option IoError → List (Item crates)
  trailer none = []
  trailer (some e) = err (io e) ∷ []

  abbrev pub unless_ended : Item crates → List (Item crates) → List (Item crates)
  unless_ended item items = elim (ends crates item) [ true ↦ item ∷ [] | false ↦ item ∷ items ]

  pub unless_ended_last :
      (item : Item crates) (items : List (Item crates))
      → ends crates item ≡ true
      → unless_ended item items ≡ item ∷ []
  unless_ended_last item items h = ground arith

  pub unless_ended_more :
      (item : Item crates) (items : List (Item crates))
      → ends crates item ≡ false
      → unless_ended item items ≡ item ∷ items
  unless_ended_more item items h = ground arith

  -- `line` holds the bytes since the last separator. A line that fills the buffer ends the stream.
  pub decode : Bytes → Bytes → Option IoError → List (Item crates)
  decode line [] failure = trailer failure
  decode line (b ∷ bs) failure =
      let after_line = unless_ended (parse_line crates line) (decode [] bs failure) in
      let in_line = decode (line ++ b ∷ []) bs failure in
      elim (length line == capacity) [
        | true ↦ []
        | false ↦ elim (length line == 0) [
          | true ↦ elim (b == stop_sentinel) [
            | true ↦ ok stop_daemon ∷ []
            | false ↦ elim (b == path_separator) [ true ↦ after_line | false ↦ in_line ]
          ]
          | false ↦ elim (b == path_separator) [ true ↦ after_line | false ↦ in_line ]
        ]
      ]

  pub decode_stop :
      (bs more : Bytes) (failure : Option IoError)
      → is_stop bs ≡ true
      → decode [] (bs ++ more) failure ≡ ok stop_daemon ∷ []
  unfolding decode
  decode_stop [] more failure h = absurd cc
  decode_stop (b ∷ bs) more failure h = ground arith

  -- Bytes with no separator among them join the line.
  pub decode-append :
      (line bs more : Bytes) (failure : Option IoError)
      → position path_separator bs ≡ none
      → length line + length bs ≤ capacity
      → (length line ≡ 0 → is_stop bs ≡ false)
      → decode line (bs ++ more) failure ≡ decode (line ++ bs) more failure
  unfolding decode
  decode-append line [] more failure h k s = rw append-nil
  decode-append line (b ∷ bs) more failure h k s = ground (
    arith,
    ==_iff b 10,
    length-append line (b ∷ []),
    append_assoc line (b ∷ []) bs,
    decode-append (line ++ b ∷ []) bs more failure,
  )

  -- A separator ends it.
  decode_separator :
      (line bs : Bytes) (failure : Option IoError)
      → length line < capacity
      → decode line (path_separator ∷ bs) failure
        ≡ unless_ended (parse_line crates line) (decode [] bs failure)
  unfolding decode
  decode_separator line bs failure h = ground arith

  -- A line that fits into the buffer is parsed.
  pub decode_line :
      (line more : Bytes) (failure : Option IoError)
      → position path_separator line ≡ none
      → length line < capacity
      → is_stop line ≡ false
      → decode [] (line ++ path_separator ∷ more) failure
        ≡ unless_ended (parse_line crates line) (decode [] more failure)
  decode_line line more failure h k s =
      decode-append [] line (path_separator ∷ more) failure h (omega arith) (λ _. s)
      ∙ decode_separator line more failure k

  -- A line that fills the buffer hides all that follows.
  pub decode_full :
      (line : Bytes) (b : ℕ) (bs : Bytes) (failure : Option IoError)
      → length line ≡ capacity
      → decode line (b ∷ bs) failure ≡ []
  unfolding decode
  decode_full line b bs failure h = ground arith

  pub decode_end :
      (line : Bytes) (failure : Option IoError) → decode line [] failure ≡ trailer failure
  unfolding decode
  decode_end line failure = refl

  -- So does one that would not fit.
  pub decode_long :
      (line bs : Bytes) (b : ℕ) (more : Bytes) (failure : Option IoError)
      → position path_separator bs ≡ none
      → length line ≤ capacity
      → capacity ≤ length line + length bs
      → (length line ≡ 0 → is_stop bs ≡ false)
      → decode line (bs ++ b ∷ more) failure ≡ []
  unfolding decode
  decode_long line [] b more failure h k l s = decode_full line b more failure (omega arith)
  decode_long line (c ∷ cs) b more failure h k l s =
      unfold decode in
      ground (
        arith,
        ==_iff c 10,
        length-append line (c ∷ []),
        decode_long (line ++ c ∷ []) cs b more failure,
      )
