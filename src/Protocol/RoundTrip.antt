-- ===== src/Protocol/RoundTrip.antt =====
-- The two ends of the socket together: what a `Sender` of src/protocol.rs writes, a `Receiver` reads
-- back.
use cache_action.Base.{
  ℕ, ◌+◌, ◌≤◌, ◌<◌, ◌≡◌, refl, ap, ◌∙◌, false, List, [], ◌∷◌, ◌++◌, none, some, length,
  append_assoc, ok, arith,
}
use cache_action.Io.{Bytes, ReadEvent, IsStream, contents, failure, weight}
use cache_action.Io.Position.{position}
use cache_action.Protocol.{Crates, Message, push_store_path, stop_daemon, path_separator}
use cache_action.Protocol.Sender.{encode}
use cache_action.Protocol.Sender.Delivery.{encoding}
use cache_action.Protocol.Receiver.{Item, new, capacity, is_stop, parse_line, receive_all}
use cache_action.Protocol.Receiver.Decode.{
  decode, decode_line, decode_stop, decode_end, decode_long,
}
use cache_action.Protocol.Receiver.Refines.{receive_all-decode}

module _ (crates : Crates) where
  open crates use {StorePath, display, parse-display, display_utf8}

  -- A path that the wire format can carry: one line, not longer than the receiver's buffer.
  pub record IsSendable (p : StorePath) : Type 0 where
    pub one_line : position path_separator (display p) ≡ none
    pub fits : length (display p) < capacity
    pub no_sentinel : is_stop (display p) ≡ false

  abbrev pub AllSendable : List (Message StorePath) → Type 0
  AllSendable [] = Unit {0}
  AllSendable (push_store_path p ∷ ms) = IsSendable p × AllSendable ms
  AllSendable (stop_daemon ∷ ms) = AllSendable ms

  -- Messages are read up to the first stop.
  abbrev pub until_stop : List (Message StorePath) → List (Item crates)
  until_stop [] = []
  until_stop (push_store_path p ∷ ms) = ok (push_store_path p) ∷ until_stop ms
  until_stop (stop_daemon ∷ ms) = ok stop_daemon ∷ []

  parse_line-display : (p : StorePath) → parse_line crates (display p) ≡ ok (push_store_path p)
  unfolding parse_line
  parse_line-display p = rw (display_utf8, parse-display)

  decode-encoding :
      (ms : List (Message StorePath))
      → AllSendable ms
      → decode crates [] (encoding crates ms) none ≡ until_stop ms
  decode-encoding [] h = decode_end crates [] none
  decode-encoding (push_store_path p ∷ ms) h =
      let s = h.0 in
      ap (λ bs. decode crates [] bs none)
        (append_assoc (display p) (path_separator ∷ []) (encoding crates ms))
      ∙ decode_line crates (display p) (encoding crates ms) none s.one_line s.fits s.no_sentinel
      ∙ rw (parse_line-display p, decode-encoding ms h.1)
  decode-encoding (stop_daemon ∷ ms) h = decode_stop crates (0 ∷ []) (encoding crates ms) none refl

  -- However the bytes of a sequence of messages are cut into reads, the receiver gives back the
  -- messages, in order, up to and with the first stop, if each path fits into a line.
  pub receive_all-encoding :
      (ms : List (Message StorePath)) (events : List ReadEvent) (fuel : ℕ)
      → AllSendable ms
      → IsStream events
      → contents events ≡ encoding crates ms
      → failure events ≡ none
      → weight events + 1 < fuel
      → receive_all crates fuel (new events) ≡ some (until_stop ms)
  receive_all-encoding ms events fuel h stream sent no_failure k =
      receive_all-decode crates events fuel stream k
      ∙ rw (sent, no_failure) (ap some (decode-encoding ms h))

  -- A path of 1024 bytes or more is lost without an error, and so is all that follows it: the
  -- receiver's stream ends there as if the client had closed its side.
  pub receive_all_long_path :
      (p : StorePath) (more : Bytes) (events : List ReadEvent) (fuel : ℕ)
      → capacity ≤ length (display p)
      → position path_separator (display p) ≡ none
      → is_stop (display p) ≡ false
      → IsStream events
      → contents events ≡ encode crates (push_store_path p) ++ more
      → weight events + 1 < fuel
      → receive_all crates fuel (new events) ≡ some []
  receive_all_long_path p more events fuel long one_line no_sentinel stream sent k =
      receive_all-decode crates events fuel stream k
      ∙ rw sent (
          ap some (
            ap (λ bs. decode crates [] bs (failure events))
              (append_assoc (display p) (path_separator ∷ []) more)
            ∙ decode_long crates [] (display p) path_separator more (failure events) one_line
                (omega arith) (omega (arith, long)) (λ _. no_sentinel)))
