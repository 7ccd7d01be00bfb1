-- ===== src/Protocol/Tests.antt =====
-- The protocol of src/protocol.rs at concrete inputs: runs of it, and its properties.
use cache_action.Base.{
  ℕ, ◌≡◌, refl, false, List, [], ◌∷◌, ◌++◌, append-nil, none, some, ok, err, arith,
}
use cache_action.Io.{Bytes, ReadEvent, arrived, blocked, Writer, accepts, stalls, invalid_data}
use cache_action.Protocol.Samples.{sample}
use cache_action.Protocol.{Message, push_store_path, stop_daemon, io, invalid_store_path}
use cache_action.Protocol.Receiver.{loop, new as new_receiver, receive_all}
use cache_action.Protocol.Receiver.Decode.{decode}
use cache_action.Protocol.Receiver.Refines.{receive_all-decode}
use cache_action.Protocol.RoundTrip.{
  IsSendable, receive_all-encoding, receive_all_long_path, until_stop,
}
use cache_action.Protocol.Sender.{encode, Sender, new as new_sender, feed_all, close}
use cache_action.Protocol.Sender.Delivery.{close-feed_all, encoding, Closes, close-Closes}
use cache_action.Protocol.StoreDirs.{
  nix_store, from_str, display_dir, interior_nul, Parsed, from_str-Parsed, from_str-display_dir,
}

-- "/a\n/" and then "aa\n\0", with a poll that finds nothing in between.
abbrev events : List ReadEvent
events = arrived (47 ∷ 97 ∷ 10 ∷ 47 ∷ []) ∷ blocked ∷ arrived (97 ∷ 97 ∷ 10 ∷ 0 ∷ []) ∷ []

abbrev messages : List (Message ℕ)
messages = push_store_path 1 ∷ push_store_path 2 ∷ stop_daemon ∷ []

receive_all-decode_example :
    receive_all sample 20 (new_receiver events)
    ≡ some (decode sample [] (47 ∷ 97 ∷ 10 ∷ 47 ∷ 97 ∷ 97 ∷ 10 ∷ 0 ∷ []) none)
receive_all-decode_example = receive_all-decode sample events 20 tt (omega arith)

one-IsSendable : IsSendable sample 1
one-IsSendable = record { one_line = refl; fits = omega arith; no_sentinel = refl }

two-IsSendable : IsSendable sample 2
two-IsSendable = record { one_line = refl; fits = omega arith; no_sentinel = refl }

receive_all-encoding_example :
    receive_all sample 20 (new_receiver events) ≡ some (until_stop sample messages)
receive_all-encoding_example =
    receive_all-encoding sample messages events 20 (one-IsSendable, (two-IsSendable, tt)) tt refl
      refl (omega arith)

-- A path of 1025 bytes, which arrives at once.
abbrev long_events : List ReadEvent
long_events =
    arrived (encode sample (push_store_path 1024) ++ encode sample (push_store_path 1)) ∷ []

receive_all_long_path_example : receive_all sample 2000 (new_receiver long_events) ≡ some []
receive_all_long_path_example =
    receive_all_long_path sample 1024 (encode sample (push_store_path 1)) long_events 2000
      (omega arith) refl refl tt (append-nil _) (omega arith)

abbrev slow_writer : Writer
slow_writer = record { polls = accepts 2 ∷ stalls ∷ accepts 1 ∷ []; output = []; closed = false }

close-feed_all_example :
    (t : Sender) × (close 4 (feed_all sample (new_sender slow_writer) messages) ≡ some (ok tt, t))
    × (t.writer.output ≡ encoding sample messages)
close-feed_all_example = close-feed_all sample slow_writer messages 4 tt (omega arith)

close-Closes_example :
    Closes
      (feed_all sample (new_sender slow_writer) messages)
      (close 4 (feed_all sample (new_sender slow_writer) messages))
unfolding feed_all new_sender
close-Closes_example =
    close-Closes 4 (feed_all sample (new_sender slow_writer) messages) (omega arith) (omega arith)

abbrev literal : Bytes
literal = 47 ∷ 110 ∷ []

-- The first NUL of "/\0\0".
from_str-Parsed_example : Parsed sample literal (47 ∷ 0 ∷ 0 ∷ []) (err (interior_nul 1))
unfolding from_str
from_str-Parsed_example = from_str-Parsed sample literal (47 ∷ 0 ∷ 0 ∷ [])

from_str-display_dir_example :
    from_str sample literal (display_dir sample literal nix_store) ≡ ok nix_store
from_str-display_dir_example = from_str-display_dir sample literal nix_store tt

-- Runs of the code.
receive_run :
    receive_all sample 20 (new_receiver events)
    ≡ some (ok (push_store_path 1) ∷ ok (push_store_path 2) ∷ ok stop_daemon ∷ [])
unfolding receive_all loop new_receiver
receive_run = refl

receive_invalid :
    receive_all sample 20 (new_receiver (arrived (120 ∷ 10 ∷ []) ∷ []))
    ≡ some (err (invalid_store_path tt) ∷ [])
unfolding receive_all loop new_receiver
receive_invalid = refl

receive_not_utf8 :
    receive_all sample 20 (new_receiver (arrived (255 ∷ 10 ∷ []) ∷ []))
    ≡ some (err (io invalid_data) ∷ [])
unfolding receive_all loop new_receiver
receive_not_utf8 = refl
