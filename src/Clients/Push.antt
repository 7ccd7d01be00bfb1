-- ===== src/Clients/Push.antt =====
-- src/push.rs: the client that pushes store paths.
use cache_action.Base.{
  ℕ, ◌<◌, ◌≡◌, refl, ap, ◌∙◌, ◌⊎◌, List, [], ◌++◌, Option, none, some, length, drop, map, Result,
  ok, err, map_err, arith, inl, inr,
}
use cache_action.Io.{Bytes, IoError, Writer, IsWilling}
use cache_action.Protocol.{Crates, Message, push_store_path}
use cache_action.Protocol.Sender.{Sender, new, feed_all, close}
use cache_action.Protocol.Sender.Drain.{stream}
use cache_action.Protocol.Sender.Delivery.{
  encoding, Closes, close-Closes, feed_all-buf, feed_all-rest,
}
use cache_action.Clients.Texts.{connect_text, write_text}
use cache_action.Process.{Exit, success, exit_with}

pub data PushError : Type 0 where
  connect_to_socket : IoError → PushError
  write_message : IoError → PushError

-- `Display`
pub display_error : (IoError → Bytes) → PushError → Bytes
display_error io_text (connect_to_socket e) = connect_text ++ io_text e
display_error io_text (write_message e) = write_text ++ io_text e

module _ (crates : Crates) where
  open crates use {StorePath}

  pub record PushArgs : Type 0 where
    pub socket : Bytes
    pub store_paths : List StorePath

  abbrev pub messages : List StorePath → List (Message StorePath)
  messages = map λ p. push_store_path p

  abbrev pub closed :
      Option (Result (Unit {0}) IoError × Sender) → Option (Result (Unit {0}) PushError × Bytes)
  closed none = none
  closed (some (r, s)) = some (map_err write_message r, s.writer.output)

  -- `push_result`, with the bytes that the daemon's end of the socket has got. The fuel is for the
  -- polls of the close.
  unfoldable push_result :
      (Bytes → Result Writer IoError) → ℕ → PushArgs → Option (Result (Unit {0}) PushError × Bytes)
  push_result connect fuel args = elim (connect args.socket) [
    | err e ↦ some (err (connect_to_socket e), [])
    | ok w ↦ closed (close fuel (feed_all crates (new w) (messages args.store_paths)))
  ]

  abbrev ended :
      (IoError → Bytes) → Option (Result (Unit {0}) PushError × Bytes) → Option (Exit × Bytes)
  ended io_text none = none
  ended io_text (some (ok u, sent)) = some (success, sent)
  ended io_text (some (err e, sent)) = some (exit_with (display_error io_text e), sent)

  module _ (io_text : IoError → Bytes) where
    pub push : (Bytes → Result Writer IoError) → ℕ → PushArgs → Option (Exit × Bytes)
    unfolding push_result display_error
    push connect fuel args = ended io_text (push_result connect fuel args)

    -- What a push comes to: success, with all messages sent; no connection; or a write that failed,
    -- on a socket that does not take all, after part of the messages.
    abbrev pub Pushes : Result Writer IoError → PushArgs → Option (Exit × Bytes) → Type 0
    Pushes connected args none = ⊥
    Pushes (err e) args (some (exit, sent)) =
        (exit ≡ exit_with (display_error io_text (connect_to_socket e))) × (sent ≡ [])
    Pushes (ok w) args (some (exit, sent)) =
        ((exit ≡ success) × (sent ≡ w.output ++ encoding crates (messages args.store_paths)))
        ⊎ ((e : IoError) × (rest : Bytes) × (¬ IsWilling w.polls)
            × (exit ≡ exit_with (display_error io_text (write_message e)))
            × (sent ++ rest ≡ w.output ++ encoding crates (messages args.store_paths)))

    closed-Pushes :
        (args : PushArgs) (w : Writer) (s : Sender)
        (r : Option (Result (Unit {0}) IoError × Sender))
        → stream s ≡ w.output ++ encoding crates (messages args.store_paths)
        → s.writer ≡ w
        → Closes s r
        → Pushes (ok w) args (ended io_text (closed r))
    closed-Pushes args w s none e f c = c
    closed-Pushes args w s (some (ok u, t)) e f c = inl (refl, c ∙ e)
    closed-Pushes args w s (some (err x, t)) e f c =
        inr (x, drop t.num_written t.buf, (λ h. c.1 (rw f h)), refl, c.0 ∙ e)

    connected-Pushes :
        (connected : Result Writer IoError) (connect : Bytes → Result Writer IoError) (fuel : ℕ)
        (args : PushArgs)
        → connect args.socket ≡ connected
        → ((w : Writer) → connected ≡ ok w → length w.polls < fuel)
        → Pushes connected args (push connect fuel args)
    unfolding push push_result new
    connected-Pushes (err x) connect fuel args e k = rw (push, push_result, e) (refl, refl)
    connected-Pushes (ok w) connect fuel args e k =
        let start : Sender = record { buf = []; num_written = 0; writer = w } in
        let ms = messages args.store_paths in
        let s = feed_all crates start ms in
        let (n, same) = feed_all-rest crates start ms in
        rw (push, push_result, e)
          (closed-Pushes args w s (close fuel s)
            (rw (same, n) (ap (◌++◌ w.output) (feed_all-buf crates start ms))) same
            (close-Closes fuel s (rw n (omega arith)) (rw same (k w refl))))

    -- A push ends. It exits with 0 only if the daemon's end of the socket has got all its paths, in
    -- order; with 1 and the reason if it cannot connect or the socket fails, when a part of the
    -- messages, from the first on, has been sent.
    pub push-Pushes :
        (connect : Bytes → Result Writer IoError) (fuel : ℕ) (args : PushArgs)
        → ((w : Writer) → connect args.socket ≡ ok w → length w.polls < fuel)
        → Pushes (connect args.socket) args (push connect fuel args)
    push-Pushes connect fuel args k =
        connected-Pushes (connect args.socket) connect fuel args refl k
