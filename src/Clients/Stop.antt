-- ===== src/Clients/Stop.antt =====
-- src/stop.rs: the client that stops the daemon, and prints what it answers.
use cache_action.Base.{
  ℕ, ◌≡◌, refl, ◌∙◌, ◌⊎◌, List, [], ◌∷◌, ◌++◌, Option, none, some, length, drop, Result, ok, err,
  arith, inl, inr, ◌<◌,
}
use cache_action.Io.{Bytes, IoError, ReadEvent, Writer, IsWilling}
use cache_action.Protocol.{Crates, stop_daemon, stop_sentinel}
use cache_action.Protocol.Sender.{Sender, new, start_send, send, flush}
use cache_action.Protocol.Sender.Drain.{stream}
use cache_action.Protocol.Sender.Delivery.{Closes, flush-Closes}
use cache_action.Process.{Exit, exit_with}
use cache_action.Clients.Texts.{connect_text, write_text, copy_text}

pub data StopError : Type 0 where
  connect_to_socket : IoError → StopError
  write_message : IoError → StopError

-- `Display`
pub display_error : (IoError → Bytes) → StopError → Bytes
display_error io_text (connect_to_socket e) = connect_text ++ io_text e
display_error io_text (write_message e) = write_text ++ io_text e

pub record StopArgs : Type 0 where
  pub socket : Bytes

-- The two halves of a connected socket.
abbrev pub Socket : Type 0
Socket = List ReadEvent × Writer

-- `tokio::io::copy` to the standard output: the result, and what was printed.
abbrev pub Copy : Type 0
Copy = List ReadEvent → Result ℕ IoError × Bytes

module _ (crates : Crates) (io_text : IoError → Bytes) (copy : Copy) where
  -- The end of `stop`, where an error of the copy is printed and does not matter.
  unfoldable pub after_copy : Result ℕ IoError × Bytes → Exit
  after_copy (ok n, printed) = record { code = 0; stdout = printed; stderr = [] }
  after_copy (err e, printed) = record {
    code = 0;
    stdout = printed;
    stderr = copy_text ++ io_text e ++ b'\n' ∷ [];
  }

  abbrev after_send :
      List ReadEvent → Option (Result (Unit {0}) IoError × Sender) → Option (Exit × Bytes)
  after_send read_half none = none
  after_send read_half (some (err e, s)) =
      some (exit_with (display_error io_text (write_message e)), s.writer.output)
  after_send read_half (some (ok u, s)) = some (after_copy (copy read_half), s.writer.output)

  -- The whole of `stop`, with what the daemon's end of the socket has got.
  pub stop : (Bytes → Result Socket IoError) → ℕ → StopArgs → Option (Exit × Bytes)
  unfolding after_copy display_error
  stop connect fuel args = elim (connect args.socket) [
    | err e ↦ some (exit_with (display_error io_text (connect_to_socket e)), [])
    | ok (read_half, write_half) ↦
        after_send read_half (send crates fuel (new write_half) stop_daemon)
  ]

  -- The process has ended with 1 and a line on the standard error.
  abbrev pub Fails : Bytes → Exit → Type 0
  Fails text exit = (exit.code ≡ 1) × (exit.stdout ≡ []) × (exit.stderr ≡ text ++ b'\n' ∷ [])

  -- It has ended with 0 and printed what was copied; a failure of the copy is told on the standard error.
  abbrev pub Copies : Result ℕ IoError × Bytes → Exit → Type 0
  Copies (ok n, printed) exit = (exit.code ≡ 0) × (exit.stdout ≡ printed) × (exit.stderr ≡ [])
  Copies (err e, printed) exit =
      (exit.code ≡ 0)
      × (exit.stdout ≡ printed)
      × (exit.stderr ≡ copy_text ++ io_text e ++ b'\n' ∷ [])

  after_copy-Copies : (r : Result ℕ IoError × Bytes) → Copies r (after_copy r)
  unfolding after_copy
  after_copy-Copies (ok n, printed) = (refl, refl, refl)
  after_copy-Copies (err e, printed) = (refl, refl, refl)

  -- What a stop comes to: the sentinel is sent, and the answer printed as far as it can be copied; no
  -- connection; or a write that failed, on a socket that does not take all.
  abbrev pub Stops : Result Socket IoError → Option (Exit × Bytes) → Type 0
  Stops connected none = ⊥
  Stops (err e) (some (exit, sent)) = Fails (connect_text ++ io_text e) exit × (sent ≡ [])
  Stops (ok (read_half, w)) (some (exit, sent)) =
      (Copies (copy read_half) exit × (sent ≡ w.output ++ stop_sentinel ∷ []))
      ⊎ ((e : IoError) × (¬ IsWilling w.polls)
          × Fails (write_text ++ io_text e) exit
          × ((rest : Bytes) × (sent ++ rest ≡ w.output ++ stop_sentinel ∷ [])))

  after_send-Stops :
      (read_half : List ReadEvent) (w : Writer) (s : Sender)
      (r : Option (Result (Unit {0}) IoError × Sender))
      → stream s ≡ w.output ++ stop_sentinel ∷ []
      → s.writer ≡ w
      → Closes s r
      → Stops (ok (read_half, w)) (after_send read_half r)
  unfolding display_error
  after_send-Stops read_half w s none e f c = c
  after_send-Stops read_half w s (some (ok u, t)) e f c =
      inl (after_copy-Copies (copy read_half), c ∙ e)
  after_send-Stops read_half w s (some (err x, t)) e f c =
      inr (x, (λ h. c.1 (rw f h)), (refl, refl, refl), (drop t.num_written t.buf, c.0 ∙ e))

  connected-Stops :
      (connected : Result Socket IoError) (connect : Bytes → Result Socket IoError) (fuel : ℕ)
      (args : StopArgs)
      → connect args.socket ≡ connected
      → ((s : Socket) → connected ≡ ok s → length (s.1.polls) < fuel)
      → Stops connected (stop connect fuel args)
  unfolding stop new start_send display_error
  connected-Stops (err x) connect fuel args e k = rw (stop, e) ((refl, refl, refl), refl)
  connected-Stops (ok (read_half, w)) connect fuel args e k =
      let s : Sender = record { buf = stop_sentinel ∷ []; num_written = 0; writer = w } in
      rw (stop, e)
        (after_send-Stops read_half w s (flush fuel s) refl refl
          (flush-Closes fuel s (omega arith) (k (read_half, w) refl)))

  -- A stop ends, if its copy does. It exits with 0 only if the sentinel has reached the daemon's end of
  -- the socket, and then has printed what the copy gives, with a line on the standard error if that
  -- fails; with 1 and a line that says why if it cannot connect or the socket fails.
  pub stop-Stops :
      (connect : Bytes → Result Socket IoError) (fuel : ℕ) (args : StopArgs)
      → ((s : Socket) → connect args.socket ≡ ok s → length (s.1.polls) < fuel)
      → Stops (connect args.socket) (stop connect fuel args)
  stop-Stops connect fuel args k = connected-Stops (connect args.socket) connect fuel args refl k
