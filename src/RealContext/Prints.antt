-- ===== src/RealContext/Prints.antt =====
-- What the daemon prints about what its clients send.
use cache_action.Base.{
  ◌≡◌, refl, sym, ap, ◌∙◌, List, [], ◌∷◌, ◌++◌, some, map, flatten, append-nil, append_assoc,
}
use cache_action.Io.{Bytes, IoError}
use cache_action.Protocol.{ReceiveError, io, invalid_store_path}
use cache_action.EventLoop.{Context, State, initial}
use cache_action.EventLoop.Select.{Choice, run_loop}
use cache_action.EventLoop.Errors.{errors_in, run_loop-errors}
use cache_action.RealContext.{handle_rx_error, handle_rx_errors}

module _ (ctx : Context) (io_text : IoError → Bytes) (parse_text : ctx.ParseError → Bytes) where
  open ctx use {ParseError}

  -- The line for one error: "I/O error: " or "invalid store path: ", and what went wrong.
  abbrev pub error_line : ReceiveError ParseError → Bytes
  error_line (io e) =
      b'I' ∷ b'/' ∷ b'O' ∷ b' ' ∷ b'e' ∷ b'r' ∷ b'r' ∷ b'o' ∷ b'r' ∷ b':' ∷ b' ' ∷ io_text e
      ++ b'\n' ∷ []
  error_line (invalid_store_path e) =
      b'i'
        ∷ b'n'
        ∷ b'v'
        ∷ b'a'
        ∷ b'l'
        ∷ b'i'
        ∷ b'd'
        ∷ b' '
        ∷ b's'
        ∷ b't'
        ∷ b'o'
        ∷ b'r'
        ∷ b'e'
        ∷ b' '
        ∷ b'p'
        ∷ b'a'
        ∷ b't'
        ∷ b'h'
        ∷ b':'
        ∷ b' '
        ∷ parse_text e
      ++ b'\n' ∷ []

  handle_rx_error-line :
      (e : ReceiveError ParseError) (stderr : Bytes)
      → handle_rx_error io_text parse_text stderr e ≡ stderr ++ error_line e
  unfolding handle_rx_error
  handle_rx_error-line (io e) stderr = refl
  handle_rx_error-line (invalid_store_path e) stderr = refl

  handle_rx_errors-lines :
      (es : List (ReceiveError ParseError)) (stderr : Bytes)
      → handle_rx_errors io_text parse_text stderr es ≡ stderr ++ flatten (map error_line es)
  handle_rx_errors-lines [] stderr = sym (append-nil stderr)
  handle_rx_errors-lines (e ∷ es) stderr =
      ap (λ s. handle_rx_errors io_text parse_text s es) (handle_rx_error-line e stderr)
      ∙ handle_rx_errors-lines es (stderr ++ error_line e)
      ∙ append_assoc stderr (error_line e) (flatten (map error_line es))

  -- When the main loop ends, its calls of `handle_rx_error` have added to the standard error one line for
  -- each error in what its clients sent and it received, in order, which names the kind of the error and
  -- has its text.
  pub run_loop-prints :
      (cs : List (Choice ctx)) (t : State ctx) (stderr : Bytes)
      → run_loop ctx (initial ctx) cs ≡ some t
      → handle_rx_errors io_text parse_text stderr t.rx_errors
        ≡ stderr ++ flatten (map error_line (errors_in ctx cs))
  run_loop-prints cs t stderr e =
      handle_rx_errors-lines t.rx_errors stderr
      ∙ ap (λ es. stderr ++ flatten (map error_line es)) (run_loop-errors ctx cs (initial ctx) t e)
