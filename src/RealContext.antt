-- ===== src/RealContext.antt =====
-- src/real_context.rs: the context of the daemon outside of tests, by what it does itself. An error in what
-- a client sends is printed, with the text that src/protocol.rs gives it.
pub mod Prints
mod Tests
use cache_action.Base.{List, [], ◌∷◌, ◌++◌}
use cache_action.Io.{Bytes, IoError}
use cache_action.Protocol.{ReceiveError, io, invalid_store_path}

abbrev pub io_error_text : Bytes
io_error_text = b'I' ∷ b'/' ∷ b'O' ∷ b' ' ∷ b'e' ∷ b'r' ∷ b'r' ∷ b'o' ∷ b'r' ∷ b':' ∷ b' ' ∷ []

abbrev pub invalid_path_text : Bytes
invalid_path_text =
    b'i' ∷ b'n' ∷ b'v' ∷ b'a' ∷ b'l' ∷ b'i' ∷ b'd' ∷ b' ' ∷ b's' ∷ b't' ∷ b'o' ∷ b'r' ∷ b'e' ∷ b' '
    ∷ b'p' ∷ b'a' ∷ b't' ∷ b'h' ∷ b':' ∷ b' ' ∷ []

module _ {ParseError : Type 0} (io_text : IoError → Bytes) (parse_text : ParseError → Bytes) where
  -- `Display` of a `ReceiveError`
  abbrev pub display_error : ReceiveError ParseError → Bytes
  display_error (io e) = io_error_text ++ io_text e
  display_error (invalid_store_path e) = invalid_path_text ++ parse_text e

  -- `eprintln!("{rx_error}")`, by what is on the standard error before and after.
  unfoldable pub handle_rx_error : Bytes → ReceiveError ParseError → Bytes
  handle_rx_error stderr e = stderr ++ (display_error e ++ b'\n' ∷ [])

  -- The calls of a run, one after the other.
  abbrev pub handle_rx_errors : Bytes → List (ReceiveError ParseError) → Bytes
  handle_rx_errors stderr [] = stderr
  handle_rx_errors stderr (e ∷ es) = handle_rx_errors (handle_rx_error stderr e) es
