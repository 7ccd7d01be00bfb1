-- ===== src/Protocol.antt =====
-- src/protocol.rs: the messages on the daemon's socket, and what the protocol takes from the
-- crates nix_types and memchr.
pub mod Utf8
pub mod StoreDirs
pub mod Sender
pub mod Receiver
pub mod RoundTrip
pub mod Samples
mod Tests
use cache_action.Base.{ℕ, ◌≡◌, true, Option, none, Result, ok, arith}
use cache_action.Io.{Bytes, IoError}
use cache_action.Io.Position.{position}
use Utf8.{is_utf8}

-- `PATH_SEPARATOR`, the byte `\n`.
abbrev pub path_separator : ℕ
path_separator = 10

-- `STOP_SENTINEL`, the byte `\0`.
abbrev pub stop_sentinel : ℕ
stop_sentinel = 0

-- What the code relies on of `nix_types::StorePath<StoreDir>` (its `Display`, `FromStr` and
-- `hash`) and of `memchr::memchr`.
pub record Crates : Type 1 where
  pub StorePath : Type 0
  pub ParseError : Type 0
  pub display : StorePath → Bytes
  pub parse : Bytes → Result StorePath ParseError
  pub hash : StorePath → ℕ
  pub memchr : ℕ → Bytes → Option ℕ
  pub parse-display : (p : StorePath) → parse (display p) ≡ ok p
  pub display_utf8 : (p : StorePath) → is_utf8 (display p) ≡ true
  pub memchr_first : (b : ℕ) (bs : Bytes) → memchr b bs ≡ position b bs

pub data Message (StorePath : Type 0) : Type 0 where
  push_store_path : StorePath → Message StorePath
  stop_daemon : Message StorePath

pub data ReceiveError (ParseError : Type 0) : Type 0 where
  io : IoError → ReceiveError ParseError
  invalid_store_path : ParseError → ReceiveError ParseError
