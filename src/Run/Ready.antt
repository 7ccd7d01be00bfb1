-- ===== src/Run/Ready.antt =====
-- `run` of src/run.rs: what the process that starts the daemon is told, through the file descriptor that
-- it gave or on the standard error. Files are written as the standard library's `write_all` does.
pub mod Tells
use cache_action.Base.{
  ℕ, zero, suc, List, [], ◌∷◌, ◌++◌, Option, none, some, take, drop, Result, ok, err,
}
use cache_action.Io.{Bytes, IoError, write_zero, WriteEvent, accepts, stalls, breaks_down, Writer}
use cache_action.Process.{exit_with}
use cache_action.Run.{StartError, bind_socket, connect_to_cache, open_nix_store}
use cache_action.StopProgress.Texts.{decimal}
use cache_action.Run.Texts.{bind_text, open_text, fd_text}

-- A write takes some bytes, is interrupted and tried again, or fails.
unfoldable pub write_all_on : List WriteEvent → Bytes → Writer → Result (Unit {0}) IoError × Writer
write_all_on es [] w = (ok tt, w)
write_all_on [] (b ∷ bytes) w = (ok tt, record w { output = w.output ++ b ∷ bytes })
write_all_on (accepts zero ∷ es) (b ∷ bytes) w = (err write_zero, record w { polls = es })
write_all_on (accepts (suc n) ∷ es) (b ∷ bytes) w =
    write_all_on es (drop n bytes) (record w { polls = es; output = w.output ++ b ∷ take n bytes })
write_all_on (stalls ∷ es) (b ∷ bytes) w = write_all_on es (b ∷ bytes) (record w { polls = es })
write_all_on (breaks_down e ∷ es) (b ∷ bytes) w = (err e, record w { polls = es })

abbrev pub write_all : Bytes → Writer → Result (Unit {0}) IoError × Writer
write_all bytes w = write_all_on w.polls bytes w

-- `ready_file.write_all(..)?` with more to do behind it.
abbrev pub and_then :
    Result (Unit {0}) IoError × Writer
    → (Writer → Result (Unit {0}) IoError × Writer)
    → Result (Unit {0}) IoError × Writer
and_then (ok u, w) f = f w
and_then (err e, w) f = (err e, w)

module _ {BindError StoreError CacheError : Type 0} (bind_error : BindError → Bytes)
    (cache_error : CacheError → Bytes) (store_error : StoreError → Bytes) where
  -- `Display`
  unfoldable pub display_error : StartError BindError StoreError CacheError → Bytes
  display_error (bind_socket e) = bind_text ++ bind_error e
  display_error (connect_to_cache e) = cache_error e
  display_error (open_nix_store e) = open_text ++ store_error e

-- Where `run` is when the start is over: the parts of the event loop that it goes on with, or nothing
-- when it exits with 1; and what it has written.
pub record Started (Parts : Type 0) : Type 0 where
  pub parts : Option Parts
  pub stderr : Bytes
  pub ready_file : Option Writer

-- `eprintln!` of a failure to write to the descriptor.
abbrev pub signal_failure : (IoError → Bytes) → ℕ → Result (Unit {0}) IoError → Bytes
signal_failure io_text ready_fd (ok u) = []
signal_failure io_text ready_fd (err e) =
    fd_text ++ decimal ready_fd ++ b':' ∷ b' ' ∷ io_text e ++ b'\n' ∷ []

module _ {Parts Error : Type 0} (display : Error → Bytes) (io_text : IoError → Bytes) where
  unfoldable pub signal_readiness : Result Parts Error → Writer → Result (Unit {0}) IoError × Writer
  signal_readiness (ok parts) file = write_all (0 ∷ []) file
  signal_readiness (err e) file = and_then (write_all (1 ∷ []) file) (λ f. write_all (display e) f)

  abbrev pub parts_of : Result Parts Error → Option Parts
  parts_of (ok parts) = some parts
  parts_of (err e) = none

  abbrev unsignalled : Result Parts Error → Bytes
  unsignalled (ok parts) = []
  unsignalled (err e) = (exit_with (display e)).stderr

  abbrev signalled : Result Parts Error → ℕ → Result (Unit {0}) IoError × Writer → Started Parts
  signalled start_res ready_fd (result, file) = record {
    parts = parts_of start_res;
    stderr = signal_failure io_text ready_fd result;
    ready_file = some file;
  }

  -- `run`, from the end of the start to the event loop or the exit.
  unfoldable pub run : Option (ℕ × Writer) → Result Parts Error → Started Parts
  unfolding signal_readiness
  run none start_res = record {
    parts = parts_of start_res;
    stderr = unsignalled start_res;
    ready_file = none;
  }
  run (some (ready_fd, file)) start_res =
      signalled start_res ready_fd (signal_readiness start_res file)
