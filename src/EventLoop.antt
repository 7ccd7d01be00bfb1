-- ===== src/EventLoop.antt =====
-- `run` of src/event_loop.rs. The futures in flight are the store paths that they work on, in the
-- order in which they were started; which of them `select!` finds finished, with what result, and
-- which message it receives are choices of the environment, given as data.
pub mod Handle
pub mod Select
pub mod Drain
pub mod Connection
pub mod Invariant
pub mod Coverage
pub mod Finish
pub mod Stops
pub mod Errors
pub mod Agree
pub mod Account
pub mod Ends
pub mod Texts
pub mod Samples
mod Tests
use cache_action.Base.{
  ℕ, zero, suc, ◌+◌, ◌%◌, ◌^◌, Bool, true, false, ◌&&◌, List, [], ◌∷◌, ◌++◌, Option, none, some,
  length, if◌then◌else◌, ltb, ◌==◌, ◌||◌, Result, ok, err,
}
use cache_action.Protocol.{Crates, ReceiveError}

-- The types that `Context` and the traits in it leave open, and the crates that the protocol uses.
pub record Context : Type 1 where
  pub crates : Crates
  pub open crates use *
  pub CacheError : Type 0
  pub PathInfosError : Type 0
  pub StoreClosureError : Type 0
  pub WriteNarError : Type 0
  pub ConnectionWriter : Type 0

-- `MAX_CONCURRENT_STORE_PATHS`
abbrev pub max_concurrent_store_paths : ℕ
max_concurrent_store_paths = 32

abbrev pub u32_mod : ℕ
u32_mod = 2 ^ 32

abbrev pub u64_mod : ℕ
u64_mod = 2 ^ 64

module _ (ctx : Context) where
  open ctx use {
    StorePath, hash, ParseError, CacheError, PathInfosError, StoreClosureError, WriteNarError,
    ConnectionWriter,
  }

  pub data HandlePathError : Type 0 where
    check_nar_info_existence : CacheError → HandlePathError
    create_nar_upload_id : CacheError → HandlePathError
    get_path_infos : PathInfosError → HandlePathError
    upload_nar : CacheError → HandlePathError
    upload_nar_info : CacheError → HandlePathError
    write_nar : WriteNarError → HandlePathError
    write_nar_wrote_zero_bytes : HandlePathError

  -- What `handle_store_path` returns: the bytes pushed, or nothing for a path that was skipped.
  abbrev pub Handled : Type 0
  Handled = Result (Option ℕ) HandlePathError

  pub record ActionReport : Type 0 where
    pub num_bytes_pushed : ℕ
    pub num_paths_pushed : ℕ
    pub num_paths_skipped : ℕ
    pub path_closure_errors : List (StorePath × StoreClosureError)
    pub path_handling_errors : List (StorePath × HandlePathError)

  -- `ActionReport::default`
  abbrev pub default_report : ActionReport
  default_report = record {
    num_bytes_pushed = 0;
    num_paths_pushed = 0;
    num_paths_skipped = 0;
    path_closure_errors = [];
    path_handling_errors = [];
  }

  pub data Event : Type 0 where
    push_store_path : StorePath → Event
    stop : ConnectionWriter → Event

  abbrev pub Received : Type 0
  Received = Result Event (ReceiveError ParseError)

  -- The local variables of `run`. `rx_errors` holds what `ctx.handle_rx_error` was given.
  pub record State : Type 0 where
    pub store_closures : List StorePath
    pub handle_store_paths : List StorePath
    pub pending_handle_store_paths : List StorePath
    pub seen_store_hashes : List ℕ
    pub report : ActionReport
    pub stop_progress_writer : Option ConnectionWriter
    pub rx_errors : List (ReceiveError ParseError)

  abbrev pub initial : State
  initial = record {
    store_closures = [];
    handle_store_paths = [];
    pending_handle_store_paths = [];
    seen_store_hashes = [];
    report = default_report;
    stop_progress_writer = none;
    rx_errors = [];
  }

-- Whether `HashSet::insert` would find the hash there.
abbrev pub member : ℕ → List ℕ → Bool
member h [] = false
member h (x ∷ xs) = x == h || member h xs

-- The future at a place finishes and leaves the set; `none` where there is no such future.
unfoldable pub take_at {ℓ} : {A : Type ℓ} → ℕ → List A → Option (A × List A)
take_at i [] = none
take_at zero (x ∷ xs) = some (x, xs)
take_at (suc i) (x ∷ xs) = elim (take_at i xs) [ none ↦ none | some (y, rest) ↦ some (y, x ∷ rest) ]
