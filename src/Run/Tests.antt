-- ===== src/Run/Tests.antt =====
-- src/run.rs at concrete inputs.
use cache_action.Base.{
  if◌then◌else◌, ◌==◌, ℕ, ◌≡◌, refl, false, List, [], ◌∷◌, none, some, flatten, map, arith, Result,
  ok, err,
}
use cache_action.Io.{Bytes, IoError, os, Writer, accepts, breaks_down}
use cache_action.Run.{StartError, open_nix_store, start, parse_upstream_caches}
use cache_action.Run.Ready.{write_all_on, display_error, signal_failure, run}
use cache_action.Run.Ready.Tells.{Told, Runs, run-Told}
use cache_action.Run.Streams.{
  AcceptEvent, accepted, quiet, accept_failed, error_line, accept_all, streams_of, failures_of,
  accept_all-streams_of,
}
use cache_action.Run.Caches.{Parses, parse_upstream_caches-listed}

abbrev parse_text : Bytes → Result Bytes (Unit {0})
parse_text text = ok text

-- "a,,b"
caches_run :
    parse_upstream_caches parse_text (97 ∷ 44 ∷ 44 ∷ 98 ∷ []) ≡ ok ((97 ∷ []) ∷ (98 ∷ []) ∷ [])
unfolding parse_upstream_caches
caches_run = refl

-- No caches are given as an empty text.
no_caches_run : parse_upstream_caches parse_text [] ≡ ok []
unfolding parse_upstream_caches
no_caches_run = refl

-- The second text is no URL.
abbrev parse_letter : Bytes → Result Bytes ℕ
parse_letter [] = err 0
parse_letter (b ∷ text) = if b == 98 then err 5 else ok (b ∷ text)

parse_upstream_caches-listed_example :
    Parses parse_letter
      ((97 ∷ []) ∷ (98 ∷ []) ∷ [])
      (parse_upstream_caches parse_letter (97 ∷ 44 ∷ 98 ∷ []))
    × Parses parse_letter
        ((97 ∷ []) ∷ (98 ∷ []) ∷ [])
        (parse_upstream_caches parse_letter (97 ∷ 44 ∷ 98 ∷ 44 ∷ []))
parse_upstream_caches-listed_example =
    parse_upstream_caches-listed parse_letter ((97 ∷ []) ∷ (98 ∷ []) ∷ [])
      (((λ e. absurd cc), refl), (((λ e. absurd cc), refl), tt))

abbrev failed_start : Result (ℕ × ℕ × ℕ) (StartError ℕ ℕ ℕ)
failed_start = err (open_nix_store 2)

start_run : start (ok 1) (err 2) (ok 3) ≡ failed_start
unfolding start
start_run = refl

abbrev texts : StartError ℕ ℕ ℕ → Bytes
texts = display_error (λ n. n ∷ []) (λ n. n ∷ []) (λ n. n ∷ [])

abbrev io_text : IoError → Bytes
io_text e = b'e' ∷ []

-- It takes a byte, then one more, and then the other end is closed.
abbrev ready_file : Writer
ready_file = record {
  polls = accepts 1 ∷ accepts 1 ∷ breaks_down (os 32) ∷ [];
  output = [];
  closed = false;
}

-- The process that starts the daemon gets a one and the first byte of the error.
readiness_run : run texts io_text (some (3, ready_file)) failed_start ≡ record {
  parts = none;
  stderr = signal_failure io_text 3 (err (os 32));
  ready_file = some (record { polls = []; output = 1 ∷ b'C' ∷ []; closed = false });
}
unfolding run write_all_on display_error
readiness_run = refl

run-Told_example :
    Runs texts io_text failed_start (run texts io_text (some (3, ready_file)) failed_start).parts
    × Told texts io_text
        (some (3, ready_file))
        failed_start
        (run texts io_text (some (3, ready_file)) failed_start)
run-Told_example = run-Told texts io_text (some (3, ready_file)) failed_start

abbrev accept_events : List (AcceptEvent ℕ)
accept_events =
    accept_failed (os 24) ∷ accepted 5 ∷ quiet ∷ accept_failed (os 103) ∷ accepted 6 ∷ []

accept_all-streams_of_example :
    accept_all io_text 5 accept_events
    ≡ (streams_of accept_events, flatten (map (error_line io_text) (failures_of accept_events)))
accept_all-streams_of_example = accept_all-streams_of io_text accept_events 5 (omega arith)
