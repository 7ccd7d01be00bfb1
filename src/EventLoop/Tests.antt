-- ===== src/EventLoop/Tests.antt =====
-- `run` and `handle_store_path` of src/event_loop.rs at concrete inputs: runs, and their properties.
use cache_action.Base.{
  map, ℕ, ◌≡◌, refl, true, false, List, [], ◌∷◌, ◌++◌, none, some, Result, ok, err, arith,
  if◌then◌else◌, ◌==◌,
}
use cache_action.Io.{Bytes, arrived, blocked, Writer, accepts, stalls, write_on}
use cache_action.Protocol.Samples.{sample}
use cache_action.Protocol.{push_store_path as message_push, stop_daemon}
use cache_action.EventLoop.{State, initial, ActionReport, push_store_path, stop, take_at}
use cache_action.EventLoop.Samples.{context, externals, keep_all, path_infos}
use cache_action.EventLoop.Select.{
  Closure, Choice, accepted, message, closure, handled, run_loop, breaks,
}
use cache_action.EventLoop.Drain.{
  Report, paths_left_to_handle, path_pushed, path_skipped, final_report, run, Completion,
}
use cache_action.EventLoop.Invariant.{Inv, log_of}
use cache_action.EventLoop.Invariant.Loop.{run_loop-Inv, initial-Inv}
use cache_action.EventLoop.Coverage.{pushed_paths, closure_log}
use cache_action.EventLoop.Coverage.Rounds.{Changes}
use cache_action.EventLoop.Coverage.Loop.{run_loop-Changes}
use cache_action.EventLoop.Finish.{in_order}
use cache_action.EventLoop.Account.{Account, run-Account}
use cache_action.EventLoop.Connection.{
  handle_io, events_of, event_of, upto_stop, handle_io-decode, handle_io-encoding,
}
use cache_action.EventLoop.Stops.{closures_in_order}
use cache_action.EventLoop.Ends.{still_running, first_results, run_stops}
use cache_action.Protocol.Receiver.Decode.{decode}
use cache_action.Io.{ReadEvent}
use cache_action.EventLoop.Handle.{Answers, handle_store_path, should_push_store_path}
use cache_action.EventLoop.Handle.HashAndCount.{write, new, Records, write-Records, new-Records}
use cache_action.EventLoop.Handle.Upstream.{upstream_caches_have_narinfo}
use cache_action.EventLoop.Handle.Outcome.{should_push_store_path_lem}
use cache_action.EventLoop.Handle.Pushes.{Outcome, handle_store_path-Outcome}

-- A client pushes path 3, whose closure is 3 and 5, and another client stops while 5 is in work.
abbrev choices : List (Choice context)
choices =
    accepted
    ∷ message (ok (push_store_path 3))
    ∷ closure 0 (ok (3 ∷ 5 ∷ 3 ∷ []))
    ∷ handled 0 (ok (some 10))
    ∷ message (ok (stop 7))
    ∷ []

abbrev completions : List (Completion context)
completions = (0, ok none) ∷ []

abbrev last_report : ActionReport context
last_report = record {
  num_bytes_pushed = 10;
  num_paths_pushed = 1;
  num_paths_skipped = 1;
  path_closure_errors = [];
  path_handling_errors = [];
}

abbrev stopped : State context
stopped = record {
  store_closures = [];
  handle_store_paths = 5 ∷ [];
  pending_handle_store_paths = [];
  seen_store_hashes = 5 ∷ 3 ∷ [];
  report = record last_report { num_paths_skipped = 0 };
  stop_progress_writer = some 7;
  rx_errors = [];
}

loop_run : run_loop context (initial context) choices ≡ some stopped
unfolding run_loop take_at
loop_run = refl

whole_run :
    run context choices completions
    ≡ some (7, paths_left_to_handle 1 ∷ path_skipped 5 ∷ final_report last_report ∷ [])
unfolding run take_at
whole_run = refl

-- The loop does not end while nobody asked for a stop.
unstopped_run : run_loop context (initial context) (accepted ∷ []) ≡ none
unfolding run_loop
unstopped_run = refl

run-Account_example :
    Account context choices completions 7
      (paths_left_to_handle 1 ∷ path_skipped 5 ∷ final_report last_report ∷ [])
run-Account_example =
    run-Account context choices completions 7
      (paths_left_to_handle 1 ∷ path_skipped 5 ∷ final_report last_report ∷ []) whole_run

-- The same path is pushed, and another client stops, before its closure is there; nothing is handled
-- before the stop.
abbrev other_choices : List (Choice context)
other_choices =
    message (ok (push_store_path 3))
    ∷ message (ok (stop 9))
    ∷ accepted
    ∷ closure 0 (ok (3 ∷ 5 ∷ 3 ∷ []))
    ∷ []

abbrev other_completions : List (Completion context)
other_completions = (1, ok none) ∷ (0, ok (some 10)) ∷ []

abbrev other_calls : List (Report context)
other_calls =
    paths_left_to_handle 2 ∷ path_skipped 5 ∷ path_pushed 3 10 ∷ final_report last_report ∷ []

abbrev closure_of : ℕ → Closure context
closure_of p = ok (3 ∷ 5 ∷ 3 ∷ [])

run_loop-Inv_example :
    Inv context stopped (log_of context (initial context) choices [])
    × (breaks context stopped ≡ true)
run_loop-Inv_example =
    run_loop-Inv context choices (initial context) [] (initial-Inv context) loop_run

run_loop-Changes_example :
    Changes context
      (initial context)
      stopped
      (pushed_paths context choices)
      (closure_log context (initial context) choices)
run_loop-Changes_example = run_loop-Changes context choices (initial context) loop_run

-- "/a\n" and a stop.
handle_io-encoding_example :
    handle_io context 20 7 (arrived (47 ∷ 97 ∷ 10 ∷ []) ∷ blocked ∷ arrived (0 ∷ []) ∷ [])
    ≡ some (events_of context 7 (message_push 1 ∷ stop_daemon ∷ []))
handle_io-encoding_example =
    handle_io-encoding context (message_push 1 ∷ stop_daemon ∷ []) 7
      (arrived (47 ∷ 97 ∷ 10 ∷ []) ∷ blocked ∷ arrived (0 ∷ []) ∷ []) 20
      (record { one_line = refl; fits = omega arith; no_sentinel = refl }, tt) tt refl refl
      (omega arith)

-- "x\n", which is no store path, and then "/a\n".
abbrev invalid_events : List ReadEvent
invalid_events = arrived (120 ∷ 10 ∷ 47 ∷ []) ∷ arrived (97 ∷ 10 ∷ []) ∷ []

handle_io-decode_example :
    handle_io context 20 7 invalid_events
    ≡ some (
        map
          (event_of context 7)
          (upto_stop context (decode sample [] (120 ∷ 10 ∷ 47 ∷ 97 ∷ 10 ∷ []) none)))
handle_io-decode_example = handle_io-decode context 7 invalid_events 20 tt (omega arith)

-- Two paths were pushed, and nobody has stopped the daemon.
abbrev two_pushes : List (Choice context)
two_pushes = message (ok (push_store_path 3)) ∷ message (ok (push_store_path 5)) ∷ []

abbrev two_closing : State context
two_closing = record (initial context) { store_closures = 3 ∷ 5 ∷ [] }

two_pushes_run : still_running context (initial context) two_pushes ≡ some two_closing
unfolding still_running
two_pushes_run = refl

abbrev two_closures : List (Closure context)
two_closures = ok (3 ∷ 4 ∷ []) ∷ err 6 ∷ []

run_stops_example :
    (left : ℕ) × (calls : List (Report context)) × (run context
        (two_pushes ++ message (ok (stop 7)) ∷ closures_in_order context two_closures)
        (in_order context (first_results context (λ n. ok (some n)) left))
      ≡ some (7, calls))
run_stops_example =
    run_stops context two_pushes two_closing 7 two_closures (λ n. ok (some n)) two_pushes_run refl
      refl

-- No cache has the path; the pipe takes four bytes of the NAR in two writes.
abbrev answers : Answers context externals
answers = record {
  has_narinfo = ok false;
  cache_first = true;
  http_get = λ url. ok 404;
  order = λ n. 1;
  initiate_nar_upload = ok 2;
  pipe = record { polls = accepts 3 ∷ accepts 9 ∷ []; output = []; closed = false };
  buffers = (1 ∷ 2 ∷ 3 ∷ []) ∷ (4 ∷ []) ∷ [];
  write_result = ok tt;
  upload_ends = 2;
  upload_result = ok 4;
  path_infos = ok path_infos;
  upload_narinfo = λ hash n state. ok 100;
}

abbrev urls : List Bytes
urls = (1 ∷ []) ∷ (2 ∷ []) ∷ []

push_run : (handle_store_path context externals answers urls 3).0 ≡ ok (some 104)
unfolding handle_store_path write upstream_caches_have_narinfo new write_on
push_run = refl

handle_store_path-Outcome_example :
    Outcome context externals answers urls 3 (handle_store_path context externals answers urls 3)
handle_store_path-Outcome_example = handle_store_path-Outcome context externals answers urls 3

should_push_store_path_lem_example :
    should_push_store_path context externals answers urls 3 ≡ ok true
should_push_store_path_lem_example = should_push_store_path_lem context externals answers urls 3

-- The second of the two caches has it.
abbrev second_has : Bytes → Result ℕ ℕ
second_has [] = err 0
second_has (b ∷ bs) = if b == 2 then ok 200 else err 1

upstream_run :
    upstream_caches_have_narinfo externals.push_segment second_has (λ n. n) (3 ∷ []) urls ≡ true
unfolding upstream_caches_have_narinfo
upstream_run = refl

abbrev pipe : Writer
pipe = record { polls = stalls ∷ accepts 2 ∷ []; output = 9 ∷ []; closed = false }

write-Records_example : Records keep_all (9 ∷ []) (write keep_all (new keep_all pipe) (5 ∷ 6 ∷ []))
write-Records_example =
    write-Records keep_all (9 ∷ []) (new keep_all pipe) (5 ∷ 6 ∷ []) (new-Records keep_all pipe)
