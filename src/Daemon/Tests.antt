-- ===== src/Daemon/Tests.antt =====
-- The daemon of src/event_loop.rs at concrete inputs.
use cache_action.Base.{ℕ, ◌+◌, count, ◌≡◌, ◌≢◌, refl, List, [], ◌∷◌, none, some, ok, err, arith}
use cache_action.Io.{arrived, blocked}
use cache_action.Protocol.{Message, push_store_path as message_push, stop_daemon}
use cache_action.Protocol.Receiver.{receive_all, loop, new}
use cache_action.EventLoop.{push_store_path, initial, ActionReport, default_report, take_at}
use cache_action.EventLoop.Samples.{context}
use cache_action.EventLoop.Drain.{
  Report, Completion, paths_left_to_handle, path_skipped, final_report,
}
use cache_action.Daemon.{
  Connection, Daemon, turn, main_loop, listening, Turn, send, accept, receive, closure_done,
  path_done, serve,
}
use cache_action.Daemon.Refines.{choices_of}
use cache_action.Daemon.Receives.{Among, Carries}
use cache_action.Daemon.Served.{AreClosures, closures, Served, serve-Served}
use cache_action.EventLoop.Invariant.{hashes}
use cache_action.EventLoop.Coverage.{closure_log, roots}
use cache_action.Daemon.Conserves.{meant_by_all, still_to_come, main_loop-conserves}
use cache_action.Daemon.Overtaken.{serve_overtaken}

-- "/a\n/a" and then "a\n\0", from the client with writer 7.
abbrev stopper : Connection context
stopper = record {
  writer = 7;
  events = arrived (47 ∷ 97 ∷ 10 ∷ 47 ∷ 97 ∷ []) ∷ blocked ∷ arrived (97 ∷ 10 ∷ 0 ∷ []) ∷ [];
}

-- "/aaa\n"
abbrev pusher : Connection context
pusher = record { writer = 9; events = arrived (47 ∷ 97 ∷ 97 ∷ 97 ∷ 10 ∷ []) ∷ [] }

abbrev messages : List (Message ℕ)
messages = message_push 1 ∷ message_push 2 ∷ stop_daemon ∷ []

-- The tasks of both clients send in turns; the closure of path 1 has path 2 in it, that of path 3
-- cannot be computed.
abbrev turns : List (Turn context)
turns =
    accept
    ∷ accept
    ∷ send 1
    ∷ send 0
    ∷ receive
    ∷ send 1
    ∷ receive
    ∷ closure_done 1 (err 5)
    ∷ receive
    ∷ closure_done 0 (ok (2 ∷ 1 ∷ []))
    ∷ send 1
    ∷ path_done 1 (ok (some 10))
    ∷ receive
    ∷ closure_done 0 (ok (2 ∷ []))
    ∷ []

abbrev completions : List (Completion context)
completions = (0, ok none) ∷ []

abbrev last_report : ActionReport context
last_report = record {
  num_bytes_pushed = 10;
  num_paths_pushed = 1;
  num_paths_skipped = 1;
  path_closure_errors = (3, 5) ∷ [];
  path_handling_errors = [];
}

abbrev calls : List (Report context)
calls = paths_left_to_handle 1 ∷ path_skipped 2 ∷ final_report last_report ∷ []

serve_run : serve context (pusher ∷ stopper ∷ []) turns completions ≡ some (7, calls)
unfolding serve receive_all loop new take_at
serve_run = refl

not_seven : ◌≢◌ {A = ℕ} 9 7
not_seven e = absurd cc

stopper-Among : Among context (pusher ∷ stopper ∷ []) stopper
stopper-Among = record {
  before = pusher ∷ [];
  after = [];
  split = refl;
  others_before = (not_seven, tt);
  others_after = tt;
}

stopper-Carries : Carries context stopper messages
stopper-Carries = record {
  sendable = (
    record { one_line = refl; fits = omega arith; no_sentinel = refl },
    (record { one_line = refl; fits = omega arith; no_sentinel = refl }, tt),
  );
  stream = tt;
  sent = refl;
  no_failure = refl;
}

own_closures : AreClosures context (closures context (pusher ∷ stopper ∷ []) turns)
unfolding choices_of closure_log turn receive_all loop new take_at
own_closures = (refl, (refl, tt))

serve-Served_example :
    Served context (pusher ∷ stopper ∷ []) turns completions stopper messages calls
serve-Served_example =
    serve-Served context (pusher ∷ stopper ∷ []) turns completions stopper messages calls
      own_closures stopper-Among stopper-Carries serve_run

abbrev bare_stop : Connection context
bare_stop = record { writer = 8; events = arrived (0 ∷ []) ∷ [] }

serve_overtaken_example :
    serve context (pusher ∷ bare_stop ∷ []) (accept ∷ accept ∷ send 1 ∷ receive ∷ []) []
    ≡ some (8, paths_left_to_handle 0 ∷ final_report (default_report context) ∷ [])
serve_overtaken_example =
    serve_overtaken context pusher bare_stop [] [] tt
      (record { sendable = tt; stream = tt; sent = refl; no_failure = refl })

-- There the push of the first client is still to be sent by its task.
abbrev overtaken : Daemon context
overtaken = record {
  waiting = [];
  tasks = (ok (push_store_path 3) ∷ []) ∷ [] ∷ [];
  message_rx = [];
  state = record (initial context) { stop_progress_writer = some 8 };
}

overtaken_run :
    main_loop context
      (listening context (pusher ∷ bare_stop ∷ []))
      (accept ∷ accept ∷ send 1 ∷ receive ∷ [])
    ≡ some overtaken
unfolding main_loop receive_all loop new
overtaken_run = refl

main_loop-conserves_example :
    meant_by_all context 3 (pusher ∷ bare_stop ∷ [])
    ≡ count 3 (
        hashes context (
          roots context (
            closure_log context (initial context) (
              choices_of context
                (listening context (pusher ∷ bare_stop ∷ []))
                (accept ∷ accept ∷ send 1 ∷ receive ∷ [])))))
      + still_to_come context 3 overtaken
main_loop-conserves_example =
    main_loop-conserves context 3 (pusher ∷ bare_stop ∷ [])
      (accept ∷ accept ∷ send 1 ∷ receive ∷ []) overtaken (tt, (tt, tt)) overtaken_run
