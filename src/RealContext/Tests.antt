-- ===== src/RealContext/Tests.antt =====
-- src/real_context.rs at concrete inputs.
use cache_action.Base.{◌≡◌, refl, List, [], ◌∷◌, ◌++◌, some, map, flatten, ok, err}
use cache_action.Io.{Bytes, IoError, os}
use cache_action.Protocol.{io, invalid_store_path}
use cache_action.EventLoop.{State, initial, push_store_path, stop, take_at}
use cache_action.EventLoop.Samples.{context}
use cache_action.EventLoop.Select.{Choice, accepted, message, closure, run_loop}
use cache_action.EventLoop.Errors.{errors_in}
use cache_action.RealContext.{handle_rx_errors}
use cache_action.RealContext.Prints.{error_line, run_loop-prints}

abbrev io_text : IoError → Bytes
io_text e = b'e' ∷ []

abbrev parse_text : Unit {0} → Bytes
parse_text e = b'p' ∷ []

-- One client sends a line that is no path and then a path, another one's connection breaks.
abbrev choices : List (Choice context)
choices =
    accepted
    ∷ message (err (invalid_store_path tt))
    ∷ message (ok (push_store_path 3))
    ∷ message (err (io (os 104)))
    ∷ message (ok (stop 7))
    ∷ closure 0 (err 5)
    ∷ []

abbrev stopped : State context
stopped = record (initial context) {
  report = record ((initial context).report) { path_closure_errors = (3, 5) ∷ [] };
  stop_progress_writer = some 7;
  rx_errors = invalid_store_path tt ∷ io (os 104) ∷ [];
}

loop_run : run_loop context (initial context) choices ≡ some stopped
unfolding run_loop take_at
loop_run = refl

run_loop-prints_example :
    handle_rx_errors io_text parse_text (b'>' ∷ []) stopped.rx_errors
    ≡ (b'>' ∷ [])
      ++ flatten (map (error_line context io_text parse_text) (errors_in context choices))
run_loop-prints_example =
    run_loop-prints context io_text parse_text choices stopped (b'>' ∷ []) loop_run
