-- ===== src/Clients/Tests.antt =====
-- src/push.rs and src/stop.rs at concrete inputs.
use cache_action.Base.{
  ℕ, ◌%◌, ◌≡◌, refl, false, List, [], ◌∷◌, ◌++◌, some, length, Result, ok, arith,
}
use cache_action.Io.{Bytes, IoError, os, arrived, Writer, accepts, stalls, breaks_down, contents}
use cache_action.Protocol.Samples.{sample}
use cache_action.Protocol.{stop_sentinel}
use cache_action.EventLoop.{HandlePathError, default_report, take_at, u32_mod}
use cache_action.EventLoop.Samples.{context}
use cache_action.EventLoop.Drain.{Report, paths_left_to_handle, final_report}
use cache_action.EventLoop.Finish.{drain_log}
use cache_action.EventLoop.Account.{Account}
use cache_action.ErrorText.{ErrorText}
use cache_action.StopProgress.{WriterExt, report_all, report}
use cache_action.StopProgress.Texts.{decimal}
use cache_action.StopProgress.Told.{IsTaking, told}
use cache_action.Daemon.{Connection, listening, Turn, send, accept, receive, serve}
use cache_action.Daemon.Refines.{choices_of}
use cache_action.Protocol.Receiver.{receive_all, loop, new}
use cache_action.Clients.Push.{PushArgs, push, Pushes, push-Pushes}
use cache_action.Clients.Stop.{StopArgs, Socket, Copy, stop, Stops, stop-Stops}
use cache_action.Clients.Conversation.{IsCopying, Talks, stop-told}

abbrev io_text : IoError → Bytes
io_text e = b'e' ∷ []

-- A socket that takes three bytes, and then breaks.
abbrev breaking : Writer
breaking = record {
  polls = accepts 3 ∷ stalls ∷ breaks_down (os 32) ∷ [];
  output = [];
  closed = false;
}

abbrev connect_push : Bytes → Result Writer IoError
connect_push socket = ok breaking

abbrev push_args : PushArgs sample
push_args = record { socket = b's' ∷ []; store_paths = 1 ∷ 2 ∷ [] }

push-Pushes_example :
    Pushes sample io_text (ok breaking) push_args (push sample io_text connect_push 4 push_args)
push-Pushes_example =
    push-Pushes sample io_text connect_push 4 push_args
      (λ w e. let same : breaking ≡ w = cc in rw (← same) (omega arith))

abbrev copy_all : Copy
copy_all es = (ok (length (contents es)), contents es)

copy_all-IsCopying : IsCopying copy_all
copy_all-IsCopying = record { count = λ es. length (contents es); copies = λ es s f. refl }

-- "0 store paths were skipped, 0 store paths were pushed", in two lines.
abbrev answer : Bytes
answer =
    b'0' ∷ b' ' ∷ b's' ∷ b't' ∷ b'o' ∷ b'r' ∷ b'e' ∷ b' ' ∷ b'p' ∷ b'a' ∷ b't' ∷ b'h' ∷ b's' ∷ b' '
    ∷ b'w' ∷ b'e' ∷ b'r' ∷ b'e' ∷ b' ' ∷ b's' ∷ b'k' ∷ b'i' ∷ b'p' ∷ b'p' ∷ b'e' ∷ b'd' ∷ b'\n'
    ∷ b'0' ∷ b' ' ∷ b's' ∷ b't' ∷ b'o' ∷ b'r' ∷ b'e' ∷ b' ' ∷ b'p' ∷ b'a' ∷ b't' ∷ b'h' ∷ b's'
    ∷ b' ' ∷ b'w' ∷ b'e' ∷ b'r' ∷ b'e' ∷ b' ' ∷ b'p' ∷ b'u' ∷ b's' ∷ b'h' ∷ b'e' ∷ b'd' ∷ b'\n' ∷ []

abbrev stop_socket : Socket
stop_socket =
    (arrived answer ∷ [], record { polls = stalls ∷ accepts 1 ∷ []; output = []; closed = false })

abbrev connect_stop : Bytes → Result Socket IoError
connect_stop socket = ok stop_socket

abbrev stop_args : StopArgs
stop_args = record { socket = b's' ∷ [] }

stop-Stops_example :
    Stops sample io_text copy_all
      (ok stop_socket)
      (stop sample io_text copy_all connect_stop 4 stop_args)
stop-Stops_example =
    stop-Stops sample io_text copy_all connect_stop 4 stop_args
      (λ s e. let same : stop_socket ≡ s = cc in rw (← same) (omega arith))

abbrev connections : List (Connection context)
connections = record { writer = 7; events = arrived (0 ∷ []) ∷ [] } ∷ []

abbrev turns : List (Turn context)
turns = accept ∷ send 0 ∷ receive ∷ []

abbrev calls : List (Report context)
calls = paths_left_to_handle 0 ∷ final_report (default_report context) ∷ []

serve_run : serve context connections turns [] ≡ some (7, calls)
unfolding serve receive_all loop new take_at
serve_run = refl

abbrev error_text : ℕ → ErrorText
error_text e = (b'e' ∷ [], [])

abbrev handling_text : HandlePathError context → ErrorText
handling_text e = (b'e' ∷ [], [])

abbrev appends : WriterExt
appends = record { write_all = λ bytes w. record w { output = w.output ++ bytes }; flush = λ w. w }

appends-IsTaking : IsTaking appends
appends-IsTaking = record { takes = λ bytes w. refl; flushes = λ w. refl }

abbrev daemon_end : Writer
daemon_end = record { polls = []; output = []; closed = false }

talks :
    Talks context
      (λ n. n)
      error_text
      handling_text
      appends
      appends-IsTaking
      io_text
      copy_all
      copy_all-IsCopying
      calls
      daemon_end
      stop_socket
      4
unfolding report_all report decimal
talks = record {
  willing = tt;
  fresh = refl;
  enough = omega arith;
  stream = tt;
  no_failure = refl;
  fresh_answer = refl;
  answer = refl;
}

stop-told_example :
    (a : Account context (choices_of context (listening context connections) turns) [] 7 calls)
    × (stop sample io_text copy_all connect_stop 4 stop_args
        ≡ some (
          record {
            code = 0;
            stdout =
                told context
                  (λ n. n)
                  error_text
                  handling_text
                  (length (drain_log context a.stopped []) % u32_mod)
                  (drain_log context a.stopped [])
                  a.last.report;
            stderr = [];
          },
          stop_sentinel ∷ [],
        ))
stop-told_example =
    stop-told context (λ n. n) error_text handling_text appends appends-IsTaking io_text copy_all
      copy_all-IsCopying connections turns [] 7 calls daemon_end connect_stop 4 stop_args
      stop_socket serve_run refl talks
