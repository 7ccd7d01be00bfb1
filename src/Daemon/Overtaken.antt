-- ===== src/Daemon/Overtaken.antt =====
-- A stop may overtake what another client of src/event_loop.rs has sent before it.
use cache_action.Base.{◌+◌, ◌≡◌, List, [], ◌∷◌, some, arith}
use cache_action.Io.{IsStream, weight}
use cache_action.Protocol.{Message, stop_daemon}
use cache_action.EventLoop.{Context, default_report}
use cache_action.EventLoop.Drain.{paths_left_to_handle, final_report, report_stop, drain}
use cache_action.EventLoop.Select.{on_message}
use cache_action.EventLoop.Connection.{handle_io-decode, handle_io-encoding}
use cache_action.Daemon.{
  next_of, Connection, accept, send, receive, spawn_handle_io, turn, main_loop, serve,
}
use cache_action.Daemon.Receives.{Carries}

module _ (ctx : Context) where
  open ctx use {crates, StorePath, ConnectionWriter}

  -- Whatever a client has sent and closed before another one connects and stops the daemon, there is
  -- an order of the tasks in which the daemon handles nothing of it, and reports that to the other.
  pub serve_overtaken :
      (c s : Connection ctx) (ms : List (Message StorePath)) (rest : List (Connection ctx))
      → IsStream c.events
      → Carries ctx s (stop_daemon ∷ ms)
      → serve ctx (c ∷ s ∷ rest) (accept ∷ accept ∷ send 1 ∷ receive ∷ []) []
        ≡ some (s.writer, paths_left_to_handle 0 ∷ final_report (default_report ctx) ∷ [])
  unfolding serve main_loop turn spawn_handle_io on_message report_stop drain next_of
  serve_overtaken c s ms rest stream carries = ground (
    arith,
    handle_io-decode ctx c.writer c.events (weight c.events + 2) stream (omega arith),
    handle_io-encoding ctx (stop_daemon ∷ ms) s.writer s.events (weight s.events + 2)
        carries.sendable carries.stream carries.sent carries.no_failure (omega arith),
  )
