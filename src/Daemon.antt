-- ===== src/Daemon.antt =====
-- The daemon of src/event_loop.rs as a whole: the connections, their tasks `handle_io`, the channel
-- `message_rx`, and the loop in `run`. Which of them moves next is a choice of the environment.
pub mod Steps
pub mod Refines
pub mod Owed
pub mod Kept
pub mod Receives
pub mod Conserves
pub mod Overtaken
pub mod Served
mod Tests
use cache_action.Base.{
  ℕ, zero, suc, ◌+◌, Bool, true, false, List, [], ◌∷◌, ◌++◌, Option, none, some, if◌then◌else◌,
}
use cache_action.Io.{ReadEvent, weight}
use cache_action.EventLoop.{Context, Handled, Received, State, initial, take_at}
use cache_action.EventLoop.Select.{Choice, Closure, closure, handled, select, on_message, breaks}
use cache_action.EventLoop.Drain.{Report, Completion, report_stop}
use cache_action.EventLoop.Connection.{handle_io}

-- A task with something left to do does the first part of it.
unfoldable pub next_of {ℓ} : {A : Type ℓ} → ℕ → List (List A) → Option (A × List (List A))
next_of i [] = none
next_of zero ([] ∷ xss) = none
next_of zero ((x ∷ xs) ∷ xss) = some (x, xs ∷ xss)
next_of (suc i) (xs ∷ xss) = elim (next_of i xss) [
  | none ↦ none
  | some (y, yss) ↦ some (y, xs ∷ yss)
]

module _ (ctx : Context) where
  open ctx use {ConnectionWriter}

  -- A connection: its writing half, and what the polls of its reading half find.
  pub record Connection : Type 0 where
    pub writer : ConnectionWriter
    pub events : List ReadEvent

  pub record Daemon : Type 0 where
    pub waiting : List Connection  -- `io_stream`
    pub tasks : List (List (Received ctx))  -- what each task is still to send
    pub message_rx : List (Received ctx)
    pub state : State ctx

  -- Before the first round of the loop.
  abbrev pub listening : List Connection → Daemon
  listening connections = record {
    waiting = connections;
    tasks = [];
    message_rx = [];
    state = initial ctx;
  }

  -- Whose turn it is: a task's, or the loop's with a branch of its `select!`.
  pub data Turn : Type 0 where
    send : ℕ → Turn
    accept : Turn
    receive : Turn
    closure_done : ℕ → Closure ctx → Turn
    path_done : ℕ → Handled ctx → Turn

  -- `ctx.spawner().spawn(handle_io(io, message_tx.clone()))`
  unfoldable pub spawn_handle_io : Daemon → Connection → List Connection → Option Daemon
  unfolding handle_io
  spawn_handle_io d connection waiting =
      elim (handle_io ctx (weight connection.events + 2) connection.writer connection.events) [
        | none ↦ none
        | some messages ↦ some (record d { waiting = waiting; tasks = d.tasks ++ messages ∷ [] })
      ]

  abbrev with_state : Daemon → Option (State ctx) → Option Daemon
  with_state d none = none
  with_state d (some s) = some (record d { state = s })

  -- What a turn does; `none` if it cannot be taken. A task sends into the channel, which has no bound.
  unfoldable pub turn : Daemon → Turn → Option Daemon
  unfolding next_of spawn_handle_io on_message select
  turn d (send i) = elim (next_of i d.tasks) [
    | none ↦ none
    | some (m, tasks) ↦ some (record d { tasks = tasks; message_rx = d.message_rx ++ m ∷ [] })
  ]
  turn d (accept) = elim d.waiting [
    | [] ↦ none
    | connection ∷ waiting ↦ spawn_handle_io d connection waiting
  ]
  turn d (receive) = elim d.message_rx [
    | [] ↦ none
    | m ∷ rest ↦ some (record d { message_rx = rest; state = on_message ctx d.state m })
  ]
  turn d (closure_done i result) = with_state d (select ctx d.state (closure i result))
  turn d (path_done i result) = with_state d (select ctx d.state (handled i result))

  -- The loop takes no turn after its end, where tasks may still send.
  abbrev pub is_over : Daemon → Turn → Bool
  is_over d (send i) = false
  is_over d t = breaks ctx d.state

  -- The daemon along a sequence of turns, to the end of the main loop.
  unfoldable pub main_loop : Daemon → List Turn → Option Daemon
  unfolding turn
  main_loop d [] = if breaks ctx d.state then some d else none
  main_loop d (t ∷ ts) = elim (is_over d t) [
    | true ↦ none
    | false ↦ elim (turn d t) [ none ↦ none | some e ↦ main_loop e ts ]
  ]

  -- The whole life of the daemon.
  unfoldable pub serve :
      List Connection
      → List Turn
      → List (Completion ctx)
      → Option (ConnectionWriter × List (Report ctx))
  unfolding main_loop report_stop
  serve connections turns completions = elim (main_loop (listening connections) turns) [
    | none ↦ none
    | some d ↦ report_stop ctx d.state completions
  ]
