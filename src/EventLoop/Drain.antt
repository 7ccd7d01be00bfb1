-- ===== src/EventLoop/Drain.antt =====
-- The second half of `run` in src/event_loop.rs: what is left is handled, and reported to the client
-- that asked for the stop.
use cache_action.Base.{
  ℕ, ◌+◌, ◌%◌, List, [], ◌∷◌, ◌++◌, Option, none, some, length, if◌then◌else◌, ok, err,
}
use cache_action.EventLoop.{
  Context, u32_mod, HandlePathError, Handled, ActionReport, State, initial, take_at,
}
use cache_action.EventLoop.Select.{on_handled, is_empty, Choice, run_loop}

module _ (ctx : Context) where
  open ctx use {StorePath, ConnectionWriter}

  -- The calls of `StopProgressReporter`, in order.
  pub data Report : Type 0 where
    paths_left_to_handle : ℕ → Report
    path_pushed : StorePath → ℕ → Report
    path_skipped : StorePath → Report
    path_handling_error : StorePath → HandlePathError ctx → Report
    final_report : ActionReport ctx → Report

  -- The call for one path that was handled.
  unfoldable pub progress : StorePath → Handled ctx → Report
  progress path (ok (some num_bytes)) = path_pushed path num_bytes
  progress path (ok none) = path_skipped path
  progress path (err e) = path_handling_error path e

  abbrev pub Completion : Type 0
  Completion = ℕ × Handled ctx

  -- The `while let` loop, along a sequence of completions. `none` if it has not ended with the last
  -- of them, or one of them is not possible.
  unfoldable pub drain : State ctx → List Completion → Option (List Report × State ctx)
  unfolding progress on_handled take_at
  drain s [] = if is_empty s.handle_store_paths then some ([], s) else none
  drain s ((i, result) ∷ cs) = elim (take_at i s.handle_store_paths) [
    | none ↦ none
    | some (path, rest) ↦
        elim (drain (on_handled ctx (record s { handle_store_paths = rest }) path result) cs) [
          | none ↦ none
          | some (calls, t) ↦ some (progress path result ∷ calls, t)
        ]
  ]

  abbrev pub left_to_handle : State ctx → ℕ
  left_to_handle s = length s.handle_store_paths + length s.pending_handle_store_paths

  -- From the end of the main loop to the end of `run`; `none` as well if there were no writer.
  unfoldable pub report_stop : State ctx → List Completion → Option (ConnectionWriter × List Report)
  unfolding drain
  report_stop s cs = elim s.stop_progress_writer [
    | none ↦ none
    | some writer ↦ elim (drain s cs) [
      | none ↦ none
      | some (calls, t) ↦ some (
        writer,
        paths_left_to_handle (left_to_handle s % u32_mod) ∷ (calls ++ final_report t.report ∷ []),
      )
    ]
  ]

  -- The whole of `run`.
  unfoldable pub run : List (Choice ctx) → List Completion → Option (ConnectionWriter × List Report)
  unfolding run_loop report_stop
  run choices completions = elim (run_loop ctx (initial ctx) choices) [
    | none ↦ none
    | some s ↦ report_stop s completions
  ]
