-- ===== src/StopProgress/Told.antt =====
-- What the client that stops the daemon is told, over a whole run of src/event_loop.rs.
use cache_action.Base.{
  ℕ, ◌%◌, ◌≡◌, sym, ap, ◌∙◌, Bool, true, false, not, List, [], ◌∷◌, ◌++◌, none, some, length, map,
  flatten, append_assoc, ◌==◌, if◌then◌else◌, ok, err,
}
use cache_action.Io.{Bytes, Writer}
use cache_action.EventLoop.{Context, u32_mod, HandlePathError, Handled, ActionReport}
use cache_action.EventLoop.Select.{Choice}
use cache_action.EventLoop.Drain.{
  Report, paths_left_to_handle, final_report, progress, Completion, run,
}
use cache_action.EventLoop.Invariant.{Log}
use cache_action.EventLoop.Finish.{progress_of, drain_log}
use cache_action.EventLoop.Account.{Account, run-Account}
use cache_action.StopProgress.Texts.{pushed_text, skipped_text, failed_text}
use cache_action.ErrorText.{ErrorText}
use cache_action.StopProgress.{
  WriterExt, RealStopProgressReporter, new, newline, left_message, path_message, summary,
  report_all,
}

-- A writer that never fails: all that is written is taken.
pub record IsTaking (ext : WriterExt) : Type 0 where
  pub takes : (bytes : Bytes) (w : Writer) → (ext.write_all bytes w).output ≡ w.output ++ bytes
  pub flushes : (w : Writer) → (ext.flush w).output ≡ w.output

module _ (ctx : Context) (as_f64 : ℕ → ℕ) (closure_error : ctx.StoreClosureError → ErrorText)
    (handling_error : HandlePathError ctx → ErrorText) where
  open ctx use {StorePath, ConnectionWriter}

  -- The line for one result.
  abbrev pub line : StorePath × Handled ctx → Bytes
  line (path, ok (some n)) = path_message ctx as_f64 closure_error handling_error pushed_text path
  line (path, ok none) = path_message ctx as_f64 closure_error handling_error skipped_text path
  line (path, err e) = path_message ctx as_f64 closure_error handling_error failed_text path

  -- A line for each result, and the summary, after an empty line if the paths left were told.
  abbrev after_heading : Bool → Log ctx → ActionReport ctx → Bytes
  after_heading reported log rep =
      flatten (map line log)
      ++ ((if reported then newline else []) ++ summary ctx as_f64 closure_error handling_error rep)

  -- All that is told: how many paths are left if there are some, and what follows.
  abbrev pub told : ℕ → Log ctx → ActionReport ctx → Bytes
  told n log rep = (if n == 0 then [] else left_message n) ++ after_heading (not (n == 0)) log rep

  module _ (ext : WriterExt) (taking : IsTaking ext) where
    abbrev all : RealStopProgressReporter → List (Report ctx) → RealStopProgressReporter
    all = report_all ctx as_f64 closure_error handling_error ext

    one_more :
        (bytes : Bytes) (log : Log ctx) (rest : Bytes) (r : RealStopProgressReporter)
        → (ext.write_all bytes r.writer).output ++ (flatten (map line log) ++ rest)
          ≡ r.writer.output ++ ((bytes ++ flatten (map line log)) ++ rest)
    one_more bytes log rest r =
        ap (λ o. o ++ (flatten (map line log) ++ rest)) (taking.takes bytes r.writer)
        ∙ append_assoc r.writer.output bytes (flatten (map line log) ++ rest)
        ∙ ap (◌++◌ r.writer.output) (sym (append_assoc bytes (flatten (map line log)) rest))

    -- The lines and the final report, after the first call.
    lines-told :
        (log : Log ctx) (rep : ActionReport ctx) (r : RealStopProgressReporter)
        → (all r (progress_of ctx log ++ final_report rep ∷ [])).writer.output
          ≡ r.writer.output ++ after_heading r.reported_paths_left_to_handle log rep
    unfolding report_all progress
    lines-told [] rep r =
        let message =
          (if r.reported_paths_left_to_handle then newline else [])
          ++ summary ctx as_f64 closure_error handling_error rep in
        taking.flushes (ext.write_all message r.writer) ∙ taking.takes message r.writer
    lines-told ((path, ok (some n)) ∷ log) rep r =
        lines-told log rep _ ∙ one_more (line (path, ok (some n))) log _ r
    lines-told ((path, ok none) ∷ log) rep r =
        lines-told log rep _ ∙ one_more (line (path, ok none)) log _ r
    lines-told ((path, err e) ∷ log) rep r =
        lines-told log rep _ ∙ one_more (line (path, err e)) log _ r

    -- After the first call, for both results of its test.
    rest-told :
        (idle : Bool) (n : ℕ) (log : Log ctx) (rep : ActionReport ctx) (w : Writer)
        → (all
            (if idle then new w else record {
              reported_paths_left_to_handle = true;
              writer = ext.write_all (left_message n) w;
            })
            (progress_of ctx log ++ final_report rep ∷ [])).writer.output
          ≡ w.output ++ ((if idle then [] else left_message n) ++ after_heading (not idle) log rep)
    rest-told true n log rep w = lines-told log rep (new w)
    rest-told false n log rep w =
        let left = left_message n in
        let rest = after_heading true log rep in
        lines-told log rep (record {
          reported_paths_left_to_handle = true;
          writer = ext.write_all (left_message n) w;
        })
        ∙ ap (λ o. o ++ rest) (taking.takes left w)
        ∙ append_assoc w.output left rest

    calls-told :
        (n : ℕ) (log : Log ctx) (rep : ActionReport ctx) (w : Writer)
        → (all
            (new w)
            (paths_left_to_handle n ∷ (progress_of ctx log ++ final_report rep ∷ []))).writer.output
          ≡ w.output ++ told n log rep
    unfolding report_all
    calls-told n log rep w = rest-told (n == 0) n log rep w

    -- The client that asked for the stop reads, on a connection that takes all that is written: how
    -- many paths are left if there are some, then a line for each of them, in the order in which they
    -- are done, that tells its result, and at last the summary of the final report, which accounts
    -- for the whole run.
    pub run-told :
        (cs : List (Choice ctx)) (ds : List (Completion ctx)) (v : ConnectionWriter)
        (calls : List (Report ctx)) (w : Writer)
        → run ctx cs ds ≡ some (v, calls)
        → (a : Account ctx cs ds v calls) × ((all (new w) calls).writer.output
            ≡ w.output
              ++ told
                  (length (drain_log ctx a.stopped ds) % u32_mod)
                  (drain_log ctx a.stopped ds)
                  a.last.report)
    run-told cs ds v calls w e =
        let a = run-Account ctx cs ds v calls e in
        (a, ap (λ xs. (all (new w) xs).writer.output) a.calls_eq ∙ calls-told _ _ _ w)
