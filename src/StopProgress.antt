-- ===== src/StopProgress.antt =====
-- `RealStopProgressReporter` of src/real_stop_progress_reporter.rs: what the client that stops the
-- daemon is told. The texts of errors, and `write_all` and `flush` of the futures crate, are
-- parameters.
pub mod Texts
pub mod Told
pub mod Lines
mod Failures
mod Tests
use cache_action.Base.{
  ℕ, zero, suc, ◌+◌, ◌<◌, Bool, true, false, List, [], ◌∷◌, ◌++◌, length, map, flatten, ltb, ◌==◌,
  if◌then◌else◌,
}
use cache_action.Io.{Bytes, Writer}
use cache_action.ErrorText.{ErrorText}
use cache_action.EventLoop.{Context, HandlePathError, ActionReport}
use cache_action.EventLoop.Drain.{
  Report, paths_left_to_handle, path_pushed, path_skipped, path_handling_error, final_report,
}
use cache_action.StopProgress.Texts.{
  there, is_still, are_still, store_path_text, left_text, pushed_text, skipped_text, failed_text,
  was_text, were_text, skipped_line, pushed_word, totalling, not_handled, colon, caused_by, decimal,
  human_readable,
}

pub record WriterExt : Type 0 where
  pub write_all : Bytes → Writer → Writer
  pub flush : Writer → Writer

pub record RealStopProgressReporter : Type 0 where
  pub reported_paths_left_to_handle : Bool
  pub writer : Writer

-- `RealStopProgressReporter::new`
abbrev pub new : Writer → RealStopProgressReporter
new writer = record { reported_paths_left_to_handle = false; writer = writer }

abbrev pub plural : ℕ → Bytes
plural n = if n == 1 then [] else b's' ∷ []

abbrev pub was : ℕ → Bytes
was n = if n == 1 then was_text else were_text

abbrev pub newline : Bytes
newline = b'\n' ∷ []

abbrev pub left_message : ℕ → Bytes
left_message n =
    there
    ++ (if n == 1 then is_still else are_still)
    ++ decimal n
    ++ store_path_text
    ++ plural n
    ++ left_text

module _ (ctx : Context) (as_f64 : ℕ → ℕ) (closure_error : ctx.StoreClosureError → ErrorText)
    (handling_error : HandlePathError ctx → ErrorText) where
  open ctx use {StorePath, StoreClosureError, display}

  abbrev pub path_message : Bytes → StorePath → Bytes
  path_message word path = word ++ display path ++ newline

  -- One error of the final report.
  abbrev pub error_line : StorePath × ErrorText → Bytes
  error_line (path, (text, causes)) =
      display path ++ colon ++ text ++ flatten (map (λ c. caused_by ++ c) causes) ++ newline

  abbrev pub all_errors : ActionReport ctx → List (StorePath × ErrorText)
  all_errors report =
      map (λ e. (e.0, closure_error e.1)) report.path_closure_errors
      ++ map (λ e. (e.0, handling_error e.1)) report.path_handling_errors

  abbrev pub errors_message : ActionReport ctx → Bytes
  errors_message report =
      let num_errors = length report.path_closure_errors + length report.path_handling_errors in
      if ltb 0 num_errors
      then decimal num_errors
        ++ store_path_text
        ++ plural num_errors
        ++ not_handled
        ++ flatten (map error_line (all_errors report))
      else []

  -- The final report, without the empty line that may stand before it.
  abbrev pub summary : ActionReport ctx → Bytes
  summary report =
      decimal report.num_paths_skipped
      ++ store_path_text
      ++ plural report.num_paths_skipped
      ++ (b' ' ∷ was report.num_paths_skipped)
      ++ skipped_line
      ++ decimal report.num_paths_pushed
      ++ store_path_text
      ++ plural report.num_paths_pushed
      ++ (b' ' ∷ was report.num_paths_pushed)
      ++ pushed_word
      ++ (if ltb 0 report.num_paths_pushed
          then totalling ++ human_readable as_f64 report.num_bytes_pushed ++ newline
          else newline)
      ++ errors_message report

  module _ (ext : WriterExt) where
    open ext use {write_all, flush}

    abbrev say : Bytes → RealStopProgressReporter → RealStopProgressReporter
    say message r = record r { writer = write_all message r.writer }

    -- The methods, by the call that is made. A failed write is ignored.
    unfoldable pub report : RealStopProgressReporter → Report ctx → RealStopProgressReporter
    report r (paths_left_to_handle n) =
        if n == 0
        then r
        else record (say (left_message n) r) { reported_paths_left_to_handle = true }
    report r (path_pushed path num_bytes) = say (path_message pushed_text path) r
    report r (path_skipped path) = say (path_message skipped_text path) r
    report r (path_handling_error path error) = say (path_message failed_text path) r
    report r (final_report rep) = record r {
      writer = flush (
          write_all ((if r.reported_paths_left_to_handle then newline else []) ++ summary rep)
            r.writer);
    }

    unfoldable pub report_all :
        RealStopProgressReporter → List (Report ctx) → RealStopProgressReporter
    unfolding report
    report_all r [] = r
    report_all r (c ∷ cs) = report_all (report r c) cs
