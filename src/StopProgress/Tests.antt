-- ===== src/StopProgress/Tests.antt =====
-- What a stop client is told by src/real_stop_progress_reporter.rs, at concrete inputs.
use cache_action.Base.{
  ℕ, ◌+◌, ◌≤◌, ◌<◌, ◌^◌, ◌%◌, ◌≡◌, refl, false, List, [], ◌∷◌, ◌++◌, none, some, ok, length, ◌⊎◌,
}
use cache_action.Io.{Writer}
use cache_action.Protocol.Samples.{sample}
use cache_action.EventLoop.{Context, HandlePathError, push_store_path, stop, take_at, u32_mod}
use cache_action.EventLoop.Select.{Choice, message, closure}
use cache_action.EventLoop.Drain.{
  Report, paths_left_to_handle, path_skipped, final_report, run, Completion,
}
use cache_action.EventLoop.Finish.{drain_log}
use cache_action.EventLoop.Account.{Account}
use cache_action.StopProgress.Texts.{human_readable, unit_of, decimal}
use cache_action.StopProgress.Texts.Units.{unit_of_lem}
use cache_action.ErrorText.{ErrorText}
use cache_action.StopProgress.{WriterExt, new, report_all}
use cache_action.StopProgress.Told.{IsTaking, told, run-told}

abbrev context : Context
context = record {
  crates = sample;
  CacheError = ℕ;
  PathInfosError = ℕ;
  StoreClosureError = ℕ;
  WriteNarError = ℕ;
  ConnectionWriter = ℕ;
}

-- Path 3 is in work when a client stops.
abbrev choices : List (Choice context)
choices = message (ok (push_store_path 3)) ∷ closure 0 (ok (3 ∷ [])) ∷ message (ok (stop 7)) ∷ []

abbrev completions : List (Completion context)
completions = (0, ok none) ∷ []

abbrev calls : List (Report context)
calls =
    paths_left_to_handle 1
    ∷ path_skipped 3
    ∷ final_report (record {
      num_bytes_pushed = 0;
      num_paths_pushed = 0;
      num_paths_skipped = 1;
      path_closure_errors = [];
      path_handling_errors = [];
    })
    ∷ []

whole_run : run context choices completions ≡ some (7, calls)
unfolding run take_at
whole_run = refl

abbrev text_of : ℕ → ErrorText
text_of e = (b'e' ∷ [], [])

abbrev handling_text : HandlePathError context → ErrorText
handling_text e = (b'e' ∷ [], [])

abbrev appends : WriterExt
appends = record { write_all = λ bytes w. record w { output = w.output ++ bytes }; flush = λ w. w }

appends-IsTaking : IsTaking appends
appends-IsTaking = record { takes = λ bytes w. refl; flushes = λ w. refl }

abbrev socket : Writer
socket = record { polls = []; output = []; closed = false }

run-told_example :
    (a : Account context choices completions 7 calls) × ((report_all context
        (λ n. n)
        text_of
        handling_text
        appends
        (new socket)
        calls).writer.output
      ≡ []
        ++ told context
            (λ n. n)
            text_of
            handling_text
            (length (drain_log context a.stopped completions) % u32_mod)
            (drain_log context a.stopped completions)
            a.last.report)
run-told_example =
    run-told context (λ n. n) text_of handling_text appends appends-IsTaking choices completions 7
      calls socket whole_run

unit_of_lem_example :
    ((unit_of 42690 ≡ 0) ⊎ (1024 ^ unit_of 42690 ≤ 42690))
    × ((unit_of 42690 ≡ 5) ⊎ (42690 < 1024 ^ (unit_of 42690 + 1)))
    × (unit_of 42690 ≤ 5)
unit_of_lem_example = unit_of_lem 42690

-- The sizes in the tests of the source.
sizes_run :
    (human_readable (λ n. n) 0 ≡ b'0' ∷ b' ' ∷ b'B' ∷ [])
    × (human_readable (λ n. n) 1023 ≡ b'1' ∷ b'0' ∷ b'2' ∷ b'3' ∷ b' ' ∷ b'B' ∷ [])
    × (human_readable (λ n. n) 1536 ≡ b'1' ∷ b'.' ∷ b'5' ∷ b' ' ∷ b'K' ∷ b'i' ∷ b'B' ∷ [])
    × (human_readable (λ n. n) 42690 ≡ b'4' ∷ b'1' ∷ b'.' ∷ b'7' ∷ b' ' ∷ b'K' ∷ b'i' ∷ b'B' ∷ [])
unfolding human_readable decimal unit_of
sizes_run = (refl, refl, refl, refl)

-- A size just below a MiB is rounded up to a value that is not less than 1024.
rounded_run :
    human_readable (λ n. n) 1048575
    ≡ b'1' ∷ b'0' ∷ b'2' ∷ b'4' ∷ b'.' ∷ b'0' ∷ b' ' ∷ b'K' ∷ b'i' ∷ b'B' ∷ []
unfolding human_readable decimal unit_of
rounded_run = refl
