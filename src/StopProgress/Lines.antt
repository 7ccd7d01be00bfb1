-- ===== src/StopProgress/Lines.antt =====
-- The lines of the final report of src/real_stop_progress_reporter.rs.
use cache_action.Base.{
  ℕ, suc, ◌+◌, ◌≡◌, refl, ◌∙◌, true, Bool-cases, inl, inr, List, [], ◌∷◌, ◌++◌, length,
  length-append, length-map, map, flatten, ltb, ◌==◌, if◌then◌else◌, count, count-append, arith,
}
use cache_action.Io.{Bytes}
use cache_action.ErrorText.{ErrorText, IsLine, AllLines, AreLines, IsLine-cons, IsLine-if}
use cache_action.EventLoop.{Context, HandlePathError, ActionReport}
use cache_action.StopProgress.{newline, plural, was, error_line, all_errors, summary}
use cache_action.StopProgress.Texts.{
  store_path_text, was_text, were_text, skipped_line, pushed_word, totalling, not_handled,
  caused_by, decimal, human_readable,
}
use cache_action.StopProgress.Texts.Lines.{decimal-IsLine, human_readable-IsLine}

-- How many lines end in a text.
abbrev pub lines : Bytes → ℕ
lines s = count b'\n' s

record HasLines (n : ℕ) (s : Bytes) : Type 0 where
  eq : lines s ≡ n

HasLines-append : {m n : ℕ} {s t : Bytes} → HasLines m s → HasLines n t → HasLines (m + n) (s ++ t)
HasLines-append {s = s} {t = t} first second = record {
  eq = omega (arith, count-append b'\n' s t, first.eq, second.eq);
}

no_line : {s : Bytes} → IsLine s → HasLines 0 s
no_line line = record { eq = line }

one_line : {s : Bytes} → lines s ≡ 1 → HasLines 1 s
one_line line = record { eq = line }

any_lines : (s : Bytes) → HasLines (lines s) s
any_lines s = record { eq = refl }

plural-HasLines : (n : ℕ) → HasLines 0 (plural n)
plural-HasLines n = no_line (IsLine-if (n == 1) [] (b's' ∷ []) refl refl)

was-HasLines : (n : ℕ) → HasLines 0 (b' ' ∷ was n)
was-HasLines n =
    no_line (IsLine-cons b' ' (was n) refl (IsLine-if (n == 1) was_text were_text refl refl))

HasLines-skip : {m : ℕ} {s t : Bytes} → HasLines m s → HasLines 0 t → HasLines m (s ++ t)
HasLines-skip {s = s} {t = t} first line = record {
  eq = omega (arith, count-append b'\n' s t, first.eq, line.eq);
}

HasLines-paths :
    {m : ℕ} {s : Bytes}
    → HasLines m s
    → (n : ℕ) → HasLines m (s ++ decimal n ++ store_path_text ++ plural n ++ (b' ' ∷ was n))
HasLines-paths before n =
    HasLines-skip
      (HasLines-skip
        (HasLines-skip (HasLines-skip before (no_line (decimal-IsLine n))) (no_line refl))
        (plural-HasLines n))
      (was-HasLines n)

-- "{n} store path{s}"
paths-lines : (n : ℕ) → HasLines 0 (decimal n ++ store_path_text ++ plural n)
paths-lines n =
    HasLines-append (HasLines-append (no_line (decimal-IsLine n)) (no_line refl))
      (plural-HasLines n)

causes-lines :
    (causes : List Bytes)
    → AllLines causes
    → lines (flatten (map (λ c. caused_by ++ c) causes)) ≡ length causes
causes-lines [] all = refl
causes-lines (c ∷ causes) (line, all) = omega (
  arith,
  count-append b'\n' (caused_by ++ c) (flatten (map (λ d. caused_by ++ d) causes)),
  count-append b'\n' caused_by c,
  line,
  causes-lines causes all,
)

-- The lines for the errors: one for each, and one for each cause of it.
abbrev pub error_lines : {A : Type 0} → List (A × ErrorText) → ℕ
error_lines [] = 0
error_lines ((a, (text, causes)) ∷ errors) = suc (length causes) + error_lines errors

abbrev pub AllErrors : {A : Type 0} → List (A × ErrorText) → Type 0
AllErrors [] = Unit
AllErrors ((a, text) ∷ errors) = AreLines text × AllErrors errors

-- If there are errors, a line says how many.
abbrev pub report_lines : {A : Type 0} → List (A × ErrorText) → ℕ
report_lines [] = 2
report_lines (e ∷ errors) = 3 + error_lines (e ∷ errors)

total_line :
    (as_f64 : ℕ → ℕ) (pushed num_bytes : ℕ)
    → HasLines 1
        (if ltb 0 pushed then totalling ++ human_readable as_f64 num_bytes ++ newline else newline)
total_line as_f64 pushed num_bytes = elim (Bool-cases (ltb 0 pushed)) [
  | inl some_pushed ↦ rw some_pushed (
      HasLines-append
        (HasLines-skip (no_line {s = totalling} refl)
          (no_line (human_readable-IsLine as_f64 num_bytes)))
        (one_line {s = newline} refl))
  | inr none_pushed ↦ rw none_pushed (one_line refl)
]

module _ (ctx : Context) (as_f64 : ℕ → ℕ) (closure_error : ctx.StoreClosureError → ErrorText)
    (handling_error : HandlePathError ctx → ErrorText) where
  open ctx use {StorePath, StoreClosureError, display}

  module _ (display-IsLine : (path : StorePath) → IsLine (display path)) where
    error_line-lines :
        (e : StorePath × ErrorText)
        → AreLines e.1
        → HasLines
            (0 + 0 + 0 + length e.1.1 + 1)
            (error_line ctx as_f64 closure_error handling_error e)
    error_line-lines (path, (text, causes)) (line, all) =
        HasLines-append
          (HasLines-append
            (HasLines-append (HasLines-append (no_line (display-IsLine path)) (no_line refl))
              (no_line line))
            (record { eq = causes-lines causes all }))
          (record { eq = refl })

    errors-lines :
        (es : List (StorePath × ErrorText))
        → AllErrors es
        → HasLines
            (error_lines es)
            (flatten (map (error_line ctx as_f64 closure_error handling_error) es))
    errors-lines [] all = record { eq = refl }
    errors-lines (e ∷ es) (line, all) = record {
      eq = (HasLines-append (error_line-lines e line) (errors-lines es all)).eq ∙ omega arith;
    }

    -- The closure errors and the handling errors, joined by `map` and `chain`, are as many as both.
    num_errors-length :
        (report : ActionReport ctx)
        → length report.path_closure_errors + length report.path_handling_errors
          ≡ length (all_errors ctx as_f64 closure_error handling_error report)
    num_errors-length report =
        let closures : List (StorePath × ErrorText) =
          map (λ e. (e.0, closure_error e.1)) report.path_closure_errors in
        let handled : List (StorePath × ErrorText) =
          map (λ e. (e.0, handling_error e.1)) report.path_handling_errors in
        let closures_eq : length closures ≡ length report.path_closure_errors = length-map _ _ in
        let handled_eq : length handled ≡ length report.path_handling_errors = length-map _ _ in
        omega (arith, length-append closures handled, closures_eq, handled_eq)

    abbrev counted_errors : ℕ → List (StorePath × ErrorText) → Bytes
    counted_errors n es =
        if ltb 0 n
        then decimal n
          ++ store_path_text
          ++ plural n
          ++ not_handled
          ++ flatten (map (error_line ctx as_f64 closure_error handling_error) es)
        else []

    counted_errors-lines :
        (n : ℕ) (es : List (StorePath × ErrorText))
        → n ≡ length es
        → AllErrors es
        → 2 + lines (counted_errors n es) ≡ report_lines es
    counted_errors-lines n [] same all = rw same refl
    counted_errors-lines n (e ∷ es) same all =
        let some_left : ltb 0 n ≡ true = ground (arith, same) in
        let counted : HasLines (0 + 1 + error_lines (e ∷ es)) (
            decimal n
            ++ store_path_text
            ++ plural n
            ++ not_handled
            ++ flatten (map (error_line ctx as_f64 closure_error handling_error) (e ∷ es))) =
          HasLines-append (HasLines-append (paths-lines n) (one_line refl))
            (errors-lines (e ∷ es) all) in
        rw some_left (omega (arith, counted.eq))

    -- The final report takes two lines, and where a path could not be handled one more, one for each such
    -- path, and one for each cause of its error, if no path's name, error's text or cause's has a line's
    -- end in it.
    pub summary-lines :
        (report : ActionReport ctx)
        → AllErrors (all_errors ctx as_f64 closure_error handling_error report)
        → lines (summary ctx as_f64 closure_error handling_error report)
          ≡ report_lines (all_errors ctx as_f64 closure_error handling_error report)
    summary-lines report all =
        let es = all_errors ctx as_f64 closure_error handling_error report in
        let n = length report.path_closure_errors + length report.path_handling_errors in
        let pushed = report.num_paths_pushed in
        let before : HasLines (0 + 1) _ =
          HasLines-append
            (HasLines-skip (paths-lines report.num_paths_skipped)
              (was-HasLines report.num_paths_skipped))
            (one_line {s = skipped_line} refl) in
        let counted =
          HasLines-append
            (HasLines-skip (HasLines-paths before pushed) (no_line {s = pushed_word} refl))
            (total_line as_f64 pushed report.num_bytes_pushed) in
        let errors = HasLines-append counted (any_lines (counted_errors n es)) in
        omega (arith, errors.eq, counted_errors-lines n es (num_errors-length report) all)
