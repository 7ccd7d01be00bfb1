-- ===== src/EventLoop/Account.antt =====
-- What a whole run of `run` in src/event_loop.rs accounts for.
use cache_action.Base.{
  ℕ, ◌%◌, ◌≡◌, refl, ap, ◌∙◌, true, List, [], ◌∷◌, ◌++◌, some, length, count, if◌then◌else◌, arith,
  Option-cases, inl, inr, subst,
}
use cache_action.EventLoop.{Context, u32_mod, Handled, State, initial, member}
use cache_action.EventLoop.Select.{Choice, run_loop, breaks}
use cache_action.EventLoop.Drain.{
  Report, paths_left_to_handle, final_report, Completion, drain, left_to_handle, run,
}
use cache_action.EventLoop.Invariant.{
  Log, hashes, paths, Summarises, Tracks, log_of, member-count, member_pos,
}
use cache_action.EventLoop.Invariant.Loop.{initial-Inv, run_loop-Inv, run_loop-nil, run_loop-cons}
use cache_action.EventLoop.Coverage.{
  pushed_paths, closure_log, roots, closure_paths, closure_errors,
}
use cache_action.EventLoop.Coverage.Loop.{run_loop-Changes}
use cache_action.EventLoop.Finish.{drain_log, progress_of, drain-Drains, in_order, drain_total}

module _ (ctx : Context) (choices : List (Choice ctx)) (completions : List (Completion ctx)) where
  open ctx use {StorePath, ConnectionWriter, hash}

  -- The results before the main loop ended in state `s`, and those after.
  abbrev pub full_log : State ctx → Log ctx
  full_log s = log_of ctx (initial ctx) choices [] ++ drain_log ctx s completions

  pub record Account (writer : ConnectionWriter) (calls : List (Report ctx)) : Type 0 where
    pub stopped : State ctx
    pub last : State ctx
    pub ends : run_loop ctx (initial ctx) choices ≡ some stopped
    pub writer_eq : stopped.stop_progress_writer ≡ some writer
    pub calls_eq :
        calls
        ≡ paths_left_to_handle (length (drain_log ctx stopped completions) % u32_mod)
          ∷ (progress_of ctx (drain_log ctx stopped completions) ++ final_report last.report ∷ [])
    pub summary : Summarises ctx last.report (full_log stopped)
    pub errors :
        last.report.path_closure_errors ≡ closure_errors ctx (closure_log ctx (initial ctx) choices)
    pub once :
        (h : ℕ)
        → count h (hashes ctx (paths ctx (full_log stopped))) ≡ (
            if member h (hashes ctx (closure_paths ctx (closure_log ctx (initial ctx) choices)))
            then 1
            else 0)
    pub closed :
        (h : ℕ)
        → count h (hashes ctx (roots ctx (closure_log ctx (initial ctx) choices)))
          ≡ count h (hashes ctx (pushed_paths ctx choices))

module _ (ctx : Context) where
  open ctx use {StorePath, ConnectionWriter, hash}

  count_none_left : (h : ℕ) (xs : List StorePath) → length xs ≡ 0 → count h (hashes ctx xs) ≡ 0
  count_none_left h [] e = refl
  count_none_left h (x ∷ xs) e = absurd (omega arith)

  -- The last state has handled just what was seen.
  once_of :
      (t : State ctx) (log : Log ctx) (h : ℕ)
      → Tracks ctx t log h
      → left_to_handle ctx t ≡ 0
      → count h (hashes ctx (paths ctx log)) ≡ (if member h t.seen_store_hashes then 1 else 0)
  once_of t log h k e = ground (
    arith,
    count_none_left h t.handle_store_paths (omega (arith, e)),
    count_none_left h t.pending_handle_store_paths (omega (arith, e)),
    member-count h t.seen_store_hashes,
    member_pos h t.seen_store_hashes,
  )

  pub closures_of_breaks : (s : State ctx) → breaks ctx s ≡ true → s.store_closures ≡ []
  closures_of_breaks s e = ground arith

  -- `run` from the end of its main loop.
  pub run_parts :
      (cs : List (Choice ctx)) (ds : List (Completion ctx)) (w : ConnectionWriter)
      (calls : List (Report ctx))
      → run ctx cs ds ≡ some (w, calls)
      → (s : State ctx) × (t : State ctx) × (progress : List (Report ctx)) × (run_loop ctx
            (initial ctx)
            cs
          ≡ some s)
        × (s.stop_progress_writer ≡ some w)
        × (drain ctx s ds ≡ some (progress, t))
        × (calls
            ≡ paths_left_to_handle (left_to_handle ctx s % u32_mod)
              ∷ (progress ++ final_report t.report ∷ []))
  unfolding run
  run_parts cs ds w calls e = elim (Option-cases (run_loop ctx (initial ctx) cs)) [
    | inl stuck ↦ absurd (ground arith)
    | inr (s, ended) ↦ elim (Option-cases s.stop_progress_writer) [
      | inl silent ↦ absurd (ground arith)
      | inr (v, writer) ↦ elim (Option-cases (drain ctx s ds)) [
        | inl stuck ↦ absurd (ground arith)
        | inr ((progress, t), drained) ↦
            (s, t, progress, ended, ground arith, drained, ground arith)
      ]
    ]
  ]

  -- When `run` has come to its end for a client with writer `w`: that client is told how many paths
  -- are left and then of each of them, in order, before the final report. The report's counters and
  -- errors are those of all results. Each hash of the closures that were computed was handled just
  -- once, no other hash was handled, and each pushed path had its closure computed.
  pub run-Account :
      (cs : List (Choice ctx)) (ds : List (Completion ctx)) (w : ConnectionWriter)
      (calls : List (Report ctx))
      → run ctx cs ds ≡ some (w, calls)
      → Account ctx cs ds w calls
  run-Account cs ds w calls e =
      let (s, t, progress, ended, writer, drained, all) = run_parts cs ds w calls e in
      let (inv, broke) = run_loop-Inv ctx cs (initial ctx) [] (initial-Inv ctx) ended in
      let d = drain-Drains ctx ds s t _ progress inv drained in
      let c = run_loop-Changes ctx cs (initial ctx) ended in
      record {
        stopped = s;
        last = t;
        ends = ended;
        writer_eq = writer;
        calls_eq = all ∙ rw (d.length_eq, d.calls_eq);
        summary = d.invariant.summary;
        errors = d.errors_eq ∙ c.errors;
        once = λ h.
            once_of t (full_log ctx cs ds s) h (d.invariant.tracks h) d.none_left
            ∙ rw (d.seen_eq, c.seen h);
        closed = λ h.
            omega (
              arith,
              c.closures h,
              ap (λ ps. count h (hashes ctx ps)) (closures_of_breaks s broke),
            );
      }

  writer_of_breaks :
      (s : State ctx)
      → breaks ctx s ≡ true
      → (w : ConnectionWriter) × (s.stop_progress_writer ≡ some w)
  writer_of_breaks s e = elim (Option-cases s.stop_progress_writer) [
    | inl silent ↦ absurd (ground arith)
    | inr writer ↦ writer
  ]

  -- The stop writer is there when the main loop ends: the `expect` behind it does not panic.
  pub run_loop-writer :
      (cs : List (Choice ctx)) (s : State ctx) {t : State ctx}
      → run_loop ctx s cs ≡ some t
      → (w : ConnectionWriter) × (t.stop_progress_writer ≡ some w)
  run_loop-writer [] s {t} e =
      let (same, broke) = run_loop-nil ctx s e in
      subst (λ u. (w : ConnectionWriter) × (u.stop_progress_writer ≡ some w)) same
        (writer_of_breaks s broke)
  run_loop-writer (c ∷ cs) s {t} e =
      let (u, went, later) = run_loop-cons ctx s c cs e in run_loop-writer cs u later

  -- Once the main loop has ended, `run` can always be brought to its end: whatever results the paths
  -- that are left give, one each, the client gets its report.
  pub run_total :
      (cs : List (Choice ctx)) (rs : List (Handled ctx)) (s : State ctx)
      → run_loop ctx (initial ctx) cs ≡ some s
      → length rs ≡ left_to_handle ctx s
      → (w : ConnectionWriter) × (calls : List (Report ctx)) × (run ctx cs (in_order ctx rs)
          ≡ some (w, calls))
  unfolding run
  run_total cs rs s ended n =
      let inv = (run_loop-Inv ctx cs (initial ctx) [] (initial-Inv ctx) ended).0 in
      let (progress, t, drained) = drain_total ctx rs s _ inv n in
      let (w, writer) = run_loop-writer cs (initial ctx) ended in
      (
        w,
        paths_left_to_handle (left_to_handle ctx s % u32_mod)
            ∷ (progress ++ final_report t.report ∷ []),
        ground (arith, ended, writer, drained),
      )
