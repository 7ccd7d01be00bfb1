-- ===== src/EventLoop/Invariant/Results.antt =====
-- The results of `handle_store_path` in `run` of src/event_loop.rs: the counters of the report, and the
-- place that becomes free.
use cache_action.Base.{
  ℕ, ◌+◌, ◌≡◌, refl, ap, List, [], ◌∷◌, ◌++◌, none, some, length, count, length-append, ok, err,
  arith, inl, inr, append-nil,
}
use cache_action.EventLoop.{
  Context, max_concurrent_store_paths, Handled, ActionReport, State, take_at,
}
use cache_action.EventLoop.Select.{tally, start_front, on_handled}
use cache_action.EventLoop.Invariant.{
  Log, hashes, paths, bytes_of, pushed_of, skipped_of, errors_of, Summarises, IsBounded, Tracks,
  Inv, count-hashes-append, take_at-count,
}

module _ (ctx : Context) where
  open ctx use {StorePath, hash}

  bytes_of-append :
      (log more : Log ctx) → bytes_of ctx (log ++ more) ≡ bytes_of ctx log + bytes_of ctx more
  bytes_of-append [] more = omega arith
  bytes_of-append ((p, ok (some n)) ∷ log) more = omega (arith, bytes_of-append log more)
  bytes_of-append ((p, ok none) ∷ log) more = bytes_of-append log more
  bytes_of-append ((p, err e) ∷ log) more = bytes_of-append log more

  pushed_of-append :
      (log more : Log ctx) → pushed_of ctx (log ++ more) ≡ pushed_of ctx log + pushed_of ctx more
  pushed_of-append [] more = omega arith
  pushed_of-append ((p, ok (some n)) ∷ log) more = omega (arith, pushed_of-append log more)
  pushed_of-append ((p, ok none) ∷ log) more = pushed_of-append log more
  pushed_of-append ((p, err e) ∷ log) more = pushed_of-append log more

  skipped_of-append :
      (log more : Log ctx) → skipped_of ctx (log ++ more) ≡ skipped_of ctx log + skipped_of ctx more
  skipped_of-append [] more = omega arith
  skipped_of-append ((p, ok (some n)) ∷ log) more = skipped_of-append log more
  skipped_of-append ((p, ok none) ∷ log) more = omega (arith, skipped_of-append log more)
  skipped_of-append ((p, err e) ∷ log) more = skipped_of-append log more

  errors_of-append :
      (log more : Log ctx) → errors_of ctx (log ++ more) ≡ errors_of ctx log ++ errors_of ctx more
  errors_of-append [] more = refl
  errors_of-append ((p, ok (some n)) ∷ log) more = errors_of-append log more
  errors_of-append ((p, ok none) ∷ log) more = errors_of-append log more
  errors_of-append ((p, err e) ∷ log) more = ap (◌∷◌ (p, e)) (errors_of-append log more)

  -- Counting a result adds it to what the report sums up.
  tally-Summarises :
      (r : ActionReport ctx) (log : Log ctx) (p : StorePath) (result : Handled ctx)
      → Summarises ctx r log
      → Summarises ctx (tally ctx r p result) (log ++ (p, result) ∷ [])
  unfolding tally
  tally-Summarises r log p (ok (some n)) w = ground (
    arith,
    bytes_of-append log ((p, ok (some n)) ∷ []),
    pushed_of-append log ((p, ok (some n)) ∷ []),
    skipped_of-append log ((p, ok (some n)) ∷ []),
    errors_of-append log ((p, ok (some n)) ∷ []),
    append-nil (errors_of ctx log),
  )
  tally-Summarises r log p (ok none) w = ground (
    arith,
    bytes_of-append log ((p, ok none) ∷ []),
    pushed_of-append log ((p, ok none) ∷ []),
    skipped_of-append log ((p, ok none) ∷ []),
    errors_of-append log ((p, ok none) ∷ []),
    append-nil (errors_of ctx log),
  )
  tally-Summarises r log p (err e) w = ground (
    arith,
    bytes_of-append log ((p, err e) ∷ []),
    pushed_of-append log ((p, err e) ∷ []),
    skipped_of-append log ((p, err e) ∷ []),
    errors_of-append log ((p, err e) ∷ []),
  )

  count-paths-append :
      (h : ℕ) (log : Log ctx) (p : StorePath) (result : Handled ctx)
      → count h (hashes ctx (paths ctx (log ++ (p, result) ∷ [])))
        ≡ count h (hashes ctx (paths ctx log)) + count h (hash p ∷ [])
  count-paths-append h [] p result = omega arith
  count-paths-append h ((q, r) ∷ log) p result = omega (arith, count-paths-append h log p result)

  full_of :
      {s : State ctx} {q : StorePath} {qs : List StorePath}
      → IsBounded ctx s
      → s.pending_handle_store_paths ≡ q ∷ qs
      → length s.handle_store_paths ≡ max_concurrent_store_paths
  full_of b e = ground (arith, b.busy)

  -- A future of `handle_store_paths` finishes, and the oldest path that waits takes its place.
  module _ (s : State ctx) (log : Log ctx) (i : ℕ) (p : StorePath) (rest : List StorePath)
      (result : Handled ctx) (v : Inv ctx s log)
      (found : take_at i s.handle_store_paths ≡ some (p, rest)) where
    freed : State ctx
    freed = record s { handle_store_paths = rest; report = tally ctx s.report p result }

    start_front-Tracks :
        (ps : List StorePath) (h : ℕ)
        → s.pending_handle_store_paths ≡ ps
        → Tracks ctx (start_front ctx freed ps) (log ++ (p, result) ∷ []) h
    unfolding start_front freed
    start_front-Tracks [] h e = omega (
      arith,
      v.tracks h,
      (take_at-count ctx i s.handle_store_paths p rest h found).0,
      count-paths-append h log p result,
      ap (λ ps. count h (hashes ctx ps)) e,
    )
    start_front-Tracks (q ∷ qs) h e = omega (
      arith,
      v.tracks h,
      (take_at-count ctx i s.handle_store_paths p rest h found).0,
      count-paths-append h log p result,
      ap (λ ps. count h (hashes ctx ps)) e,
      count-hashes-append ctx h rest (q ∷ []),
    )

    start_front-IsBounded :
        (ps : List StorePath)
        → s.pending_handle_store_paths ≡ ps
        → IsBounded ctx (start_front ctx freed ps)
    unfolding start_front freed
    start_front-IsBounded [] e =
        let n = (take_at-count ctx i s.handle_store_paths p rest 0 found).1 in
        record { bounded = omega (arith, n, v.is_bounded.bounded); busy = inl e }
    start_front-IsBounded (q ∷ qs) e =
        let n = (take_at-count ctx i s.handle_store_paths p rest 0 found).1 in
        let full = full_of v.is_bounded e in
        let m = length-append rest (q ∷ []) in
        record { bounded = omega (arith, n, full, m); busy = inr (omega (arith, n, full, m)) }

    start_front-report :
        (ps : List StorePath) → (start_front ctx freed ps).report ≡ tally ctx s.report p result
    unfolding start_front freed
    start_front-report [] = refl
    start_front-report (q ∷ qs) = refl

    pub on_handled-Inv :
        Inv ctx
          (on_handled ctx (record s { handle_store_paths = rest }) p result)
          (log ++ (p, result) ∷ [])
    unfolding on_handled freed
    on_handled-Inv = record {
      is_bounded = start_front-IsBounded s.pending_handle_store_paths refl;
      tracks = λ h. start_front-Tracks s.pending_handle_store_paths h refl;
      summary =
          rw (start_front-report s.pending_handle_store_paths)
            (tally-Summarises s.report log p result v.summary);
    }
