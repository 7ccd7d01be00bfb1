-- ===== src/Daemon/Served.antt =====
-- The daemon of src/event_loop.rs, from the bytes that a client sends to the paths that are handled.
use cache_action.Base.{
  ℕ, zero, suc, ◌≤◌, ◌≡◌, refl, ◌∙◌, ◌⊎◌, true, List, [], ◌∷◌, some, count, map, ◌==◌, ==_iff, ok,
  err, arith, Bool-cases, Option-cases, inl, inr, subst,
}
use cache_action.Protocol.{Message}
use cache_action.EventLoop.{Context, initial, member}
use cache_action.EventLoop.Select.{Choice}
use cache_action.EventLoop.Drain.{Report, Completion, drain, report_stop}
use cache_action.EventLoop.Invariant.{hashes, paths}
use cache_action.EventLoop.Coverage.{
  ClosureLog, closure_log, roots, closure_paths, closure_errors, pushed_paths,
}
use cache_action.EventLoop.Coverage.Enqueue.{member-hashes-append}
use cache_action.EventLoop.Account.{Account, full_log, run-Account}
use cache_action.Daemon.{Connection, Daemon, listening, Turn, main_loop, serve}
use cache_action.Daemon.Refines.{choices_of, serve-run}
use cache_action.Daemon.Receives.{before_stop, Among, Carries, main_loop-receives}

zero_or_more : (n : ℕ) → (n ≡ 0) ⊎ (1 ≤ n)
zero_or_more zero = inl refl
zero_or_more (suc n) = inr (omega arith)

module _ (ctx : Context) where
  open ctx use {StorePath, StoreClosureError, ConnectionWriter, hash}

  -- A path stands in its own closure.
  abbrev pub AreClosures : ClosureLog ctx → Type 0
  AreClosures [] = Unit {0}
  AreClosures ((p, ok ps) ∷ log) = (member (hash p) (hashes ctx ps) ≡ true) × AreClosures log
  AreClosures ((p, err e) ∷ log) = AreClosures log

  abbrev pub failed_roots : List (StorePath × StoreClosureError) → List StorePath
  failed_roots = map λ e. e.0

  -- A path whose closure was computed stands in a closure, or had none.
  root_closed :
      (log : ClosureLog ctx) (h : ℕ)
      → AreClosures log
      → 1 ≤ count h (hashes ctx (roots ctx log))
      → (member h (hashes ctx (closure_paths ctx log)) ≡ true)
        ⊎ (1 ≤ count h (hashes ctx (failed_roots (closure_errors ctx log))))
  root_closed [] h own some_root = absurd (omega (arith, some_root))
  root_closed ((p, ok ps) ∷ log) h own some_root =
      let both = member-hashes-append ctx h ps (closure_paths ctx log) in
      elim (Bool-cases (hash p == h)) [
        | inl same ↦
            let e : hash p ≡ h = (==_iff (hash p) h).0 same in
            let first : member h (hashes ctx ps) ≡ true =
              subst (λ k. member k (hashes ctx ps) ≡ true) e own.0 in
            inl (ground (arith, both, first))
        | inr other ↦ elim (root_closed log h own.1 (ground (arith, some_root))) [
          | inl later ↦ inl (ground (arith, both, later))
          | inr failed ↦ inr failed
        ]
      ]
  root_closed ((p, err e) ∷ log) h own some_root = elim (Bool-cases (hash p == h)) [
    | inl same ↦ inr (ground arith)
    | inr other ↦ elim (root_closed log h own (ground (arith, some_root))) [
      | inl later ↦ inl later
      | inr failed ↦ inr (omega (arith, failed))
    ]
  ]

  serve_parts :
      (connections : List (Connection ctx)) (ts : List (Turn ctx)) (ds : List (Completion ctx))
      (w : ConnectionWriter) (calls : List (Report ctx))
      → serve ctx connections ts ds ≡ some (w, calls)
      → (d : Daemon ctx) × (main_loop ctx (listening ctx connections) ts ≡ some d)
        × (d.state.stop_progress_writer ≡ some w)
  unfolding serve report_stop
  serve_parts connections ts ds w calls e =
      elim (Option-cases (main_loop ctx (listening ctx connections) ts)) [
        | inl stuck ↦ absurd (ground arith)
        | inr (d, went) ↦ elim (Option-cases d.state.stop_progress_writer) [
          | inl silent ↦ absurd (ground arith)
          | inr (v, stopped) ↦ elim (Option-cases (drain ctx d.state ds)) [
            | inl stuck ↦ absurd (ground arith)
            | inr (p, drained) ↦ (d, went, ground arith)
          ]
        ]
      ]

  abbrev pub all_choices : List (Connection ctx) → List (Turn ctx) → List (Choice ctx)
  all_choices connections ts = choices_of ctx (listening ctx connections) ts

  abbrev pub closures : List (Connection ctx) → List (Turn ctx) → ClosureLog ctx
  closures connections ts = closure_log ctx (initial ctx) (all_choices connections ts)

  -- How the daemon has served the client that stopped it, after `ms`.
  module _ (connections : List (Connection ctx)) (ts : List (Turn ctx)) (ds : List (Completion ctx))
      (c : Connection ctx) (ms : List (Message StorePath)) (calls : List (Report ctx)) where
    pub record Served : Type 0 where
      pub account : Account ctx (all_choices connections ts) ds c.writer calls
      pub received :
          (h : ℕ)
          → count h (hashes ctx (before_stop ctx ms))
            ≤ count h (hashes ctx (pushed_paths ctx (all_choices connections ts)))
      pub handled :
          (h : ℕ)
          → (count h (hashes ctx (pushed_paths ctx (all_choices connections ts))) ≡ 0)
            ⊎ (count h (
                  hashes ctx
                    (paths ctx (full_log ctx (all_choices connections ts) ds account.stopped)))
                ≡ 1)
            ⊎ (1 ≤ count h (hashes ctx (failed_roots account.last.report.path_closure_errors)))

    -- If closures have the paths that they are of: when the daemon has come to its end for a client, it
    -- has received each push that the client sent before its stop; and each path that was received, of
    -- this client or another, was handled, just once, or is among those that the report says have no
    -- closure. So it is whatever the other clients send, and in whatever order the tasks and the loop
    -- move.
    pub serve-Served :
        AreClosures (closures connections ts)
        → Among ctx connections c
        → Carries ctx c ms
        → serve ctx connections ts ds ≡ some (c.writer, calls)
        → Served
    serve-Served own among carries e =
        let a =
          run-Account ctx (all_choices connections ts) ds c.writer calls
            (serve-run ctx connections ts ds e) in
        let (d, went, stopped) = serve_parts connections ts ds c.writer calls e in
        record {
          account = a;
          received = λ h. main_loop-receives ctx connections c ms ts d h among carries went stopped;
          handled = λ h.
              elim (zero_or_more
                (count h (hashes ctx (pushed_paths ctx (all_choices connections ts))))) [
                  | inl never ↦ inl never
                  | inr pushed ↦
                      elim (root_closed (closures connections ts) h own
                        (omega (arith, a.closed h, pushed))) [
                          | inl there ↦ inr (inl (a.once h ∙ rw there refl))
                          | inr failed ↦ inr (inr (rw a.errors failed))
                        ]
                ];
        }
