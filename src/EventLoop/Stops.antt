-- ===== src/EventLoop/Stops.antt =====
-- After a stop the main loop of `run` in src/event_loop.rs ends, once its closures are there.
use cache_action.Base.{
  ℕ, ◌≡◌, refl, ◌∙◌, false, List, [], ◌∷◌, some, length, map, arith, ok, err, ap, sym, Option-cases,
  inl, inr,
}
use cache_action.EventLoop.{Context, Handled, State, stop, take_at}
use cache_action.EventLoop.Select.{
  enqueue, enqueue_all, on_closure, start_front, tally, on_handled, on_message, Choice, Closure,
  message, closure, handled, select, breaks, run_loop,
}
use cache_action.EventLoop.Coverage.Enqueue.{enqueue_all-closures}

module _ (ctx : Context) where
  open ctx use {StorePath, ConnectionWriter}

  enqueue-writer :
      (s : State ctx) (p : StorePath)
      → (enqueue ctx s p).stop_progress_writer ≡ s.stop_progress_writer
  unfolding enqueue
  enqueue-writer s p = ground arith

  enqueue_all-writer :
      (ps : List StorePath) (s : State ctx)
      → (enqueue_all ctx s ps).stop_progress_writer ≡ s.stop_progress_writer
  unfolding enqueue_all
  enqueue_all-writer [] s = refl
  enqueue_all-writer (p ∷ ps) s = enqueue_all-writer ps (enqueue ctx s p) ∙ enqueue-writer s p

  pub on_closure-writer :
      (s : State ctx) (p : StorePath) (r : Closure ctx)
      → ((on_closure ctx s p r).stop_progress_writer ≡ s.stop_progress_writer)
        × ((on_closure ctx s p r).store_closures ≡ s.store_closures)
  unfolding on_closure
  on_closure-writer s p (ok ps) = (enqueue_all-writer ps s, (enqueue_all-closures ctx ps s).0)
  on_closure-writer s p (err e) = (refl, refl)

  start_front-writer :
      (s : State ctx) (ps : List StorePath)
      → (start_front ctx s ps).stop_progress_writer ≡ s.stop_progress_writer
  unfolding start_front
  start_front-writer s [] = refl
  start_front-writer s (p ∷ ps) = refl

  -- A closure or a path that is done changes nothing about who asked for the stop.
  pub select_closure-writer :
      (s t : State ctx) (i : ℕ) (r : Closure ctx)
      → select ctx s (closure i r) ≡ some t
      → t.stop_progress_writer ≡ s.stop_progress_writer
  unfolding select
  select_closure-writer s t i r e = elim (Option-cases (take_at i s.store_closures)) [
    | inl gone ↦ absurd (ground arith)
    | inr ((p, rest), found) ↦
        let u : State ctx = record s { store_closures = rest } in
        let same : on_closure ctx u p r ≡ t = ground arith in
        ap (λ (v : State ctx). v.stop_progress_writer) (sym same) ∙ (on_closure-writer u p r).0
  ]

  pub select_handled-writer :
      (s t : State ctx) (i : ℕ) (r : Handled ctx)
      → select ctx s (handled i r) ≡ some t
      → t.stop_progress_writer ≡ s.stop_progress_writer
  unfolding select on_handled
  select_handled-writer s t i r e = elim (Option-cases (take_at i s.handle_store_paths)) [
    | inl gone ↦ absurd (ground arith)
    | inr ((p, rest), found) ↦
        let u : State ctx = record s {
          handle_store_paths = rest;
          report = tally ctx s.report p r;
        } in
        let same : start_front ctx u s.pending_handle_store_paths ≡ t = ground arith in
        ap (λ (v : State ctx). v.stop_progress_writer) (sym same)
        ∙ start_front-writer u s.pending_handle_store_paths
  ]

  -- The first closure is done, again and again.
  abbrev pub closures_in_order : List (Closure ctx) → List (Choice ctx)
  closures_in_order = map λ r. closure 0 r

  closures_done :
      (rs : List (Closure ctx)) (s : State ctx) (w : ConnectionWriter) (ps : List StorePath)
      → s.stop_progress_writer ≡ some w
      → s.store_closures ≡ ps
      → length rs ≡ length ps
      → (t : State ctx) × (run_loop ctx s (closures_in_order rs) ≡ some t)
        × (t.stop_progress_writer ≡ some w)
  unfolding run_loop take_at
  closures_done [] s w [] e f n = (s, ground arith, e)
  closures_done (r ∷ rs) s w [] e f n = absurd (omega (arith, n))
  closures_done [] s w (p ∷ ps) e f n = absurd (omega (arith, n))
  closures_done (r ∷ rs) s w (p ∷ ps) e f n =
      let u : State ctx = record s { store_closures = ps } in
      let (writer, closures) = on_closure-writer u p r in
      let (t, later, kept) =
        closures_done rs (on_closure ctx u p r) w ps (writer ∙ e) closures (omega (arith, n)) in
      (t, ground (arith, e, f, later), kept)

  -- Whatever the main loop has done so far, a stop ends it as soon as the closures that are being
  -- computed are done, one by one, with whatever results.
  pub run_loop-stop :
      (s : State ctx) (w : ConnectionWriter) (rs : List (Closure ctx))
      → breaks ctx s ≡ false
      → length rs ≡ length s.store_closures
      → (t : State ctx) × (run_loop ctx s (message (ok (stop w)) ∷ closures_in_order rs) ≡ some t)
        × (t.stop_progress_writer ≡ some w)
  unfolding run_loop on_message
  run_loop-stop s w rs going n =
      let u : State ctx = record s { stop_progress_writer = some w } in
      let (t, later, kept) = closures_done rs u w s.store_closures refl refl n in
      (t, ground (arith, going, later), kept)
