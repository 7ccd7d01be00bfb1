-- ===== src/EventLoop/Ends.antt =====
-- `run` of src/event_loop.rs always can be brought to its end.
use cache_action.Base.{
  ℕ, zero, suc, ◌≡◌, refl, ◌∙◌, ap, true, false, List, [], ◌∷◌, ◌++◌, Option, none, some, length,
  arith, ok, Bool-cases, Option-cases, inl, inr, subst,
}
use cache_action.EventLoop.{Context, Handled, State, initial, stop}
use cache_action.EventLoop.Select.{Choice, Closure, message, select, breaks, run_loop}
use cache_action.EventLoop.Drain.{Report, Completion, left_to_handle, run}
use cache_action.EventLoop.Finish.{in_order}
use cache_action.EventLoop.Account.{run_parts, run_total}
use cache_action.EventLoop.Stops.{closures_in_order, run_loop-stop}

module _ (ctx : Context) where
  open ctx use {ConnectionWriter}

  -- The state after these rounds of the main loop, before all of which its test let it go on.
  unfoldable pub still_running : State ctx → List (Choice ctx) → Option (State ctx)
  unfolding select
  still_running s [] = some s
  still_running s (c ∷ cs) = elim (breaks ctx s) [
    | true ↦ none
    | false ↦ elim (select ctx s c) [ none ↦ none | some t ↦ still_running t cs ]
  ]

  run_loop-still_running :
      (cs ds : List (Choice ctx)) (s t : State ctx)
      → still_running s cs ≡ some t
      → run_loop ctx s (cs ++ ds) ≡ run_loop ctx t ds
  unfolding still_running run_loop
  run_loop-still_running [] ds s t e = ap (λ u. run_loop ctx u ds) (cc)
  run_loop-still_running (c ∷ cs) ds s t e = elim (Bool-cases (breaks ctx s)) [
    | inl over ↦ absurd (ground arith)
    | inr going ↦ elim (Option-cases (select ctx s c)) [
      | inl gone ↦ absurd (ground arith)
      | inr (u, went) ↦ ground (arith, going, went, run_loop-still_running cs ds u t (ground arith))
    ]
  ]

  -- The results that paths give, from the first on.
  abbrev pub first_results : (ℕ → Handled ctx) → ℕ → List (Handled ctx)
  first_results result zero = []
  first_results result (suc n) = result n ∷ first_results result n

  length-first_results : (result : ℕ → Handled ctx) (n : ℕ) → length (first_results result n) ≡ n
  length-first_results result zero = refl
  length-first_results result (suc n) = omega (arith, length-first_results result n)

  writer_of :
      (cs : List (Choice ctx)) (ds : List (Completion ctx)) (t : State ctx) (v w : ConnectionWriter)
      (calls : List (Report ctx))
      → run_loop ctx (initial ctx) cs ≡ some t
      → t.stop_progress_writer ≡ some w
      → run ctx cs ds ≡ some (v, calls)
      → v ≡ w
  writer_of cs ds t v w calls ended kept whole =
      let (u, x, progress, again, writer, drained, all) = run_parts ctx cs ds v calls whole in
      let there : u ≡ t = cc in cc

  -- Whatever the main loop has done so far, and whatever results the closures in work and then the paths
  -- that are left give: from a stop on, it takes one round for each of those closures and one completion
  -- for each of those paths until `run` has ended and the client that asked for it has its report.
  pub run_stops :
      (cs : List (Choice ctx)) (s : State ctx) (w : ConnectionWriter) (rs : List (Closure ctx))
      (result : ℕ → Handled ctx)
      → still_running (initial ctx) cs ≡ some s
      → breaks ctx s ≡ false
      → length rs ≡ length s.store_closures
      → (left : ℕ) × (calls : List (Report ctx)) × (run ctx
            (cs ++ message (ok (stop w)) ∷ closures_in_order ctx rs)
            (in_order ctx (first_results result left))
          ≡ some (w, calls))
  run_stops cs s w rs result reached going n =
      let all = cs ++ message (ok (stop w)) ∷ closures_in_order ctx rs in
      let (t, later, kept) = run_loop-stop ctx s w rs going n in
      let ended : run_loop ctx (initial ctx) all ≡ some t =
        run_loop-still_running cs (message (ok (stop w)) ∷ closures_in_order ctx rs) (initial ctx) s
          reached
        ∙ later in
      let left = left_to_handle ctx t in
      let us = first_results result left in
      let (v, calls, whole) = run_total ctx all us t ended (length-first_results result left) in
      (
        left,
        calls,
        subst (λ y. run ctx all (in_order ctx us) ≡ some (y, calls))
            (writer_of all (in_order ctx us) t v w calls ended kept whole) whole,
      )
