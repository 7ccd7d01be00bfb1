-- ===== src/EventLoop/Coverage/Loop.antt =====
-- The closures over the whole of the main loop of `run` in src/event_loop.rs.
use cache_action.Base.{
  ◌≡◌, refl, sym, ap, ◌∙◌, Bool, true, false, ◌||◌, List, [], ◌∷◌, ◌++◌, some, count, ok, err,
  arith, subst, append_assoc,
}
use cache_action.EventLoop.{Context, State, push_store_path, stop}
use cache_action.EventLoop.Select.{Choice, accepted, message, closure, handled, select, run_loop}
use cache_action.EventLoop.Invariant.{hashes, count-hashes-append}
use cache_action.EventLoop.Invariant.Loop.{run_loop-nil, run_loop-cons}
use cache_action.EventLoop.Coverage.{
  pushed_paths, ClosureLog, closure_entry, closure_log, roots, closure_paths, closure_errors,
}
use cache_action.EventLoop.Coverage.Enqueue.{member-hashes-append}
use cache_action.EventLoop.Coverage.Rounds.{Changes, Changes-none, select-Changes}

module _ (ctx : Context) where
  open ctx use {StorePath, hash}

  closure_log-cons :
      (s u : State ctx) (c : Choice ctx) (cs : List (Choice ctx))
      → select ctx s c ≡ some u
      → closure_log ctx s (c ∷ cs) ≡ closure_entry ctx s c ++ closure_log ctx u cs
  unfolding closure_log
  closure_log-cons s u c cs e = ground arith

  or_assoc : (a b c : Bool) → ((a || b) || c) ≡ (a || (b || c))
  or_assoc true b c = refl
  or_assoc false b c = refl

  closure_paths-append :
      (xs ys : ClosureLog ctx)
      → closure_paths ctx (xs ++ ys) ≡ closure_paths ctx xs ++ closure_paths ctx ys
  closure_paths-append [] ys = refl
  closure_paths-append ((p, ok ps) ∷ xs) ys =
      rw (closure_paths-append xs ys)
        (sym (append_assoc ps (closure_paths ctx xs) (closure_paths ctx ys)))
  closure_paths-append ((p, err e) ∷ xs) ys = closure_paths-append xs ys

  roots-append : (xs ys : ClosureLog ctx) → roots ctx (xs ++ ys) ≡ roots ctx xs ++ roots ctx ys
  roots-append [] ys = refl
  roots-append ((p, r) ∷ xs) ys = ap (◌∷◌ p) (roots-append xs ys)

  closure_errors-append :
      (xs ys : ClosureLog ctx)
      → closure_errors ctx (xs ++ ys) ≡ closure_errors ctx xs ++ closure_errors ctx ys
  closure_errors-append [] ys = refl
  closure_errors-append ((p, ok ps) ∷ xs) ys = closure_errors-append xs ys
  closure_errors-append ((p, err e) ∷ xs) ys = ap (◌∷◌ (p, e)) (closure_errors-append xs ys)

  Changes-trans :
      (s t u : State ctx) (ps qs : List StorePath) (xs ys : ClosureLog ctx)
      → Changes ctx s t ps xs
      → Changes ctx t u qs ys
      → Changes ctx s u (ps ++ qs) (xs ++ ys)
  Changes-trans s t u ps qs xs ys a b = record {
    seen = λ h.
        b.seen h
        ∙ rw (
          a.seen h,
          closure_paths-append xs ys,
          member-hashes-append ctx h (closure_paths ctx xs) (closure_paths ctx ys),
          or_assoc,
        );
    closures = λ h. omega (
      arith,
      a.closures h,
      b.closures h,
      count-hashes-append ctx h ps qs,
      ap (λ r. count h (hashes ctx r)) (roots-append xs ys),
      count-hashes-append ctx h (roots ctx xs) (roots ctx ys),
    );
    errors =
        b.errors
        ∙ rw (a.errors, closure_errors-append xs ys)
            (append_assoc s.report.path_closure_errors (closure_errors ctx xs)
              (closure_errors ctx ys));
  }

  pub pushed_paths-cons :
      (c : Choice ctx) (cs : List (Choice ctx))
      → pushed_paths ctx (c ∷ cs) ≡ pushed_paths ctx (c ∷ []) ++ pushed_paths ctx cs
  pushed_paths-cons (message (ok (push_store_path p))) cs = refl
  pushed_paths-cons (message (ok (stop w))) cs = refl
  pushed_paths-cons (message (err e)) cs = refl
  pushed_paths-cons (accepted) cs = refl
  pushed_paths-cons (closure i r) cs = refl
  pushed_paths-cons (handled i r) cs = refl

  closure_log-nil : (s : State ctx) → closure_log ctx s [] ≡ []
  unfolding closure_log
  closure_log-nil s = refl

  -- Over the main loop: the hashes seen are those of the closures' paths, each pushed path is waiting
  -- or has had its closure computed, and the report has the closures' errors, in order.
  pub run_loop-Changes :
      (cs : List (Choice ctx)) (s : State ctx) {t : State ctx}
      → run_loop ctx s cs ≡ some t
      → Changes ctx s t (pushed_paths ctx cs) (closure_log ctx s cs)
  run_loop-Changes [] s {t} e = rw (closure_log-nil s) (
      subst (λ u. Changes ctx s u [] []) (run_loop-nil ctx s e).0
        (Changes-none ctx s s refl refl refl))
  run_loop-Changes (c ∷ cs) s {t} e =
      let (u, went, later) = run_loop-cons ctx s c cs e in
      rw (closure_log-cons s u c cs went, pushed_paths-cons c cs)
        (Changes-trans s u t _ _ _ _ (select-Changes ctx s u c went) (run_loop-Changes cs u later))
