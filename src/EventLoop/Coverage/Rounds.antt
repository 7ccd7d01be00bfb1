-- ===== src/EventLoop/Coverage/Rounds.antt =====
-- The closures along the main loop of `run` in src/event_loop.rs.
use cache_action.Base.{
  ℕ, ◌+◌, ◌≡◌, refl, ap, ◌∙◌, Bool, true, false, ◌||◌, List, [], ◌∷◌, ◌++◌, some, count, ok, err,
  arith, subst, append-nil, Option-cases, inl, inr,
}
use cache_action.EventLoop.{
  Context, State, Handled, Received, push_store_path, stop, member, take_at,
}
use cache_action.EventLoop.Select.{
  on_closure, start_front, tally, on_handled, on_message, Choice, accepted, message, closure,
  handled, select, Closure,
}
use cache_action.EventLoop.Invariant.{hashes, count-hashes-append, take_at-count}
use cache_action.EventLoop.Coverage.{
  pushed_paths, ClosureLog, closure_entry, roots, closure_paths, closure_errors,
}
use cache_action.EventLoop.Coverage.Enqueue.{enqueue_all-member, enqueue_all-closures}

module _ (ctx : Context) where
  open ctx use {StorePath, hash}

  -- What rounds that pushed and closed these paths have changed.
  pub record Changes (s t : State ctx) (pushed : List StorePath) (log : ClosureLog ctx)
      : Type 0 where
    pub seen :
        (h : ℕ)
        → member h t.seen_store_hashes
          ≡ (member h s.seen_store_hashes || member h (hashes ctx (closure_paths ctx log)))
    pub closures :
        (h : ℕ)
        → count h (hashes ctx t.store_closures) + count h (hashes ctx (roots ctx log))
          ≡ count h (hashes ctx s.store_closures) + count h (hashes ctx pushed)
    pub errors :
        t.report.path_closure_errors ≡ s.report.path_closure_errors ++ closure_errors ctx log

  or-false : (b : Bool) → (b || false) ≡ b
  or-false true = refl
  or-false false = refl

  pub Changes-none :
      (s t : State ctx)
      → t.seen_store_hashes ≡ s.seen_store_hashes
      → t.store_closures ≡ s.store_closures
      → t.report.path_closure_errors ≡ s.report.path_closure_errors
      → Changes s t [] []
  Changes-none s t e f g = record {
    seen = λ h. rw (e, or-false);
    closures = λ h. rw f;
    errors = rw (g, append-nil);
  }

  start_front-same :
      (s : State ctx) (ps : List StorePath)
      → ((start_front ctx s ps).seen_store_hashes ≡ s.seen_store_hashes)
        × ((start_front ctx s ps).store_closures ≡ s.store_closures)
        × ((start_front ctx s ps).report ≡ s.report)
  unfolding start_front
  start_front-same s [] = (refl, refl, refl)
  start_front-same s (p ∷ ps) = (refl, refl, refl)

  tally-closure_errors :
      (s : State ctx) (p : StorePath) (r : Handled ctx)
      → (tally ctx s.report p r).path_closure_errors ≡ s.report.path_closure_errors
  unfolding tally
  tally-closure_errors s p r = ground arith

  pub on_handled-Changes :
      (s : State ctx) (rest : List StorePath) (p : StorePath) (r : Handled ctx)
      → Changes s (on_handled ctx (record s { handle_store_paths = rest }) p r) [] []
  unfolding on_handled
  on_handled-Changes s rest p r =
      let u : State ctx = record s { handle_store_paths = rest; report = tally ctx s.report p r } in
      let (a, b, c) = start_front-same u s.pending_handle_store_paths in
      Changes-none s _ a b (ap (λ x. x.path_closure_errors) c ∙ tally-closure_errors s p r)

  on_message-Changes :
      (s : State ctx) (m : Received ctx)
      → Changes s (on_message ctx s m) (pushed_paths ctx (message m ∷ [])) []
  unfolding on_message
  on_message-Changes s (ok (push_store_path p)) = record {
    seen = λ h. rw or-false;
    closures = λ h. omega (arith, count-hashes-append ctx h s.store_closures (p ∷ []));
    errors = rw append-nil;
  }
  on_message-Changes s (ok (stop w)) = Changes-none s _ refl refl refl
  on_message-Changes s (err e) = Changes-none s _ refl refl refl

  on_closure-Changes :
      (s : State ctx) (i : ℕ) (rest : List StorePath) (p : StorePath) (r : Closure ctx)
      → take_at i s.store_closures ≡ some (p, rest)
      → Changes s (on_closure ctx (record s { store_closures = rest }) p r) [] ((p, r) ∷ [])
  unfolding on_closure
  on_closure-Changes s i rest p (ok ps) found =
      let u : State ctx = record s { store_closures = rest } in
      let same = enqueue_all-closures ctx ps u in
      record {
        seen = λ h. enqueue_all-member ctx h ps u ∙ rw append-nil;
        closures =
            λ h. rw same.0 (omega (arith, (take_at-count ctx i s.store_closures p rest h found).0));
        errors = ap (λ x. x.path_closure_errors) same.1 ∙ rw append-nil;
      }
  on_closure-Changes s i rest p (err e) found = record {
    seen = λ h. rw or-false;
    closures = λ h. omega (arith, (take_at-count ctx i s.store_closures p rest h found).0);
    errors = refl;
  }

  pub select-Changes :
      (s t : State ctx) (c : Choice ctx)
      → select ctx s c ≡ some t
      → Changes s t (pushed_paths ctx (c ∷ [])) (closure_entry ctx s c)
  unfolding select closure_entry
  select-Changes s t (accepted) e =
      subst (λ u. Changes s u [] []) (cc) (Changes-none s s refl refl refl)
  select-Changes s t (message m) e =
      subst (λ u. Changes s u (pushed_paths ctx (message m ∷ [])) []) (cc) (on_message-Changes s m)
  select-Changes s t (closure i r) e = elim (Option-cases (take_at i s.store_closures)) [
    | inl gone ↦ absurd (ground arith)
    | inr ((p, rest), found) ↦
        rw (found, closure_entry)
          (subst (λ u. Changes s u [] ((p, r) ∷ [])) (ground arith)
            (on_closure-Changes s i rest p r found))
  ]
  select-Changes s t (handled i r) e = elim (Option-cases (take_at i s.handle_store_paths)) [
    | inl gone ↦ absurd (ground arith)
    | inr ((p, rest), found) ↦
        subst (λ u. Changes s u [] []) (ground arith) (on_handled-Changes s rest p r)
  ]
