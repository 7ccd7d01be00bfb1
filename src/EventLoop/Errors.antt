-- ===== src/EventLoop/Errors.antt =====
-- What the clients of src/event_loop.rs send that is no message: `ctx.handle_rx_error` gets each of it.
use cache_action.Base.{
  ◌≡◌, refl, sym, ap, ◌∙◌, List, [], ◌∷◌, ◌++◌, some, ok, err, arith, append-nil, append_assoc,
  Option-cases, inl, inr,
}
use cache_action.Protocol.{ReceiveError}
use cache_action.EventLoop.{Context, State, push_store_path, stop, take_at}
use cache_action.EventLoop.Select.{
  enqueue, enqueue_all, on_closure, start_front, tally, on_handled, on_message, Choice, Closure,
  accepted, message, closure, handled, select, run_loop,
}
use cache_action.EventLoop.Invariant.Loop.{run_loop-nil, run_loop-cons}

module _ (ctx : Context) where
  open ctx use {StorePath, ParseError}

  -- The errors among the messages.
  abbrev pub errors_in : List (Choice ctx) → List (ReceiveError ParseError)
  errors_in [] = []
  errors_in (message (ok m) ∷ cs) = errors_in cs
  errors_in (message (err e) ∷ cs) = e ∷ errors_in cs
  errors_in (accepted ∷ cs) = errors_in cs
  errors_in (closure i r ∷ cs) = errors_in cs
  errors_in (handled i r ∷ cs) = errors_in cs

  enqueue_all-errors :
      (ps : List StorePath) (s : State ctx) → (enqueue_all ctx s ps).rx_errors ≡ s.rx_errors
  unfolding enqueue_all enqueue
  enqueue_all-errors [] s = refl
  enqueue_all-errors (p ∷ ps) s = enqueue_all-errors ps (enqueue ctx s p) ∙ ground arith

  on_closure-errors :
      (s : State ctx) (p : StorePath) (r : Closure ctx)
      → (on_closure ctx s p r).rx_errors ≡ s.rx_errors
  unfolding on_closure
  on_closure-errors s p (ok ps) = enqueue_all-errors ps s
  on_closure-errors s p (err e) = refl

  start_front-errors :
      (s : State ctx) (ps : List StorePath) → (start_front ctx s ps).rx_errors ≡ s.rx_errors
  unfolding start_front
  start_front-errors s [] = refl
  start_front-errors s (p ∷ ps) = refl

  gone_on : {s t : State ctx} → some s ≡ some t → s ≡ t
  gone_on e = cc

  select-errors :
      (s t : State ctx) (c : Choice ctx)
      → select ctx s c ≡ some t
      → t.rx_errors ≡ s.rx_errors ++ errors_in (c ∷ [])
  unfolding select on_message on_handled
  select-errors s t (accepted) e =
      ap (λ (v : State ctx). v.rx_errors) (sym (gone_on e)) ∙ sym (append-nil s.rx_errors)
  select-errors s t (message (ok (push_store_path p))) e =
      ap (λ (v : State ctx). v.rx_errors) (sym (gone_on e)) ∙ sym (append-nil s.rx_errors)
  select-errors s t (message (ok (stop w))) e =
      ap (λ (v : State ctx). v.rx_errors) (sym (gone_on e)) ∙ sym (append-nil s.rx_errors)
  select-errors s t (message (err x)) e = ground arith
  select-errors s t (closure i r) e = elim (Option-cases (take_at i s.store_closures)) [
    | inl gone ↦ absurd (ground arith)
    | inr ((p, rest), found) ↦
        let u : State ctx = record s { store_closures = rest } in
        let same : on_closure ctx u p r ≡ t = ground arith in
        ap (λ (v : State ctx). v.rx_errors) (sym same)
        ∙ on_closure-errors u p r
        ∙ sym (append-nil s.rx_errors)
  ]
  select-errors s t (handled i r) e = elim (Option-cases (take_at i s.handle_store_paths)) [
    | inl gone ↦ absurd (ground arith)
    | inr ((p, rest), found) ↦
        let u : State ctx = record s {
          handle_store_paths = rest;
          report = tally ctx s.report p r;
        } in
        let same : start_front ctx u s.pending_handle_store_paths ≡ t = ground arith in
        ap (λ (v : State ctx). v.rx_errors) (sym same)
        ∙ start_front-errors u s.pending_handle_store_paths
        ∙ sym (append-nil s.rx_errors)
  ]

  errors_in-cons :
      (c : Choice ctx) (cs : List (Choice ctx))
      → errors_in (c ∷ cs) ≡ errors_in (c ∷ []) ++ errors_in cs
  errors_in-cons (accepted) cs = refl
  errors_in-cons (message (ok m)) cs = refl
  errors_in-cons (message (err e)) cs = refl
  errors_in-cons (closure i r) cs = refl
  errors_in-cons (handled i r) cs = refl

  -- The main loop passes on just the errors that it receives, in order.
  pub run_loop-errors :
      (cs : List (Choice ctx)) (s t : State ctx)
      → run_loop ctx s cs ≡ some t
      → t.rx_errors ≡ s.rx_errors ++ errors_in cs
  run_loop-errors [] s t e =
      ap (λ (v : State ctx). v.rx_errors) (sym (run_loop-nil ctx s e).0)
      ∙ sym (append-nil s.rx_errors)
  run_loop-errors (c ∷ cs) s t e =
      let (u, went, later) = run_loop-cons ctx s c cs e in
      run_loop-errors cs u t later
      ∙ ap (λ es. es ++ errors_in cs) (select-errors s u c went)
      ∙ append_assoc s.rx_errors (errors_in (c ∷ [])) (errors_in cs)
      ∙ ap (◌++◌ s.rx_errors) (sym (errors_in-cons c cs))
