-- ===== src/EventLoop/Invariant/Loop.antt =====
-- The main loop of `run` in src/event_loop.rs keeps the invariant, to its end.
use cache_action.Base.{
  ◌≡◌, refl, true, List, [], ◌∷◌, ◌++◌, some, arith, Bool-cases, Option-cases, inl, inr, subst,
}
use cache_action.EventLoop.{Context, State, initial, take_at}
use cache_action.EventLoop.Select.{
  Choice, accepted, message, closure, handled, select, run_loop, breaks,
}
use cache_action.EventLoop.Invariant.{Log, Inv, extend, log_of}
use cache_action.EventLoop.Invariant.Rounds.{alike-Inv, on_closure-Inv, on_message-Inv}
use cache_action.EventLoop.Invariant.Results.{on_handled-Inv}

module _ (ctx : Context) where
  select-Inv :
      (s : State ctx) (log : Log ctx) (c : Choice ctx) {t : State ctx}
      → Inv ctx s log
      → select ctx s c ≡ some t
      → Inv ctx t (extend ctx s c log)
  unfolding select extend
  select-Inv s log (accepted) v e = subst (λ u. Inv ctx u log) (cc) v
  select-Inv s log (message m) v e = subst (λ u. Inv ctx u log) (cc) (on_message-Inv ctx log s m v)
  select-Inv s log (closure i result) v e = elim (Option-cases (take_at i s.store_closures)) [
    | inl gone ↦ absurd (ground arith)
    | inr ((p, rest), found) ↦
        let u : State ctx = record s { store_closures = rest } in
        subst (λ w. Inv ctx w log) (ground arith)
          (on_closure-Inv ctx log u p result (alike-Inv ctx log s u refl refl refl v.summary v))
  ]
  select-Inv s log (handled i result) v e = elim (Option-cases (take_at i s.handle_store_paths)) [
    | inl gone ↦ absurd (ground arith)
    | inr ((p, rest), found) ↦
        rw (found, extend)
          (subst (λ w. Inv ctx w (log ++ (p, result) ∷ [])) (ground arith)
            (on_handled-Inv ctx s log i p rest result v found))
  ]

  pub initial-Inv : Inv ctx (initial ctx) []
  initial-Inv = record {
    is_bounded = record { bounded = omega arith; busy = inl refl };
    tracks = λ h. (omega arith, omega arith);
    summary = record { bytes = refl; pushed = refl; skipped = refl; errors = refl };
  }

  pub run_loop-nil :
      (s : State ctx) {t : State ctx} → run_loop ctx s [] ≡ some t → (s ≡ t) × (breaks ctx s ≡ true)
  unfolding run_loop
  run_loop-nil s e = elim (Bool-cases (breaks ctx s)) [
    | inl b ↦ (ground arith, b)
    | inr b ↦ absurd (ground arith)
  ]

  pub run_loop-cons :
      (s : State ctx) (c : Choice ctx) (cs : List (Choice ctx)) {t : State ctx}
      → run_loop ctx s (c ∷ cs) ≡ some t
      → (u : State ctx) × (select ctx s c ≡ some u) × (run_loop ctx u cs ≡ some t)
  unfolding run_loop
  run_loop-cons s c cs e = elim (Bool-cases (breaks ctx s)) [
    | inl b ↦ absurd (ground arith)
    | inr b ↦ elim (Option-cases (select ctx s c)) [
      | inl n ↦ absurd (ground arith)
      | inr (u, w) ↦ (u, w, ground arith)
    ]
  ]

  log_of-cons :
      (s u : State ctx) (c : Choice ctx) (cs : List (Choice ctx)) (log : Log ctx)
      → select ctx s c ≡ some u
      → log_of ctx s (c ∷ cs) log ≡ log_of ctx u cs (extend ctx s c log)
  unfolding log_of
  log_of-cons s u c cs log e = ground arith

  log_of-nil : (s : State ctx) (log : Log ctx) → log_of ctx s [] log ≡ log
  unfolding log_of
  log_of-nil s log = refl

  -- When the main loop ends, the invariant holds of its state and of all results until then.
  pub run_loop-Inv :
      (cs : List (Choice ctx)) (s : State ctx) (log : Log ctx) {t : State ctx}
      → Inv ctx s log
      → run_loop ctx s cs ≡ some t
      → Inv ctx t (log_of ctx s cs log) × (breaks ctx t ≡ true)
  run_loop-Inv [] s log {t} v e =
      let (same, b) = run_loop-nil s e in
      rw (log_of-nil s log)
        (subst (λ u. Inv ctx u log) same v, subst (λ u. breaks ctx u ≡ true) same b)
  run_loop-Inv (c ∷ cs) s log {t} v e =
      let (u, went, later) = run_loop-cons s c cs e in
      rw (log_of-cons s u c cs log went)
        (run_loop-Inv cs u (extend ctx s c log) (select-Inv s log c v went) later)
