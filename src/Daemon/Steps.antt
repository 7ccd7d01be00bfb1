-- ===== src/Daemon/Steps.antt =====
-- The turns of the daemon as steps, each with what it does to the daemon's parts.
use cache_action.Base.{
  ℕ, ◌+◌, ◌≡◌, refl, ◌⊎◌, List, [], ◌∷◌, ◌++◌, some, arith, Option-cases, inl, inr, subst,
}
use cache_action.Io.{weight}
use cache_action.EventLoop.{Context, Handled, Received, State}
use cache_action.EventLoop.Select.{Closure, closure, handled, select, on_message}
use cache_action.EventLoop.Connection.{handle_io}
use cache_action.Daemon.{
  next_of, Connection, Daemon, Turn, send, accept, receive, closure_done, path_done,
  spawn_handle_io, turn,
}

module _ (ctx : Context) where
  pub data Step (d : Daemon ctx) : Turn ctx → Daemon ctx → Type 0 where
    sent :
        (i : ℕ) (m : Received ctx) (tasks : List (List (Received ctx)))
        → next_of i d.tasks ≡ some (m, tasks)
        → Step d (send i) (record d { tasks = tasks; message_rx = d.message_rx ++ m ∷ [] })
    spawned :
        (c : Connection ctx) (rest : List (Connection ctx)) (ms : List (Received ctx))
        → d.waiting ≡ c ∷ rest
        → handle_io ctx (weight c.events + 2) c.writer c.events ≡ some ms
        → Step d accept (record d { waiting = rest; tasks = d.tasks ++ ms ∷ [] })
    received :
        (m : Received ctx) (rest : List (Received ctx))
        → d.message_rx ≡ m ∷ rest
        → Step d receive (record d { message_rx = rest; state = on_message ctx d.state m })
    closed :
        (i : ℕ) (r : Closure ctx) (s : State ctx)
        → select ctx d.state (closure i r) ≡ some s
        → Step d (closure_done i r) (record d { state = s })
    finished :
        (i : ℕ) (r : Handled ctx) (s : State ctx)
        → select ctx d.state (handled i r) ≡ some s
        → Step d (path_done i r) (record d { state = s })

  List-cases {ℓ} :
      {A : Type ℓ} (xs : List A) → (xs ≡ []) ⊎ ((x : A) × (rest : List A) × (xs ≡ x ∷ rest))
  List-cases [] = inl refl
  List-cases (x ∷ xs) = inr (x, xs, refl)

  pub turn-Step : (d u : Daemon ctx) (t : Turn ctx) → turn ctx d t ≡ some u → Step d t u
  unfolding turn spawn_handle_io
  turn-Step d u (send i) e = elim (Option-cases (next_of i d.tasks)) [
    | inl gone ↦ absurd (ground arith)
    | inr ((m, tasks), found) ↦ subst (Step d (send i)) (ground arith) (sent i m tasks found)
  ]
  turn-Step d u (accept) e = elim (List-cases d.waiting) [
    | inl idle ↦ absurd (ground arith)
    | inr (c, rest, waits) ↦
        elim (Option-cases (handle_io ctx (weight c.events + 2) c.writer c.events)) [
          | inl stuck ↦ absurd (ground arith)
          | inr (ms, io) ↦ subst (Step d accept) (ground arith) (spawned c rest ms waits io)
        ]
  ]
  turn-Step d u (receive) e = elim (List-cases d.message_rx) [
    | inl idle ↦ absurd (ground arith)
    | inr (m, rest, first) ↦ subst (Step d receive) (ground arith) (received m rest first)
  ]
  turn-Step d u (closure_done i r) e = elim (Option-cases (select ctx d.state (closure i r))) [
    | inl gone ↦ absurd (ground arith)
    | inr (s, went) ↦ subst (Step d (closure_done i r)) (ground arith) (closed i r s went)
  ]
  turn-Step d u (path_done i r) e = elim (Option-cases (select ctx d.state (handled i r))) [
    | inl gone ↦ absurd (ground arith)
    | inr (s, went) ↦ subst (Step d (path_done i r)) (ground arith) (finished i r s went)
  ]
