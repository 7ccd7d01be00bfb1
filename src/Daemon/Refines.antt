-- ===== src/Daemon/Refines.antt =====
-- The daemon's loop among its tasks is the loop of src/event_loop.rs along the branches it takes.
use cache_action.Base.{
  ◌≡◌, refl, ap, ◌∙◌, true, false, List, [], ◌∷◌, ◌++◌, none, some, arith, Bool-cases, Option-cases,
  inl, inr,
}
use cache_action.EventLoop.{Context}
use cache_action.EventLoop.Select.{Choice, accepted, message, closure, handled, run_loop, breaks}
use cache_action.EventLoop.Drain.{Report, Completion, run}
use cache_action.Daemon.Steps.{Step, sent, spawned, received, closed, finished, turn-Step}
use cache_action.Daemon.{
  Connection, Daemon, listening, Turn, send, accept, receive, closure_done, path_done, turn,
  is_over, main_loop, serve,
}

module _ (ctx : Context) where
  open ctx use {ConnectionWriter}

  -- The branch of `select!` that a turn takes, if it is the loop's.
  abbrev pub choice_of : Daemon ctx → Turn ctx → List (Choice ctx)
  choice_of d (send i) = []
  choice_of d (accept) = accepted ∷ []
  choice_of d (receive) = elim d.message_rx [ [] ↦ [] | m ∷ rest ↦ message m ∷ [] ]
  choice_of d (closure_done i result) = closure i result ∷ []
  choice_of d (path_done i result) = handled i result ∷ []

  unfoldable pub choices_of : Daemon ctx → List (Turn ctx) → List (Choice ctx)
  choices_of d [] = []
  choices_of d (t ∷ ts) = elim (turn ctx d t) [
    | none ↦ []
    | some e ↦ choice_of d t ++ choices_of e ts
  ]

  pub main_loop-nil :
      (d : Daemon ctx) {e : Daemon ctx}
      → main_loop ctx d [] ≡ some e
      → (d ≡ e) × (breaks ctx d.state ≡ true)
  unfolding main_loop
  main_loop-nil d h = elim (Bool-cases (breaks ctx d.state)) [
    | inl b ↦ (ground arith, b)
    | inr b ↦ absurd (ground arith)
  ]

  pub main_loop-cons :
      (d : Daemon ctx) (t : Turn ctx) (ts : List (Turn ctx)) {e : Daemon ctx}
      → main_loop ctx d (t ∷ ts) ≡ some e
      → (u : Daemon ctx) × (is_over ctx d t ≡ false)
        × (turn ctx d t ≡ some u)
        × (main_loop ctx u ts ≡ some e)
  unfolding main_loop
  main_loop-cons d t ts h = elim (Bool-cases (is_over ctx d t)) [
    | inl b ↦ absurd (ground arith)
    | inr b ↦ elim (Option-cases (turn ctx d t)) [
      | inl n ↦ absurd (ground arith)
      | inr (u, w) ↦ (u, b, w, ground arith)
    ]
  ]

  pub choices_of-cons :
      (d u : Daemon ctx) (t : Turn ctx) (ts : List (Turn ctx))
      → turn ctx d t ≡ some u
      → choices_of d (t ∷ ts) ≡ choice_of d t ++ choices_of u ts
  unfolding choices_of
  choices_of-cons d u t ts e = ground arith

  pub choices_of-nil : (d : Daemon ctx) → choices_of d [] ≡ []
  unfolding choices_of
  choices_of-nil d = refl

  -- A turn of the loop is a round of it, and one of a task leaves its state alone.
  turn-select :
      (d u : Daemon ctx) (t : Turn ctx) (cs : List (Choice ctx))
      → Step ctx d t u
      → is_over ctx d t ≡ false
      → run_loop ctx d.state (choice_of d t ++ cs) ≡ run_loop ctx u.state cs
  unfolding run_loop
  turn-select d u t cs (sent i m tasks e) b = refl
  turn-select d u t cs (spawned c rest ms e h) b = ground arith
  turn-select d u t cs (received m rest e) b = rw e (ground arith)
  turn-select d u t cs (closed i r s e) b = ground arith
  turn-select d u t cs (finished i r s e) b = ground arith

  pub main_loop-run_loop :
      (ts : List (Turn ctx)) (d e : Daemon ctx)
      → main_loop ctx d ts ≡ some e
      → run_loop ctx d.state (choices_of d ts) ≡ some e.state
  unfolding run_loop
  main_loop-run_loop [] d e h =
      let (same, b) = main_loop-nil d h in
      rw choices_of-nil (ground (arith, ap (λ x. x.state) same))
  main_loop-run_loop (t ∷ ts) d e h =
      let (u, b, went, later) = main_loop-cons d t ts h in
      ap (run_loop ctx d.state) (choices_of-cons d u t ts went)
      ∙ turn-select d u t (choices_of u ts) (turn-Step ctx d u t went) b
      ∙ main_loop-run_loop ts u e later

  -- Whatever the tasks of the connections do in between, the daemon that ends does what the loop does
  -- along the branches that it takes.
  pub serve-run :
      (connections : List (Connection ctx)) (ts : List (Turn ctx)) (ds : List (Completion ctx))
      {out : ConnectionWriter × List (Report ctx)}
      → serve ctx connections ts ds ≡ some out
      → run ctx (choices_of (listening ctx connections) ts) ds ≡ some out
  unfolding serve run
  serve-run connections ts ds h =
      elim (Option-cases (main_loop ctx (listening ctx connections) ts)) [
        | inl stuck ↦ absurd (ground arith)
        | inr (d, ended) ↦
            ground (arith, main_loop-run_loop ts (listening ctx connections) d ended, ended)
      ]
