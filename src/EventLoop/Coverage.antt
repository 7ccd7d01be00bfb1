-- ===== src/EventLoop/Coverage.antt =====
-- The closures in the main loop of `run` in src/event_loop.rs: each pushed path gets one, and what is
-- seen is what stands in them.
pub mod Enqueue
pub mod Rounds
pub mod Loop
use cache_action.Base.{
  ℕ, zero, suc, ◌+◌, ◌≤◌, ◌≡◌, refl, sym, ap, ◌∙◌, Bool, true, false, ◌||◌, List, [], ◌∷◌, ◌++◌,
  Option, none, some, length, count, map, if◌then◌else◌, ◌==◌, ==_iff, Result, ok, err, arith,
  subst, append-nil, append_assoc, Bool-cases, Option-cases, inl, inr,
}
use cache_action.EventLoop.{
  Context, State, initial, Handled, Received, push_store_path, stop, member, take_at,
}
use cache_action.EventLoop.Select.{
  enqueue, enqueue_all, on_closure, start_front, tally, on_handled, on_message, Choice, accepted,
  message, closure, handled, select, Closure, run_loop, breaks, is_some, is_empty,
}
use cache_action.EventLoop.Invariant.{hashes, count-hashes-append, take_at-count}
use cache_action.EventLoop.Invariant.Loop.{run_loop-nil, run_loop-cons}

module _ (ctx : Context) where
  open ctx use {StorePath, StoreClosureError, hash}

  -- The paths that clients pushed.
  abbrev pub pushed_paths : List (Choice ctx) → List StorePath
  pushed_paths [] = []
  pushed_paths (message (ok (push_store_path p)) ∷ cs) = p ∷ pushed_paths cs
  pushed_paths (message (ok (stop w)) ∷ cs) = pushed_paths cs
  pushed_paths (message (err e) ∷ cs) = pushed_paths cs
  pushed_paths (accepted ∷ cs) = pushed_paths cs
  pushed_paths (closure i r ∷ cs) = pushed_paths cs
  pushed_paths (handled i r ∷ cs) = pushed_paths cs

  abbrev pub ClosureLog : Type 0
  ClosureLog = List (StorePath × Closure ctx)

  -- What a round adds to the closures that were computed.
  pub closure_entry : State ctx → Choice ctx → ClosureLog
  closure_entry s (closure i result) = elim (take_at i s.store_closures) [
    | none ↦ []
    | some (p, rest) ↦ (p, result) ∷ []
  ]
  closure_entry s (accepted) = []
  closure_entry s (message m) = []
  closure_entry s (handled i result) = []

  -- The closures that were computed, with the path of each.
  unfoldable pub closure_log : State ctx → List (Choice ctx) → ClosureLog
  unfolding closure_entry
  closure_log s [] = []
  closure_log s (c ∷ cs) = elim (select ctx s c) [
    | none ↦ []
    | some t ↦ closure_entry s c ++ closure_log t cs
  ]

  abbrev pub roots : ClosureLog → List StorePath
  roots = map λ e. e.0

  -- The paths in the closures.
  abbrev pub closure_paths : ClosureLog → List StorePath
  closure_paths [] = []
  closure_paths ((p, ok ps) ∷ log) = ps ++ closure_paths log
  closure_paths ((p, err e) ∷ log) = closure_paths log

  abbrev pub closure_errors : ClosureLog → List (StorePath × StoreClosureError)
  closure_errors [] = []
  closure_errors ((p, ok ps) ∷ log) = closure_errors log
  closure_errors ((p, err e) ∷ log) = (p, e) ∷ closure_errors log
