-- ===== src/EventLoop/Select.antt =====
-- The main loop of `run` in src/event_loop.rs: the branches of its `select!`, and how it ends.
use cache_action.Base.{
  ℕ, ◌+◌, ◌%◌, Bool, true, false, ◌&&◌, List, [], ◌∷◌, ◌++◌, Option, none, some, length,
  if◌then◌else◌, ltb, Result, ok, err,
}
use cache_action.EventLoop.{
  Context, max_concurrent_store_paths, u32_mod, u64_mod, Handled, ActionReport, Received, State,
  push_store_path, stop, member, take_at,
}

abbrev pub is_some {ℓ} : {A : Type ℓ} → Option A → Bool
is_some none = false
is_some (some a) = true

abbrev pub is_empty {ℓ} : {A : Type ℓ} → List A → Bool
is_empty [] = true
is_empty (x ∷ xs) = false

module _ (ctx : Context) where
  open ctx use {StorePath, StoreClosureError, hash}

  -- One path of a closure: skipped if its hash was seen, started if there is room, else queued.
  unfoldable pub enqueue : State ctx → StorePath → State ctx
  enqueue s path =
      if member (hash path) s.seen_store_hashes
      then s
      else if ltb (length s.handle_store_paths) max_concurrent_store_paths
      then record s {
        seen_store_hashes = hash path ∷ s.seen_store_hashes;
        handle_store_paths = s.handle_store_paths ++ path ∷ [];
      }
      else record s {
        seen_store_hashes = hash path ∷ s.seen_store_hashes;
        pending_handle_store_paths = s.pending_handle_store_paths ++ path ∷ [];
      }

  -- `for path in store_paths`
  unfoldable pub enqueue_all : State ctx → List StorePath → State ctx
  unfolding enqueue
  enqueue_all s [] = s
  enqueue_all s (path ∷ paths) = enqueue_all (enqueue s path) paths

  abbrev pub Closure : Type 0
  Closure = Result (List StorePath) StoreClosureError

  -- `store_closures` gave the closure of `path`, or an error.
  unfoldable pub on_closure : State ctx → StorePath → Closure → State ctx
  unfolding enqueue_all
  on_closure s path (ok paths) = enqueue_all s paths
  on_closure s path (err e) = record s {
    report = record (s.report) {
      path_closure_errors = s.report.path_closure_errors ++ (path, e) ∷ [];
    };
  }

  -- The counters are machine integers, and wrap round.
  unfoldable pub tally : ActionReport ctx → StorePath → Handled ctx → ActionReport ctx
  tally r path (ok (some num_bytes)) = record r {
    num_bytes_pushed = (r.num_bytes_pushed + num_bytes) % u64_mod;
    num_paths_pushed = (r.num_paths_pushed + 1) % u32_mod;
  }
  tally r path (ok none) = record r { num_paths_skipped = (r.num_paths_skipped + 1) % u32_mod }
  tally r path (err e) = record r {
    path_handling_errors = r.path_handling_errors ++ (path, e) ∷ [];
  }

  unfoldable pub start_front : State ctx → List StorePath → State ctx
  start_front s [] = s
  start_front s (path ∷ rest) = record s {
    handle_store_paths = s.handle_store_paths ++ path ∷ [];
    pending_handle_store_paths = rest;
  }

  -- `pending_handle_store_paths.pop_front()`, started if there is one.
  pub start_pending : State ctx → State ctx
  unfolding start_front
  start_pending s = start_front s s.pending_handle_store_paths

  -- `handle_store_paths` gave the result for `path`.
  unfoldable pub on_handled : State ctx → StorePath → Handled ctx → State ctx
  unfolding tally start_pending
  on_handled s path result = start_pending (record s { report = tally s.report path result })

  unfoldable pub on_message : State ctx → Received ctx → State ctx
  on_message s (ok (push_store_path path)) = record s {
    store_closures = s.store_closures ++ path ∷ [];
  }
  on_message s (ok (stop writer)) = record s { stop_progress_writer = some writer }
  on_message s (err e) = record s { rx_errors = s.rx_errors ++ e ∷ [] }

  -- Which branch `select!` takes, and with what.
  pub data Choice : Type 0 where
    accepted : Choice
    message : Received ctx → Choice
    closure : ℕ → Closure → Choice
    handled : ℕ → Handled ctx → Choice

  -- One round of the loop; `none` for a branch whose future is not there.
  unfoldable pub select : State ctx → Choice → Option (State ctx)
  unfolding on_message on_closure on_handled take_at
  select s accepted = some s
  select s (message m) = some (on_message s m)
  select s (closure i result) = elim (take_at i s.store_closures) [
    | none ↦ none
    | some (path, rest) ↦ some (on_closure (record s { store_closures = rest }) path result)
  ]
  select s (handled i result) = elim (take_at i s.handle_store_paths) [
    | none ↦ none
    | some (path, rest) ↦ some (on_handled (record s { handle_store_paths = rest }) path result)
  ]

  -- The test before each round.
  abbrev pub breaks : State ctx → Bool
  breaks s = is_some s.stop_progress_writer && is_empty s.store_closures

  -- The main loop along a sequence of choices. `none` if it has not ended with the last of them, or
  -- one of them is not possible.
  unfoldable pub run_loop : State ctx → List Choice → Option (State ctx)
  unfolding select
  run_loop s [] = if breaks s then some s else none
  run_loop s (c ∷ cs) = elim (breaks s) [
    | true ↦ none
    | false ↦ elim (select s c) [ none ↦ none | some t ↦ run_loop t cs ]
  ]
