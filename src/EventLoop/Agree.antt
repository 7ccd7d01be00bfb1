-- ===== src/EventLoop/Agree.antt =====
-- Two runs of src/event_loop.rs with the same pushes, in whatever order all of it happens.
use cache_action.Base.{ℕ, ◌≡◌, List, [], ◌∷◌, count}
use mathlib.Core.List.{Mem}
use cache_action.EventLoop.{Context, initial}
use cache_action.EventLoop.Select.{Choice, Closure}
use cache_action.EventLoop.Drain.{Report, Completion}
use cache_action.EventLoop.Invariant.{hashes, paths}
use cache_action.EventLoop.Coverage.{ClosureLog, closure_log}
use cache_action.EventLoop.Account.{Account, full_log}

module _ (ctx : Context) where
  open ctx use {StorePath, StoreClosureError, ConnectionWriter, hash}

  -- A path of the one list with the hash of one of the other is that path.
  abbrev pub AreApart : List StorePath → List StorePath → Type 0
  AreApart ps qs = (p q : StorePath) → Mem p ps → Mem q qs → hash p ≡ hash q → p ≡ q

  module _ (closure_of : StorePath → Closure ctx) where
    -- The closures are those that the store has.
    abbrev pub AreOfStore : ClosureLog ctx → Type 0
    AreOfStore [] = Unit {0}
    AreOfStore ((p, r) ∷ log) = (r ≡ closure_of p) × AreOfStore log

  abbrev pub closures : List (Choice ctx) → ClosureLog ctx
  closures cs = closure_log ctx (initial ctx) cs

  module _ (cs : List (Choice ctx)) (ds : List (Completion ctx)) where
    -- How often paths of a hash are handled in a run.
    abbrev pub times_handled :
        (w : ConnectionWriter) (calls : List (Report ctx)) → Account ctx cs ds w calls → ℕ → ℕ
    times_handled w calls a h = count h (hashes ctx (paths ctx (full_log ctx cs ds a.stopped)))
