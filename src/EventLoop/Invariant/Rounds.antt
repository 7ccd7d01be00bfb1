-- ===== src/EventLoop/Invariant/Rounds.antt =====
-- Each round of the loop of `run` in src/event_loop.rs keeps the invariant.
use cache_action.Base.{ℕ, ◌≡◌, refl, List, [], ◌∷◌, length-append, ==_iff, ok, err, arith}
use cache_action.EventLoop.{Context, State, Received, push_store_path, stop}
use cache_action.EventLoop.Select.{enqueue, enqueue_all, on_closure, on_message, Closure}
use cache_action.EventLoop.Invariant.{
  Log, Summarises, IsBounded, Tracks, Inv, member-count, count-hashes-append,
}

module _ (ctx : Context) where
  open ctx use {StorePath, hash}

  enqueue-IsBounded :
      (s : State ctx) (p : StorePath) → IsBounded ctx s → IsBounded ctx (enqueue ctx s p)
  unfolding enqueue
  enqueue-IsBounded s p b = ground (arith, length-append s.handle_store_paths (p ∷ []))

  enqueue-Tracks :
      (log : Log ctx) (h : ℕ) (s : State ctx) (p : StorePath)
      → Tracks ctx s log h
      → Tracks ctx (enqueue ctx s p) log h
  unfolding enqueue
  enqueue-Tracks log h s p t = ground (
    arith,
    ==_iff (hash p) h,
    member-count (hash p) s.seen_store_hashes,
    count-hashes-append ctx h s.handle_store_paths (p ∷ []),
    count-hashes-append ctx h s.pending_handle_store_paths (p ∷ []),
  )

  enqueue-report : (s : State ctx) (p : StorePath) → (enqueue ctx s p).report ≡ s.report
  unfolding enqueue
  enqueue-report s p = ground arith

  enqueue-Inv :
      (log : Log ctx) (s : State ctx) (p : StorePath)
      → Inv ctx s log
      → Inv ctx (enqueue ctx s p) log
  enqueue-Inv log s p v = record {
    is_bounded = enqueue-IsBounded s p v.is_bounded;
    tracks = λ h. enqueue-Tracks log h s p (v.tracks h);
    summary = rw (enqueue-report s p) v.summary;
  }

  enqueue_all-Inv :
      (log : Log ctx) (s : State ctx) (ps : List StorePath)
      → Inv ctx s log
      → Inv ctx (enqueue_all ctx s ps) log
  unfolding enqueue_all
  enqueue_all-Inv log s [] v = v
  enqueue_all-Inv log s (p ∷ ps) v =
      enqueue_all-Inv log (enqueue ctx s p) ps (enqueue-Inv log s p v)

  -- A state that differs only where the invariant does not look.
  pub alike-Inv :
      (log : Log ctx) (s t : State ctx)
      → t.handle_store_paths ≡ s.handle_store_paths
      → t.pending_handle_store_paths ≡ s.pending_handle_store_paths
      → t.seen_store_hashes ≡ s.seen_store_hashes
      → Summarises ctx t.report log
      → Inv ctx s log
      → Inv ctx t log
  alike-Inv log s t e f g r v = record {
    is_bounded = record { bounded = rw e v.is_bounded.bounded; busy = rw (e, f) v.is_bounded.busy };
    tracks = λ h. rw (e, f, g) (v.tracks h);
    summary = r;
  }

  pub on_closure-Inv :
      (log : Log ctx) (s : State ctx) (p : StorePath) (result : Closure ctx)
      → Inv ctx s log
      → Inv ctx (on_closure ctx s p result) log
  unfolding on_closure
  on_closure-Inv log s p (ok ps) v = enqueue_all-Inv log s ps v
  on_closure-Inv log s p (err e) v =
      let w = v.summary in
      alike-Inv log s _ refl refl refl
        (record { bytes = w.bytes; pushed = w.pushed; skipped = w.skipped; errors = w.errors }) v

  pub on_message-Inv :
      (log : Log ctx) (s : State ctx) (m : Received ctx)
      → Inv ctx s log
      → Inv ctx (on_message ctx s m) log
  unfolding on_message
  on_message-Inv log s (ok (push_store_path p)) v = alike-Inv log s _ refl refl refl v.summary v
  on_message-Inv log s (ok (stop w)) v = alike-Inv log s _ refl refl refl v.summary v
  on_message-Inv log s (err e) v = alike-Inv log s _ refl refl refl v.summary v
