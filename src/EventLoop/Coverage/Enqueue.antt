-- ===== src/EventLoop/Coverage/Enqueue.antt =====
-- What the paths of one closure do to the hashes that `run` of src/event_loop.rs has seen.
use cache_action.Base.{
  ℕ, ◌≡◌, refl, ◌∙◌, false, ◌||◌, List, [], ◌∷◌, ◌++◌, ◌==◌, ==_iff, arith, Bool-cases, inl, inr,
}
use cache_action.EventLoop.{Context, State, member}
use cache_action.EventLoop.Select.{enqueue, enqueue_all}
use cache_action.EventLoop.Invariant.{hashes}

module _ (ctx : Context) where
  open ctx use {StorePath, hash}

  member-append : (h : ℕ) (xs ys : List ℕ) → member h (xs ++ ys) ≡ (member h xs || member h ys)
  member-append h [] ys = refl
  member-append h (x ∷ xs) ys = ground (arith, member-append h xs ys)

  pub member-hashes-append :
      (h : ℕ) (xs ys : List StorePath)
      → member h (hashes ctx (xs ++ ys)) ≡ (member h (hashes ctx xs) || member h (hashes ctx ys))
  member-hashes-append h [] ys = refl
  member-hashes-append h (x ∷ xs) ys = ground (arith, member-hashes-append h xs ys)

  enqueue-member :
      (h : ℕ) (s : State ctx) (p : StorePath)
      → member h (enqueue ctx s p).seen_store_hashes
        ≡ (member h s.seen_store_hashes || (hash p == h || false))
  unfolding enqueue
  enqueue-member h s p = elim (Bool-cases (hash p == h)) [
    | inl same ↦
        let e = (==_iff (hash p) h).0 same in rw (← e) (ground (arith, ==_iff (hash p) (hash p)))
    | inr other ↦ ground arith
  ]

  enqueue-closures :
      (s : State ctx) (p : StorePath)
      → ((enqueue ctx s p).store_closures ≡ s.store_closures)
        × ((enqueue ctx s p).report ≡ s.report)
  unfolding enqueue
  enqueue-closures s p = ground arith

  pub enqueue_all-member :
      (h : ℕ) (ps : List StorePath) (s : State ctx)
      → member h (enqueue_all ctx s ps).seen_store_hashes
        ≡ (member h s.seen_store_hashes || member h (hashes ctx ps))
  unfolding enqueue_all
  enqueue_all-member h [] s = ground arith
  enqueue_all-member h (p ∷ ps) s =
      ground (arith, enqueue_all-member h ps (enqueue ctx s p), enqueue-member h s p)

  pub enqueue_all-closures :
      (ps : List StorePath) (s : State ctx)
      → ((enqueue_all ctx s ps).store_closures ≡ s.store_closures)
        × ((enqueue_all ctx s ps).report ≡ s.report)
  unfolding enqueue_all
  enqueue_all-closures [] s = (refl, refl)
  enqueue_all-closures (p ∷ ps) s =
      let a = enqueue-closures s p in
      let b = enqueue_all-closures ps (enqueue ctx s p) in (b.0 ∙ a.0, b.1 ∙ a.1)
