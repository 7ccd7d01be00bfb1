-- ===== src/EventLoop/Invariant.antt =====
-- What holds of the variables of `run` in src/event_loop.rs all the time.
pub mod Rounds
pub mod Results
pub mod Loop
use cache_action.Base.{
  ℕ, zero, suc, ◌+◌, ◌%◌, ◌≤◌, ◌<◌, ◌≡◌, refl, sym, ap, ◌∙◌, Bool, true, false, List, [], ◌∷◌, ◌++◌,
  Option, none, some, length, count, count-append, length-append, map, if◌then◌else◌, ◌==◌, Result,
  ok, err, arith, ==_iff, Bool-cases, Option-cases, inl, inr, ◌⊎◌,
}
use cache_action.EventLoop.{
  Context, max_concurrent_store_paths, u32_mod, u64_mod, Handled, HandlePathError, ActionReport,
  default_report, State, initial, member, take_at,
}
use cache_action.EventLoop.Select.{
  enqueue, enqueue_all, on_closure, tally, start_pending, on_handled, on_message, Choice, accepted,
  message, closure, handled, select,
}

module _ (ctx : Context) where
  open ctx use {StorePath, hash}

  -- The paths that were handled so far, with their results.
  abbrev pub Log : Type 0
  Log = List (StorePath × Handled ctx)

  abbrev pub hashes : List StorePath → List ℕ
  hashes = map hash

  abbrev pub paths : Log → List StorePath
  paths = map λ e. e.0

  -- What a log amounts to.
  abbrev pub bytes_of : Log → ℕ
  bytes_of [] = 0
  bytes_of ((p, ok (some n)) ∷ log) = n + bytes_of log
  bytes_of ((p, ok none) ∷ log) = bytes_of log
  bytes_of ((p, err e) ∷ log) = bytes_of log

  abbrev pub pushed_of : Log → ℕ
  pushed_of [] = 0
  pushed_of ((p, ok (some n)) ∷ log) = 1 + pushed_of log
  pushed_of ((p, ok none) ∷ log) = pushed_of log
  pushed_of ((p, err e) ∷ log) = pushed_of log

  abbrev pub skipped_of : Log → ℕ
  skipped_of [] = 0
  skipped_of ((p, ok (some n)) ∷ log) = skipped_of log
  skipped_of ((p, ok none) ∷ log) = 1 + skipped_of log
  skipped_of ((p, err e) ∷ log) = skipped_of log

  abbrev pub errors_of : Log → List (StorePath × HandlePathError ctx)
  errors_of [] = []
  errors_of ((p, ok (some n)) ∷ log) = errors_of log
  errors_of ((p, ok none) ∷ log) = errors_of log
  errors_of ((p, err e) ∷ log) = (p, e) ∷ errors_of log

  pub record Summarises (r : ActionReport ctx) (log : Log) : Type 0 where
    pub bytes : r.num_bytes_pushed ≡ bytes_of log % u64_mod
    pub pushed : r.num_paths_pushed ≡ pushed_of log % u32_mod
    pub skipped : r.num_paths_skipped ≡ skipped_of log % u32_mod
    pub errors : r.path_handling_errors ≡ errors_of log

  -- At most 32 paths are in work, and all 32 places are taken while one waits.
  pub record IsBounded (s : State ctx) : Type 0 where
    pub bounded : length s.handle_store_paths ≤ max_concurrent_store_paths
    pub busy :
        (s.pending_handle_store_paths ≡ [])
        ⊎ (length s.handle_store_paths ≡ max_concurrent_store_paths)

  -- Each hash is seen at most once, and stands in just one of the places that a path goes through.
  abbrev pub Tracks : State ctx → Log → ℕ → Type 0
  Tracks s log h =
      (count h s.seen_store_hashes ≤ 1)
      × (count h (hashes s.handle_store_paths)
            + count h (hashes s.pending_handle_store_paths)
            + count h (hashes (paths log))
          ≡ count h s.seen_store_hashes)

pub member-count : (h : ℕ) (xs : List ℕ) → member h xs ≡ false → count h xs ≡ 0
member-count h [] e = refl
member-count h (x ∷ xs) e = ground (arith, member-count h xs)

pub member_pos : (h : ℕ) (xs : List ℕ) → member h xs ≡ true → 1 ≤ count h xs
member_pos h [] e = absurd cc
member_pos h (x ∷ xs) e = ground (arith, member_pos h xs)

module _ (ctx : Context) where
  open ctx use {StorePath, hash}

  map-hash-append :
      (xs ys : List StorePath) → hashes ctx (xs ++ ys) ≡ hashes ctx xs ++ hashes ctx ys
  map-hash-append [] ys = refl
  map-hash-append (x ∷ xs) ys = ap (◌∷◌ (hash x)) (map-hash-append xs ys)

  pub count-hashes-append :
      (h : ℕ) (xs ys : List StorePath)
      → count h (hashes ctx (xs ++ ys)) ≡ count h (hashes ctx xs) + count h (hashes ctx ys)
  count-hashes-append h xs ys =
      ap (count h) (map-hash-append xs ys) ∙ count-append h (hashes ctx xs) (hashes ctx ys)

  -- The future that finished leaves the others.
  pub take_at-count :
      (i : ℕ) (xs : List StorePath) (p : StorePath) (rest : List StorePath) (h : ℕ)
      → take_at i xs ≡ some (p, rest)
      → (count h (hashes ctx xs) ≡ count h (hashes ctx (p ∷ rest)))
        × (length xs ≡ suc (length rest))
  unfolding take_at
  take_at-count i [] p rest h e = absurd cc
  take_at-count zero (x ∷ xs) p rest h e = ground arith
  take_at-count (suc i) (x ∷ xs) p rest h e = elim (Option-cases (take_at i xs)) [
    | inl gone ↦ ground arith
    | inr ((y, left), found) ↦ let ih = take_at-count i xs y left h found in ground (arith, ih)
  ]

  -- All of it, of a state and the paths that were handled on the way to it.
  pub record Inv (s : State ctx) (log : Log ctx) : Type 0 where
    pub is_bounded : IsBounded ctx s
    pub tracks : (h : ℕ) → Tracks ctx s log h
    pub summary : Summarises ctx s.report log

  -- What a round of the loop adds to the log.
  pub extend : State ctx → Choice ctx → Log ctx → Log ctx
  extend s (handled i result) log = elim (take_at i s.handle_store_paths) [
    | none ↦ log
    | some (p, rest) ↦ log ++ (p, result) ∷ []
  ]
  extend s (accepted) log = log
  extend s (message m) log = log
  extend s (closure i result) log = log

  -- The log of a run of the loop.
  pub log_of : State ctx → List (Choice ctx) → Log ctx → Log ctx
  log_of s [] log = log
  log_of s (c ∷ cs) log = elim (select ctx s c) [
    | none ↦ log
    | some t ↦ log_of t cs (extend s c log)
  ]
