-- ===== src/Daemon/Owed.antt =====
-- What tasks of src/event_loop.rs are still to send before a stop.
use cache_action.Base.{
  ℕ, zero, suc, ◌+◌, count, ◌-◌, ◌≤◌, ◌≡◌, refl, List, [], ◌∷◌, ◌++◌, some, if◌then◌else◌, ◌==◌, ok,
  err, arith, Option-cases, inl, inr, subst,
}
use cache_action.EventLoop.{Context, Received, push_store_path, stop}
use cache_action.EventLoop.Invariant.{hashes}
use cache_action.EventLoop.Coverage.{pushed_paths}
use cache_action.EventLoop.Select.{message}
use cache_action.Daemon.Refines.{choice_of}
use cache_action.Daemon.{Daemon, Turn, next_of}

abbrev pub All {ℓ κ} : {A : Type ℓ} → (A → Type κ) → List A → Type κ
All P [] = Unit
All P (x ∷ xs) = P x × All P xs

pub All-snoc {ℓ κ} :
    {A : Type ℓ} (P : A → Type κ) (xs : List A) (x : A) → All P xs → P x → All P (xs ++ x ∷ [])
All-snoc P [] x h p = (p, tt)
All-snoc P (y ∷ ys) x h p = (h.0, All-snoc P ys x h.1 p)

pub All-weaken {ℓ κ} :
    {A : Type ℓ} (P Q : A → Type κ) (xs : List A) → ((x : A) → P x → Q x) → All P xs → All Q xs
All-weaken P Q [] f h = tt
All-weaken P Q (x ∷ xs) f h = (f x h.0, All-weaken P Q xs f h.1)

module _ (ctx : Context) where
  open ctx use {StorePath, ConnectionWriter, hash}

  -- How often paths of a hash are pushed by a message, and by messages.
  abbrev pub pushes : ℕ → Received ctx → ℕ
  pushes h (ok (push_store_path p)) = if hash p == h then 1 else 0
  pushes h (ok (stop v)) = 0
  pushes h (err e) = 0

  abbrev pub pushes_in : ℕ → List (Received ctx) → ℕ
  pushes_in h [] = 0
  pushes_in h (m ∷ ms) = pushes h m + pushes_in h ms

  pub pushes_in-snoc :
      (h : ℕ) (ms : List (Received ctx)) (m : Received ctx)
      → pushes_in h (ms ++ m ∷ []) ≡ pushes_in h ms + pushes h m
  pushes_in-snoc h [] m = omega arith
  pushes_in-snoc h (x ∷ ms) m = omega (arith, pushes_in-snoc h ms m)

  pub pushes-count :
      (h : ℕ) (m : Received ctx)
      → pushes h m ≡ count h (hashes ctx (pushed_paths ctx (message m ∷ [])))
  pushes-count h (ok (push_store_path p)) = omega arith
  pushes-count h (ok (stop v)) = refl
  pushes-count h (err e) = refl

  -- How often the loop receives a push of the hash in a turn.
  abbrev pub received_in : ℕ → Daemon ctx → Turn ctx → ℕ
  received_in h d t = count h (hashes ctx (pushed_paths ctx (choice_of ctx d t)))

  module _ (h : ℕ) (w : ConnectionWriter) where
    -- A message may come after `n` further pushes only if it is a stop of `w`.
    abbrev pub InTime : ℕ → Received ctx → Type 0
    InTime n (ok (push_store_path p)) = Unit {0}
    InTime n (ok (stop v)) = v ≡ w → n ≡ 0
    InTime n (err e) = Unit {0}

    -- At least `n` pushes come before a stop of `w`.
    abbrev pub Owes : ℕ → List (Received ctx) → Type 0
    Owes n [] = Unit {0}
    Owes n (m ∷ ms) = InTime n m × Owes (n - pushes h m) ms

    pub InTime-fewer : (n k : ℕ) (m : Received ctx) → k ≤ n → InTime n m → InTime k m
    InTime-fewer n k (ok (push_store_path p)) l t = tt
    InTime-fewer n k (ok (stop v)) l t = λ e. omega (arith, t e, l)
    InTime-fewer n k (err e) l t = tt

    pub Owes-fewer : (ms : List (Received ctx)) (n k : ℕ) → k ≤ n → Owes n ms → Owes k ms
    Owes-fewer [] n k l o = tt
    Owes-fewer (m ∷ ms) n k l o = (
      InTime-fewer n k m l o.0,
      Owes-fewer ms (n - pushes h m) (k - pushes h m) (omega (arith, l)) o.1,
    )

    pub Owes-snoc :
        (ms : List (Received ctx)) (n : ℕ) (m : Received ctx)
        → Owes n ms
        → InTime (n - pushes_in h ms) m
        → Owes n (ms ++ m ∷ [])
    Owes-snoc [] n m o t = (InTime-fewer (n - 0) n m (omega arith) t, tt)
    Owes-snoc (x ∷ ms) n m o t = (
      o.0,
      Owes-snoc ms (n - pushes h x) m o.1 (
          InTime-fewer (n - pushes_in h (x ∷ ms)) (n - pushes h x - pushes_in h ms) m (omega arith)
            t),
    )

    pub fewer :
        (tasks : List (List (Received ctx))) (n k : ℕ)
        → k ≤ n
        → All (Owes n) tasks
        → All (Owes k) tasks
    fewer tasks n k l = All-weaken (Owes n) (Owes k) tasks λ ms. Owes-fewer ms n k l

    -- The next message of a task, and what the tasks are still to send.
    pub next_of-Owes :
        (n i : ℕ) (tasks rest : List (List (Received ctx))) (m : Received ctx)
        → next_of i tasks ≡ some (m, rest)
        → All (Owes n) tasks
        → InTime n m × All (Owes (n - pushes h m)) rest
    unfolding next_of
    next_of-Owes n i [] rest m e o = absurd cc
    next_of-Owes n zero ([] ∷ tasks) rest m e o = absurd cc
    next_of-Owes n zero ((x ∷ xs) ∷ tasks) rest m e o =
        let first : x ≡ m = cc in
        let others : xs ∷ tasks ≡ rest = cc in
        subst (λ y. InTime n y × All (Owes (n - pushes h y)) rest) first
          (
            o.0.0,
            subst (All (Owes (n - pushes h x))) others
                (o.0.1, fewer tasks n (n - pushes h x) (omega arith) o.1),
          )
    next_of-Owes n (suc i) (ms ∷ tasks) rest m e o = elim (Option-cases (next_of i tasks)) [
      | inl gone ↦ absurd (ground arith)
      | inr ((y, left), found) ↦
          let first : y ≡ m = ground arith in
          let others : ms ∷ left ≡ rest = ground arith in
          let ih = next_of-Owes n i tasks left y found o.1 in
          subst (λ z. InTime n z × All (Owes (n - pushes h z)) rest) first
            (
              ih.0,
              subst (All (Owes (n - pushes h y))) others
                  (Owes-fewer ms n (n - pushes h y) (omega arith) o.0, ih.1),
            )
    ]
