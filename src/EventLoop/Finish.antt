-- ===== src/EventLoop/Finish.antt =====
-- The end of `run` in src/event_loop.rs: what is left when the main loop ends is handled and reported,
-- and the final report accounts for every path.
use cache_action.Base.{
  ℕ, suc, ◌<◌, ◌≡◌, refl, sym, ap, ◌∙◌, true, List, [], ◌∷◌, ◌++◌, none, some, length, map, arith,
  append-nil, append_assoc, length-append, Bool-cases, Option-cases, inl, inr, subst,
}
use cache_action.EventLoop.{Context, Handled, State, take_at}
use cache_action.EventLoop.Select.{start_front, tally, on_handled, is_empty}
use cache_action.EventLoop.Drain.{Report, progress, Completion, drain, left_to_handle}
use cache_action.EventLoop.Invariant.{Log, IsBounded, Inv, take_at-count}
use cache_action.EventLoop.Invariant.Results.{on_handled-Inv}
use cache_action.EventLoop.Coverage.Rounds.{on_handled-Changes}

module _ (ctx : Context) where
  open ctx use {StorePath, ConnectionWriter, hash}

  -- The results of the second loop.
  pub drain_log : State ctx → List (Completion ctx) → Log ctx
  drain_log s [] = []
  drain_log s ((i, result) ∷ cs) = elim (take_at i s.handle_store_paths) [
    | none ↦ []
    | some (p, rest) ↦
        (p, result)
        ∷ drain_log (on_handled ctx (record s { handle_store_paths = rest }) p result) cs
  ]

  -- The call that tells the client of a result.
  abbrev pub progress_of : Log ctx → List (Report ctx)
  progress_of = map λ e. progress ctx e.0 e.1

  left-start_front :
      (s : State ctx) (ps : List StorePath)
      → s.pending_handle_store_paths ≡ ps
      → (left_to_handle ctx (start_front ctx s ps) ≡ left_to_handle ctx s)
        × ((start_front ctx s ps).seen_store_hashes ≡ s.seen_store_hashes)
  unfolding start_front
  left-start_front s [] e = (refl, refl)
  left-start_front s (q ∷ qs) e =
      (omega (arith, ap length e, length-append s.handle_store_paths (q ∷ [])), refl)

  left-on_handled :
      (s : State ctx) (p : StorePath) (r : Handled ctx)
      → (left_to_handle ctx (on_handled ctx s p r) ≡ left_to_handle ctx s)
        × ((on_handled ctx s p r).seen_store_hashes ≡ s.seen_store_hashes)
  unfolding on_handled
  left-on_handled s p r =
      left-start_front (record s { report = tally ctx s.report p r }) s.pending_handle_store_paths
        refl

  -- What the second loop comes to.
  pub record Drains (s t : State ctx) (log left : Log ctx) (calls : List (Report ctx))
      : Type 0 where
    pub invariant : Inv ctx t (log ++ left)
    pub none_left : left_to_handle ctx t ≡ 0
    pub calls_eq : calls ≡ progress_of left
    pub length_eq : length left ≡ left_to_handle ctx s
    pub seen_eq : t.seen_store_hashes ≡ s.seen_store_hashes
    pub errors_eq : t.report.path_closure_errors ≡ s.report.path_closure_errors

  is_empty-nil {ℓ} : {A : Type ℓ} (xs : List A) → is_empty xs ≡ true → xs ≡ []
  is_empty-nil xs e = ground arith

  -- With no path in work none waits.
  none_left_of :
      (s : State ctx) → IsBounded ctx s → s.handle_store_paths ≡ [] → left_to_handle ctx s ≡ 0
  none_left_of s b e = ground (arith, ap length e, b.busy)

  drain-nil :
      (s t : State ctx) (calls : List (Report ctx))
      → drain ctx s [] ≡ some (calls, t)
      → (s.handle_store_paths ≡ []) × (calls ≡ []) × (s ≡ t)
  unfolding drain
  drain-nil s t calls e = elim (Bool-cases (is_empty s.handle_store_paths)) [
    | inl b ↦ (is_empty-nil s.handle_store_paths b, ground arith, ground arith)
    | inr b ↦ absurd (ground arith)
  ]

  abbrev resume : State ctx → StorePath → List StorePath → Handled ctx → State ctx
  resume s p rest r = on_handled ctx (record s { handle_store_paths = rest }) p r

  drain-cons :
      (s t : State ctx) (i : ℕ) (r : Handled ctx) (cs : List (Completion ctx))
      (calls : List (Report ctx))
      → drain ctx s ((i, r) ∷ cs) ≡ some (calls, t)
      → (p : StorePath) × (rest : List StorePath) × (later : List (Report ctx)) × (take_at i
            s.handle_store_paths
          ≡ some (p, rest))
        × (drain ctx (resume s p rest r) cs ≡ some (later, t))
        × (calls ≡ progress ctx p r ∷ later)
  unfolding drain
  drain-cons s t i r cs calls e = elim (Option-cases (take_at i s.handle_store_paths)) [
    | inl gone ↦ absurd (ground arith)
    | inr ((p, rest), found) ↦ elim (Option-cases (drain ctx (resume s p rest r) cs)) [
      | inl stuck ↦ absurd (ground arith)
      | inr ((later, u), went) ↦ (p, rest, later, found, ground arith, ground arith)
    ]
  ]

  drain_log-cons :
      (s : State ctx) (i : ℕ) (r : Handled ctx) (cs : List (Completion ctx)) (p : StorePath)
      (rest : List StorePath)
      → take_at i s.handle_store_paths ≡ some (p, rest)
      → drain_log s ((i, r) ∷ cs) ≡ (p, r) ∷ drain_log (resume s p rest r) cs
  unfolding drain_log
  drain_log-cons s i r cs p rest e = ground arith

  drain_log-nil : (s : State ctx) → drain_log s [] ≡ []
  unfolding drain_log
  drain_log-nil s = refl

  Drains-nil :
      (s : State ctx) (log : Log ctx)
      → Inv ctx s log
      → s.handle_store_paths ≡ []
      → Drains s s log [] []
  Drains-nil s log v e = record {
    invariant = rw append-nil v;
    none_left = none_left_of s v.is_bounded e;
    calls_eq = refl;
    length_eq = omega (arith, none_left_of s v.is_bounded e);
    seen_eq = refl;
    errors_eq = refl;
  }

  -- When the second loop ends, nothing is left, each path that was left has had its result reported, in
  -- order, and the invariant holds of all results.
  pub drain-Drains :
      (cs : List (Completion ctx)) (s t : State ctx) (log : Log ctx) (calls : List (Report ctx))
      → Inv ctx s log
      → drain ctx s cs ≡ some (calls, t)
      → Drains s t log (drain_log s cs) calls
  drain-Drains [] s t log calls v e =
      let (idle, no_calls, same) = drain-nil s t calls e in
      rw (drain_log-nil s, no_calls)
        (subst (λ u. Drains s u log [] []) same (Drains-nil s log v idle))
  drain-Drains ((i, r) ∷ cs) s t log calls v e =
      let (p, rest, later, found, went, first) = drain-cons s t i r cs calls e in
      let u = resume s p rest r in
      let d =
        drain-Drains cs u t (log ++ (p, r) ∷ []) later (on_handled-Inv ctx s log i p rest r v found)
          went in
      let (fewer, seen) = left-on_handled (record s { handle_store_paths = rest }) p r in
      rw (drain_log-cons s i r cs p rest found) (record {
        invariant = subst (Inv ctx t) (append_assoc log ((p, r) ∷ []) (drain_log u cs)) d.invariant;
        none_left = d.none_left;
        calls_eq = first ∙ ap (◌∷◌ (progress ctx p r)) d.calls_eq;
        length_eq = omega (
          arith,
          d.length_eq,
          fewer,
          (take_at-count ctx i s.handle_store_paths p rest 0 found).1,
        );
        seen_eq = d.seen_eq ∙ seen;
        errors_eq = d.errors_eq ∙ (on_handled-Changes ctx s rest p r).errors ∙ append-nil _;
      })

  first_of :
      (xs : List StorePath)
      → 0 < length xs
      → (p : StorePath) × (rest : List StorePath) × (take_at 0 xs ≡ some (p, rest))
  unfolding take_at
  first_of [] h = absurd (omega arith)
  first_of (x ∷ xs) h = (x, xs, refl)

  is_empty_of : (xs : List StorePath) → length xs ≡ 0 → is_empty xs ≡ true
  is_empty_of [] h = refl
  is_empty_of (x ∷ xs) h = absurd (omega arith)

  left_pos :
      (s : State ctx) (n : ℕ)
      → IsBounded ctx s
      → left_to_handle ctx s ≡ suc n
      → (p : StorePath) × (rest : List StorePath) × (take_at 0 s.handle_store_paths
          ≡ some (p, rest))
  left_pos s n b e = elim b.busy [
    | inl idle ↦ first_of s.handle_store_paths (omega (arith, e, ap length idle))
    | inr full ↦ first_of s.handle_store_paths (omega (arith, full))
  ]

  -- The first path in work finishes, again and again.
  abbrev pub in_order : List (Handled ctx) → List (Completion ctx)
  in_order = map λ r. (0, r)

  pub drain_total :
      (rs : List (Handled ctx)) (s : State ctx) (log : Log ctx)
      → Inv ctx s log
      → length rs ≡ left_to_handle ctx s
      → (calls : List (Report ctx)) × (t : State ctx) × (drain ctx s (in_order rs)
          ≡ some (calls, t))
  unfolding drain
  drain_total [] s log v e = ([], s, rw (is_empty_of s.handle_store_paths (omega (arith, e))))
  drain_total (r ∷ rs) s log v e =
      let (p, rest, found) = left_pos s (length rs) v.is_bounded (sym e) in
      let u = resume s p rest r in
      let fewer = (left-on_handled (record s { handle_store_paths = rest }) p r).0 in
      let n = (take_at-count ctx 0 s.handle_store_paths p rest 0 found).1 in
      let (calls, t, later) =
        drain_total rs u (log ++ (p, r) ∷ []) (on_handled-Inv ctx s log 0 p rest r v found)
          (omega (arith, e, fewer, n)) in
      (progress ctx p r ∷ calls, t, ground (arith, found, later))
