-- ===== src/Daemon/Conserves.antt =====
-- Between the clients of src/event_loop.rs and its loop no push is lost, and none is doubled.
use cache_action.Base.{
  ℕ, zero, suc, ◌+◌, ◌≡◌, refl, ap, List, [], ◌∷◌, ◌++◌, Option, none, some, count, map, subst,
  arith, Option-cases, inl, inr,
}
use cache_action.Io.{weight, IsStream, contents, failure}
use cache_action.Protocol.Receiver.Decode.{decode}
use cache_action.EventLoop.{Context, Received, initial}
use cache_action.EventLoop.Invariant.{hashes, count-hashes-append}
use cache_action.EventLoop.Coverage.{pushed_paths, closure_log, roots}
use cache_action.EventLoop.Coverage.Loop.{run_loop-Changes}
use cache_action.EventLoop.Invariant.Loop.{run_loop-Inv, initial-Inv}
use cache_action.EventLoop.Account.{closures_of_breaks}
use cache_action.EventLoop.Connection.{handle_io, upto_stop, event_of, handle_io-decode}
use cache_action.Daemon.{next_of, Connection, Daemon, listening, Turn, main_loop}
use cache_action.Daemon.Steps.{Step, sent, spawned, received, closed, finished, turn-Step}
use cache_action.Daemon.Refines.{
  choice_of, choices_of, choices_of-nil, choices_of-cons, main_loop-nil, main_loop-cons,
  main_loop-run_loop,
}
use cache_action.Daemon.Owed.{All, pushes, pushes_in, pushes_in-snoc, pushes-count, received_in}
use cache_action.Daemon.Receives.{pushed_paths-append}

module _ (ctx : Context) (h : ℕ) where
  -- How often paths of the hash are pushed by what a task is given.
  abbrev pushes_of : Option (List (Received ctx)) → ℕ
  pushes_of none = 0
  pushes_of (some ms) = pushes_in ctx h ms

  -- The same for a connection, for tasks and for connections.
  abbrev pub sent_by : Connection ctx → ℕ
  sent_by c = pushes_of (handle_io ctx (weight c.events + 2) c.writer c.events)

  abbrev in_tasks : List (List (Received ctx)) → ℕ
  in_tasks [] = 0
  in_tasks (ms ∷ tasks) = pushes_in ctx h ms + in_tasks tasks

  abbrev pub sent_by_all : List (Connection ctx) → ℕ
  sent_by_all [] = 0
  sent_by_all (c ∷ cs) = sent_by c + sent_by_all cs

  -- The pushes that the loop has not received yet.
  abbrev pub on_the_way : Daemon ctx → ℕ
  on_the_way d = pushes_in ctx h d.message_rx + in_tasks d.tasks + sent_by_all d.waiting

  in_tasks-snoc :
      (tasks : List (List (Received ctx))) (ms : List (Received ctx))
      → in_tasks (tasks ++ ms ∷ []) ≡ in_tasks tasks + pushes_in ctx h ms
  in_tasks-snoc [] ms = omega arith
  in_tasks-snoc (xs ∷ tasks) ms = omega (arith, in_tasks-snoc tasks ms)

  in_tasks-next_of :
      (i : ℕ) (tasks rest : List (List (Received ctx))) (m : Received ctx)
      → next_of i tasks ≡ some (m, rest)
      → in_tasks tasks ≡ pushes ctx h m + in_tasks rest
  unfolding next_of
  in_tasks-next_of i [] rest m e = absurd cc
  in_tasks-next_of zero ([] ∷ tasks) rest m e = absurd cc
  in_tasks-next_of zero ((x ∷ xs) ∷ tasks) rest m e =
      let first : x ≡ m = cc in
      let others : xs ∷ tasks ≡ rest = cc in
      omega (arith, ap (pushes ctx h) first, ap in_tasks others)
  in_tasks-next_of (suc i) (ms ∷ tasks) rest m e = elim (Option-cases (next_of i tasks)) [
    | inl gone ↦ absurd (ground arith)
    | inr ((y, left), found) ↦
        let first : y ≡ m = ground arith in
        let others : ms ∷ left ≡ rest = ground arith in
        omega (
          arith,
          in_tasks-next_of i tasks left y found,
          ap (pushes ctx h) first,
          ap in_tasks others,
        )
  ]

  Step-on_the_way :
      (d u : Daemon ctx) (t : Turn ctx)
      → Step ctx d t u
      → on_the_way d ≡ received_in ctx h d t + on_the_way u
  Step-on_the_way d u t (sent i m tasks e) =
      omega (arith, in_tasks-next_of i d.tasks tasks m e, pushes_in-snoc ctx h d.message_rx m)
  Step-on_the_way d u t (spawned c rest ms e f) =
      omega (arith, in_tasks-snoc d.tasks ms, ap sent_by_all e, ap pushes_of f)
  Step-on_the_way d u t (received m rest e) = rw e (omega (arith, pushes-count ctx h m))
  Step-on_the_way d u t (closed i r s e) = omega arith
  Step-on_the_way d u t (finished i r s e) = omega arith

  main_loop-on_the_way :
      (ts : List (Turn ctx)) (d e : Daemon ctx)
      → main_loop ctx d ts ≡ some e
      → on_the_way d ≡ count h (hashes ctx (pushed_paths ctx (choices_of ctx d ts))) + on_the_way e
  main_loop-on_the_way [] d e went =
      let same = (main_loop-nil ctx d went).0 in
      rw (choices_of-nil ctx d) (omega (arith, ap on_the_way same))
  main_loop-on_the_way (t ∷ ts) d e went =
      let (u, b, step, later) = main_loop-cons ctx d t ts went in
      let cs = choice_of ctx d t in
      let ds = choices_of ctx u ts in
      omega (
        arith,
        Step-on_the_way d u t (turn-Step ctx d u t step),
        main_loop-on_the_way ts u e later,
        ap (λ c. count h (hashes ctx (pushed_paths ctx c))) (choices_of-cons ctx d u t ts step),
        ap (λ ps. count h (hashes ctx ps)) (pushed_paths-append ctx cs ds),
        count-hashes-append ctx h (pushed_paths ctx cs) (pushed_paths ctx ds),
      )

  -- How often the bytes of a connection, or of connections, mean a push of the hash.
  abbrev pub meant_by : Connection ctx → ℕ
  meant_by c = pushes_in ctx h (
      map (event_of ctx c.writer)
        (upto_stop ctx (decode ctx.crates [] (contents c.events) (failure c.events))))

  abbrev pub meant_by_all : List (Connection ctx) → ℕ
  meant_by_all [] = 0
  meant_by_all (c ∷ cs) = meant_by c + meant_by_all cs

  -- What each connection finds is a stream.
  abbrev pub AllStreams : List (Connection ctx) → Type 0
  AllStreams = All (λ c. IsStream c.events)

  sent_by_all-meant :
      (cs : List (Connection ctx)) → AllStreams cs → sent_by_all cs ≡ meant_by_all cs
  sent_by_all-meant [] streams = refl
  sent_by_all-meant (c ∷ cs) (stream, streams) =
      let passed =
        handle_io-decode ctx c.writer c.events (weight c.events + 2) stream (omega arith) in
      omega (arith, ap pushes_of passed, sent_by_all-meant cs streams)

  Step-AllStreams :
      (d u : Daemon ctx) (t : Turn ctx)
      → Step ctx d t u
      → AllStreams d.waiting
      → AllStreams u.waiting
  Step-AllStreams d u t (sent i m tasks e) all = all
  Step-AllStreams d u t (spawned c rest ms e f) all = (subst AllStreams e all).1
  Step-AllStreams d u t (received m rest e) all = all
  Step-AllStreams d u t (closed i r s e) all = all
  Step-AllStreams d u t (finished i r s e) all = all

  main_loop-AllStreams :
      (ts : List (Turn ctx)) (d e : Daemon ctx)
      → main_loop ctx d ts ≡ some e
      → AllStreams d.waiting
      → AllStreams e.waiting
  main_loop-AllStreams [] d e went all =
      subst (λ (u : Daemon ctx). AllStreams u.waiting) (main_loop-nil ctx d went).0 all
  main_loop-AllStreams (t ∷ ts) d e went all =
      let (u, b, step, later) = main_loop-cons ctx d t ts went in
      main_loop-AllStreams ts u e later (Step-AllStreams d u t (turn-Step ctx d u t step) all)

  -- The pushes in the channel, in tasks, and in the bytes of connections that were not accepted.
  abbrev pub still_to_come : Daemon ctx → ℕ
  still_to_come d = pushes_in ctx h d.message_rx + in_tasks d.tasks + meant_by_all d.waiting

  -- If what each connection finds is a stream: when the main loop ends, each push that the bytes of some
  -- client mean, to its first stop, has been received and its closure computed, just once, or is still
  -- on its way to the loop: in the channel, in the task of its connection, or on a connection that was not
  -- accepted.
  pub main_loop-conserves :
      (connections : List (Connection ctx)) (ts : List (Turn ctx)) (e : Daemon ctx)
      → AllStreams connections
      → main_loop ctx (listening ctx connections) ts ≡ some e
      → meant_by_all connections
        ≡ count h (
            hashes ctx (
              roots ctx
                (closure_log ctx (initial ctx) (choices_of ctx (listening ctx connections) ts))))
          + still_to_come e
  main_loop-conserves connections ts e streams went =
      let ended = main_loop-run_loop ctx ts (listening ctx connections) e went in
      let cs = choices_of ctx (listening ctx connections) ts in
      let (inv, broke) = run_loop-Inv ctx cs (initial ctx) [] (initial-Inv ctx) ended in
      let c = run_loop-Changes ctx cs (initial ctx) ended in
      omega (
        arith,
        main_loop-on_the_way ts (listening ctx connections) e went,
        sent_by_all-meant connections streams,
        sent_by_all-meant e.waiting
            (main_loop-AllStreams ts (listening ctx connections) e went streams),
        c.closures h,
        ap (λ ps. count h (hashes ctx ps)) (closures_of_breaks ctx e.state broke),
      )
