-- ===== src/Daemon/Receives.antt =====
-- What the loop of src/event_loop.rs has received when it ends, of what a client has sent.
use cache_action.Base.{
  ℕ, append_assoc, ◌+◌, ◌-◌, ◌≤◌, ◌≡◌, ◌≢◌, refl, sym, ap, ◌∙◌, List, [], ◌∷◌, ◌++◌, none, some,
  count, if◌then◌else◌, ◌==◌, ok, err, arith, Option-cases, inl, inr, subst,
}
use cache_action.Io.{IsStream, contents, failure, weight}
use cache_action.Protocol.{Message, push_store_path as message_push, stop_daemon}
use cache_action.Protocol.Receiver.{Item, new, receive_all}
use cache_action.Protocol.RoundTrip.{AllSendable}
use cache_action.Protocol.Sender.Delivery.{encoding}
use cache_action.EventLoop.{Context}
use cache_action.EventLoop.Select.{Choice}
use cache_action.EventLoop.Invariant.{hashes, count-hashes-append}
use cache_action.EventLoop.Coverage.{pushed_paths}
use cache_action.EventLoop.Coverage.Loop.{pushed_paths-cons}
use cache_action.EventLoop.Connection.{forward, handle_io, events_of, handle_io-encoding}
use cache_action.Daemon.{Connection, Daemon, listening, Turn, main_loop}
use cache_action.Daemon.Steps.{turn-Step}
use cache_action.Daemon.Refines.{
  choice_of, choices_of, choices_of-cons, main_loop-nil, main_loop-cons,
}
use cache_action.Daemon.Owed.{received_in, All, All-weaken, Owes, Owes-fewer}
use cache_action.Daemon.Kept.{Sends, Expects, Step-Expects}

module _ (ctx : Context) where
  open ctx use {crates, StorePath, ConnectionWriter, hash}

  pub pushed_paths-append :
      (cs ds : List (Choice ctx))
      → pushed_paths ctx (cs ++ ds) ≡ pushed_paths ctx cs ++ pushed_paths ctx ds
  pushed_paths-append [] ds = refl
  pushed_paths-append (c ∷ cs) ds =
      pushed_paths-cons ctx c (cs ++ ds)
      ∙ ap (◌++◌ (pushed_paths ctx (c ∷ []))) (pushed_paths-append cs ds)
      ∙ sym (append_assoc (pushed_paths ctx (c ∷ [])) (pushed_paths ctx cs) (pushed_paths ctx ds))
      ∙ ap (λ ps. ps ++ pushed_paths ctx ds) (sym (pushed_paths-cons ctx c cs))

  -- The paths that a client pushes before its stop.
  abbrev pub before_stop : List (Message StorePath) → List StorePath
  before_stop [] = []
  before_stop (message_push p ∷ ms) = p ∷ before_stop ms
  before_stop (stop_daemon ∷ ms) = []

  module _ (h : ℕ) (w : ConnectionWriter) where
    -- The pushes that the daemon expects at some point have all been received when it ends for `w`.
    main_loop-Expects :
        (ts : List (Turn ctx)) (d e : Daemon ctx) (n : ℕ)
        → Expects ctx h w n d
        → main_loop ctx d ts ≡ some e
        → e.state.stop_progress_writer ≡ some w
        → n ≤ count h (hashes ctx (pushed_paths ctx (choices_of ctx d ts)))
    main_loop-Expects [] d e n x went stopped =
        let same = (main_loop-nil ctx d went).0 in
        omega
          (arith, x.stopped (ap (λ (u : Daemon ctx). u.state.stop_progress_writer) same ∙ stopped))
    main_loop-Expects (t ∷ ts) d e n x went stopped =
        let (u, b, step, later) = main_loop-cons ctx d t ts went in
        let ih =
          main_loop-Expects ts u e (n - received_in ctx h d t)
            (Step-Expects ctx h w n d u t (turn-Step ctx d u t step) x) later stopped in
        let cs = choice_of ctx d t in
        let ds = choices_of ctx u ts in
        omega (
          arith,
          ih,
          ap (λ c. count h (hashes ctx (pushed_paths ctx c))) (choices_of-cons ctx d u t ts step),
          ap (λ ps. count h (hashes ctx ps)) (pushed_paths-append cs ds),
          count-hashes-append ctx h (pushed_paths ctx cs) (pushed_paths ctx ds),
        )

    -- The task of another client sends no stop of `w`.
    forward-Owes :
        (n : ℕ) (v : ConnectionWriter) (items : List (Item crates))
        → v ≢ w
        → Owes ctx h w n (forward ctx v items)
    unfolding forward
    forward-Owes n v [] other = tt
    forward-Owes n v (ok (message_push p) ∷ items) other =
        (tt, forward-Owes (n - (if hash p == h then 1 else 0)) v items other)
    forward-Owes n v (ok stop_daemon ∷ items) other = ((λ e. absurd (other e)), tt)
    forward-Owes n v (err e ∷ items) other = (tt, forward-Owes (n - 0) v items other)

    other-Sends :
        (n : ℕ) (cs : List (Connection ctx)) → All (λ c. c.writer ≢ w) cs → All (Sends ctx h w n) cs
    unfolding handle_io
    other-Sends n [] others = tt
    other-Sends n (c ∷ cs) others = (
      λ ms e. elim (Option-cases (receive_all crates (weight c.events + 2) (new c.events))) [
        | inl stuck ↦ absurd (ground arith)
        | inr (items, got) ↦
            let same : forward ctx c.writer items ≡ ms = ground arith in
            subst (Owes ctx h w n) same (forward-Owes n c.writer items others.0)
      ],
      other-Sends n cs others.1,
    )

    events_of-Owes :
        (ms : List (Message StorePath))
        → Owes ctx h w (count h (hashes ctx (before_stop ms))) (events_of ctx w ms)
    events_of-Owes [] = tt
    events_of-Owes (message_push p ∷ ms) =
        let rest = count h (hashes ctx (before_stop ms)) in
        let one = if hash p == h then 1 else 0 in
        (
          tt,
          Owes-fewer ctx h w (events_of ctx w ms) rest (one + rest - one) (omega arith)
              (events_of-Owes ms),
        )
    events_of-Owes (stop_daemon ∷ ms) = ((λ e. refl), tt)

    client-Sends :
        (c : Connection ctx) (ms : List (Message StorePath))
        → c.writer ≡ w
        → AllSendable crates ms
        → IsStream c.events
        → contents c.events ≡ encoding crates ms
        → failure c.events ≡ none
        → Sends ctx h w (count h (hashes ctx (before_stop ms))) c
    client-Sends c ms e sendable stream sent no_failure qs f =
        let n = count h (hashes ctx (before_stop ms)) in
        let given =
          handle_io-encoding ctx ms c.writer c.events (weight c.events + 2) sendable stream sent
            no_failure (omega arith) in
        let same : events_of ctx c.writer ms ≡ qs = cc in
        subst (Owes ctx h w n) (ap (λ v. events_of ctx v ms) (sym e) ∙ same) (events_of-Owes ms)

    All-append {ℓ κ} :
        {A : Type ℓ} (P : A → Type κ) (xs ys : List A) → All P xs → All P ys → All P (xs ++ ys)
    All-append P [] ys a b = b
    All-append P (x ∷ xs) ys a b = (a.0, All-append P xs ys a.1 b)

    listening-Expects :
        (n : ℕ) (cs : List (Connection ctx))
        → All (Sends ctx h w n) cs
        → Expects ctx h w n (listening ctx cs)
    listening-Expects n cs s = record {
      stopped = λ e. absurd cc;
      in_channel = tt;
      in_tasks = tt;
      in_connections =
          All-weaken (Sends ctx h w n) (Sends ctx h w (n - 0)) cs
            (λ c f ms e. Owes-fewer ctx h w ms n (n - 0) (omega arith) (f ms e)) s;
    }

  -- A client and the others, which have other writers.
  pub record Among (connections : List (Connection ctx)) (c : Connection ctx) : Type 0 where
    pub before : List (Connection ctx)
    pub after : List (Connection ctx)
    pub split : connections ≡ before ++ c ∷ after
    pub others_before : All (λ o. o.writer ≢ c.writer) before
    pub others_after : All (λ o. o.writer ≢ c.writer) after

  -- What the connection carries when its client sends these messages and then nothing.
  pub record Carries (c : Connection ctx) (ms : List (Message StorePath)) : Type 0 where
    pub sendable : AllSendable crates ms
    pub stream : IsStream c.events
    pub sent : contents c.events ≡ encoding crates ms
    pub no_failure : failure c.events ≡ none

  -- When the main loop ends for a client, all that it pushed before the stop has been received.
  pub main_loop-receives :
      (connections : List (Connection ctx)) (c : Connection ctx) (ms : List (Message StorePath))
      (ts : List (Turn ctx)) (e : Daemon ctx) (h : ℕ)
      → Among connections c
      → Carries c ms
      → main_loop ctx (listening ctx connections) ts ≡ some e
      → e.state.stop_progress_writer ≡ some c.writer
      → count h (hashes ctx (before_stop ms))
        ≤ count h (hashes ctx (pushed_paths ctx (choices_of ctx (listening ctx connections) ts)))
  main_loop-receives connections c ms ts e h among carries went stopped =
      let n = count h (hashes ctx (before_stop ms)) in
      let w = c.writer in
      let sends =
        client-Sends h w c ms refl carries.sendable carries.stream carries.sent
          carries.no_failure in
      let all =
        All-append h w (Sends ctx h w n) among.before (c ∷ among.after)
          (other-Sends h w n among.before among.others_before)
          (sends, other-Sends h w n among.after among.others_after) in
      main_loop-Expects h w ts (listening ctx connections) e n
        (listening-Expects h w n connections (subst (All (Sends ctx h w n)) (sym among.split) all))
        went stopped
