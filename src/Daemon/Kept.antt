-- ===== src/Daemon/Kept.antt =====
-- What a client has sent before its stop is received before it: the connection's task and the channel
-- of src/event_loop.rs keep the order, whatever the other tasks do.
use cache_action.Base.{
  ℕ, ◌+◌, ◌-◌, ◌≤◌, ◌≡◌, sym, ap, ◌∙◌, List, [], ◌∷◌, ◌++◌, some, ok, err, arith, subst,
}
use cache_action.Io.{weight}
use cache_action.EventLoop.{Context, Received, State, push_store_path, stop}
use cache_action.EventLoop.Select.{on_message}
use cache_action.EventLoop.Connection.{handle_io}
use cache_action.EventLoop.Stops.{select_closure-writer, select_handled-writer}
use cache_action.Daemon.{next_of, Connection, Daemon, Turn}
use cache_action.Daemon.Steps.{Step, sent, spawned, received, closed, finished}
use cache_action.Daemon.Owed.{
  All, All-snoc, All-weaken, pushes, pushes_in, InTime, Owes, Owes-fewer, Owes-snoc, pushes_in-snoc,
  pushes-count, received_in, fewer, next_of-Owes,
}

module _ (ctx : Context) where
  open ctx use {StorePath, ConnectionWriter, hash}

  module _ (h : ℕ) (w : ConnectionWriter) where
    -- What a connection is still to send.
    abbrev pub Sends : ℕ → Connection ctx → Type 0
    Sends n c =
        (ms : List (Received ctx))
        → handle_io ctx (weight c.events + 2) c.writer c.events ≡ some ms
        → Owes ctx h w n ms

    -- At least `n` pushes are received before a stop of `w`.
    pub record Expects (n : ℕ) (d : Daemon ctx) : Type 0 where
      pub stopped : d.state.stop_progress_writer ≡ some w → n ≡ 0
      pub in_channel : Owes ctx h w n d.message_rx
      pub in_tasks : All (Owes ctx h w (n - pushes_in ctx h d.message_rx)) d.tasks
      pub in_connections : All (Sends (n - pushes_in ctx h d.message_rx)) d.waiting

    Expects-fewer : (d : Daemon ctx) (n k : ℕ) → k ≤ n → Expects n d → Expects k d
    Expects-fewer d n k l x =
        let sent_before = pushes_in ctx h d.message_rx in
        record {
          stopped = λ e. omega (arith, x.stopped e, l);
          in_channel = Owes-fewer ctx h w d.message_rx n k l x.in_channel;
          in_tasks =
              fewer ctx h w d.tasks (n - sent_before) (k - sent_before) (omega (arith, l))
                x.in_tasks;
          in_connections =
              All-weaken (Sends (n - sent_before)) (Sends (k - sent_before)) d.waiting
                (λ c s ms e.
                  Owes-fewer ctx h w ms (n - sent_before) (k - sent_before) (omega (arith, l))
                    (s ms e))
                x.in_connections;
        }

    sent-Expects :
        (n i : ℕ) (d : Daemon ctx) (m : Received ctx) (tasks : List (List (Received ctx)))
        → next_of i d.tasks ≡ some (m, tasks)
        → Expects n d
        → Expects n (record d { tasks = tasks; message_rx = d.message_rx ++ m ∷ [] })
    sent-Expects n i d m tasks e x =
        let sent_before = pushes_in ctx h d.message_rx in
        let k = n - pushes_in ctx h (d.message_rx ++ m ∷ []) in
        let (in_time, left) =
          next_of-Owes ctx h w (n - sent_before) i d.tasks tasks m e x.in_tasks in
        let more = pushes_in-snoc ctx h d.message_rx m in
        record {
          stopped = x.stopped;
          in_channel = Owes-snoc ctx h w d.message_rx n m x.in_channel in_time;
          in_tasks =
              fewer ctx h w tasks (n - sent_before - pushes ctx h m) k (omega (arith, more)) left;
          in_connections =
              All-weaken (Sends (n - sent_before)) (Sends k) d.waiting
                (λ c s ms f.
                  Owes-fewer ctx h w ms (n - sent_before) k (omega (arith, more)) (s ms f))
                x.in_connections;
        }

    spawned-Expects :
        (n : ℕ) (d : Daemon ctx) (c : Connection ctx) (rest : List (Connection ctx))
        (ms : List (Received ctx))
        → d.waiting ≡ c ∷ rest
        → handle_io ctx (weight c.events + 2) c.writer c.events ≡ some ms
        → Expects n d
        → Expects n (record d { waiting = rest; tasks = d.tasks ++ ms ∷ [] })
    spawned-Expects n d c rest ms e f x =
        let sent_before = pushes_in ctx h d.message_rx in
        let sends = subst (All (Sends (n - sent_before))) e x.in_connections in
        record {
          stopped = x.stopped;
          in_channel = x.in_channel;
          in_tasks = All-snoc (Owes ctx h w (n - sent_before)) d.tasks ms x.in_tasks (sends.0 ms f);
          in_connections = sends.1;
        }

    on_message-stopped :
        (n : ℕ) (s : State ctx) (m : Received ctx)
        → (s.stop_progress_writer ≡ some w → n ≡ 0)
        → InTime ctx h w n m
        → (on_message ctx s m).stop_progress_writer ≡ some w
        → n - pushes ctx h m ≡ 0
    unfolding on_message
    on_message-stopped n s (ok (push_store_path p)) x t e = omega (arith, x e)
    on_message-stopped n s (ok (stop v)) x t e = omega (arith, t (cc))
    on_message-stopped n s (err f) x t e = omega (arith, x e)

    received-Expects :
        (n : ℕ) (d : Daemon ctx) (m : Received ctx) (rest : List (Received ctx))
        → d.message_rx ≡ m ∷ rest
        → Expects n d
        → Expects
            (n - pushes ctx h m)
            (record d { message_rx = rest; state = on_message ctx d.state m })
    received-Expects n d m rest e x =
        let channel = subst (Owes ctx h w n) e x.in_channel in
        let before : pushes_in ctx h d.message_rx ≡ pushes ctx h m + pushes_in ctx h rest =
          ap (pushes_in ctx h) e in
        let k = n - pushes ctx h m - pushes_in ctx h rest in
        record {
          stopped = on_message-stopped n d.state m x.stopped channel.0;
          in_channel = channel.1;
          in_tasks =
              fewer ctx h w d.tasks (n - pushes_in ctx h d.message_rx) k (omega (arith, before))
                x.in_tasks;
          in_connections =
              All-weaken (Sends (n - pushes_in ctx h d.message_rx)) (Sends k) d.waiting
                (λ c s ms f.
                  Owes-fewer ctx h w ms (n - pushes_in ctx h d.message_rx) k (omega (arith, before))
                    (s ms f))
                x.in_connections;
        }

    stays-Expects :
        (n : ℕ) (d : Daemon ctx) (s : State ctx)
        → s.stop_progress_writer ≡ d.state.stop_progress_writer
        → Expects n d
        → Expects n (record d { state = s })
    stays-Expects n d s e x = record {
      stopped = λ f. x.stopped (sym e ∙ f);
      in_channel = x.in_channel;
      in_tasks = x.in_tasks;
      in_connections = x.in_connections;
    }

    pub Step-Expects :
        (n : ℕ) (d u : Daemon ctx) (t : Turn ctx)
        → Step ctx d t u
        → Expects n d
        → Expects (n - received_in ctx h d t) u
    Step-Expects n d u t (sent i m tasks e) x =
        Expects-fewer u n (n - 0) (omega arith) (sent-Expects n i d m tasks e x)
    Step-Expects n d u t (spawned c rest ms e f) x =
        Expects-fewer u n (n - 0) (omega arith) (spawned-Expects n d c rest ms e f x)
    Step-Expects n d u t (received m rest e) x =
        rw (e, ← pushes-count ctx h m) (received-Expects n d m rest e x)
    Step-Expects n d u t (closed i r s e) x =
        Expects-fewer u n (n - 0) (omega arith)
          (stays-Expects n d s (select_closure-writer ctx d.state s i r e) x)
    Step-Expects n d u t (finished i r s e) x =
        Expects-fewer u n (n - 0) (omega arith)
          (stays-Expects n d s (select_handled-writer ctx d.state s i r e) x)
