-- ===== src/Clients/Conversation.antt =====
-- A stop client of src/stop.rs and the daemon of src/event_loop.rs, over one connection.
use cache_action.Base.{
  ℕ, ◌%◌, ◌≡◌, ap, ◌∙◌, List, [], ◌∷◌, ◌++◌, none, some, length, Result, ok, ◌<◌, subst, Option,
  inl, inr,
}
use cache_action.Io.{Bytes, IoError, ReadEvent, IsStream, contents, failure, Writer, IsWilling}
use cache_action.Protocol.{stop_sentinel}
use cache_action.EventLoop.{Context, u32_mod, HandlePathError}
use cache_action.EventLoop.Drain.{Report, Completion}
use cache_action.EventLoop.Finish.{drain_log}
use cache_action.EventLoop.Account.{Account}
use cache_action.ErrorText.{ErrorText}
use cache_action.StopProgress.{WriterExt, new, report_all}
use cache_action.StopProgress.Told.{IsTaking, told, run-told}
use cache_action.Daemon.{Connection, listening, Turn, serve}
use cache_action.Daemon.Refines.{choices_of, serve-run}
use cache_action.Process.{Exit}
use cache_action.Clients.Stop.{StopArgs, Socket, Copy, Copies, stop, Stops, stop-Stops}

-- A stream that does not fail is copied to its end.
pub record IsCopying (copy : Copy) : Type 0 where
  pub count : List ReadEvent → ℕ
  pub copies :
      (es : List ReadEvent)
      → IsStream es
      → failure es ≡ none
      → copy es ≡ (ok (count es), contents es)

module _ (ctx : Context) (as_f64 : ℕ → ℕ) (closure_error : ctx.StoreClosureError → ErrorText)
    (handling_error : HandlePathError ctx → ErrorText) (ext : WriterExt) (taking : IsTaking ext)
    (io_text : IoError → Bytes) (copy : Copy) (copying : IsCopying copy) where
  open ctx use {crates, ConnectionWriter}

  -- The socket of a client to a daemon that writes to `w`, as it is when they begin.
  pub record Talks (calls : List (Report ctx)) (w : Writer) (socket : Socket) (fuel : ℕ)
      : Type 0 where
    pub willing : IsWilling socket.1.polls
    pub fresh : socket.1.output ≡ []
    pub enough : length socket.1.polls < fuel
    pub stream : IsStream socket.0
    pub no_failure : failure socket.0 ≡ none
    pub fresh_answer : w.output ≡ []
    pub answer :
        contents socket.0
        ≡ (report_all ctx as_f64 closure_error handling_error ext (new w) calls).writer.output

  same_exit :
      (exit : Exit) (printed : Bytes)
      → exit.code ≡ 0
      → exit.stdout ≡ printed
      → exit.stderr ≡ []
      → exit ≡ record { code = 0; stdout = printed; stderr = [] }
  same_exit exit printed c o e = cc

  sent_of :
      (read_half : List ReadEvent) (w : Writer) (n : ℕ) (printed : Bytes)
      (r : Option (Exit × Bytes))
      → IsWilling w.polls
      → w.output ≡ []
      → copy read_half ≡ (ok n, printed)
      → Stops crates io_text copy (ok (read_half, w)) r
      → r ≡ some (record { code = 0; stdout = printed; stderr = [] }, stop_sentinel ∷ [])
  sent_of read_half w n printed none h f p s = absurd s
  sent_of read_half w n printed (some (exit, sent)) h f p (inl (e, g)) =
      let (c, o, quiet) = subst (λ x. Copies crates io_text copy x exit) p e in
      let same = same_exit exit printed c o quiet in
      let bytes : sent ≡ stop_sentinel ∷ [] = g ∙ ap (λ o. o ++ stop_sentinel ∷ []) f in
      ap some (cc)
  sent_of read_half w n printed (some (exit, sent)) h f p (inr (e, broken, x, rest)) =
      absurd (broken h)

  -- The client that asks for the stop sends the sentinel, exits with 0 and prints just what the daemon
  -- tells of its run: how many paths are left, a line for each of them, and the summary of the report
  -- that accounts for the whole run.
  pub stop-told :
      (connections : List (Connection ctx)) (ts : List (Turn ctx)) (ds : List (Completion ctx))
      (v : ConnectionWriter) (calls : List (Report ctx)) (w : Writer)
      (connect : Bytes → Result Socket IoError) (fuel : ℕ) (args : StopArgs) (socket : Socket)
      → serve ctx connections ts ds ≡ some (v, calls)
      → connect args.socket ≡ ok socket
      → Talks calls w socket fuel
      → (a : Account ctx (choices_of ctx (listening ctx connections) ts) ds v calls) × (stop crates
            io_text copy connect fuel args
          ≡ some (
            record {
              code = 0;
              stdout =
                  told ctx as_f64 closure_error handling_error
                    (length (drain_log ctx a.stopped ds) % u32_mod)
                    (drain_log ctx a.stopped ds)
                    a.last.report;
              stderr = [];
            },
            stop_sentinel ∷ [],
          ))
  stop-told connections ts ds v calls w connect fuel args socket e f talks =
      let cs = choices_of ctx (listening ctx connections) ts in
      let (a, all) =
        run-told ctx as_f64 closure_error handling_error ext taking cs ds v calls w
          (serve-run ctx connections ts ds e) in
      let left = drain_log ctx a.stopped ds in
      let text =
        told ctx as_f64 closure_error handling_error (length left % u32_mod) left a.last.report in
      let printed : contents socket.0 ≡ text =
        talks.answer ∙ all ∙ ap (λ o. o ++ text) talks.fresh_answer in
      let copied : copy socket.0 ≡ (ok (copying.count socket.0), text) =
        copying.copies socket.0 talks.stream talks.no_failure
        ∙ ap (λ t. (ok (copying.count socket.0), t)) printed in
      let enough : (s : Socket) → connect args.socket ≡ ok s → length s.1.polls < fuel = λ s g.
        let same : socket ≡ s = cc in
        subst (λ (u : Socket). length u.1.polls < fuel) same talks.enough in
      let came =
        subst (λ r. Stops crates io_text copy r (stop crates io_text copy connect fuel args)) f
          (stop-Stops crates io_text copy connect fuel args enough) in
      (
        a,
        sent_of socket.0 socket.1 (copying.count socket.0) text _ talks.willing talks.fresh copied
            came,
      )
