-- ===== src/Lib.antt =====
-- A verification library for the cache daemon: a program that gets store paths from its clients,
-- computes their closures, and uploads what no cache has.
--
-- A client (src/push.rs, src/stop.rs) connects to the daemon's socket and writes messages in the
-- format of src/protocol.rs. The daemon (src/event_loop.rs) reads each connection in a task of its
-- own, `handle_io`, which passes the messages to the loop in `run`. The loop computes the closure of
-- each pushed path, handles the paths in it with at most 32 at a time, each by `handle_store_path`,
-- and after a stop handles what is left and reports to the client that asked for it. The traits in
-- src/context.rs stand between the loop and the caches, the Nix store and the HTTP client.
--
-- Files:
--   Base             lists, slices, results and the rules that the other files share
--   Io               `AsyncRead` and `AsyncWrite` of the futures crate: a stream is the list of what
--                    its polls find, a writer also has the bytes that it took
--   Protocol         src/protocol.rs: messages and errors; Protocol/Sender is `Sender` with its
--                    `Sink`, and how it is awaited (`feed_all`, `send`, `close`);
--                    Protocol/Receiver is `Receiver` with `poll_next` (`iterate` is one round of its
--                    loop), and Receiver/Decode describes the format without buffer or reads;
--                    Protocol/StoreDirs is `StoreDir`
--   EventLoop        src/event_loop.rs: EventLoop/Select is the loop in `run` (`select` is a round of
--                    its `select!`), EventLoop/Drain what follows it, EventLoop/Connection is
--                    `handle_io`; Invariant, Coverage, Finish, Stops, Account, Ends, Agree and Errors
--                    prove what a run does
--   Daemon           src/event_loop.rs as a whole: the connections, a task `handle_io` for each, the
--                    channel between them and the loop; Daemon/Refines takes it to the loop,
--                    Daemon/Kept, Receives and Conserves follow the clients' messages into the
--                    loop, Served and Overtaken say what becomes of them
--   RealContext      src/real_context.rs: what the daemon prints about its clients
--   Process          how a process ends
--   ErrorText        what is written of an error and of its causes; EventLoop/Texts has the texts of a
--                    `HandlePathError`
--   Clients          src/push.rs and src/stop.rs; Clients/Conversation is a stop client and the daemon
--   EventLoop/Handle `handle_store_path`, `should_push_store_path`, `upstream_caches_have_narinfo`
--                    and `HashAndCountWriter` of src/event_loop.rs
--   AsyncReadExt     src/async_read_ext.rs: `TryFill`; AsyncReadExt/Fills is what it comes to
--   Sub60Cache       src/sub60_cache.rs: errors, state and URLs; Sub60Cache/Requests the requests
--                    and what is made of the answers, Sub60Cache/Quoted the form of an ETag,
--                    Sub60Cache/UploadNar `upload_nar` (`with_urls` is a round of its loop;
--                    UploadNar/Reasons says why it can fail);
--                    Sub60Cache/Pushed joins it to `handle_store_path`; Sub60Cache/Connect is
--                    `connect`, and what the URLs of the requests tell; Sub60Cache/Texts the texts of
--                    errors
--   AnyCache         src/any_cache.rs, with src/noop_cache.rs in AnyCache/Noop; AnyCache/Session is what
--                    one path does to a cache, AnyCache/Texts the texts of errors
--   NixStore         src/nix_store.rs: the closure of a path and its infos, over the bindings;
--                    NixStore/Collects is what its loops collect; NixStore/WriteNar is `write_nar`
--                    with `read_dir_entries`, over a tree of files
--   StopProgress     src/real_stop_progress_reporter.rs: what a stop client is sent; StopProgress/Texts
--                    its texts and byte sizes, StopProgress/Told what a whole run tells,
--                    StopProgress/Lines the lines of the final report
--   Run              src/run.rs: how the daemon starts, and the list of upstream caches it is given;
--                    Run/Ready is what the process that starts it is told, Run/Streams the connections
--                    that it accepts
--
-- Concurrency: a future in flight is the store path that it works on. Which branch `select!` takes,
-- which future is ready and with what result are given as data (`Choice`, `Completion`), so that a
-- theorem about all such lists is one about all schedules; `Turn` does the same for the daemon; a list
-- that names a future that is not there is no run (`none`). For `future::select`, `try_join` and the set of requests the order is
-- an argument as well (`cache_first`, `upload_ends`, `order`).
--
-- Parameters: the types and functions of other crates (`Crates`, `Context`, `Externals`): store paths
-- with their text, of which parsing gives back what was displayed; `memchr`, which finds the first
-- place; SHA-256, whose updates in sequence hash the bytes in sequence; URLs. What a cache, the
-- Nix store and the HTTP client answer while a path is handled is `Answers`. The crates behind the
-- Sub60 cache are `Web`, those behind the Nix store `Bindings`, and what the clock and the server
-- answer in each round of an upload is `Environment`; its theorems assume a server that gives URLs
-- in the order of the parts asked for (`IsServing`), which can be used in the next round
-- (`IsGranting`).
--
-- Bounds and fuel: the receiver's buffer has 1024 bytes and each further round of the loop in
-- `poll_next` adds at least one, so 1025 rounds are enough; a round of `drain_buf` writes at least
-- a byte of the buffer. Awaiting a stream or a close polls it as often as its list of polls is long;
-- the theorems ask for that much fuel and show that a result is given. Counters are machine
-- integers with their wrap-around: u32 for paths, u64 for bytes. An upload takes at most two rounds
-- for each byte of the NAR and two more, since a part has at least a byte; part numbers end at 65535.
--
-- Not modelled: the texts of the errors of other crates, what the operating system makes of a socket's
-- path, the tokio runtime and the command line (src/main.rs, src/lib.rs, src/tokio.rs), a failure
-- of the NAR's writer and the bytes that it writes, and panics: of a URL that cannot be a base, and of
-- a timestamp that overflows.
pub mod Base
pub mod Io
pub mod Protocol
pub mod EventLoop
pub mod Process
pub mod ErrorText
pub mod Daemon
pub mod Clients
pub mod AsyncReadExt
pub mod Sub60Cache
pub mod AnyCache
pub mod NixStore
pub mod StopProgress
pub mod Run
pub mod RealContext
