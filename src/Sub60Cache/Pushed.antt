-- ===== src/Sub60Cache/Pushed.antt =====
-- `handle_store_path` of src/event_loop.rs with the cache of src/sub60_cache.rs: the NAR goes through the
-- pipe of the one to the `upload_nar` of the other.
use cache_action.Base.{
  ℕ, ◌+◌, ◌*◌, ◌%◌, ◌<◌, ◌≡◌, sym, ap, ◌∙◌, true, List, [], ◌∷◌, ◌++◌, Option, some, length,
  flatten, append-nil, Result, ok, map_err, map_ok, arith, subst, Result-cases, inl, inr,
}
use mathlib.Core.List.{append_cancel_left}
use cache_action.Io.{ReadEvent, IsStream, contents}
use cache_action.EventLoop.{Context, u64_mod}
use cache_action.EventLoop.Handle.{
  Externals, Answers, NarInfo, Traced, initiated, nar_upload, narinfo_upload, handle_store_path,
}
use cache_action.EventLoop.Handle.Guarantees.{piped, Describes}
use cache_action.EventLoop.Handle.Pushes.{
  Outcome, skipped, unchecked, not_initiated, not_written, not_uploaded, not_described, described,
  handle_store_path-Outcome,
}
use cache_action.Sub60Cache.{Web, CacheRequestError, NarUploadState as Sub60State}
use cache_action.Sub60Cache.UploadNar.{Environment, Call as Request, completed, upload_nar}
use cache_action.Sub60Cache.UploadNar.Rounds.{IsNumbered, IsServing}
use cache_action.Sub60Cache.UploadNar.Pieces.{pieces, etags_of, IsCut}
use cache_action.Sub60Cache.UploadNar.Loop.{Uploaded, stopped, sent}
use cache_action.Sub60Cache.UploadNar.Finishes.{IsGranting, upload_nar-Uploaded}

module _ (ctx : Context) (ext : Externals) (a : Answers ctx ext) (urls : List ext.Url)
    (path : ctx.StorePath) where
  open ctx use {hash, CacheError}
  open ext use {sha256, NarUploadState}
  open sha256 use {empty, update, finalize}

  -- Where a NARInfo is uploaded, the rest of the outcome is known.
  narinfo_described :
      (t : Traced ctx ext (Option ℕ)) (n : NarInfo ctx ext) (state : NarUploadState)
      → Outcome ctx ext a urls path t
      → t.1 ≡ initiated path ∷ nar_upload true ∷ narinfo_upload (hash path) n state ∷ []
      → (a.upload_result ≡ ok state) × Describes ctx ext a path n
  narinfo_described t n state (skipped e f g) made = absurd cc
  narinfo_described t n state (unchecked x e f g) made = absurd cc
  narinfo_described t n state (not_initiated x y e f g) made = absurd cc
  narinfo_described t n state (not_written x y e f g) made = absurd cc
  narinfo_described t n state (not_uploaded x y e f g) made = absurd cc
  narinfo_described t n state (not_described y x g) made = absurd cc
  narinfo_described t n state (described m s y e f d g h) made =
      let same : m ≡ n = cc in
      let left : s ≡ state = cc in
      (f ∙ ap (λ x. ok x) left, subst (Describes ctx ext a path) same d)

  module _ (web : Web) (env : Environment web) (url_for : ℕ → web.Url)
      (serving : IsServing web env url_for) (granting : IsGranting web env) where
    -- The cache's end of the pipe, and how the cache's result comes from the upload.
    pub record IsPiped (state : Sub60State web) (events : List ReadEvent) (fuel : ℕ) : Type 0 where
      pub to_error : CacheRequestError web → CacheError
      pub upload_state : NarUploadState
      pub some_room : 0 < state.part_size
      pub stream : IsStream events
      pub numbered : IsNumbered web env url_for 1 state.part_urls
      pub enough : 2 * length (contents events) + 1 < fuel
      pub piped_eq : (piped ctx ext a).inner.output ≡ a.pipe.output ++ contents events
      pub result_eq :
          (r : Result (Unit {0}) (CacheRequestError web) × List (Request web))
          → upload_nar web env fuel state events ≡ some r
          → a.upload_result ≡ map_err to_error (map_ok (λ u. upload_state) r.0)

    -- The parts that the cache has got, and the NARInfo that describes them.
    pub record Stored (state : Sub60State web) (events : List ReadEvent) (fuel : ℕ)
        (n : NarInfo ctx ext) : Type 0 where
      pub requests : List (Request web)
      pub uploaded :
          upload_nar web env fuel state events
          ≡ some (ok tt, requests ++ completed (etags_of web url_for requests) ∷ [])
      pub cut : IsCut state.part_size (pieces web url_for requests)
      pub nar_hash_eq : n.nar_hash ≡ finalize (update empty (flatten (pieces web url_for requests)))
      pub nar_size_eq : n.nar_size ≡ length (flatten (pieces web url_for requests)) % u64_mod
      pub etags_all : length (etags_of web url_for requests) ≡ length (pieces web url_for requests)

    sent-Stored :
        (state : Sub60State web) (events : List ReadEvent) (fuel : ℕ) (n : NarInfo ctx ext)
        (s : NarUploadState) (r : Result (Unit {0}) (CacheRequestError web) × List (Request web))
        → IsPiped state events fuel
        → upload_nar web env fuel state events ≡ some r
        → Uploaded web env url_for state events r
        → a.upload_result ≡ ok s
        → Describes ctx ext a path n
        → Stored state events fuel n
    sent-Stored state events fuel n s r p ended (stopped e rest f sends why) ok_result d =
        let answered = p.result_eq r ended in absurd (ground (arith, answered, f, ok_result))
    sent-Stored state events fuel n s r p ended (sent calls sends whole count all f) ok_result d =
        let answered = p.result_eq r ended in
        elim (Result-cases r.0) [
          | inr (x, failed) ↦ absurd (ground (arith, answered, failed, ok_result))
          | inl (u, worked) ↦
              let gone : d.sent ≡ flatten (pieces web url_for calls) =
                append_cancel_left a.pipe.output d.sent (contents events)
                  (sym d.piped_eq ∙ p.piped_eq)
                ∙ sends.bytes_eq
                ∙ append-nil _ in
              record {
                requests = calls;
                uploaded = ended ∙ ap (λ x. some (x, r.1)) worked ∙ ap (λ cs. some (ok tt, cs)) all;
                cut = sends.cut;
                nar_hash_eq = d.nar_hash_eq ∙ ap (λ bs. finalize (update empty bs)) gone;
                nar_size_eq = d.nar_size_eq ∙ ap (λ bs. length bs % u64_mod) gone;
                etags_all = count;
              }
        ]

    -- Where `handle_store_path` uploads a NARInfo to such a cache, whose server grants URLs, the cache
    -- has the whole NAR that the NARInfo describes: the parts that it has got, each but the last of the
    -- part size, put together have the hash and the size that the NARInfo tells, and the last request
    -- of the upload, which had an ETag for each part, has succeeded.
    pub handle_store_path-Stored :
        (state : Sub60State web) (events : List ReadEvent) (fuel : ℕ) (n : NarInfo ctx ext)
        (s : NarUploadState)
        → IsPiped state events fuel
        → (handle_store_path ctx ext a urls path).1
          ≡ initiated path ∷ nar_upload true ∷ narinfo_upload (hash path) n s ∷ []
        → Stored state events fuel n
    handle_store_path-Stored state events fuel n s p made =
        let (r, ended, up) =
          upload_nar-Uploaded web env url_for serving granting state events fuel p.some_room
            p.stream p.numbered p.enough in
        let (worked, d) =
          narinfo_described (handle_store_path ctx ext a urls path) n s
            (handle_store_path-Outcome ctx ext a urls path) made in
        sent-Stored state events fuel n s r p ended up worked d
