-- ===== src/EventLoop/Handle/Pushes.antt =====
-- The order of the calls that `handle_store_path` of src/event_loop.rs makes, on every branch.
use cache_action.Base.{
  ◌==◌, ℕ, zero, suc, ◌≡◌, refl, ap, Bool, true, false, List, [], ◌∷◌, Option, none, if◌then◌else◌,
  Result, ok, err, ◌⊎◌, inl, inr, arith, subst,
}
use cache_action.Io.{Bytes}
use cache_action.EventLoop.{
  Context, HandlePathError, upload_nar, write_nar, check_nar_info_existence, create_nar_upload_id,
}
use cache_action.EventLoop.Handle.HashAndCount.{
  HashAndCountWriter, new, write, write_each, Records, write-Records, new-Records,
}
use cache_action.EventLoop.Handle.{
  Externals, Answers, NarInfo, Traced, initiated, nar_upload, narinfo_upload, ◌>>=◌, lift, join,
  stream_nar, describe, push_path, handle_store_path, should_push_store_path, succeeded,
}
use cache_action.EventLoop.Handle.Guarantees.{
  piped, Describes, last_result, IsError, Ends, describe-Ends,
}

module _ (ctx : Context) (ext : Externals) where
  open ctx use {StorePath, hash, CacheError, WriteNarError}
  open ext use {Url, NarUploadState, sha256}

  module _ (a : Answers ctx ext) where
    -- The two halves of the join have both succeeded.
    abbrev Joined :
        HashAndCountWriter sha256
        → Result (HashAndCountWriter sha256 × NarUploadState) (HandlePathError ctx)
        → Type 0
    Joined f (ok (v, state)) =
        Records sha256 a.pipe.output v
        × (v ≡ f)
        × (a.write_result ≡ ok tt)
        × (a.upload_result ≡ ok state)
    Joined f (err e) =
        ((f : WriteNarError) × (a.write_result ≡ err f) × (e ≡ write_nar f))
        ⊎ ((f : CacheError) × (a.upload_result ≡ err f) × (e ≡ upload_nar f))

    join_end :
        (k : ℕ) (w : HashAndCountWriter sha256)
        → Records sha256 a.pipe.output w
        → (u : Result NarUploadState CacheError) → a.upload_result ≡ u
        → (v : Result (Unit {0}) WriteNarError) → a.write_result ≡ v
        → Joined w (join ctx ext a k [] w)
    unfolding join
    join_end zero w r (ok state) e (ok t) f = rw (e, f) (r, refl, refl, refl)
    join_end (suc k) w r (ok state) e (ok t) f = rw (e, f) (r, refl, refl, refl)
    join_end zero w r (ok state) e (err x) f = rw (e, f) (inl (x, refl, refl))
    join_end (suc k) w r (ok state) e (err x) f = rw (e, f) (inl (x, refl, refl))
    join_end zero w r (err y) e v f = rw e (inr (y, refl, refl))
    join_end (suc k) w r (err y) e (ok t) f =
        let later : (suc k == 0) ≡ false = ground arith in rw (e, later, f) (inr (y, refl, refl))
    join_end (suc k) w r (err y) e (err x) f =
        let later : (suc k == 0) ≡ false = ground arith in rw (e, later, f) (inl (x, refl, refl))

    join_later :
        (f : HashAndCountWriter sha256) (k : ℕ) (b : Bytes) (bs : List Bytes)
        (w : HashAndCountWriter sha256)
        → Joined f (join ctx ext a k bs (write sha256 w b))
        → Joined f (join ctx ext a (suc k) (b ∷ bs) w)
    unfolding join
    join_later f k b bs w h = h

    upload_broke :
        (f w : HashAndCountWriter sha256) (b : Bytes) (bs : List Bytes)
        → Joined f (join ctx ext a zero bs (write sha256 w b))
        → (u : Result NarUploadState CacheError) → a.upload_result ≡ u
        → Joined f (join ctx ext a zero (b ∷ bs) w)
    unfolding join
    upload_broke f w b bs h (ok state) e = subst (Joined f) (ground (arith, e)) h
    upload_broke f w b bs h (err y) e = rw e (inr (y, refl, refl))

    join-Joined :
        (bs : List Bytes) (k : ℕ) (w : HashAndCountWriter sha256)
        → Records sha256 a.pipe.output w
        → Joined (write_each sha256 w bs) (join ctx ext a k bs w)
    join-Joined [] k w r = join_end k w r a.upload_result refl a.write_result refl
    join-Joined (b ∷ bs) zero w r =
        upload_broke (write_each sha256 w (b ∷ bs)) w b bs
          (join-Joined bs zero (write sha256 w b) (write-Records sha256 a.pipe.output w b r))
          a.upload_result refl
    join-Joined (b ∷ bs) (suc k) w r =
        join_later (write_each sha256 w (b ∷ bs)) k b bs w
          (join-Joined bs k (write sha256 w b) (write-Records sha256 a.pipe.output w b r))

  -- No cache has the path.
  abbrev pub Wanted : Answers ctx ext → List Url → StorePath → Type 0
  Wanted a urls path = should_push_store_path ctx ext a urls path ≡ ok true

  -- How a call ends, with the calls on the cache that it made.
  pub data Outcome (a : Answers ctx ext) (urls : List Url) (path : StorePath)
      (t : Traced ctx ext (Option ℕ)) : Type 0 where
    skipped :
        should_push_store_path ctx ext a urls path ≡ ok false
        → t.0 ≡ ok none
        → t.1 ≡ []
        → Outcome a urls path t
    unchecked :
        (e : CacheError)
        → should_push_store_path ctx ext a urls path ≡ err e
        → t.0 ≡ err (check_nar_info_existence e)
        → t.1 ≡ []
        → Outcome a urls path t
    not_initiated :
        (e : CacheError)
        → Wanted a urls path
        → a.initiate_nar_upload ≡ err e
        → t.0 ≡ err (create_nar_upload_id e)
        → t.1 ≡ initiated path ∷ []
        → Outcome a urls path t
    not_written :
        (e : WriteNarError)
        → Wanted a urls path
        → a.write_result ≡ err e
        → t.0 ≡ err (write_nar e)
        → t.1 ≡ initiated path ∷ nar_upload false ∷ []
        → Outcome a urls path t
    not_uploaded :
        (e : CacheError)
        → Wanted a urls path
        → a.upload_result ≡ err e
        → t.0 ≡ err (upload_nar e)
        → t.1 ≡ initiated path ∷ nar_upload false ∷ []
        → Outcome a urls path t
    not_described :
        Wanted a urls path
        → IsError ctx ext t.0
        → t.1 ≡ initiated path ∷ nar_upload true ∷ []
        → Outcome a urls path t
    described :
        (n : NarInfo ctx ext) (state : NarUploadState)
        → Wanted a urls path
        → a.write_result ≡ ok tt
        → a.upload_result ≡ ok state
        → Describes ctx ext a path n
        → t.0 ≡ last_result ctx ext a path n state
        → t.1 ≡ initiated path ∷ nar_upload true ∷ narinfo_upload (hash path) n state ∷ []
        → Outcome a urls path t

  module _ (a : Answers ctx ext) (urls : List Url) (path : StorePath) where
    abbrev Ended : Traced ctx ext (Option ℕ) → Type 0
    Ended = Outcome a urls path

    -- What is left to do once the NAR is in the cache.
    described_of :
        (state : NarUploadState) (t : Traced ctx ext (Option ℕ))
        → Wanted a urls path
        → a.write_result ≡ ok tt
        → a.upload_result ≡ ok state
        → Ends ctx ext a path state t
        → Ended (t.0, initiated path ∷ nar_upload true ∷ t.1)
    described_of state t yes_ w u (inl (none_made, failed)) =
        not_described yes_ failed (ap (λ cs. initiated path ∷ nar_upload true ∷ cs) none_made)
    described_of state t yes_ w u (inr (n, made, d, r)) =
        described n state yes_ w u d r (ap (λ cs. initiated path ∷ nar_upload true ∷ cs) made)

    streamed_of :
        (r : Result (HashAndCountWriter sha256 × NarUploadState) (HandlePathError ctx))
        → Wanted a urls path
        → Joined a (piped ctx ext a) r
        → Ended (
          (◌>>=◌ ctx ext (r, nar_upload (succeeded ctx ext r) ∷ []) (describe ctx ext a path)).0,
          initiated path
              ∷ (◌>>=◌ ctx ext
                  (r, nar_upload (succeeded ctx ext r) ∷ [])
                  (describe ctx ext a path)).1,
        )
    streamed_of (ok (v, state)) yes_ (r, same, w, u) =
        described_of state (describe ctx ext a path (v, state)) yes_ w u
          (describe-Ends ctx ext a path v state r same)
    streamed_of (err e) yes_ (inl (f, w, x)) = not_written f yes_ w (ap err x) refl
    streamed_of (err e) yes_ (inr (f, u, x)) = not_uploaded f yes_ u (ap err x) refl

    started_of :
        (r : Result NarUploadState CacheError)
        → Wanted a urls path
        → a.initiate_nar_upload ≡ r
        → Ended (
          (◌>>=◌ ctx ext
              (lift ctx ext create_nar_upload_id r)
              (λ _. ◌>>=◌ ctx ext (stream_nar ctx ext a) (describe ctx ext a path))).0,
          initiated path
              ∷ (◌>>=◌ ctx ext
                  (lift ctx ext create_nar_upload_id r)
                  (λ _. ◌>>=◌ ctx ext (stream_nar ctx ext a) (describe ctx ext a path))).1,
        )
    unfolding stream_nar
    started_of (err e) yes_ failed = not_initiated e yes_ failed refl refl
    started_of (ok state) yes_ started =
        streamed_of _ yes_
          (join-Joined a a.buffers a.upload_ends (new sha256 a.pipe) (new-Records sha256 a.pipe))

    push_path-Outcome : Wanted a urls path → Ended (push_path ctx ext a path)
    unfolding push_path
    push_path-Outcome yes_ = started_of a.initiate_nar_upload yes_ refl

    pushed_of :
        (r : Result Bool CacheError)
        → should_push_store_path ctx ext a urls path ≡ r
        → Ended (
            ◌>>=◌ ctx ext
              (lift ctx ext check_nar_info_existence r)
              (λ push. if push then push_path ctx ext a path else (ok none, [])))
    pushed_of (err e) failed = unchecked e failed refl refl
    pushed_of (ok false) no_ = skipped no_ refl refl
    pushed_of (ok true) yes_ = push_path-Outcome yes_

    -- On every branch: no call is made for a path that need not be pushed or cannot be checked, and the
    -- upload of one that no cache has is started; the NAR is uploaded before its NARInfo, which is
    -- uploaded only if the store gave the whole NAR and the cache took it, and which tells the hash and
    -- the size of the bytes that were streamed.
    pub handle_store_path-Outcome : Ended (handle_store_path ctx ext a urls path)
    unfolding handle_store_path
    handle_store_path-Outcome = pushed_of (should_push_store_path ctx ext a urls path) refl
