-- ===== src/AnyCache/Session.antt =====
-- The calls that src/event_loop.rs makes on the cache of src/any_cache.rs for one path.
use cache_action.Base.{ℕ, ◌≡◌, refl, Bool, true, false, List, Option, none, some, Result, ok, err}
use cache_action.Io.{ReadEvent}
use cache_action.AnyCache.{
  Cache, noop, sub60, noop_state, sub60_state, noop_error, sub60_error, into_err, into_both,
  into_state, has_narinfo, initiate_nar_upload, upload_nar, upload_narinfo, any_cache,
}

module _ {Name Target Info : Type 0} where
  -- An upload to a cache: the state of the first call goes through the others, which are not made
  -- after an error. `none` if a call panics.
  module _ (cache : Cache Name Target Info) where
    abbrev with_nar :
        Name
        → Info
        → Option (Result (Unit {0}) cache.Error × cache.NarUploadState)
        → Option (Result ℕ cache.Error)
    with_nar name narinfo none = none
    with_nar name narinfo (some (err e, state)) = some (err e)
    with_nar name narinfo (some (ok t, state)) = cache.upload_narinfo name narinfo state

    abbrev with_state :
        Name
        → Info
        → List ReadEvent
        → Option (Result cache.NarUploadState cache.Error)
        → Option (Result ℕ cache.Error)
    with_state name narinfo nar_bytes none = none
    with_state name narinfo nar_bytes (some (err e)) = some (err e)
    with_state name narinfo nar_bytes (some (ok state)) =
        with_nar name narinfo (cache.upload_nar state nar_bytes)

    abbrev with_check :
        Name
        → Target
        → Info
        → List ReadEvent
        → Option (Result Bool cache.Error)
        → Option (Result (Option ℕ) cache.Error)
    with_check name path narinfo nar_bytes none = none
    with_check name path narinfo nar_bytes (some (err e)) = some (err e)
    with_check name path narinfo nar_bytes (some (ok true)) = some (ok none)
    with_check name path narinfo nar_bytes (some (ok false)) =
        into_both some (λ e. e) (with_state name narinfo nar_bytes (cache.initiate_nar_upload path))

    -- The check and then the upload.
    abbrev pub push : Name → Target → Info → List ReadEvent → Option (Result (Option ℕ) cache.Error)
    push name path narinfo nar_bytes =
        with_check name path narinfo nar_bytes (cache.has_narinfo name)

  module _ (noop_cache sub60_cache : Cache Name Target Info) (name : Name) (path : Target)
      (narinfo : Info) (nar_bytes : List ReadEvent) where
    with_nar-noop :
        (r : Option (Result (Unit {0}) noop_cache.Error × noop_cache.NarUploadState))
        → with_nar
            (any_cache noop_cache sub60_cache noop)
            name
            narinfo
            (into_state noop_state noop_error r)
          ≡ into_err noop_error (with_nar noop_cache name narinfo r)
    unfolding upload_narinfo
    with_nar-noop none = refl
    with_nar-noop (some (err e, state)) = refl
    with_nar-noop (some (ok t, state)) = refl

    with_nar-sub60 :
        (r : Option (Result (Unit {0}) sub60_cache.Error × sub60_cache.NarUploadState))
        → with_nar
            (any_cache noop_cache sub60_cache sub60)
            name
            narinfo
            (into_state sub60_state sub60_error r)
          ≡ into_err sub60_error (with_nar sub60_cache name narinfo r)
    unfolding upload_narinfo
    with_nar-sub60 none = refl
    with_nar-sub60 (some (err e, state)) = refl
    with_nar-sub60 (some (ok t, state)) = refl

    with_state-noop :
        (r : Option (Result noop_cache.NarUploadState noop_cache.Error))
        → with_state
            (any_cache noop_cache sub60_cache noop)
            name
            narinfo
            nar_bytes
            (into_both noop_state noop_error r)
          ≡ into_err noop_error (with_state noop_cache name narinfo nar_bytes r)
    unfolding upload_nar
    with_state-noop none = refl
    with_state-noop (some (err e)) = refl
    with_state-noop (some (ok state)) = with_nar-noop (noop_cache.upload_nar state nar_bytes)

    with_state-sub60 :
        (r : Option (Result sub60_cache.NarUploadState sub60_cache.Error))
        → with_state
            (any_cache noop_cache sub60_cache sub60)
            name
            narinfo
            nar_bytes
            (into_both sub60_state sub60_error r)
          ≡ into_err sub60_error (with_state sub60_cache name narinfo nar_bytes r)
    unfolding upload_nar
    with_state-sub60 none = refl
    with_state-sub60 (some (err e)) = refl
    with_state-sub60 (some (ok state)) = with_nar-sub60 (sub60_cache.upload_nar state nar_bytes)

    into_both-into_err :
        {E F : Type 0} (f : E → F) (r : Option (Result ℕ E))
        → into_both some (λ e. e) (into_err f r) ≡ into_err f (into_both some (λ e. e) r)
    into_both-into_err f none = refl
    into_both-into_err f (some (ok n)) = refl
    into_both-into_err f (some (err e)) = refl

    with_check-noop :
        (r : Option (Result Bool noop_cache.Error))
        → with_check
            (any_cache noop_cache sub60_cache noop)
            name
            path
            narinfo
            nar_bytes
            (into_err noop_error r)
          ≡ into_err noop_error (with_check noop_cache name path narinfo nar_bytes r)
    unfolding initiate_nar_upload
    with_check-noop none = refl
    with_check-noop (some (err e)) = refl
    with_check-noop (some (ok true)) = refl
    with_check-noop (some (ok false)) =
        rw (with_state-noop (noop_cache.initiate_nar_upload path)) (into_both-into_err noop_error _)

    with_check-sub60 :
        (r : Option (Result Bool sub60_cache.Error))
        → with_check
            (any_cache noop_cache sub60_cache sub60)
            name
            path
            narinfo
            nar_bytes
            (into_err sub60_error r)
          ≡ into_err sub60_error (with_check sub60_cache name path narinfo nar_bytes r)
    unfolding initiate_nar_upload
    with_check-sub60 none = refl
    with_check-sub60 (some (err e)) = refl
    with_check-sub60 (some (ok true)) = refl
    with_check-sub60 (some (ok false)) =
        rw (with_state-sub60 (sub60_cache.initiate_nar_upload path))
          (into_both-into_err sub60_error _)

    -- What one path does to the cache, for either kind, is what it does to the cache itself, with the
    -- error as one of that kind: the state of a call is always of the kind that the next one expects,
    -- so that no `unreachable!` is reached unless the cache panics itself.
    pub push-any_cache :
        (push (any_cache noop_cache sub60_cache noop) name path narinfo nar_bytes
          ≡ into_err noop_error (push noop_cache name path narinfo nar_bytes))
        × (push (any_cache noop_cache sub60_cache sub60) name path narinfo nar_bytes
            ≡ into_err sub60_error (push sub60_cache name path narinfo nar_bytes))
    unfolding has_narinfo
    push-any_cache = (
      with_check-noop (noop_cache.has_narinfo name),
      with_check-sub60 (sub60_cache.has_narinfo name),
    )
