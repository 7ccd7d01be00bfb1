-- ===== src/AnyCache/Tests.antt =====
-- The caches of src/any_cache.rs and src/noop_cache.rs at a concrete input.
use cache_action.Base.{ℕ, ◌≡◌, refl, false, [], ◌∷◌, some, ok, err}
use cache_action.Io.{Bytes, arrived}
use cache_action.AnyCache.{
  Cache, noop, sub60, sub60_error, any_cache, has_narinfo, initiate_nar_upload, upload_nar,
  upload_narinfo,
}
use cache_action.AnyCache.Noop.{noop_cache}
use cache_action.AnyCache.Session.{push, push-any_cache}

-- Names, paths and NARInfos are numbers, and the text of one is so many letters.
abbrev none_kept : Cache ℕ ℕ Bytes
none_kept = noop_cache (λ events. ok 3) (λ narinfo. narinfo)

-- A cache that refuses the NAR.
abbrev refusing : Cache ℕ ℕ Bytes
refusing = record {
  NarUploadState = ℕ;
  Error = ℕ;
  has_narinfo = λ name. some (ok false);
  initiate_nar_upload = λ path. some (ok path);
  upload_nar = λ state events. some (err 9, state);
  upload_narinfo = λ name narinfo state. some (ok 1);
}

push_run :
    push (any_cache none_kept refusing noop) 1 2 (7 ∷ 8 ∷ []) (arrived (1 ∷ []) ∷ [])
    ≡ some (ok (some 2))
unfolding has_narinfo initiate_nar_upload upload_nar upload_narinfo
push_run = refl

push-any_cache_example :
    (push (any_cache none_kept refusing noop) 1 2 (7 ∷ 8 ∷ []) (arrived (1 ∷ []) ∷ [])
      ≡ some (ok (some 2)))
    × (push (any_cache none_kept refusing sub60) 1 2 (7 ∷ 8 ∷ []) (arrived (1 ∷ []) ∷ [])
        ≡ some (err (sub60_error 9)))
push-any_cache_example = push-any_cache none_kept refusing 1 2 (7 ∷ 8 ∷ []) (arrived (1 ∷ []) ∷ [])
