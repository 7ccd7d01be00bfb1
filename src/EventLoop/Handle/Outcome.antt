-- ===== src/EventLoop/Handle/Outcome.antt =====
-- Whether `handle_store_path` of src/event_loop.rs pushes a path.
use cache_action.Base.{
  ◌≡◌, ◌∙◌, Bool, false, not, List, map, if◌then◌else◌, Result, ok, map_ok, arith,
}
use cache_action.EventLoop.{Context}
use cache_action.EventLoop.Handle.Upstream.{any, is_ok, upstream_caches_have_narinfo-any}
use cache_action.EventLoop.Handle.{Externals, Answers, should_push, should_push_store_path}

module _ (ctx : Context) (ext : Externals) where
  open ctx use {StorePath, hash, CacheError}
  open ext use {Url, push_segment, narinfo_filename}

  should_push_lem :
      (cache_first : Bool) (cache : Result Bool CacheError) (upstream : Bool)
      → should_push ctx ext cache_first cache upstream
        ≡ (if upstream then ok false else map_ok not cache)
  unfolding should_push
  should_push_lem cache_first cache upstream = ground arith

  -- The race of the two checks does not matter, nor does the order in which the upstream caches
  -- answer: a path is skipped if an upstream cache has its NARInfo, also when the check of the
  -- cache fails, and otherwise the cache's own answer, or its error, decides.
  pub should_push_store_path_lem :
      (a : Answers ctx ext) (upstream_caches : List Url) (path : StorePath)
      → should_push_store_path ctx ext a upstream_caches path ≡ (
          if any (
            map
              (λ url. is_ok (a.http_get (push_segment url (narinfo_filename (hash path)))))
              upstream_caches)
          then ok false
          else map_ok not a.has_narinfo)
  unfolding should_push_store_path
  should_push_store_path_lem a upstream_caches path =
      should_push_lem a.cache_first a.has_narinfo _
      ∙ rw (
          upstream_caches_have_narinfo-any push_segment a.http_get a.order
            (narinfo_filename (hash path)) upstream_caches)
