-- ===== src/Sub60Cache/Connect.antt =====
-- `Sub60Cache::connect` of src/sub60_cache.rs, and the URLs that it and the requests make. An HTTP
-- client is what it answers to a request. The cache's base URL can be a base, so that it never panics.
pub mod Routes
pub mod Routed
mod Tests
use cache_action.Base.{◌≡◌, refl, Bool, Result, ok, err, map_err, ◌>>=◌, ap}
use cache_action.Io.{Bytes}
use cache_action.Sub60Cache.{
  Web, Send, narinfo_url, narinfo_upload_url, nar_multiparts_url, nar_multiparts_parts_url,
  nar_multiparts_complete_url,
}

-- The names of the user and of the cache are their texts.
pub record Sub60CacheRunArgs : Type 0 where
  pub user : Bytes
  pub cache : Bytes
  pub auth_token : Bytes

module _ (web : Web) where
  open web use {Url, HttpError, UploadId, push_segment}

  pub record Sub60Cache : Type 0 where
    pub cache_url : Url
    pub client : Send web

  pub data Sub60CacheConnectError : Type 0 where
    build_http_client : HttpError → Sub60CacheConnectError

  -- For the base URL, and what building a client answers. The token is not read.
  unfoldable pub connect :
      Url
      → Result (Send web) HttpError
      → Sub60CacheRunArgs
      → Result Sub60Cache Sub60CacheConnectError
  connect sub60_cache_url build args = do
    let cache_url = push_segment (push_segment sub60_cache_url args.user) args.cache
    client ← map_err build_http_client build
    ok (record { cache_url = cache_url; client = client })
