-- ===== src/Sub60Cache/Connect/Routed.antt =====
-- What the URLs of the requests of src/sub60_cache.rs tell. How the url
-- crate pushes a segment and appends to a query is a hypothesis.
use cache_action.Base.{◌≡◌, refl, ap, ◌∙◌, true, false, List, [], ◌∷◌, ◌++◌, some, Result, ok, err}
use cache_action.Io.{Bytes}
use cache_action.Sub60Cache.{
  Web, Send, narinfo_url, narinfo_upload_url, nar_multiparts_url, nar_multiparts_parts_url,
  nar_multiparts_complete_url,
}
use cache_action.Sub60Cache.Connect.{
  Sub60CacheRunArgs, Sub60Cache, Sub60CacheConnectError, build_http_client, connect,
}
use cache_action.Sub60Cache.Connect.Routes.{
  is_same, multiparts_segment, upload_id_key, is_plain, Endpoint, narinfo, narinfo_upload,
  nar_multiparts, parts, complete, map_id, route,
}

module _ (web : Web) where
  open web use {Url, HttpError, UploadId, push_segment, append_pair, id_text}

  -- The URL of a request.
  abbrev pub endpoint_url : Url → Endpoint UploadId → Url
  endpoint_url cache_url (narinfo name) = narinfo_url web cache_url name
  endpoint_url cache_url (narinfo_upload name id) = narinfo_upload_url web cache_url name id
  endpoint_url cache_url nar_multiparts = nar_multiparts_url web cache_url
  endpoint_url cache_url (parts id) = nar_multiparts_parts_url web cache_url id
  endpoint_url cache_url (complete id) = nar_multiparts_complete_url web cache_url id

  -- What the url crate says of the segments of a path, less an empty last one, and of a query.
  pub record Urls : Type 0 where
    pub segments : Url → List Bytes
    pub query : Url → List (Bytes × Bytes)
    pub segments-push :
        (url : Url) (segment : Bytes)
        → is_plain segment ≡ true
        → segments (push_segment url segment) ≡ segments url ++ segment ∷ []
    pub query-push : (url : Url) (segment : Bytes) → query (push_segment url segment) ≡ query url
    pub segments-append :
        (url : Url) (key value : Bytes) → segments (append_pair url key value) ≡ segments url
    pub query-append :
        (url : Url) (key value : Bytes)
        → query (append_pair url key value) ≡ query url ++ (key, value) ∷ []

  -- What goes into a URL is taken as a segment, and a NARInfo is not named as the NARs are.
  abbrev pub IsProper : Endpoint UploadId → Type 0
  IsProper (narinfo name) = (is_plain name ≡ true) × (is_same name multiparts_segment ≡ false)
  IsProper (narinfo_upload name id) = is_plain name ≡ true
  IsProper nar_multiparts = Unit
  IsProper (parts id) = is_plain (id_text id) ≡ true
  IsProper (complete id) = is_plain (id_text id) ≡ true

  module _ (urls : Urls) where
    open urls use {segments, query, segments-push, query-push, segments-append, query-append}

    abbrev pub IsAt : List Bytes → Url → Type 0
    IsAt path url = (segments url ≡ path) × (query url ≡ [])

    -- What connecting gives, for a request that is then made.
    abbrev pub Routed :
        Result (Send web) HttpError
        → Sub60CacheRunArgs
        → Endpoint UploadId
        → Result (Sub60Cache web) (Sub60CacheConnectError web)
        → Type 0
    Routed build args e (ok cache) =
        (build ≡ ok cache.client)
        × (route (segments (endpoint_url cache.cache_url e))
              (query (endpoint_url cache.cache_url e))
            ≡ some (args.user, args.cache, map_id id_text e))
    Routed build args e (err (build_http_client error)) = build ≡ err error

    push-IsAt :
        {path : List Bytes} (url : Url) (segment : Bytes)
        → IsAt path url
        → is_plain segment ≡ true
        → IsAt (path ++ segment ∷ []) (push_segment url segment)
    push-IsAt url segment (at, none_asked) plain = (
      segments-push url segment plain ∙ ap (λ ss. ss ++ segment ∷ []) at,
      query-push url segment ∙ none_asked,
    )

    routed :
        {path : List Bytes} {url : Url}
        → IsAt path url
        → route (segments url) (query url) ≡ route path []
    routed (at, none_asked) = rw at (rw none_asked refl)

    multiparts-IsAt :
        {path : List Bytes} (url : Url)
        → IsAt path url
        → IsAt (path ++ multiparts_segment ∷ []) (nar_multiparts_url web url)
    multiparts-IsAt url at = push-IsAt url multiparts_segment at refl

    endpoint_url-route :
        (url : Url) (user cache : Bytes) (e : Endpoint UploadId)
        → IsAt (user ∷ cache ∷ []) url
        → IsProper e
        → route (segments (endpoint_url url e)) (query (endpoint_url url e))
          ≡ some (user, cache, map_id id_text e)
    unfolding route
    endpoint_url-route url user cache (narinfo name) at (plain, other) =
        routed (push-IsAt url name at plain) ∙ rw other refl
    endpoint_url-route url user cache (narinfo_upload name id) at plain =
        ap (λ ss. route ss (query (endpoint_url url (narinfo_upload name id))))
          (segments-append _ upload_id_key (id_text id) ∙ (push-IsAt url name at plain).0)
        ∙ ap (route (user ∷ cache ∷ name ∷ [])) (
            query-append _ upload_id_key (id_text id)
            ∙ ap (λ q. q ++ (upload_id_key, id_text id) ∷ []) (push-IsAt url name at plain).1)
    endpoint_url-route url user cache nar_multiparts at t = routed (multiparts-IsAt url at)
    endpoint_url-route url user cache (parts id) at plain =
        routed (push-IsAt _ _ (push-IsAt _ (id_text id) (multiparts-IsAt url at) plain) refl)
    endpoint_url-route url user cache (complete id) at plain =
        routed (push-IsAt _ _ (push-IsAt _ (id_text id) (multiparts-IsAt url at) plain) refl)

    -- If the base URL has no segments and no query, the names of the user and the cache, the name of the
    -- NARInfo and the ID of the upload are taken as segments, and a NARInfo that is asked for is not named
    -- as the NARs are: connecting fails only if no HTTP client can be built, and else the user, the cache
    -- and what a request is for can be read off its URL.
    pub connect-Routed :
        (base : Url) (build : Result (Send web) HttpError) (args : Sub60CacheRunArgs)
        (e : Endpoint UploadId)
        → IsAt [] base
        → is_plain args.user ≡ true
        → is_plain args.cache ≡ true
        → IsProper e
        → Routed build args e (connect web base build args)
    unfolding connect
    connect-Routed base (err error) args e at user cache proper = refl
    connect-Routed base (ok client) args e at user cache proper = (
      refl,
      endpoint_url-route _ args.user args.cache e
          (push-IsAt _ args.cache (push-IsAt base args.user at user) cache) proper,
    )
