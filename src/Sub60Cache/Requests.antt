-- ===== src/Sub60Cache/Requests.antt =====
-- The requests that src/sub60_cache.rs makes, and what it makes of the responses.
pub mod Answers
use cache_action.Base.{
  ℕ, ◌≡◌, refl, Bool, true, false, List, [], ◌∷◌, Option, none, some, ◌==◌, length, ◌%◌, ◌^◌,
  if◌then◌else◌, Result, ok, err, map_err, ◌>>=◌, ◌>>◌, arith,
}
use cache_action.Io.{Bytes}
use cache_action.Sub60Cache.{
  Web, Parts, NarMultiparts, Response, Method, head, post, put, CacheRequestError, parse_etag,
  invalid_response_header, missing_response_header, parse_nar_multiparts_response_body,
  parse_parts_response_body, http_request, unexpected_response, NarUploadState, Request, Send,
  narinfo_url, narinfo_upload_url, nar_multiparts_url, nar_multiparts_parts_url,
  nar_multiparts_complete_url,
}
use cache_action.Sub60Cache.Quoted.{from_str}

module _ (web : Web) where
  open web use {
    Url, HttpError, HeaderError, Etag, UploadId, Basename, basename_text, parts_body, complete_body,
    parse_multiparts, parse_parts, is_success, unreadable,
  }

  -- `CacheRequestError::unexpected_response`
  abbrev unexpected : Response HttpError HeaderError → Method → Url → CacheRequestError web
  unexpected response method url =
      unexpected_response method response.status url
        (elim response.text [ ok text ↦ text | err e ↦ unreadable e ])

  abbrev pub sent :
      Send web → Request web → Result (Response HttpError HeaderError) (CacheRequestError web)
  sent send request = map_err (http_request request.method) (send request)

  -- An error if the status is not one of success.
  abbrev pub check :
      Response HttpError HeaderError → Method → Url → Result (Unit {0}) (CacheRequestError web)
  check response method url =
      if is_success response.status then ok tt else err (unexpected response method url)

  abbrev text_of : Response HttpError HeaderError → Method → Result Bytes (CacheRequestError web)
  text_of response method = map_err (http_request method) response.text

  -- The ETag header of the answer to `PUT`.
  abbrev pub etag_of : Response HttpError HeaderError → Url → Result Etag (CacheRequestError web)
  etag_of response url = elim response.etag [
    | none ↦ err (missing_response_header put url)
    | some (err e) ↦ err (invalid_response_header put url e)
    | some (ok text) ↦ map_err parse_etag (from_str web.parse_etag text)
  ]

  module _ (cache_url : Url) (send : Send web) where
    unfoldable pub has_narinfo : Bytes → Result Bool (CacheRequestError web)
    has_narinfo narinfo_filename =
        let url = narinfo_url web cache_url narinfo_filename in
        sent send (record { method = head; url = url; body = [] }) >>= λ response.
        if response.status == 200
        then ok true
        else if response.status == 404
        then ok false
        else err (unexpected response head url)

    unfoldable pub initiate_nar_upload :
        Basename → Result (NarUploadState web) (CacheRequestError web)
    unfolding from_str
    initiate_nar_upload basename = do
      let url = nar_multiparts_url web cache_url
      response ← sent send (record { method = post; url = url; body = basename_text basename })
      check response post url
      text ← text_of response post
      body ← map_err parse_nar_multiparts_response_body (parse_multiparts text)
      ok (record {
        part_size = body.part_size;
        part_urls = body.parts_urls;
        store_basename = basename;
        upload_id = body.upload_id;
        urls_expiration_ts = body.expiration_ts;
      })

    unfoldable pub request_part_urls :
        UploadId → List ℕ → Basename → Result (Parts Url) (CacheRequestError web)
    request_part_urls upload_id part_numbers basename = do
      let url = nar_multiparts_parts_url web cache_url upload_id
      let body = parts_body part_numbers basename
      response ← sent send (record { method = post; url = url; body = body })
      check response post url
      text ← text_of response post
      map_err parse_parts_response_body (parse_parts text)

    unfoldable pub complete_nar_upload :
        UploadId → List Etag → Basename → Result (Unit {0}) (CacheRequestError web)
    complete_nar_upload upload_id etags basename = do
      let url = nar_multiparts_complete_url web cache_url upload_id
      let body = complete_body etags basename
      response ← sent send (record { method = post; url = url; body = body })
      check response post url

    -- For the text of a NARInfo with an empty URL.
    unfoldable pub upload_narinfo : Bytes → Bytes → UploadId → Result ℕ (CacheRequestError web)
    upload_narinfo narinfo_filename narinfo upload_id = do
      let url = narinfo_upload_url web cache_url narinfo_filename upload_id
      response ← sent send (record { method = put; url = url; body = narinfo })
      check response put url
      ok (length narinfo % 2 ^ 64)

  unfoldable pub upload_part : Send web → Url → Bytes → Result Etag (CacheRequestError web)
  unfolding from_str
  upload_part send url part_bytes = do
    response ← sent send (record { method = put; url = url; body = part_bytes })
    check response put url
    etag_of response url
