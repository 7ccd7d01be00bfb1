-- ===== src/Sub60Cache.antt =====
-- `Sub60Cache` of src/sub60_cache.rs: its errors, its upload state and its URLs. The crates url,
-- reqwest and sub60_cache are parameters.
pub mod Quoted
pub mod Requests
pub mod UploadNar
pub mod Pushed
pub mod Texts
pub mod Connect
pub mod Samples
mod Tests
use cache_action.Base.{ℕ, Bool, List, [], ◌∷◌, Option, Result}
use cache_action.Io.{Bytes, IoError}

-- `PartsResponseBody`
pub record Parts (Url : Type 0) : Type 0 where
  pub urls : List Url
  pub expiration_ts : ℕ

-- `NarMultipartsResponseBody`
pub record NarMultiparts (Url UploadId : Type 0) : Type 0 where
  pub part_size : ℕ
  pub parts_urls : List Url
  pub upload_id : UploadId
  pub expiration_ts : ℕ

-- What is read of a `reqwest::Response`: its status, the ETag header with its text, and the body.
pub record Response (HttpError HeaderError : Type 0) : Type 0 where
  pub status : ℕ
  pub etag : Option (Result Bytes HeaderError)
  pub text : Result Bytes HttpError

pub data Method : Type 0 where
  head post put : Method

-- The other crates' types and functions. Timestamps are in nanoseconds since the epoch.
pub record Web : Type 1 where
  pub Url : Type 0
  pub HttpError : Type 0
  pub HeaderError : Type 0
  pub Etag : Type 0
  pub EtagError : Type 0
  pub MultipartsError : Type 0
  pub PartsError : Type 0
  pub UploadId : Type 0
  pub Basename : Type 0
  pub push_segment : Url → Bytes → Url
  pub append_pair : Url → Bytes → Bytes → Url
  pub id_text : UploadId → Bytes
  pub basename_text : Basename → Bytes
  pub parts_body : List ℕ → Basename → Bytes
  pub complete_body : List Etag → Basename → Bytes
  pub parse_etag : Bytes → Result Etag EtagError
  pub parse_multiparts : Bytes → Result (NarMultiparts Url UploadId) MultipartsError
  pub parse_parts : Bytes → Result (Parts Url) PartsError
  pub is_success : ℕ → Bool
  -- The text that stands for a body that cannot be read.
  pub unreadable : HttpError → Bytes

-- `QuotedFromStrError`
pub data QuotedError (E : Type 0) : Type 0 where
  missing_quotes : QuotedError E
  inner : E → QuotedError E

module _ (web : Web) where
  open web use {
    Url, HttpError, HeaderError, EtagError, MultipartsError, PartsError, UploadId, Basename,
    push_segment, append_pair, id_text,
  }

  pub data CacheRequestError : Type 0 where
    parse_etag : QuotedError EtagError → CacheRequestError
    invalid_response_header : Method → Url → HeaderError → CacheRequestError
    missing_response_header : Method → Url → CacheRequestError
    parse_nar_multiparts_response_body : MultipartsError → CacheRequestError
    parse_parts_response_body : PartsError → CacheRequestError
    read_nar : IoError → CacheRequestError
    http_request : Method → HttpError → CacheRequestError
    too_many_nar_parts : CacheRequestError
    unexpected_response : Method → ℕ → Url → Bytes → CacheRequestError

  pub record NarUploadState : Type 0 where
    pub part_size : ℕ
    pub part_urls : List Url
    pub store_basename : Basename
    pub upload_id : UploadId
    pub urls_expiration_ts : ℕ

  -- A request as it is sent.
  pub record Request : Type 0 where
    pub method : Method
    pub url : Url
    pub body : Bytes

  -- `client.request(..).send().await`
  abbrev pub Send : Type 0
  Send = Request → Result (Response HttpError HeaderError) HttpError

  module _ (cache_url : Url) where
    abbrev pub narinfo_url : Bytes → Url
    narinfo_url narinfo_filename = push_segment cache_url narinfo_filename

    abbrev pub narinfo_upload_url : Bytes → UploadId → Url
    narinfo_upload_url narinfo_filename upload_id =
        append_pair (narinfo_url narinfo_filename)
          (b'u' ∷ b'p' ∷ b'l' ∷ b'o' ∷ b'a' ∷ b'd' ∷ b'_' ∷ b'i' ∷ b'd' ∷ []) (id_text upload_id)

    abbrev pub nar_multiparts_url : Url
    nar_multiparts_url = push_segment cache_url (
        b'n' ∷ b'a' ∷ b'r' ∷ b'-' ∷ b'm' ∷ b'u' ∷ b'l' ∷ b't' ∷ b'i' ∷ b'p' ∷ b'a' ∷ b'r' ∷ b't'
        ∷ b's' ∷ [])

    abbrev pub nar_multiparts_parts_url : UploadId → Url
    nar_multiparts_parts_url upload_id =
        push_segment (push_segment nar_multiparts_url (id_text upload_id))
          (b'p' ∷ b'a' ∷ b'r' ∷ b't' ∷ b's' ∷ [])

    abbrev pub nar_multiparts_complete_url : UploadId → Url
    nar_multiparts_complete_url upload_id =
        push_segment (push_segment nar_multiparts_url (id_text upload_id))
          (b'c' ∷ b'o' ∷ b'm' ∷ b'p' ∷ b'l' ∷ b'e' ∷ b't' ∷ b'e' ∷ [])
