-- ===== src/Sub60Cache/Texts.antt =====
-- The texts of the errors of src/sub60_cache.rs. Those of other crates' errors, of a URL and of a status
-- are parameters.
use cache_action.Base.{ℕ, [], ◌∷◌, ◌++◌}
use cache_action.Io.{Bytes, IoError}
use cache_action.ErrorText.{ErrorText, caused, alone}
use cache_action.Sub60Cache.{
  Web, Method, head, post, put, QuotedError, missing_quotes, inner, CacheRequestError, parse_etag,
  invalid_response_header, missing_response_header, parse_nar_multiparts_response_body,
  parse_parts_response_body, read_nar, http_request, too_many_nar_parts, unexpected_response,
}

abbrev pub etag_text : Bytes
etag_text =
    b'c' ∷ b'o' ∷ b'u' ∷ b'l' ∷ b'd' ∷ b'n' ∷ 39 ∷ b't' ∷ b' ' ∷ b'p' ∷ b'a' ∷ b'r' ∷ b's' ∷ b'e'
    ∷ b' ' ∷ b'E' ∷ b't' ∷ b'a' ∷ b'g' ∷ []

abbrev pub invalid_text : Bytes
invalid_text =
    b'i' ∷ b'n' ∷ b'v' ∷ b'a' ∷ b'l' ∷ b'i' ∷ b'd' ∷ b' ' ∷ b'e' ∷ b't' ∷ b'a' ∷ b'g' ∷ b' ' ∷ b'h'
    ∷ b'e' ∷ b'a' ∷ b'd' ∷ b'e' ∷ b'r' ∷ b' ' ∷ b'f' ∷ b'r' ∷ b'o' ∷ b'm' ∷ b' ' ∷ []

abbrev pub missing_text : Bytes
missing_text =
    b'm' ∷ b'i' ∷ b's' ∷ b's' ∷ b'i' ∷ b'n' ∷ b'g' ∷ b' ' ∷ b'e' ∷ b't' ∷ b'a' ∷ b'g' ∷ b' ' ∷ b'h'
    ∷ b'e' ∷ b'a' ∷ b'd' ∷ b'e' ∷ b'r' ∷ b' ' ∷ b'f' ∷ b'r' ∷ b'o' ∷ b'm' ∷ b' ' ∷ []

abbrev pub multiparts_text : Bytes
multiparts_text =
    b'c' ∷ b'o' ∷ b'u' ∷ b'l' ∷ b'd' ∷ b'n' ∷ 39 ∷ b't' ∷ b' ' ∷ b'p' ∷ b'a' ∷ b'r' ∷ b's' ∷ b'e'
    ∷ b' ' ∷ b'N' ∷ b'A' ∷ b'R' ∷ b' ' ∷ b'm' ∷ b'u' ∷ b'l' ∷ b't' ∷ b'i' ∷ b'p' ∷ b'a' ∷ b'r'
    ∷ b't' ∷ b' ' ∷ b'r' ∷ b'e' ∷ b's' ∷ b'p' ∷ b'o' ∷ b'n' ∷ b's' ∷ b'e' ∷ b' ' ∷ b'b' ∷ b'o'
    ∷ b'd' ∷ b'y' ∷ []

abbrev pub parts_text : Bytes
parts_text =
    b'c' ∷ b'o' ∷ b'u' ∷ b'l' ∷ b'd' ∷ b'n' ∷ 39 ∷ b't' ∷ b' ' ∷ b'p' ∷ b'a' ∷ b'r' ∷ b's' ∷ b'e'
    ∷ b' ' ∷ b'm' ∷ b'u' ∷ b'l' ∷ b't' ∷ b'i' ∷ b'p' ∷ b'a' ∷ b'r' ∷ b't' ∷ b' ' ∷ b'p' ∷ b'a'
    ∷ b'r' ∷ b't' ∷ b's' ∷ b' ' ∷ b'r' ∷ b'e' ∷ b's' ∷ b'p' ∷ b'o' ∷ b'n' ∷ b's' ∷ b'e' ∷ b' '
    ∷ b'b' ∷ b'o' ∷ b'd' ∷ b'y' ∷ []

abbrev pub read_text : Bytes
read_text =
    b'c' ∷ b'o' ∷ b'u' ∷ b'l' ∷ b'd' ∷ b'n' ∷ 39 ∷ b't' ∷ b' ' ∷ b'r' ∷ b'e' ∷ b'a' ∷ b'd' ∷ b' '
    ∷ b'N' ∷ b'A' ∷ b'R' ∷ b' ' ∷ b'b' ∷ b'y' ∷ b't' ∷ b'e' ∷ b's' ∷ []

abbrev pub http_text : Bytes
http_text = b'H' ∷ b'T' ∷ b'T' ∷ b'P' ∷ b' ' ∷ []

abbrev pub failed_text : Bytes
failed_text =
    b' ' ∷ b'r' ∷ b'e' ∷ b'q' ∷ b'u' ∷ b'e' ∷ b's' ∷ b't' ∷ b' ' ∷ b'f' ∷ b'a' ∷ b'i' ∷ b'l' ∷ b'e'
    ∷ b'd' ∷ []

abbrev pub many_text : Bytes
many_text =
    b'N' ∷ b'A' ∷ b'R' ∷ b' ' ∷ b'u' ∷ b'p' ∷ b'l' ∷ b'o' ∷ b'a' ∷ b'd' ∷ b' ' ∷ b'h' ∷ b'a' ∷ b's'
    ∷ b' ' ∷ b't' ∷ b'o' ∷ b'o' ∷ b' ' ∷ b'm' ∷ b'a' ∷ b'n' ∷ b'y' ∷ b' ' ∷ b'm' ∷ b'u' ∷ b'l'
    ∷ b't' ∷ b'i' ∷ b'p' ∷ b'a' ∷ b'r' ∷ b't' ∷ b' ' ∷ b'p' ∷ b'a' ∷ b'r' ∷ b't' ∷ b's' ∷ []

abbrev pub unexpected_text : Bytes
unexpected_text =
    b'u' ∷ b'n' ∷ b'e' ∷ b'x' ∷ b'p' ∷ b'e' ∷ b'c' ∷ b't' ∷ b'e' ∷ b'd' ∷ b' ' ∷ b'r' ∷ b'e' ∷ b's'
    ∷ b'p' ∷ b'o' ∷ b'n' ∷ b's' ∷ b'e' ∷ b' ' ∷ b'f' ∷ b'r' ∷ b'o' ∷ b'm' ∷ b' ' ∷ []

abbrev pub quotes_text : Bytes
quotes_text =
    b'v' ∷ b'a' ∷ b'l' ∷ b'u' ∷ b'e' ∷ b' ' ∷ b'm' ∷ b'u' ∷ b's' ∷ b't' ∷ b' ' ∷ b'b' ∷ b'e' ∷ b' '
    ∷ b'w' ∷ b'r' ∷ b'a' ∷ b'p' ∷ b'p' ∷ b'e' ∷ b'd' ∷ b' ' ∷ b'i' ∷ b'n' ∷ b' ' ∷ b'd' ∷ b'o'
    ∷ b'u' ∷ b'b' ∷ b'l' ∷ b'e' ∷ b' ' ∷ b'q' ∷ b'u' ∷ b'o' ∷ b't' ∷ b'e' ∷ b's' ∷ []

abbrev pub inner_text : Bytes
inner_text =
    b'i' ∷ b'n' ∷ b'v' ∷ b'a' ∷ b'l' ∷ b'i' ∷ b'd' ∷ b' ' ∷ b'q' ∷ b'u' ∷ b'o' ∷ b't' ∷ b'e' ∷ b'd'
    ∷ b' ' ∷ b'v' ∷ b'a' ∷ b'l' ∷ b'u' ∷ b'e' ∷ []

abbrev pub head_text : Bytes
head_text = b'H' ∷ b'E' ∷ b'A' ∷ b'D' ∷ []

abbrev pub post_text : Bytes
post_text = b'P' ∷ b'O' ∷ b'S' ∷ b'T' ∷ []

abbrev pub put_text : Bytes
put_text = b'P' ∷ b'U' ∷ b'T' ∷ []

abbrev pub method_text : Method → Bytes
method_text head = head_text
method_text post = post_text
method_text put = put_text

-- `ResponseBodySuffix`
abbrev pub response_body_suffix : Bytes → Bytes
response_body_suffix [] = []
response_body_suffix (b ∷ body) = b':' ∷ b' ' ∷ b ∷ body

-- `QuotedFromStrError`
abbrev pub quoted_error : {E : Type 0} → (E → ErrorText) → QuotedError E → ErrorText
quoted_error error missing_quotes = alone quotes_text
quoted_error error (inner e) = caused inner_text (error e)

-- The parameters.
pub record WebTexts (web : Web) : Type 0 where
  pub url_text : web.Url → Bytes
  pub status_text : ℕ → Bytes
  pub etag_error : web.EtagError → ErrorText
  pub header_error : web.HeaderError → ErrorText
  pub multiparts_error : web.MultipartsError → ErrorText
  pub parts_error : web.PartsError → ErrorText
  pub http_error : web.HttpError → ErrorText
  pub io_error : IoError → ErrorText

module _ (web : Web) (texts : WebTexts web) where
  open web use {Url}
  open texts use {
    url_text, status_text, etag_error, header_error, multiparts_error, parts_error, http_error,
    io_error,
  }

  -- `{method} {url}`
  abbrev pub request_text : Method → Url → Bytes
  request_text method url = method_text method ++ b' ' ∷ url_text url

  abbrev pub cache_request_error : CacheRequestError web → ErrorText
  cache_request_error (parse_etag e) = caused etag_text (quoted_error etag_error e)
  cache_request_error (invalid_response_header method url e) =
      caused (invalid_text ++ request_text method url) (header_error e)
  cache_request_error (missing_response_header method url) =
      alone (missing_text ++ request_text method url)
  cache_request_error (parse_nar_multiparts_response_body e) =
      caused multiparts_text (multiparts_error e)
  cache_request_error (parse_parts_response_body e) = caused parts_text (parts_error e)
  cache_request_error (read_nar e) = caused read_text (io_error e)
  cache_request_error (http_request method e) =
      caused (http_text ++ method_text method ++ failed_text) (http_error e)
  cache_request_error too_many_nar_parts = alone many_text
  cache_request_error (unexpected_response method status url body) = alone (
      unexpected_text
      ++ request_text method url
      ++ b':' ∷ b' ' ∷ status_text status
      ++ response_body_suffix body)
