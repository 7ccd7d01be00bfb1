-- ===== src/Sub60Cache/Requests/Answers.antt =====
-- What an answer to a request of src/sub60_cache.rs was, when the request succeeds.
use cache_action.Base.{
  ◌≡◌, refl, ap, ◌∙◌, true, [], ◌∷◌, ◌++◌, Option, none, some, Result, ok, err, arith, Bool-cases,
  Result-cases, inl, inr,
}
use cache_action.Io.{Bytes}
use cache_action.Sub60Cache.{Web, Response, put, Send}
use cache_action.Sub60Cache.Quoted.{quote, from_str, from_str-quoted}
use cache_action.Sub60Cache.Requests.{etag_of, upload_part}

module _ (web : Web) where
  open web use {Url, HttpError, HeaderError, Etag, is_success}

  -- The answer to a part: of a status of success, with an ETag in quotes that parses.
  pub record Accepts (response : Response HttpError HeaderError) (etag : Etag) : Type 0 where
    pub success : is_success response.status ≡ true
    pub text : Bytes
    pub header : response.etag ≡ some (ok (quote ∷ (text ++ quote ∷ [])))
    pub parsed : web.parse_etag text ≡ ok etag

  quoted_text :
      (s : Bytes) (etag : Etag)
      → from_str web.parse_etag s ≡ ok etag
      → (t : Bytes) × (s ≡ quote ∷ (t ++ quote ∷ [])) × (web.parse_etag t ≡ ok etag)
  quoted_text s etag e = (from_str-quoted web.parse_etag).1 s etag e

  etag_text :
      (response : Response HttpError HeaderError) (url : Url) (etag : Etag)
      (h : Option (Result Bytes HeaderError))
      → response.etag ≡ h
      → etag_of web response url ≡ ok etag
      → (s : Bytes) × (response.etag ≡ some (ok s)) × (from_str web.parse_etag s ≡ ok etag)
  etag_text response url etag none h e = absurd (ground arith)
  etag_text response url etag (some (err x)) h e = absurd (ground arith)
  etag_text response url etag (some (ok s)) h e = (s, h, ground arith)

  -- A part counts as uploaded only if the server answered with a status of success and an ETag in
  -- quotes, and what is kept is what stands between them.
  pub upload_part-Accepts :
      (send : Send web) (url : Url) (bytes : Bytes) (etag : Etag)
      → upload_part web send url bytes ≡ ok etag
      → (response : Response HttpError HeaderError) × (send
            (record { method = put; url = url; body = bytes })
          ≡ ok response)
        × Accepts response etag
  unfolding upload_part
  upload_part-Accepts send url bytes etag e =
      elim (Result-cases (send (record { method = put; url = url; body = bytes }))) [
        | inr (x, failed) ↦ absurd (ground arith)
        | inl (response, answered) ↦ elim (Bool-cases (is_success response.status)) [
          | inr refused ↦ absurd (ground arith)
          | inl success ↦
              let (s, header, quoted) =
                etag_text response url etag response.etag refl (ground arith) in
              let (t, form, parsed) = quoted_text s etag quoted in
              (
                response,
                answered,
                record {
                  success = success;
                  text = t;
                  header = header ∙ ap (λ x. some (ok x)) form;
                  parsed = parsed;
                },
              )
        ]
      ]
