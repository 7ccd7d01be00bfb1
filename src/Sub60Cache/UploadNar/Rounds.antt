-- ===== src/Sub60Cache/UploadNar/Rounds.antt =====
-- What one round of the loop in `upload_nar` of src/sub60_cache.rs does, case by case.
use cache_action.Base.{
  ltb_less, ltb_full, ℕ, zero, suc, ◌+◌, ◌≤◌, ◌<◌, ◌≡◌, refl, sym, ap, ◌∙◌, subst, Bool, true,
  false, List, [], ◌∷◌, ◌++◌, Option, none, some, length, take, replicate, ltb, leb, if◌then◌else◌,
  Result, ok, err, arith, Bool-cases, inl, inr, append-nil, length-take, length-replicate,
}
use cache_action.Io.{Bytes, IoError, ReadEvent, IsStream, contents, failure}
use cache_action.AsyncReadExt.{TryFill}
use cache_action.AsyncReadExt.Fills.{Fills, ended, try_fill-Fills}
use cache_action.Sub60Cache.{Web, Parts, CacheRequestError, read_nar, too_many_nar_parts}
use cache_action.Sub60Cache.Requests.{request_part_urls, upload_part}
use cache_action.Sub60Cache.UploadNar.{
  new_part_numbers, safety_buffer, Environment, Upload, Call, parts_requested, part_uploaded, Step,
  goes_on, finishes, fails, valid_urls, with_parts, with_etag, with_bytes, with_urls,
}

sized_buf :
    (reclaimed : Bool) (bytes : Bytes) (size : ℕ)
    → length bytes ≡ size
    → length (if reclaimed then bytes else replicate size 0) ≡ size
sized_buf true bytes size e = e
sized_buf false bytes size e = length-replicate {A = ℕ} size 0

module _ (web : Web) (env : Environment web) (url_for : ℕ → web.Url) where
  open web use {Url, Etag}
  open env use {cache_url, now, send, reclaims}

  -- The URLs are those of the parts from a number on.
  abbrev pub IsNumbered : ℕ → List Url → Type 0
  IsNumbered n [] = Unit {0}
  IsNumbered n (url ∷ urls) = (url ≡ url_for n) × IsNumbered (n + 1) urls

  pub record IsUpload (u : Upload web) : Type 0 where
    pub some_room : 0 < u.state.part_size
    pub sized : length u.buf ≡ u.state.part_size
    pub stream : IsStream u.reader
    pub numbered : IsNumbered u.part_number u.state.part_urls

  -- The server gives URLs for the parts that it is asked for, in their order.
  abbrev pub IsServing : Type 0
  IsServing =
      (k n : ℕ) (u : Upload web) (parts : Parts Url)
      → request_part_urls web cache_url (send k) u.state.upload_id (new_part_numbers n)
          u.state.store_basename
        ≡ ok parts
      → IsNumbered n parts.urls

  abbrev asked_for : ℕ → Upload web → Result (Parts Url) (CacheRequestError web)
  asked_for k u =
      request_part_urls web cache_url (send k) u.state.upload_id (new_part_numbers u.part_number)
        u.state.store_basename

  -- The state after an answer with URLs.
  abbrev pub supplied : Upload web → Parts Url → Upload web
  supplied u parts = record u {
    state = record (u.state) {
      part_urls = [] ++ parts.urls;
      urls_expiration_ts = parts.expiration_ts;
    };
  }

  -- A part that was read from the front of what is left.
  pub record IsPart (u : Upload web) (bytes : Bytes) (rest : List ReadEvent) : Type 0 where
    pub not_empty : 0 < length bytes
    pub not_long : length bytes ≤ u.state.part_size
    pub contents_eq : contents u.reader ≡ bytes ++ contents rest
    pub failure_eq : failure rest ≡ failure u.reader

  pub data Round (k : ℕ) (u : Upload web) (urls : List Url)
      (t : Option (Step web × List (Call web))) : Type 0 where
    asked :
        (parts : Parts Url)
        → urls ≡ []
        → asked_for k u ≡ ok parts
        → t
          ≡ some (goes_on (supplied u parts), parts_requested (new_part_numbers u.part_number) ∷ [])
        → Round k u urls t
    not_asked :
        (e : CacheRequestError web)
        → asked_for k u ≡ err e
        → t ≡ some (fails e, parts_requested (new_part_numbers u.part_number) ∷ [])
        → Round k u urls t
    unread :
        (x : IoError)
        → failure u.reader ≡ some x
        → t ≡ some (fails (read_nar x), [])
        → Round k u urls t
    at_end :
        contents u.reader ≡ []
        → failure u.reader ≡ none
        → t ≡ some (finishes u.etags, [])
        → Round k u urls t
    last :
        (bytes : Bytes) (etag : Etag) (rest : List ReadEvent)
        → IsPart u bytes rest
        → contents u.reader ≡ bytes
        → failure u.reader ≡ none
        → t
          ≡ some (
            finishes (u.etags ++ etag ∷ []),
            part_uploaded (url_for u.part_number) bytes (ok etag) ∷ [],
          )
        → Round k u urls t
    refused :
        (bytes : Bytes) (rest : List ReadEvent) (e : CacheRequestError web)
        → IsPart u bytes rest
        → upload_part web (send k) (url_for u.part_number) bytes ≡ err e
        → t ≡ some (fails e, part_uploaded (url_for u.part_number) bytes (err e) ∷ [])
        → Round k u urls t
    too_many :
        (bytes : Bytes) (etag : Etag) (rest : List ReadEvent)
        → IsPart u bytes rest
        → 65535 ≤ u.part_number
        → t
          ≡ some
              (fails too_many_nar_parts, part_uploaded (url_for u.part_number) bytes (ok etag) ∷ [])
        → Round k u urls t
    full :
        (bytes : Bytes) (etag : Etag) (w : Upload web)
        → IsPart u bytes w.reader
        → length bytes ≡ u.state.part_size
        → IsUpload w
        → w.part_number ≡ u.part_number + 1
        → w.etags ≡ u.etags ++ etag ∷ []
        → w.state.part_size ≡ u.state.part_size
        → w.state.upload_id ≡ u.state.upload_id
        → w.state.store_basename ≡ u.state.store_basename
        → t ≡ some (goes_on w, part_uploaded (url_for u.part_number) bytes (ok etag) ∷ [])
        → Round k u urls t

  with_parts-Round :
      (k : ℕ) (u : Upload web) (r : Result (Parts Url) (CacheRequestError web))
      → asked_for k u ≡ r
      → Round k u []
          (some (with_parts web env u r, parts_requested (new_part_numbers u.part_number) ∷ []))
  unfolding with_parts
  with_parts-Round k u (ok parts) e = asked parts refl e refl
  with_parts-Round k u (err e) h = not_asked e h refl

  module _ (k : ℕ) (u : Upload web) (urls : List Url) (v : IsUpload u)
      (numbered : IsNumbered (u.part_number + 1) urls) where
    abbrev popped : Upload web
    popped = record u { state = record (u.state) { part_urls = urls } }

    abbrev all_urls : List Url
    all_urls = url_for u.part_number ∷ urls

    size_of :
        (n : ℕ) (t : TryFill)
        → Fills u.reader u.buf (ok (suc n), t)
        → length (take (suc n) t.buf) ≡ suc n
    size_of n t f = omega (arith, length-take (suc n) t.buf, f.1, f.2)

    take-IsPart :
        (n : ℕ) (t : TryFill)
        → Fills u.reader u.buf (ok (suc n), t)
        → IsPart u (take (suc n) t.buf) t.reader
    take-IsPart n t f = record {
      not_empty = omega (arith, size_of n t f);
      not_long = omega (arith, size_of n t f, f.2, v.sized);
      contents_eq = f.0;
      failure_eq = f.4;
    }

    with_etag-Round :
        (n : ℕ) (t : TryFill)
        → Fills u.reader u.buf (ok (suc n), t)
        → (answer : Result Etag (CacheRequestError web))
        → upload_part web (send k) (url_for u.part_number) (take (suc n) t.buf) ≡ answer
        → Round k u all_urls (
            some (
              with_etag web env k popped (suc n) (take (suc n) t.buf) t.reader answer,
              part_uploaded (url_for u.part_number) (take (suc n) t.buf) answer ∷ [],
            ))
    unfolding with_etag
    with_etag-Round n t f (err e) sent = refused _ t.reader e (take-IsPart n t f) sent refl
    with_etag-Round n t f (ok etag) sent = elim (Bool-cases (ltb (suc n) u.state.part_size)) [
      | inl less ↦
          let (nothing, whole) = ended f.3 (omega (arith, v.sized, ltb_less less)) in
          rw less (
            last _ etag t.reader (take-IsPart n t f)
              (f.0 ∙ ap (◌++◌ (take (suc n) t.buf)) nothing ∙ append-nil _) whole refl)
      | inr all ↦
          let size : length (take (suc n) t.buf) ≡ u.state.part_size =
            omega (arith, size_of n t f, f.2, v.sized, ltb_full all) in
          elim (Bool-cases (ltb u.part_number 65535)) [
            | inr many ↦
                rw (all, many) (too_many _ etag t.reader (take-IsPart n t f) (ltb_full many) refl)
            | inl few ↦
                rw (all, few)
                  (full _ etag _ (take-IsPart n t f) size
                    (record {
                      some_room = v.some_room;
                      sized = sized_buf (reclaims k) (take (suc n) t.buf) u.state.part_size size;
                      stream = f.5;
                      numbered = numbered;
                    })
                    refl refl refl refl refl refl)
          ]
    ]

    with_bytes-Round :
        (r : Result ℕ IoError × TryFill)
        → Fills u.reader u.buf r
        → Round k u all_urls (some (with_bytes web env k popped (url_for u.part_number) r))
    unfolding with_bytes
    with_bytes-Round (err e, t) f = unread e f.0 refl
    with_bytes-Round (ok zero, t) f =
        let (nothing, whole) = ended f.3 (omega (arith, v.sized, v.some_room)) in
        at_end (f.0 ∙ nothing) whole refl
    with_bytes-Round (ok (suc n), t) f = with_etag-Round n t f _ refl

  first_url-Round :
      (k : ℕ) (u : Upload web) (urls : List Url)
      → IsUpload u
      → IsNumbered (u.part_number + 1) urls
      → Round k u
          (url_for u.part_number ∷ urls)
          (with_urls web env k u (url_for u.part_number ∷ urls))
  unfolding with_urls
  first_url-Round k u urls v numbered =
      let (r, e, f) = try_fill-Fills u.reader u.buf v.stream in
      rw (with_urls, e) (with_bytes-Round k u urls v numbered r f)

  with_urls-Round :
      (k : ℕ) (u : Upload web) (urls : List Url)
      → IsUpload u
      → IsNumbered u.part_number urls
      → Round k u urls (with_urls web env k u urls)
  unfolding with_urls
  with_urls-Round k u [] v numbered = with_parts-Round k u (asked_for k u) refl
  with_urls-Round k u (url ∷ urls) v (first, numbered) =
      subst (λ x. Round k u (x ∷ urls) (with_urls web env k u (x ∷ urls))) (sym first)
        (first_url-Round k u urls v numbered)

  valid_urls-IsNumbered :
      (k : ℕ) (u : Upload web)
      → IsUpload u
      → IsNumbered u.part_number (valid_urls web env k u.state)
  valid_urls-IsNumbered k u v =
      elim (Bool-cases (leb u.state.urls_expiration_ts (now k + safety_buffer))) [
        | inl late ↦ rw late tt
        | inr soon ↦ rw soon v.numbered
      ]

  -- A round does one of these things.
  pub round-Round :
      (k : ℕ) (u : Upload web)
      → IsUpload u
      → Round k u
          (valid_urls web env k u.state)
          (with_urls web env k u (valid_urls web env k u.state))
  round-Round k u v =
      with_urls-Round k u (valid_urls web env k u.state) v (valid_urls-IsNumbered k u v)
