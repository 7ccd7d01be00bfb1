-- ===== src/Sub60Cache/UploadNar/Reasons.antt =====
-- Why the loop in `upload_nar` of src/sub60_cache.rs has failed.
use cache_action.Base.{
  Option, some, ℕ, suc, ◌+◌, ◌<◌, ◌≡◌, ap, List, [], ◌∷◌, ◌++◌, length, ok, err, arith, subst,
}
use cache_action.Io.{Bytes, IoError}
use cache_action.Sub60Cache.{Web, CacheRequestError, read_nar, too_many_nar_parts}
use cache_action.Sub60Cache.Requests.{request_part_urls, upload_part}
use cache_action.Sub60Cache.UploadNar.{
  new_part_numbers, Environment, Call, parts_requested, part_uploaded,
}
use cache_action.Sub60Cache.UploadNar.Pieces.{pieces, etags_of}

module _ (web : Web) (url_for : ℕ → web.Url) where
  open web use {Etag, UploadId, Basename}

  -- Why the loop has failed: a request for the URLs of the next parts was refused, the NAR's stream
  -- failed, a part was refused, or the last number of a part was taken and the part not a short one. All
  -- parts before have been accepted.
  pub data Reason (env : Environment web) (id : UploadId) (basename : Basename) (n : ℕ)
      (broken : Option IoError) (e : CacheRequestError web) (calls : List (Call web)) : Type 0 where
    urls_refused :
        (k : ℕ)
        → request_part_urls web env.cache_url
            (env.send k)
            id
            (new_part_numbers (n + length (pieces web url_for calls)))
            basename
          ≡ err e
        → length (etags_of web url_for calls) ≡ length (pieces web url_for calls)
        → Reason env id basename n broken e calls
    nar_broke :
        (x : IoError)
        → broken ≡ some x
        → e ≡ read_nar x
        → length (etags_of web url_for calls) ≡ length (pieces web url_for calls)
        → Reason env id basename n broken e calls
    part_refused :
        (k : ℕ) (url : web.Url) (bytes : Bytes) (before : List (Call web))
        → upload_part web (env.send k) url bytes ≡ err e
        → calls ≡ before ++ part_uploaded url bytes (err e) ∷ []
        → suc (length (etags_of web url_for calls)) ≡ length (pieces web url_for calls)
        → Reason env id basename n broken e calls
    numbers_used :
        e ≡ too_many_nar_parts
        → 65535 < n + length (pieces web url_for calls)
        → length (etags_of web url_for calls) ≡ length (pieces web url_for calls)
        → Reason env id basename n broken e calls

  module _ (env : Environment web) (id : UploadId) (basename : Basename) (broken : Option IoError)
      (e : CacheRequestError web) where
    pub Reason-asked :
        (n : ℕ) (ns : List ℕ) (calls : List (Call web))
        → Reason env id basename n broken e calls
        → Reason env id basename n broken e (parts_requested ns ∷ calls)
    Reason-asked n ns calls (urls_refused k f count) = urls_refused k f count
    Reason-asked n ns calls (nar_broke x f g count) = nar_broke x f g count
    Reason-asked n ns calls (part_refused k url bytes before f g count) =
        part_refused k url bytes (parts_requested ns ∷ before) f (ap (◌∷◌ (parts_requested ns)) g)
          count
    Reason-asked n ns calls (numbers_used f used count) = numbers_used f used count

    pub Reason-full :
        (n : ℕ) (url : web.Url) (bytes : Bytes) (etag : Etag) (calls : List (Call web))
        → Reason env id basename (n + 1) broken e calls
        → Reason env id basename n broken e (part_uploaded url bytes (ok etag) ∷ calls)
    Reason-full n url bytes etag calls (urls_refused k f count) =
        let next : n + 1 + length (pieces web url_for calls)
            ≡ n + suc (length (pieces web url_for calls)) =
          omega arith in
        urls_refused k
          (subst
            (λ m.
              request_part_urls web env.cache_url (env.send k) id (new_part_numbers m) basename
              ≡ err e)
            next f)
          (ap suc count)
    Reason-full n url bytes etag calls (nar_broke x f g count) = nar_broke x f g (ap suc count)
    Reason-full n url bytes etag calls (part_refused k part_url sent before f g count) =
        part_refused k part_url sent (part_uploaded url bytes (ok etag) ∷ before) f
          (ap (◌∷◌ (part_uploaded url bytes (ok etag))) g) (ap suc count)
    Reason-full n url bytes etag calls (numbers_used f used count) =
        numbers_used f (omega (arith, used)) (ap suc count)

  pub Reason-same :
      (env : Environment web) {id jd : UploadId} {basename other : Basename} {n m : ℕ}
      {broken failed : Option IoError}
      → id ≡ jd
      → basename ≡ other
      → n ≡ m
      → broken ≡ failed
      → (e : CacheRequestError web) (calls : List (Call web))
      → Reason env id basename n broken e calls
      → Reason env jd other m failed e calls
  Reason-same env {id = id} {basename = basename} {other = other} {n = n} {m = m} {failed = failed}
        f g h i e calls why =
      subst (λ x. Reason env x other m failed e calls) f
        (subst (λ x. Reason env id x m failed e calls) g
          (subst (λ x. Reason env id basename x failed e calls) h
            (subst (λ x. Reason env id basename n x e calls) i why)))
