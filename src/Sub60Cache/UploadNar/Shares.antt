-- ===== src/Sub60Cache/UploadNar/Shares.antt =====
-- What each round of the loop in `upload_nar` of src/sub60_cache.rs adds to what the loop comes to.
use cache_action.Base.{
  ℕ, suc, ◌+◌, ◌<◌, ◌≡◌, refl, sym, ap, ◌∙◌, List, [], ◌∷◌, ◌++◌, none, length, flatten, Result, ok,
  err, append_assoc, subst,
}
use cache_action.Io.{Bytes, contents, failure}
use cache_action.Sub60Cache.{Web, CacheRequestError}
use cache_action.Sub60Cache.UploadNar.{
  new_part_numbers, Environment, Upload, Call, parts_requested, part_uploaded,
}
use cache_action.Sub60Cache.UploadNar.Rounds.{IsPart}
use cache_action.Sub60Cache.UploadNar.Pieces.{IsCut, IsCut-cons, pieces, etags_of, IsInOrder, Sends}
use cache_action.Sub60Cache.UploadNar.Reasons.{Reason, Reason-asked, Reason-full, Reason-same}

module _ (web : Web) (url_for : ℕ → web.Url) where
  open web use {Etag, UploadId, Basename}

  -- What the loop comes to.
  abbrev pub Loops :
      Environment web
      → Upload web
      → Result (List Etag) (CacheRequestError web) × List (Call web)
      → Type 0
  Loops env u (err e, calls) =
      (rest : Bytes) × Sends web url_for u.state.part_size u.part_number (contents u.reader) rest
        calls
      × Reason web url_for env u.state.upload_id u.state.store_basename u.part_number
          (failure u.reader) e calls
  Loops env u (ok etags, calls) =
      Sends web url_for u.state.part_size u.part_number (contents u.reader) [] calls
      × (failure u.reader ≡ none)
      × (etags ≡ u.etags ++ etags_of web url_for calls)
      × (length (etags_of web url_for calls) ≡ length (pieces web url_for calls))

  pub Loops-asked :
      (env : Environment web) (u w : Upload web)
      → w.state.part_size ≡ u.state.part_size
      → w.part_number ≡ u.part_number
      → w.reader ≡ u.reader
      → w.etags ≡ u.etags
      → w.state.upload_id ≡ u.state.upload_id
      → w.state.store_basename ≡ u.state.store_basename
      → (r : Result (List Etag) (CacheRequestError web) × List (Call web)) → Loops env w r
      → Loops env u (r.0, parts_requested (new_part_numbers u.part_number) ∷ r.1)
  Loops-asked env u w size n same etags_eq id basename (err e, calls) (rest, s, why) = (
    rest,
    record {
      bytes_eq = sym (ap contents same) ∙ s.bytes_eq;
      cut = subst (λ k. IsCut k (pieces web url_for calls)) size s.cut;
      in_order = (refl, subst (λ k. IsInOrder web url_for k calls) n s.in_order);
    },
    Reason-asked web url_for env u.state.upload_id u.state.store_basename (failure u.reader) e
        u.part_number (new_part_numbers u.part_number) calls
        (Reason-same web url_for env id basename n (ap failure same) e calls why),
  )
  Loops-asked env u w size n same etags_eq id basename (ok etags, calls) (s, whole, all, count) = (
    record {
      bytes_eq = sym (ap contents same) ∙ s.bytes_eq;
      cut = subst (λ k. IsCut k (pieces web url_for calls)) size s.cut;
      in_order = (refl, subst (λ k. IsInOrder web url_for k calls) n s.in_order);
    },
    sym (ap failure same) ∙ whole,
    all ∙ ap (λ es. es ++ etags_of web url_for calls) etags_eq,
    count,
  )

  module _ (env : Environment web) (u w : Upload web) (bytes : Bytes) (etag : Etag)
      (part : IsPart web env url_for u bytes w.reader) (some_room : 0 < u.state.part_size)
      (size : length bytes ≡ u.state.part_size) (same_size : w.state.part_size ≡ u.state.part_size)
      (n : w.part_number ≡ u.part_number + 1) (id : w.state.upload_id ≡ u.state.upload_id)
      (basename : w.state.store_basename ≡ u.state.store_basename) where
    Sends-full :
        (rest : Bytes) (calls : List (Call web))
        → Sends web url_for w.state.part_size w.part_number (contents w.reader) rest calls
        → Sends web url_for u.state.part_size u.part_number
            (contents u.reader)
            rest
            (part_uploaded (url_for u.part_number) bytes (ok etag) ∷ calls)
    Sends-full rest calls s = record {
      bytes_eq =
          part.contents_eq
          ∙ ap (◌++◌ bytes) s.bytes_eq
          ∙ sym (append_assoc bytes (flatten (pieces web url_for calls)) rest);
      cut =
          IsCut-cons u.state.part_size bytes (pieces web url_for calls) some_room size
            (subst (λ k. IsCut k (pieces web url_for calls)) same_size s.cut);
      in_order = (refl, subst (λ k. IsInOrder web url_for k calls) n s.in_order);
    }

    pub Loops-full :
        w.etags ≡ u.etags ++ etag ∷ []
        → (r : Result (List Etag) (CacheRequestError web) × List (Call web)) → Loops env w r
        → Loops env u (r.0, part_uploaded (url_for u.part_number) bytes (ok etag) ∷ r.1)
    Loops-full e (err f, calls) (rest, s, why) = (
      rest,
      Sends-full rest calls s,
      Reason-full web url_for env u.state.upload_id u.state.store_basename (failure u.reader) f
          u.part_number (url_for u.part_number) bytes etag calls
          (Reason-same web url_for env id basename n part.failure_eq f calls why),
    )
    Loops-full e (ok etags, calls) (s, whole, all, count) = (
      Sends-full [] calls s,
      sym part.failure_eq ∙ whole,
      all
          ∙ ap (λ es. es ++ etags_of web url_for calls) e
          ∙ append_assoc u.etags (etag ∷ []) (etags_of web url_for calls),
      ap suc count,
    )
