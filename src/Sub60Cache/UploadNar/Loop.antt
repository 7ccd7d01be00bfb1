-- ===== src/Sub60Cache/UploadNar/Loop.antt =====
-- The loop in `upload_nar` of src/sub60_cache.rs from its start to its end: the parts that it sends.
use cache_action.Base.{
  ◌+◌, ℕ, zero, suc, ◌<◌, ◌≡◌, refl, sym, ap, ◌∙◌, List, [], ◌∷◌, ◌++◌, none, some, length, Result,
  ok, err, arith, Option-cases, inl, inr, append-nil, length-replicate, subst,
}
use cache_action.Io.{Bytes, ReadEvent, IsStream, contents, failure}
use cache_action.Sub60Cache.Requests.{request_part_urls, complete_nar_upload}
use cache_action.Sub60Cache.{Web, Parts, CacheRequestError, NarUploadState}
use cache_action.Sub60Cache.UploadNar.{
  new_part_numbers, Environment, Upload, Call, part_uploaded, completed, goes_on, finishes, fails,
  valid_urls, with_urls, loop, start, complete,
}
use cache_action.Sub60Cache.UploadNar.Rounds.{
  IsNumbered, IsUpload, IsServing, supplied, asked, not_asked, unread, at_end, last, refused,
  too_many, full, IsPart, round-Round,
}
use cache_action.Sub60Cache.UploadNar.Pieces.{pieces, etags_of, Sends}
use cache_action.Sub60Cache.UploadNar.Reasons.{
  Reason, urls_refused, nar_broke, part_refused, numbers_used,
}
use cache_action.Sub60Cache.UploadNar.Shares.{Loops, Loops-asked, Loops-full}

module _ (web : Web) (env : Environment web) (url_for : ℕ → web.Url) where
  open web use {Etag}

  loop-goes_on :
      (fuel k : ℕ) (u w : Upload web) (calls : List (Call web))
      (r : Result (List Etag) (CacheRequestError web) × List (Call web))
      → with_urls web env k u (valid_urls web env k u.state) ≡ some (goes_on w, calls)
      → loop web env (suc fuel) k u ≡ some r
      → (s : Result (List Etag) (CacheRequestError web) × List (Call web)) × (loop web env fuel
            (suc k)
            w
          ≡ some s)
        × ((s.0, calls ++ s.1) ≡ r)
  unfolding loop
  loop-goes_on fuel k u w calls r e l = elim (Option-cases (loop web env fuel (suc k) w)) [
    | inl stuck ↦ absurd (ground arith)
    | inr (s, ended) ↦ (s, ended, ground arith)
  ]

  loop_stuck :
      (k : ℕ) (u : Upload web) (r : Result (List Etag) (CacheRequestError web) × List (Call web))
      → loop web env zero k u ≡ some r
      → ⊥
  unfolding loop
  loop_stuck k u r e = cc

  pub loop-fails :
      (fuel k : ℕ) (u : Upload web) (f : CacheRequestError web) (calls : List (Call web))
      → with_urls web env k u (valid_urls web env k u.state) ≡ some (fails f, calls)
      → loop web env (suc fuel) k u ≡ some (err f, calls)
  unfolding loop
  loop-fails fuel k u f calls e = ground arith

  pub loop-finishes :
      (fuel k : ℕ) (u : Upload web) (etags : List Etag) (calls : List (Call web))
      → with_urls web env k u (valid_urls web env k u.state) ≡ some (finishes etags, calls)
      → loop web env (suc fuel) k u ≡ some (ok etags, calls)
  unfolding loop
  loop-finishes fuel k u etags calls e = ground arith

  -- A request for the next parts, where none was sent before.
  from_here :
      {f : CacheRequestError web} (k : ℕ) (u : Upload web)
      → request_part_urls web env.cache_url
          (env.send k)
          u.state.upload_id
          (new_part_numbers u.part_number)
          u.state.store_basename
        ≡ err f
      → request_part_urls web env.cache_url
          (env.send k)
          u.state.upload_id
          (new_part_numbers (u.part_number + 0))
          u.state.store_basename
        ≡ err f
  from_here {f} k u e =
      let here : u.part_number ≡ u.part_number + 0 = omega arith in
      subst
        (λ n.
          request_part_urls web env.cache_url (env.send k) u.state.upload_id (new_part_numbers n)
            u.state.store_basename
          ≡ err f)
        here e

  -- One part was sent.
  one_part :
      {answer : Result Etag (CacheRequestError web)} (u : Upload web) (bytes : Bytes)
      (rest : List ReadEvent)
      → IsPart web env url_for u bytes rest
      → Sends web url_for u.state.part_size u.part_number
          (contents u.reader)
          (contents rest)
          (part_uploaded (url_for u.part_number) bytes answer ∷ [])
  one_part u bytes rest part = record {
    bytes_eq = part.contents_eq ∙ ap (λ b. b ++ contents rest) (sym (append-nil bytes));
    cut = (part.not_empty, part.not_long);
    in_order = (refl, tt);
  }

  some_inj : {A : Type 0} {a b : A} → some a ≡ some b → a ≡ b
  some_inj e = cc

  module _ (serving : IsServing web env url_for) where
    pub supplied-IsUpload :
        (k : ℕ) (u : Upload web) (v : IsUpload web env url_for u) (parts : Parts web.Url)
        → request_part_urls web env.cache_url
            (env.send k)
            u.state.upload_id
            (new_part_numbers u.part_number)
            u.state.store_basename
          ≡ ok parts
        → IsUpload web env url_for (supplied web env url_for u parts)
    supplied-IsUpload k u v parts e = record {
      some_room = v.some_room;
      sized = v.sized;
      stream = v.stream;
      numbered = serving k u.part_number u parts e;
    }

    pub loop-Loops :
        (fuel k : ℕ) (u : Upload web)
        (r : Result (List Etag) (CacheRequestError web) × List (Call web))
        → IsUpload web env url_for u
        → loop web env fuel k u ≡ some r
        → Loops web url_for env u r
    loop-Loops zero k u r v l = absurd (loop_stuck k u r l)
    loop-Loops (suc fuel) k u r v l = elim (round-Round web env url_for k u v) [
      | asked parts none_left answer e ↦
          let (s, later, all) = loop-goes_on fuel k u _ _ r e l in
          subst (Loops web url_for env u) all (
            Loops-asked web url_for env u (supplied web env url_for u parts) refl refl refl refl
              refl refl s
              (loop-Loops fuel (suc k) _ s (supplied-IsUpload k u v parts answer) later))
      | not_asked f refused_urls e ↦
          subst (Loops web url_for env u) (some_inj (sym (loop-fails fuel k u f _ e) ∙ l)) (
            contents u.reader,
            record { bytes_eq = refl; cut = tt; in_order = (refl, tt) },
            urls_refused k (from_here k u refused_urls) refl,
          )
      | unread x broken e ↦
          subst (Loops web url_for env u) (some_inj (sym (loop-fails fuel k u _ _ e) ∙ l)) (
            contents u.reader,
            record { bytes_eq = refl; cut = tt; in_order = tt },
            nar_broke x broken refl refl,
          )
      | at_end nothing whole e ↦
          subst (Loops web url_for env u) (some_inj (sym (loop-finishes fuel k u _ _ e) ∙ l)) (
            record { bytes_eq = nothing; cut = tt; in_order = tt },
            whole,
            sym (append-nil u.etags),
            refl,
          )
      | last bytes etag rest part all whole e ↦
          subst (Loops web url_for env u) (some_inj (sym (loop-finishes fuel k u _ _ e) ∙ l)) (
            record {
              bytes_eq = all ∙ sym (append-nil bytes) ∙ sym (append-nil (bytes ++ []));
              cut = (part.not_empty, part.not_long);
              in_order = (refl, tt);
            },
            whole,
            refl,
            refl,
          )
      | refused bytes rest f part answer e ↦
          subst (Loops web url_for env u) (some_inj (sym (loop-fails fuel k u _ _ e) ∙ l)) (
            contents rest,
            one_part u bytes rest part,
            part_refused k (url_for u.part_number) bytes [] answer refl refl,
          )
      | too_many bytes etag rest part used e ↦
          subst (Loops web url_for env u) (some_inj (sym (loop-fails fuel k u _ _ e) ∙ l)) (
            contents rest,
            one_part u bytes rest part,
            numbers_used refl (omega (arith, used)) refl,
          )
      | full bytes etag w part size w_ok n etags_eq same id name e ↦
          let (s, later, all) = loop-goes_on fuel k u w _ r e l in
          subst (Loops web url_for env u) all (
            Loops-full web url_for env u w bytes etag part v.some_room size same n id name etags_eq
              s (loop-Loops fuel (suc k) w s w_ok later))
    ]

module _ (web : Web) (env : Environment web) (url_for : ℕ → web.Url) where
  -- What an upload comes to: the loop failed for a reason, with a part of the NAR sent; or all of the NAR
  -- was sent, and the parts' ETags, one for each part, went into the last request, whose answer is the result.
  pub data Uploaded (state : NarUploadState web) (events : List ReadEvent)
      (t : Result (Unit {0}) (CacheRequestError web) × List (Call web)) : Type 0 where
    stopped :
        (e : CacheRequestError web) (rest : Bytes)
        → t.0 ≡ err e
        → Sends web url_for state.part_size 1 (contents events) rest t.1
        → Reason web url_for env state.upload_id state.store_basename 1 (failure events) e t.1
        → Uploaded state events t
    sent :
        (calls : List (Call web))
        → Sends web url_for state.part_size 1 (contents events) [] calls
        → failure events ≡ none
        → length (etags_of web url_for calls) ≡ length (pieces web url_for calls)
        → t.1 ≡ calls ++ completed (etags_of web url_for calls) ∷ []
        → t.0
          ≡ complete_nar_upload web env.cache_url env.send_last state.upload_id
              (etags_of web url_for calls)
              state.store_basename
        → Uploaded state events t

  pub complete-Uploaded :
      (state : NarUploadState web) (events : List ReadEvent)
      (r : Result (List web.Etag) (CacheRequestError web) × List (Call web))
      → Loops web url_for env (start web env state events) r
      → Uploaded state events (complete web env state r)
  unfolding complete
  complete-Uploaded state events (err e, calls) (rest, s, why) = stopped e rest refl s why
  complete-Uploaded state events (ok etags, calls) (s, whole, all, count) =
      sent calls s whole count (ap (λ es. calls ++ completed es ∷ []) all) (
        ap
          (λ es.
            complete_nar_upload web env.cache_url env.send_last state.upload_id es
              state.store_basename)
          all)

  pub start-IsUpload :
      (state : NarUploadState web) (events : List ReadEvent)
      → 0 < state.part_size
      → IsStream events
      → IsNumbered web env url_for 1 state.part_urls
      → IsUpload web env url_for (start web env state events)
  start-IsUpload state events h s n = record {
    some_room = h;
    sized = length-replicate {A = ℕ} state.part_size 0;
    stream = s;
    numbered = n;
  }
