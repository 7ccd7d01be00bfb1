-- ===== src/Sub60Cache/UploadNar/Finishes.antt =====
-- `upload_nar` of src/sub60_cache.rs as a whole: when it comes to an end, and with what.
use cache_action.Base.{
  Option, replicate, ℕ, zero, suc, ◌+◌, ◌*◌, ◌≤◌, ◌<◌, ◌≡◌, ◌≢◌, refl, ap, true, List, [], ◌++◌,
  none, some, length, length-append, leb, Result, ok, arith, inl, inr, ◌⊎◌, Bool-cases,
}
use cache_action.Io.{ReadEvent, IsStream, contents}
use cache_action.Sub60Cache.{Web, Parts, CacheRequestError, NarUploadState}
use cache_action.Sub60Cache.Requests.{request_part_urls}
use cache_action.Sub60Cache.UploadNar.{
  new_part_numbers, safety_buffer, Environment, Upload, Call, parts_requested, goes_on, finishes,
  fails, valid_urls, with_parts, with_urls, loop, start, complete, upload_nar,
}
use cache_action.Sub60Cache.UploadNar.Rounds.{
  IsNumbered, IsUpload, IsServing, supplied, asked, not_asked, unread, at_end, last, refused,
  too_many, full, round-Round,
}
use cache_action.Sub60Cache.UploadNar.Loop.{
  loop-fails, loop-finishes, loop-Loops, supplied-IsUpload, Uploaded, complete-Uploaded,
  start-IsUpload,
}

-- What is left of the fuel, with and without URLs.
fuel_left :
    {A : Type 0} {n fuel : ℕ} {urls : List A}
    → (n + 1 < suc fuel) ⊎ ((urls ≢ []) × (n < suc fuel))
    → urls ≡ []
    → n < fuel
fuel_left (inl h) e = omega (arith, h)
fuel_left (inr h) e = absurd (h.0 e)

fuel_bound :
    {A : Type 0} {n fuel : ℕ} {urls : List A}
    → (n + 1 < suc fuel) ⊎ ((urls ≢ []) × (n < suc fuel))
    → n < suc fuel
fuel_bound (inl h) = omega (arith, h)
fuel_bound (inr h) = h.1

module _ (web : Web) (env : Environment web) where
  open env use {cache_url, now, send}

  -- An answer with URLs has at least one, and they can be used in the next round.
  abbrev pub IsGranting : Type 0
  IsGranting =
      (k n : ℕ) (u : Upload web) (parts : Parts web.Url)
      → request_part_urls web cache_url (send k) u.state.upload_id (new_part_numbers n)
          u.state.store_basename
        ≡ ok parts
      → (parts.urls ≢ []) × (now (suc k) + safety_buffer < parts.expiration_ts)

  loop-later :
      (fuel k : ℕ) (u w : Upload web) (calls : List (Call web))
      → with_urls web env k u (valid_urls web env k u.state) ≡ some (goes_on w, calls)
      → (s : Result (List web.Etag) (CacheRequestError web) × List (Call web)) × (loop web env fuel
            (suc k)
            w
          ≡ some s)
      → (r : Result (List web.Etag) (CacheRequestError web) × List (Call web)) × (loop web env
            (suc fuel)
            k
            u
          ≡ some r)
  unfolding loop
  loop-later fuel k u w calls e (s, ended) = ((s.0, calls ++ s.1), ground arith)

  module _ (url_for : ℕ → web.Url) (serving : IsServing web env url_for)
      (granting : IsGranting) where
    supplied_valid :
        (k : ℕ) (u : Upload web) (parts : Parts web.Url)
        → request_part_urls web cache_url
            (send k)
            u.state.upload_id
            (new_part_numbers u.part_number)
            u.state.store_basename
          ≡ ok parts
        → valid_urls web env (suc k) (supplied web env url_for u parts).state ≢ []
    supplied_valid k u parts answer =
        let (some_urls, in_time) = granting k u.part_number u parts answer in
        elim (Bool-cases (leb parts.expiration_ts (now (suc k) + safety_buffer))) [
          | inl late ↦ absurd (ground arith)
          | inr soon ↦ rw soon some_urls
        ]

    -- Two rounds for each byte, and one more if there are no URLs yet.
    loop_total :
        (fuel k : ℕ) (u : Upload web)
        → IsUpload web env url_for u
        → (2 * length (contents u.reader) + 1 < fuel)
          ⊎ ((valid_urls web env k u.state ≢ []) × (2 * length (contents u.reader) < fuel))
        → (r : Result (List web.Etag) (CacheRequestError web) × List (Call web)) × (loop web env
              fuel k u
            ≡ some r)
    loop_total zero k u v (inl h) = absurd (omega (arith, h))
    loop_total zero k u v (inr h) = absurd (omega (arith, h.1))
    loop_total (suc fuel) k u v h = elim (round-Round web env url_for k u v) [
      | asked parts none_left answer e ↦ loop-later fuel k u _ _ e (
          loop_total fuel (suc k) (supplied web env url_for u parts)
            (supplied-IsUpload web env url_for serving k u v parts answer)
            (inr (supplied_valid k u parts answer, fuel_left h none_left)))
      | not_asked f answer e ↦ (_, loop-fails web env url_for fuel k u f _ e)
      | unread x broken e ↦ (_, loop-fails web env url_for fuel k u _ _ e)
      | at_end nothing whole e ↦ (_, loop-finishes web env url_for fuel k u _ _ e)
      | last bytes etag rest part all whole e ↦ (_, loop-finishes web env url_for fuel k u _ _ e)
      | refused bytes rest f part answer e ↦ (_, loop-fails web env url_for fuel k u f _ e)
      | too_many bytes etag rest part used e ↦ (_, loop-fails web env url_for fuel k u _ _ e)
      | full bytes etag w part size w_ok n etags_eq same id name e ↦ loop-later fuel k u w _ e (
          loop_total fuel (suc k) w w_ok (
            inl (
              omega (
                arith,
                fuel_bound h,
                ap length part.contents_eq,
                length-append bytes (contents w.reader),
                part.not_empty,
              ))))
    ]

    pub upload_nar-Uploaded :
        (state : NarUploadState web) (events : List ReadEvent) (fuel : ℕ)
        → 0 < state.part_size
        → IsStream events
        → IsNumbered web env url_for 1 state.part_urls
        → 2 * length (contents events) + 1 < fuel
        → (r : Result (Unit {0}) (CacheRequestError web) × List (Call web)) × (upload_nar web env
              fuel state events
            ≡ some r)
          × Uploaded web env url_for state events r
    unfolding upload_nar
    upload_nar-Uploaded state events fuel room stream numbered enough =
        let v = start-IsUpload web env url_for state events room stream numbered in
        let (r, ended) = loop_total fuel 0 (start web env state events) v (inl enough) in
        (
          complete web env state r,
          ground (arith, ended),
          complete-Uploaded web env url_for state events r
              (loop-Loops web env url_for serving fuel 0 _ r v ended),
        )

  -- The URLs of the state and those of every answer are about to expire.
  pub record IsLate (state : NarUploadState web) : Type 0 where
    pub at_start : state.urls_expiration_ts ≤ now 0 + safety_buffer
    pub answers :
        (k n : ℕ) (u : Upload web)
        → (parts : Parts web.Url) × (request_part_urls web cache_url
              (send k)
              u.state.upload_id
              (new_part_numbers n)
              u.state.store_basename
            ≡ ok parts)
          × (parts.expiration_ts ≤ now (suc k) + safety_buffer)

  -- The state after an answer.
  abbrev after : Upload web → Parts web.Url → Upload web
  after u parts = record u {
    state = record (u.state) {
      part_urls = [] ++ parts.urls;
      urls_expiration_ts = parts.expiration_ts;
    };
  }

  -- The calls of so many rounds of the loop, if it goes on in each.
  unfoldable pub calls_in : ℕ → ℕ → Upload web → Option (List (Call web))
  calls_in zero k u = some []
  calls_in (suc rounds) k u = elim (with_urls web env k u (valid_urls web env k u.state)) [
    | none ↦ none
    | some (fails e, calls) ↦ none
    | some (finishes etags, calls) ↦ none
    | some (goes_on v, calls) ↦ elim (calls_in rounds (suc k) v) [
      | none ↦ none
      | some more ↦ some (calls ++ more)
    ]
  ]

  loop_starves :
      (state : NarUploadState web) (late : IsLate state) (fuel k : ℕ) (u : Upload web)
      → u.state.urls_expiration_ts ≤ now k + safety_buffer
      → (loop web env fuel k u ≡ none)
        × (calls_in fuel k u
            ≡ some (replicate fuel (parts_requested (new_part_numbers u.part_number))))
  unfolding loop calls_in with_urls with_parts
  loop_starves state late zero k u h = (refl, refl)
  loop_starves state late (suc fuel) k u h =
      let (parts, answer, old) = late.answers k u.part_number u in
      let dropped : leb u.state.urls_expiration_ts (now k + safety_buffer) ≡ true = ground arith in
      let (rest, calls) = loop_starves state late fuel (suc k) (after u parts) old in
      (
        rw (loop, dropped, with_urls, answer, with_parts, rest) refl,
        rw (calls_in, dropped, with_urls, answer, with_parts, calls) refl,
      )

  -- To a server whose URLs are always about to expire by the client's clock, the upload never ends: it has
  -- no result after any number of rounds, and the calls of those are as many requests for the URLs of the
  -- first parts, and no other.
  pub upload_nar_starves :
      (state : NarUploadState web) (events : List ReadEvent) (rounds : ℕ)
      → IsLate state
      → (upload_nar web env rounds state events ≡ none)
        × (calls_in rounds 0 (start web env state events)
            ≡ some (replicate rounds (parts_requested (new_part_numbers 1))))
  unfolding upload_nar
  upload_nar_starves state events rounds late =
      let (stuck, calls) =
        loop_starves state late rounds 0 (start web env state events) late.at_start in
      (rw (upload_nar, stuck) refl, calls)
