-- ===== src/Sub60Cache/UploadNar.antt =====
-- `upload_nar` of src/sub60_cache.rs: the NAR is read in parts of one size, each of which goes to a
-- URL of its own; URLs are asked for when there are none, and dropped when they are about to expire.
pub mod Rounds
pub mod Pieces
pub mod Reasons
pub mod Shares
pub mod Loop
pub mod Finishes
use cache_action.Base.{
  ℕ, zero, suc, ◌+◌, ◌-◌, ◌*◌, Bool, true, false, List, [], ◌∷◌, ◌++◌, Option, none, some, length,
  take, replicate, ltb, leb, if◌then◌else◌, Result, ok, err,
}
use cache_action.Io.{Bytes, IoError, ReadEvent}
use cache_action.AsyncReadExt.{TryFill, try_fill}
use cache_action.Sub60Cache.{
  Web, Parts, CacheRequestError, read_nar, too_many_nar_parts, NarUploadState, Send,
}
use cache_action.Sub60Cache.Requests.{request_part_urls, complete_nar_upload, upload_part}

-- `NonZeroU16::checked_add(1)`
abbrev checked_add : ℕ → Option ℕ
checked_add n = if ltb n 65535 then some (n + 1) else none

-- `iter::successors(..).take(count)`
unfoldable pub successors : ℕ → ℕ → List ℕ
successors zero part_number = []
successors (suc count) part_number =
    part_number ∷ elim (checked_add part_number) [ none ↦ [] | some next ↦ successors count next ]

abbrev pub new_part_numbers : ℕ → List ℕ
new_part_numbers part_number = successors 4 part_number

-- 10 seconds, in nanoseconds.
abbrev pub safety_buffer : ℕ
safety_buffer = 10000000000

module _ (web : Web) where
  open web use {Url, Etag}

  -- What the environment answers: the clock and the server by the round of the loop, the server
  -- after the last round, and whether the buffer of a part that was sent can be used again.
  pub record Environment : Type 0 where
    pub cache_url : Url
    pub now : ℕ → ℕ
    pub send : ℕ → Send web
    pub send_last : Send web
    pub reclaims : ℕ → Bool

  -- The variables of the function; `reader` is `nar_bytes`.
  pub record Upload : Type 0 where
    pub state : NarUploadState web
    pub reader : List ReadEvent
    pub buf : Bytes
    pub part_number : ℕ
    pub etags : List Etag

  -- The requests, in order, with the answer to each part.
  pub data Call : Type 0 where
    parts_requested : List ℕ → Call
    part_uploaded : Url → Bytes → Result Etag (CacheRequestError web) → Call
    completed : List Etag → Call

  -- How a round of the loop ends.
  pub data Step : Type 0 where
    goes_on : Upload → Step
    finishes : List Etag → Step
    fails : CacheRequestError web → Step

  module _ (env : Environment) where
    open env use {cache_url, now, send, send_last, reclaims}

    -- The URLs that are past their time, or soon will be, are dropped.
    abbrev pub valid_urls : ℕ → NarUploadState web → List Url
    valid_urls k state =
        if leb state.urls_expiration_ts (now k + safety_buffer) then [] else state.part_urls

    pub with_parts : Upload → Result (Parts Url) (CacheRequestError web) → Step
    with_parts u (err e) = fails e
    with_parts u (ok parts) = goes_on (record u {
      state = record (u.state) {
        part_urls = [] ++ parts.urls;
        urls_expiration_ts = parts.expiration_ts;
      };
    })

    -- What follows the upload of a part, of which `num_read` bytes were read.
    pub with_etag :
        ℕ → Upload → ℕ → Bytes → List ReadEvent → Result Etag (CacheRequestError web) → Step
    with_etag k u num_read part_bytes reader (err e) = fails e
    with_etag k u num_read part_bytes reader (ok etag) =
        if ltb num_read u.state.part_size
        then finishes (u.etags ++ etag ∷ [])
        else elim (checked_add u.part_number) [
          | none ↦ fails too_many_nar_parts
          | some next ↦ goes_on (record u {
            reader = reader;
            buf = if reclaims k then part_bytes else replicate u.state.part_size 0;
            part_number = next;
            etags = u.etags ++ etag ∷ [];
          })
        ]

    -- What follows `try_fill`.
    pub with_bytes : ℕ → Upload → Url → Result ℕ IoError × TryFill → Step × List Call
    unfolding with_etag
    with_bytes k u url (err e, t) = (fails (read_nar e), [])
    with_bytes k u url (ok zero, t) = (finishes u.etags, [])
    with_bytes k u url (ok (suc n), t) =
        let part_bytes = take (suc n) t.buf in
        let answer = upload_part web (send k) url part_bytes in
        (with_etag k u (suc n) part_bytes t.reader answer, part_uploaded url part_bytes answer ∷ [])

    -- One round, with the URLs that are valid in it; `none` if `try_fill` had no result.
    pub with_urls : ℕ → Upload → List Url → Option (Step × List Call)
    unfolding with_parts with_bytes
    with_urls k u [] =
        let numbers = new_part_numbers u.part_number in
        some (
          with_parts u (
              request_part_urls web cache_url (send k) u.state.upload_id numbers
                u.state.store_basename),
          parts_requested numbers ∷ [],
        )
    with_urls k u (part_url ∷ urls) = elim (try_fill u.reader u.buf) [
      | none ↦ none
      | some r ↦
          some
            (with_bytes k (record u { state = record (u.state) { part_urls = urls } }) part_url r)
    ]

    -- The loop, from its round `k`, on fuel for its rounds.
    unfoldable pub loop :
        ℕ → ℕ → Upload → Option (Result (List Etag) (CacheRequestError web) × List Call)
    unfolding with_urls
    loop zero k u = none
    loop (suc fuel) k u = elim (with_urls k u (valid_urls k u.state)) [
      | none ↦ none
      | some (fails e, calls) ↦ some (err e, calls)
      | some (finishes etags, calls) ↦ some (ok etags, calls)
      | some (goes_on v, calls) ↦ elim (loop fuel (suc k) v) [
        | none ↦ none
        | some (r, more) ↦ some (r, calls ++ more)
      ]
    ]

    abbrev pub start : NarUploadState web → List ReadEvent → Upload
    start state nar_bytes = record {
      state = state;
      reader = nar_bytes;
      buf = replicate state.part_size 0;
      part_number = 1;
      etags = [];
    }

    -- What follows the loop.
    pub complete :
        NarUploadState web
        → Result (List Etag) (CacheRequestError web) × List Call
        → Result (Unit {0}) (CacheRequestError web) × List Call
    complete state (err e, calls) = (err e, calls)
    complete state (ok etags, calls) = (
      complete_nar_upload web cache_url send_last state.upload_id etags state.store_basename,
      calls ++ completed etags ∷ [],
    )

    unfoldable pub upload_nar :
        ℕ
        → NarUploadState web
        → List ReadEvent
        → Option (Result (Unit {0}) (CacheRequestError web) × List Call)
    unfolding loop complete
    upload_nar fuel state nar_bytes = elim (loop fuel 0 (start state nar_bytes)) [
      | none ↦ none
      | some r ↦ some (complete state r)
    ]
