-- ===== src/Sub60Cache/Samples.antt =====
-- A server for the client of src/sub60_cache.rs, for tests.
use cache_action.Base.{
  ℕ, zero, suc, ◌+◌, ◌≡◌, refl, subst, true, List, [], ◌∷◌, ◌++◌, some, map, flatten, ltb, ◌==◌,
  Result, ok, err, arith, Bool-cases, inl, inr,
}
use cache_action.Io.{Bytes, ReadEvent, arrived, blocked}
use cache_action.Sub60Cache.{Web, Parts, CacheRequestError, NarUploadState, Send}
use cache_action.Sub60Cache.Requests.{request_part_urls}
use cache_action.Sub60Cache.UploadNar.{successors, Environment}
use cache_action.Sub60Cache.UploadNar.Rounds.{IsNumbered, IsServing}
use cache_action.Sub60Cache.UploadNar.Finishes.{IsGranting}

-- A cache whose texts are their bytes, and whose URL of a part is its number.
abbrev pub web : Web
web = record {
  Url = Bytes;
  HttpError = ℕ;
  HeaderError = Unit {0};
  Etag = Bytes;
  EtagError = Unit {0};
  MultipartsError = Unit {0};
  PartsError = Unit {0};
  UploadId = Bytes;
  Basename = Bytes;
  push_segment = λ url segment. url ++ 47 ∷ segment;
  append_pair = λ url key value. url ++ 63 ∷ key ++ 61 ∷ value;
  id_text = λ id. id;
  basename_text = λ basename. basename;
  parts_body = λ numbers basename. numbers;
  complete_body = λ etags basename. flatten etags;
  parse_etag = λ text. ok text;
  parse_multiparts = λ text. err tt;
  parse_parts =
      λ text. ok (record { urls = map (λ n. n ∷ []) text; expiration_ts = 1000000000000 });
  is_success = λ status. status == 200;
  unreadable = λ e. [];
}

abbrev pub url_for : ℕ → Bytes
url_for n = n ∷ []

-- Each request succeeds, with its own body in the answer.
abbrev pub echo : Send web
echo request =
    ok (record { status = 200; etag = some (ok (34 ∷ 7 ∷ 34 ∷ [])); text = ok request.body })

abbrev pub server : Environment web
server = record {
  cache_url = [];
  now = λ k. 0;
  send = λ k. echo;
  send_last = echo;
  reclaims = λ k. true;
}

abbrev pub state : NarUploadState web
state = record {
  part_size = 2;
  part_urls = (1 ∷ []) ∷ [];
  store_basename = [];
  upload_id = 5 ∷ [];
  urls_expiration_ts = 1000000000000;
}

-- Five bytes, which arrive in pieces.
abbrev pub nar : List ReadEvent
nar = arrived (1 ∷ []) ∷ blocked ∷ arrived (2 ∷ 3 ∷ 4 ∷ []) ∷ arrived (5 ∷ []) ∷ []

successors-IsNumbered :
    (count n : ℕ) → IsNumbered web server url_for n (map url_for (successors count n))
unfolding successors
successors-IsNumbered zero n = tt
successors-IsNumbered (suc count) n = elim (Bool-cases (ltb n 65535)) [
  | inl more ↦ (refl, rw more (successors-IsNumbered count (n + 1)))
  | inr done ↦ (refl, rw done tt)
]

urls_eq :
    {p q : Parts Bytes}
    → ◌≡◌ {A = Result (Parts Bytes) (CacheRequestError web)} (ok p) (ok q)
    → p.urls ≡ q.urls
urls_eq e = ground arith

pub server-IsServing : IsServing web server url_for
unfolding request_part_urls
server-IsServing k n u parts e =
    subst (λ urls. IsNumbered web server url_for n urls) (urls_eq e) (successors-IsNumbered 4 n)

pub server-IsGranting : IsGranting web server
unfolding request_part_urls successors
server-IsGranting k n u parts e = (λ h. absurd (ground arith), ground arith)
