-- ===== src/Sub60Cache/Tests.antt =====
-- The Sub60 cache's client of src/sub60_cache.rs at concrete inputs: runs, and its properties.
use cache_action.Base.{
  replicate, ℕ, ◌≡◌, refl, true, List, [], ◌∷◌, none, some, Result, ok, err, arith, map_err, map_ok,
  false,
}
use cache_action.Io.{Bytes}
use cache_action.Io.{write_on}
use cache_action.EventLoop.Samples.{context, externals, path_infos}
use cache_action.EventLoop.Handle.{
  Answers, NarInfo, initiated, nar_upload, narinfo_upload, handle_store_path,
}
use cache_action.EventLoop.Handle.HashAndCount.{write, new}
use cache_action.EventLoop.Handle.Upstream.{upstream_caches_have_narinfo}
use cache_action.Sub60Cache.Pushed.{IsPiped, Stored, handle_store_path-Stored}
use cache_action.AsyncReadExt.{try_fill}
use cache_action.AsyncReadExt.Fills.{Fills, try_fill-Fills}
use cache_action.Sub60Cache.{CacheRequestError, Response, put}
use cache_action.Sub60Cache.Samples.{
  web, url_for, echo, server, state, nar, server-IsServing, server-IsGranting,
}
use cache_action.Sub60Cache.Quoted.{from_str}
use cache_action.Sub60Cache.Requests.{request_part_urls, upload_part, complete_nar_upload}
use cache_action.Sub60Cache.Requests.Answers.{Accepts, upload_part-Accepts}
use cache_action.Sub60Cache.UploadNar.{
  successors, Environment, Call, parts_requested, part_uploaded, completed, upload_nar, start,
}
use cache_action.Sub60Cache.UploadNar.Finishes.{IsLate, calls_in, upload_nar_starves}

-- The same server, for a client whose clock is far ahead.
abbrev late_server : Environment web
late_server = record server { now = λ k. 1000000000000 }

-- The second part needs new URLs, and the third is a short one.
upload_run :
    upload_nar web server 12 state nar
    ≡ some (
      ok tt,
      part_uploaded (1 ∷ []) (1 ∷ 2 ∷ []) (ok (7 ∷ []))
          ∷ parts_requested (2 ∷ 3 ∷ 4 ∷ 5 ∷ [])
          ∷ part_uploaded (2 ∷ []) (3 ∷ 4 ∷ []) (ok (7 ∷ []))
          ∷ part_uploaded (3 ∷ []) (5 ∷ []) (ok (7 ∷ []))
          ∷ completed ((7 ∷ []) ∷ (7 ∷ []) ∷ (7 ∷ []) ∷ [])
          ∷ [],
    )
unfolding upload_nar successors try_fill request_part_urls upload_part complete_nar_upload
upload_run = refl

server-IsLate : IsLate web late_server state
unfolding request_part_urls
server-IsLate = record { at_start = omega arith; answers = λ k n u. (_, refl, omega arith) }

upload_nar_starves_example :
    (upload_nar web late_server 1000 state nar ≡ none)
    × (calls_in web late_server 1000 0 (start web late_server state nar)
        ≡ some (replicate 1000 (parts_requested (1 ∷ 2 ∷ 3 ∷ 4 ∷ []))))
unfolding successors
upload_nar_starves_example = upload_nar_starves web late_server state nar 1000 server-IsLate

try_fill-Fills_example :
    (r : _) × (try_fill nar (0 ∷ 0 ∷ 0 ∷ []) ≡ some r) × Fills nar (0 ∷ 0 ∷ 0 ∷ []) r
try_fill-Fills_example = try_fill-Fills nar (0 ∷ 0 ∷ 0 ∷ []) tt

abbrev parse_text : Bytes → Result Bytes (Unit {0})
parse_text [] = err tt
parse_text (b ∷ s) = ok (b ∷ s)

quoted_run : from_str parse_text (34 ∷ 5 ∷ 34 ∷ []) ≡ ok (5 ∷ [])
unfolding from_str
quoted_run = refl

upload_part_run : upload_part web echo (1 ∷ []) (9 ∷ []) ≡ ok (7 ∷ [])
unfolding upload_part
upload_part_run = refl

upload_part-Accepts_example :
    (response : Response ℕ (Unit {0})) × (echo
        (record { method = put; url = 1 ∷ []; body = 9 ∷ [] })
      ≡ ok response)
    × Accepts web response (7 ∷ [])
upload_part-Accepts_example =
    upload_part-Accepts web echo (1 ∷ []) (9 ∷ []) (7 ∷ []) upload_part_run

-- A store that writes the same five bytes into the pipe, and a cache that answers as the upload does.
abbrev answers : Answers context externals
answers = record {
  has_narinfo = ok false;
  cache_first = true;
  http_get = λ url. ok 404;
  order = λ n. n;
  initiate_nar_upload = ok 6;
  pipe = record { polls = []; output = []; closed = false };
  buffers = (1 ∷ 2 ∷ []) ∷ (3 ∷ 4 ∷ 5 ∷ []) ∷ [];
  write_result = ok tt;
  upload_ends = 2;
  upload_result = ok 6;
  path_infos = ok path_infos;
  upload_narinfo = λ hash n state. ok 100;
}

abbrev narinfo : NarInfo context externals
narinfo = record {
  store_path = 3;
  file_hash = 1 ∷ 2 ∷ 3 ∷ 4 ∷ 5 ∷ [];
  file_size = 5;
  nar_hash = 1 ∷ 2 ∷ 3 ∷ 4 ∷ 5 ∷ [];
  nar_size = 5;
  references = 8 ∷ 9 ∷ [];
  deriver = none;
  signatures = 6 ∷ [];
  content_address = none;
}

push_run :
    (handle_store_path context externals answers [] 3).1
    ≡ initiated 3 ∷ nar_upload true ∷ narinfo_upload 3 narinfo 6 ∷ []
unfolding handle_store_path write upstream_caches_have_narinfo new write_on
push_run = refl

upload_result_eq :
    (r : Result (Unit {0}) (CacheRequestError web) × List (Call web))
    → upload_nar web server 12 state nar ≡ some r
    → ◌≡◌ {A = Result ℕ ℕ} (ok 6) (map_err (λ e. 0) (map_ok (λ u. 6) r.0))
upload_result_eq r e = ground (arith, upload_run, e)

server-IsPiped :
    IsPiped context externals answers [] 3 web server url_for server-IsServing server-IsGranting
      state nar 12
unfolding write new write_on
server-IsPiped = record {
  to_error = λ e. 0;
  upload_state = 6;
  some_room = omega arith;
  stream = tt;
  numbered = (refl, tt);
  enough = omega arith;
  piped_eq = refl;
  result_eq = upload_result_eq;
}

handle_store_path-Stored_example :
    Stored context externals answers [] 3 web server url_for server-IsServing server-IsGranting
      state nar 12 narinfo
handle_store_path-Stored_example =
    handle_store_path-Stored context externals answers [] 3 web server url_for server-IsServing
      server-IsGranting state nar 12 narinfo 6 server-IsPiped push_run
