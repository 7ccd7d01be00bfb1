-- ===== src/Sub60Cache/Connect/Tests.antt =====
-- Connecting to the Sub60 cache at concrete inputs: runs, and the property.
use cache_action.Base.{◌≡◌, refl, List, [], ◌∷◌, ◌++◌, ℕ, ok, err, ◌==◌}
use cache_action.Io.{Bytes}
use cache_action.Sub60Cache.{Web, Send}
use cache_action.Sub60Cache.Connect.{Sub60CacheRunArgs, connect, build_http_client}
use cache_action.Sub60Cache.Connect.Routes.{Endpoint, narinfo_upload}
use cache_action.Sub60Cache.Connect.Routed.{Urls, Routed, connect-Routed}

-- A URL is its segments and the pairs of its query.
abbrev web : Web
web = record {
  Url = List Bytes × List (Bytes × Bytes);
  HttpError = ℕ;
  HeaderError = Unit {0};
  Etag = Bytes;
  EtagError = Unit {0};
  MultipartsError = Unit {0};
  PartsError = Unit {0};
  UploadId = Bytes;
  Basename = Bytes;
  push_segment = λ url segment. (url.0 ++ segment ∷ [], url.1);
  append_pair = λ url key value. (url.0, url.1 ++ (key, value) ∷ []);
  id_text = λ id. id;
  basename_text = λ basename. basename;
  parts_body = λ numbers basename. numbers;
  complete_body = λ etags basename. basename;
  parse_etag = λ text. ok text;
  parse_multiparts = λ text. err tt;
  parse_parts = λ text. err tt;
  is_success = λ status. status == 200;
  unreadable = λ e. [];
}

abbrev urls : Urls web
urls = record {
  segments = λ url. url.0;
  query = λ url. url.1;
  segments-push = λ url segment plain. refl;
  query-push = λ url segment. refl;
  segments-append = λ url key value. refl;
  query-append = λ url key value. refl;
}

abbrev base : List Bytes × List (Bytes × Bytes)
base = ([], [])

abbrev unreachable : Send web
unreachable request = err 7

abbrev args : Sub60CacheRunArgs
args = record { user = b'm' ∷ b'e' ∷ []; cache = b'c' ∷ []; auth_token = b't' ∷ [] }

connect_run :
    connect web base (ok unreachable) args
    ≡ ok (record { cache_url = ((b'm' ∷ b'e' ∷ []) ∷ (b'c' ∷ []) ∷ [], []); client = unreachable })
unfolding connect
connect_run = refl

connect_fails : connect web base (err 3) args ≡ err (build_http_client 3)
unfolding connect
connect_fails = refl

abbrev upload : Endpoint Bytes
upload = narinfo_upload (b'a' ∷ b'.' ∷ b'n' ∷ []) (b'7' ∷ [])

connect-Routed_example :
    Routed web urls (ok unreachable) args upload (connect web base (ok unreachable) args)
connect-Routed_example =
    connect-Routed web urls base (ok unreachable) args upload (refl, refl) refl refl refl
