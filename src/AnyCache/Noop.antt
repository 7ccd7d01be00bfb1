-- ===== src/AnyCache/Noop.antt =====
-- `NoopCache` of src/noop_cache.rs: it has no NARInfo and keeps nothing.
use cache_action.Base.{ℕ, ◌%◌, ◌^◌, false, List, Option, none, some, length, Result, ok, err}
use cache_action.Io.{Bytes, IoError, ReadEvent}
use cache_action.AnyCache.{Cache}

-- `.expect("never fails")`
abbrev pub drained : Result ℕ IoError → Option (Result (Unit {0}) ⊥ × Unit {0})
drained (ok n) = some (ok tt, tt)
drained (err e) = none

-- `futures::io::copy` into a sink, and the text of a NARInfo with an empty URL, are parameters.
module _ {Name Target Info : Type 0} (copy : List ReadEvent → Result ℕ IoError)
    (narinfo_text : Info → Bytes) where
  abbrev pub noop_cache : Cache Name Target Info
  noop_cache = record {
    NarUploadState = Unit {0};
    Error = ⊥;
    has_narinfo = λ name. some (ok false);
    initiate_nar_upload = λ path. some (ok tt);
    upload_nar = λ state nar_bytes. drained (copy nar_bytes);
    upload_narinfo = λ name narinfo state. some (ok (length (narinfo_text narinfo) % 2 ^ 64));
  }
