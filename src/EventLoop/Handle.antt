-- ===== src/EventLoop/Handle.antt =====
-- `handle_store_path` of src/event_loop.rs and what it calls there. The traits `Cache`, `HttpClient`
-- and `Nix` are what a call answers; `order` and `upload_ends` say which futures finish first.
pub mod Upstream
pub mod HashAndCount
pub mod Outcome
pub mod Guarantees
pub mod Pushes
use cache_action.Base.{
  ℕ, zero, suc, ◌+◌, ◌-◌, ◌≤◌, ◌≡◌, ◌==◌, min, Bool, true, false, not, List, [], ◌∷◌, ◌++◌, Option,
  none, some, if◌then◌else◌, Result, ok, err, map_err, map_ok,
}
use cache_action.Io.{Bytes, Writer}
use cache_action.EventLoop.{
  Context, u64_mod, HandlePathError, Handled, check_nar_info_existence, create_nar_upload_id,
  get_path_infos, upload_nar, upload_nar_info, write_nar, write_nar_wrote_zero_bytes,
}
use Upstream.{upstream_caches_have_narinfo}
use HashAndCount.{Sha256, HashAndCountWriter, new, write}

-- The types of other crates that a `NarInfo` holds, the SHA-256 of `sha2`, and the `url` crate.
pub record Externals : Type 1 where
  pub Url : Type 0
  pub HttpError : Type 0
  pub Basename : Type 0
  pub Signature : Type 0
  pub ContentAddress : Type 0
  pub NarUploadState : Type 0
  pub sha256 : Sha256
  pub push_segment : Url → Bytes → Url
  -- The `Display` of `NarInfoFileName`.
  pub narinfo_filename : ℕ → Bytes

module _ (ctx : Context) (ext : Externals) where
  open ctx use {StorePath, hash, CacheError, PathInfosError, WriteNarError}
  open ext use {
    Url, HttpError, Basename, Signature, ContentAddress, NarUploadState, push_segment,
    narinfo_filename, sha256,
  }
  open sha256 use {Sha, Digest, finalize}

  -- `NarInfo<(), StoreDir>`; the compression is always none.
  pub record NarInfo : Type 0 where
    pub store_path : StorePath
    pub file_hash : Digest
    pub file_size : ℕ
    pub nar_hash : Digest
    pub nar_size : ℕ
    pub references : List Basename
    pub deriver : Option Basename
    pub signatures : List Signature
    pub content_address : Option ContentAddress

  -- `Nix::PathInfos`, by what its methods answer.
  pub record PathInfos : Type 0 where
    pub references : Result (List Basename) PathInfosError
    pub deriver : Result (Option Basename) PathInfosError
    pub signatures : Result (List Signature) PathInfosError
    pub content_address : Result (Option ContentAddress) PathInfosError

  -- What the environment answers while one path is handled.
  pub record Answers : Type 0 where
    pub has_narinfo : Result Bool CacheError
    -- Whether the cache answers before the upstream caches do.
    pub cache_first : Bool
    pub http_get : Url → Result ℕ HttpError
    -- The order in which the upstream caches answer.
    pub order : ℕ → ℕ
    pub initiate_nar_upload : Result NarUploadState CacheError
    -- The pipe's writing half, and the buffers that `write_nar` writes.
    pub pipe : Writer
    pub buffers : List Bytes
    pub write_result : Result (Unit {0}) WriteNarError
    -- After how many buffers `upload_nar` ends, with what result.
    pub upload_ends : ℕ
    pub upload_result : Result NarUploadState CacheError
    pub path_infos : Result PathInfos PathInfosError
    pub upload_narinfo : ℕ → NarInfo → NarUploadState → Result ℕ CacheError

  -- `should_push_store_path`, by which of the two futures is ready first.
  pub should_push : Bool → Result Bool CacheError → Bool → Result Bool CacheError
  should_push true (ok true) upstream = ok false
  should_push true (ok false) upstream = ok (not upstream)
  should_push true (err e) upstream = if upstream then ok false else err e
  should_push false cache true = ok false
  should_push false cache false = map_ok not cache

  pub should_push_store_path : Answers → List Url → StorePath → Result Bool CacheError
  unfolding should_push
  should_push_store_path a upstream_caches path = should_push a.cache_first a.has_narinfo (
      upstream_caches_have_narinfo push_segment a.http_get a.order (narinfo_filename (hash path))
        upstream_caches)

  -- The calls that change the cache, with whether the NAR's upload and its source both succeeded.
  pub data Call : Type 0 where
    initiated : StorePath → Call
    nar_upload : Bool → Call
    narinfo_upload : ℕ → NarInfo → NarUploadState → Call

  -- A result, and the calls made for it.
  abbrev pub Traced : Type 0 → Type 0
  Traced A = Result A (HandlePathError ctx) × List Call

  infixl 5 ◌>>=◌ ◌>>◌
  abbrev pub ◌>>=◌ : {A B : Type 0} → Traced A → (A → Traced B) → Traced B
  m >>= f = elim m.0 [ ok a ↦ ((f a).0, m.1 ++ (f a).1) | err e ↦ (err e, m.1) ]

  abbrev pub ◌>>◌ : {B : Type 0} → Traced (Unit {0}) → Traced B → Traced B
  m >> k = m >>= λ _. k

  abbrev pub lift : {A E : Type 0} → (E → HandlePathError ctx) → Result A E → Traced A
  lift f r = (map_err f r, [])

  abbrev call : Call → Traced (Unit {0})
  call c = (ok tt, c ∷ [])

  -- `future::try_join` of the two halves: an error of one ends the other.
  pub join :
      Answers
      → ℕ
      → List Bytes
      → HashAndCountWriter sha256
      → Result (HashAndCountWriter sha256 × NarUploadState) (HandlePathError ctx)
  join a zero (b ∷ bs) w = elim a.upload_result [
    | err e ↦ err (upload_nar e)
    | ok state ↦ join a zero bs (write sha256 w b)
  ]
  join a (suc k) (b ∷ bs) w = join a k bs (write sha256 w b)
  join a k [] w = elim a.upload_result [
    | err e ↦
        (if k == 0
          then err (upload_nar e)
          else elim a.write_result [ err f ↦ err (write_nar f) | ok t ↦ err (upload_nar e) ])
    | ok state ↦ elim a.write_result [ err f ↦ err (write_nar f) | ok t ↦ ok (w, state) ]
  ]

  abbrev pub succeeded : {A E : Type 0} → Result A E → Bool
  succeeded (ok a) = true
  succeeded (err e) = false

  pub stream_nar : Answers → Traced (HashAndCountWriter sha256 × NarUploadState)
  unfolding join
  stream_nar a =
      let r = join a a.upload_ends a.buffers (new sha256 a.pipe) in
      (r, nar_upload (succeeded r) ∷ [])

  -- `NonZeroU64::new(..).ok_or(..)`
  abbrev pub non_zero : ℕ → Result ℕ (HandlePathError ctx)
  non_zero zero = err write_nar_wrote_zero_bytes
  non_zero (suc n) = ok (suc n)

  abbrev pub saturating_add : ℕ → ℕ → ℕ
  saturating_add a b = min (a + b) (u64_mod - 1)

  abbrev narinfo_of :
      StorePath
      → Digest
      → ℕ
      → List Basename
      → Option Basename
      → List Signature
      → Option ContentAddress
      → NarInfo
  narinfo_of path nar_hash nar_size references deriver signatures content_address = record {
    store_path = path;
    file_hash = nar_hash;
    file_size = nar_size;
    nar_hash = nar_hash;
    nar_size = nar_size;
    references = references;
    deriver = deriver;
    signatures = signatures;
    content_address = content_address;
  }

  -- From the count of bytes to the end.
  pub describe :
      Answers → StorePath → HashAndCountWriter sha256 × NarUploadState → Traced (Option ℕ)
  describe a path (writer, state) = do
    nar_size ← (non_zero writer.num_bytes_written, [])
    infos ← lift get_path_infos a.path_infos
    references ← lift get_path_infos infos.references
    deriver ← lift get_path_infos infos.deriver
    signatures ← lift get_path_infos infos.signatures
    content_address ← lift get_path_infos infos.content_address
    let narinfo =
        narinfo_of path (finalize writer.sha) nar_size references deriver signatures content_address
    call (narinfo_upload (hash path) narinfo state)
    narinfo_size ← lift upload_nar_info (a.upload_narinfo (hash path) narinfo state)
    (ok (some (saturating_add nar_size narinfo_size)), [])

  -- What is done for a path that no cache has.
  pub push_path : Answers → StorePath → Traced (Option ℕ)
  unfolding stream_nar describe
  push_path a path = do
    call (initiated path)
    state ← lift create_nar_upload_id a.initiate_nar_upload
    streamed ← stream_nar a
    describe a path streamed

  unfoldable pub handle_store_path : Answers → List Url → StorePath → Traced (Option ℕ)
  unfolding should_push_store_path push_path
  handle_store_path a upstream_caches path = do
    push ← lift check_nar_info_existence (should_push_store_path a upstream_caches path)
    if push then push_path a path else (ok none, [])
