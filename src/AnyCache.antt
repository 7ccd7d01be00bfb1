-- ===== src/AnyCache.antt =====
-- src/any_cache.rs and src/noop_cache.rs: a cache that is chosen when the daemon starts. The trait
-- `Cache` of src/context.rs is a record of operations; an operation that panics gives `none`.
pub mod Noop
pub mod Texts
pub mod Session
mod Tests
use cache_action.Base.{ℕ, Bool, List, Option, none, some, map, Result, ok, err, map_err, map_ok}
use cache_action.Io.{Bytes, ReadEvent}
use mathlib.Core.Option

-- `Cache`. `Name` stands for the file name of a NARInfo, `Target` for a store path, and `Info` for a
-- NARInfo; `upload_nar` gives the state that it leaves.
pub record Cache (Name Target Info : Type 0) : Type 1 where
  pub NarUploadState : Type 0
  pub Error : Type 0
  pub has_narinfo : Name → Option (Result Bool Error)
  pub initiate_nar_upload : Target → Option (Result NarUploadState Error)
  pub upload_nar :
      NarUploadState → List ReadEvent → Option (Result (Unit {0}) Error × NarUploadState)
  pub upload_narinfo : Name → Info → NarUploadState → Option (Result ℕ Error)

-- `AnyCacheKind`, which is also the variant of an `AnyCache` without its cache.
pub data AnyCacheKind : Type 0 where
  noop sub60 : AnyCacheKind

-- `AnyCache`, for any Sub60 cache.
pub data AnyCache (S : Type 0) : Type 0 where
  chosen_noop : AnyCache S
  chosen_sub60 : S → AnyCache S

-- `AnyCache::new`, for what connecting to the Sub60 cache gives if that is called.
pub new : {S E : Type 0} → AnyCacheKind → (Unit {0} → Result S E) → Result (AnyCache S) E
new noop connect = ok chosen_noop
new sub60 connect = map_ok chosen_sub60 (connect tt)

pub data AnyCacheNarUploadState (N S : Type 0) : Type 0 where
  noop_state : N → AnyCacheNarUploadState N S
  sub60_state : S → AnyCacheNarUploadState N S

pub data AnyCacheError (N S : Type 0) : Type 0 where
  noop_error : N → AnyCacheError N S
  sub60_error : S → AnyCacheError N S

-- `.await.map_err(Into::into)`, and the same where the result is mapped too.
abbrev pub into_err : {A E F : Type 0} → (E → F) → Option (Result A E) → Option (Result A F)
into_err f none = none
into_err f (some r) = some (map_err f r)

abbrev pub into_both :
    {A B E F : Type 0} → (A → B) → (E → F) → Option (Result A E) → Option (Result B F)
into_both g f none = none
into_both g f (some r) = some (map_err f (map_ok g r))

abbrev pub into_state :
    {S T E F : Type 0}
    → (S → T)
    → (E → F)
    → Option (Result (Unit {0}) E × S)
    → Option (Result (Unit {0}) F × T)
into_state g f none = none
into_state g f (some (r, s)) = some (map_err f r, g s)

module _ {Name Target Info : Type 0} (noop_cache sub60_cache : Cache Name Target Info) where
  abbrev pub AnyState : Type 0
  AnyState = AnyCacheNarUploadState noop_cache.NarUploadState sub60_cache.NarUploadState

  abbrev pub AnyError : Type 0
  AnyError = AnyCacheError noop_cache.Error sub60_cache.Error

  unfoldable pub has_narinfo : AnyCacheKind → Name → Option (Result Bool AnyError)
  has_narinfo noop name = into_err noop_error (noop_cache.has_narinfo name)
  has_narinfo sub60 name = into_err sub60_error (sub60_cache.has_narinfo name)

  unfoldable pub initiate_nar_upload : AnyCacheKind → Target → Option (Result AnyState AnyError)
  initiate_nar_upload noop path =
      into_both noop_state noop_error (noop_cache.initiate_nar_upload path)
  initiate_nar_upload sub60 path =
      into_both sub60_state sub60_error (sub60_cache.initiate_nar_upload path)

  unfoldable pub upload_nar :
      AnyCacheKind → AnyState → List ReadEvent → Option (Result (Unit {0}) AnyError × AnyState)
  upload_nar noop (noop_state state) nar_bytes =
      into_state noop_state noop_error (noop_cache.upload_nar state nar_bytes)
  upload_nar sub60 (sub60_state state) nar_bytes =
      into_state sub60_state sub60_error (sub60_cache.upload_nar state nar_bytes)
  upload_nar noop (sub60_state state) nar_bytes = none
  upload_nar sub60 (noop_state state) nar_bytes = none

  pub upload_narinfo : AnyCacheKind → Name → Info → AnyState → Option (Result ℕ AnyError)
  upload_narinfo noop name narinfo (noop_state state) =
      into_err noop_error (noop_cache.upload_narinfo name narinfo state)
  upload_narinfo sub60 name narinfo (sub60_state state) =
      into_err sub60_error (sub60_cache.upload_narinfo name narinfo state)
  upload_narinfo noop name narinfo (sub60_state state) = none
  upload_narinfo sub60 name narinfo (noop_state state) = none

  -- `AnyCache` of a kind, as a `Cache`.
  abbrev pub any_cache : AnyCacheKind → Cache Name Target Info
  any_cache kind = record {
    NarUploadState = AnyState;
    Error = AnyError;
    has_narinfo = has_narinfo kind;
    initiate_nar_upload = initiate_nar_upload kind;
    upload_nar = upload_nar kind;
    upload_narinfo = upload_narinfo kind;
  }
