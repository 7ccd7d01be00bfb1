-- ===== src/NixStore.antt =====
-- `NixStore` of src/nix_store.rs over the bindings of the Nix store: what a path's infos and its
-- closure come to. The bindings and the parsers of nix_types are parameters.
pub mod Collects
pub mod WriteNar
mod Tests
use cache_action.Base.{
  ℕ, Bool, true, false, List, [], ◌∷◌, ◌++◌, Option, none, some, map, if◌then◌else◌, Result, ok,
  err, map_err, map_ok, ◌>>=◌,
}
use cache_action.Io.{Bytes}
use cache_action.Protocol.Utf8.{is_utf8}

-- The crate nixb, and the parsers of nix_types. A function that calls back gives what it calls back
-- with, in order.
pub record Bindings : Type 1 where
  pub Error : Type 0
  -- `nixb::store::StorePath`
  pub NixPath : Type 0
  pub PathInfo : Type 0
  pub StoreName : Type 0
  pub Signature : Type 0
  pub ContentAddress : Type 0
  -- `Store::parse_path`, given the text before its trailing NUL.
  pub parse_path : Bytes → Result NixPath Error
  pub query_path_info : NixPath → Result PathInfo Error
  pub get_fs_closure : NixPath → List NixPath × Result (Unit {0}) Error
  pub path_hash : NixPath → Result ℕ Error
  pub path_name : NixPath → Bytes
  pub parse_name : Bytes → Result StoreName Error
  pub with_ca : PathInfo → Result (Option Bytes) Error
  pub parse_ca : Bytes → Result ContentAddress Error
  pub get_deriver : PathInfo → Result (Option NixPath) Error
  pub with_references : PathInfo → Result (List NixPath) Error
  pub with_sigs : PathInfo → Result (List Bytes) Error
  -- `nixb::Error::from_message` of a signature that is not UTF-8.
  pub not_utf8 : Bytes → Error
  pub parse_signature : Bytes → Result Signature Error

-- `StorePath<StoreDir>`, with the text of its directory.
pub record StorePath (StoreName : Type 0) : Type 0 where
  pub store_dir : Bytes
  pub basename : ℕ × StoreName

module _ (nixb : Bindings) where
  open nixb use {
    Error, NixPath, PathInfo, StoreName, Signature, ContentAddress, parse_path, query_path_info,
    get_fs_closure, path_hash, path_name, parse_name, with_ca, parse_ca, get_deriver,
    with_references, with_sigs, not_utf8, parse_signature,
  }

  abbrev pub StoreBasename : Type 0
  StoreBasename = ℕ × StoreName

  -- `StorePathExt::basename`
  unfoldable pub basename : NixPath → Result StoreBasename Error
  basename path = do hash ← path_hash path; name ← parse_name (path_name path); ok (hash, name)

  pub signature_from_bytes : Bytes → Result Signature Error
  signature_from_bytes bytes = if is_utf8 bytes then parse_signature bytes else err (not_utf8 bytes)

  pub get_path_infos : Bytes → Result PathInfo Error
  get_path_infos store_path = do path ← parse_path store_path; query_path_info path

  -- What follows the conversion of a path.
  abbrev pub add_path :
      Bytes
      → List (StorePath StoreName)
      → Result StoreBasename Error
      → Result (List (StorePath StoreName)) Error
  add_path store_dir paths (err e) = err e
  add_path store_dir paths (ok base) =
      ok (paths ++ record { store_dir = store_dir; basename = base } ∷ [])

  -- The closure `push_path` in `store_closure`: after an error the other paths are passed over.
  abbrev pub push_path :
      Bytes
      → Result (List (StorePath StoreName)) Error
      → NixPath
      → Result (List (StorePath StoreName)) Error
  push_path store_dir (err e) path = err e
  push_path store_dir (ok paths) path = add_path store_dir paths (basename path)

  -- Its calls, one for each path of the closure.
  pub push_paths :
      Bytes
      → Result (List (StorePath StoreName)) Error
      → List NixPath
      → Result (List (StorePath StoreName)) Error
  push_paths store_dir res [] = res
  push_paths store_dir res (path ∷ paths) =
      push_paths store_dir (push_path store_dir res path) paths

  -- For a path with its directory and its text.
  pub store_closure : Bytes → Bytes → Result (List (StorePath StoreName)) Error
  unfolding push_paths
  store_closure store_dir store_path = do
    path ← parse_path store_path
    let (paths, closure) = get_fs_closure path
    all ← closure
    push_paths store_dir (ok []) paths

  -- A loop that is left by `ControlFlow::Break` at the first error.
  pub until_break : {A B : Type 0} → (A → Result B Error) → List B → List A → Result (List B) Error
  until_break f done [] = ok done
  until_break f done (a ∷ as_) = elim (f a) [
    | err e ↦ err e
    | ok b ↦ until_break f (done ++ b ∷ []) as_
  ]

  pub references : PathInfo → Result (List StoreBasename) Error
  unfolding until_break basename
  references info = do paths ← with_references info; until_break basename [] paths

  pub signatures : PathInfo → Result (List Signature) Error
  unfolding until_break signature_from_bytes
  signatures info = do all ← with_sigs info; until_break signature_from_bytes [] all

  pub deriver : PathInfo → Result (Option StoreBasename) Error
  unfolding basename
  deriver info = do
    path ← get_deriver info
    elim path [ none ↦ ok none | some p ↦ map_ok some (basename p) ]

  pub content_address : PathInfo → Result (Option ContentAddress) Error
  content_address info = do
    ca ← with_ca info
    elim ca [ none ↦ ok none | some text ↦ map_ok some (parse_ca text) ]
