-- ===== src/Run.antt =====
-- src/run.rs: how the daemon starts, what it tells the process that started it, and the list of
-- upstream caches that it is given. What binding, opening and connecting answer are parameters.
pub mod Texts
pub mod Caches
pub mod Ready
pub mod Streams
mod Tests
use cache_action.Base.{
  ℕ, Bool, true, false, not, List, [], ◌∷◌, ◌++◌, Option, none, some, ◌==◌, if◌then◌else◌, Result,
  ok, err, map_err, map_ok, ◌>>=◌,
}
use cache_action.Io.{Bytes}

pub data StartError (BindError StoreError CacheError : Type 0) : Type 0 where
  bind_socket : BindError → StartError BindError StoreError CacheError
  connect_to_cache : CacheError → StartError BindError StoreError CacheError
  open_nix_store : StoreError → StartError BindError StoreError CacheError

module _ {Listener Store Cache BindError StoreError CacheError : Type 0} where
  -- `start`, up to the future that it returns: the parts of the event loop, in order.
  unfoldable pub start :
      Result Listener BindError
      → Result Store StoreError
      → Result Cache CacheError
      → Result (Listener × Store × Cache) (StartError BindError StoreError CacheError)
  start bind open_store connect = do
    listener ← map_err bind_socket bind
    nix_store ← map_err open_nix_store open_store
    cache ← map_err connect_to_cache connect
    ok (listener, nix_store, cache)

abbrev pub comma : ℕ
comma = 44

-- The first piece of a split gets a byte.
abbrev cons_first : ℕ → List Bytes → List Bytes
cons_first b [] = (b ∷ []) ∷ []
cons_first b (piece ∷ pieces) = (b ∷ piece) ∷ pieces

-- `value.split(',')`
pub split : Bytes → List Bytes
split [] = [] ∷ []
split (b ∷ s) = let pieces = split s in if b == comma then [] ∷ pieces else cons_first b pieces

-- `filter(|value| !value.is_empty())`
abbrev pub without_empty : List Bytes → List Bytes
without_empty [] = []
without_empty ([] ∷ pieces) = without_empty pieces
without_empty ((b ∷ piece) ∷ pieces) = (b ∷ piece) ∷ without_empty pieces

module _ {Url ParseError : Type 0} (parse : Bytes → Result Url ParseError) where
  -- `map(str::parse).collect()`
  abbrev pub collect : List Bytes → Result (List Url) ParseError
  collect [] = ok []
  collect (piece ∷ pieces) = do url ← parse piece; urls ← collect pieces; ok (url ∷ urls)

  pub parse_upstream_caches : Bytes → Result (List Url) ParseError
  unfolding split
  parse_upstream_caches value = collect (without_empty (split value))
