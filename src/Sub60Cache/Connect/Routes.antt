-- ===== src/Sub60Cache/Connect/Routes.antt =====
-- What a server can read off the URL of a request of src/sub60_cache.rs: the user, the cache and what
-- the request is for.
use cache_action.Base.{
  ltb, Bool, true, false, not, ◌&&◌, List, [], ◌∷◌, Option, none, some, ◌==◌, if◌then◌else◌,
}
use cache_action.Io.{Bytes}

abbrev pub is_same : Bytes → Bytes → Bool
is_same [] [] = true
is_same [] (b ∷ t) = false
is_same (a ∷ s) [] = false
is_same (a ∷ s) (b ∷ t) = let rest = is_same s t in if a == b then rest else false

abbrev pub multiparts_segment : Bytes
multiparts_segment =
    b'n' ∷ b'a' ∷ b'r' ∷ b'-' ∷ b'm' ∷ b'u' ∷ b'l' ∷ b't' ∷ b'i' ∷ b'p' ∷ b'a' ∷ b'r' ∷ b't' ∷ b's'
    ∷ []

abbrev pub parts_segment : Bytes
parts_segment = b'p' ∷ b'a' ∷ b'r' ∷ b't' ∷ b's' ∷ []

abbrev pub complete_segment : Bytes
complete_segment = b'c' ∷ b'o' ∷ b'm' ∷ b'p' ∷ b'l' ∷ b'e' ∷ b't' ∷ b'e' ∷ []

abbrev pub upload_id_key : Bytes
upload_id_key = b'u' ∷ b'p' ∷ b'l' ∷ b'o' ∷ b'a' ∷ b'd' ∷ b'_' ∷ b'i' ∷ b'd' ∷ []

-- Neither a blank nor a control character is in a text.
abbrev is_visible : Bytes → Bool
is_visible [] = true
is_visible (b ∷ s) = let rest = is_visible s in ltb b' ' b && rest

-- A segment that `push` of the url crate takes as it is: not empty, nor one or two dots, with nothing in
-- it that the crate trims or passes over.
abbrev pub is_plain : Bytes → Bool
is_plain [] = false
is_plain (a ∷ s) =
    is_visible (a ∷ s)
    && not (is_same (a ∷ s) (b'.' ∷ []))
    && not (is_same (a ∷ s) (b'.' ∷ b'.' ∷ []))

-- What a request is for.
pub data Endpoint (UploadRef : Type 0) : Type 0 where
  narinfo : Bytes → Endpoint UploadRef
  narinfo_upload : Bytes → UploadRef → Endpoint UploadRef
  nar_multiparts : Endpoint UploadRef
  parts : UploadRef → Endpoint UploadRef
  complete : UploadRef → Endpoint UploadRef

abbrev pub map_id : {I J : Type 0} → (I → J) → Endpoint I → Endpoint J
map_id f (narinfo name) = narinfo name
map_id f (narinfo_upload name id) = narinfo_upload name (f id)
map_id f nar_multiparts = nar_multiparts
map_id f (parts id) = parts (f id)
map_id f (complete id) = complete (f id)

-- How a server reads the segments of a path and the pairs of a query.
unfoldable pub route : List Bytes → List (Bytes × Bytes) → Option (Bytes × Bytes × Endpoint Bytes)
route (user ∷ cache ∷ name ∷ []) [] =
    some (user, cache, (if is_same name multiparts_segment then nar_multiparts else narinfo name))
route (user ∷ cache ∷ name ∷ []) ((key, id) ∷ []) =
    if is_same key upload_id_key then some (user, cache, narinfo_upload name id) else none
route (user ∷ cache ∷ name ∷ id ∷ last ∷ []) [] =
    if is_same name multiparts_segment
    then if is_same last parts_segment
      then some (user, cache, parts id)
      else if is_same last complete_segment
      then some (user, cache, complete id)
      else none
    else none
route segments query = none
