-- ===== src/Sub60Cache/UploadNar/Pieces.antt =====
-- The parts that `upload_nar` of src/sub60_cache.rs uploads make up the NAR.
use cache_action.Base.{ℕ, ◌+◌, ◌≤◌, ◌<◌, ◌≡◌, List, [], ◌∷◌, ◌++◌, length, flatten, ok, err, arith}
use cache_action.Io.{Bytes}
use cache_action.Sub60Cache.{Web}
use cache_action.Sub60Cache.UploadNar.{
  new_part_numbers, Call, parts_requested, part_uploaded, completed,
}

-- All pieces but the last have the size, and the last is not longer, nor empty.
abbrev pub IsCut : ℕ → List Bytes → Type 0
IsCut size [] = Unit {0}
IsCut size (p ∷ []) = (0 < length p) × (length p ≤ size)
IsCut size (p ∷ q ∷ ps) = (length p ≡ size) × IsCut size (q ∷ ps)

pub IsCut-cons :
    (size : ℕ) (p : Bytes) (ps : List Bytes)
    → 0 < size
    → length p ≡ size
    → IsCut size ps
    → IsCut size (p ∷ ps)
IsCut-cons size p [] h e c = (omega arith, omega (arith, e))
IsCut-cons size p (q ∷ ps) h e c = (e, c)

module _ (web : Web) (url_for : ℕ → web.Url) where
  open web use {Etag, UploadId, Basename}

  -- The bytes of the parts that were sent.
  abbrev pub pieces : List (Call web) → List Bytes
  pieces [] = []
  pieces (parts_requested ns ∷ cs) = pieces cs
  pieces (part_uploaded url bytes answer ∷ cs) = bytes ∷ pieces cs
  pieces (completed etags ∷ cs) = pieces cs

  -- The ETags that they got.
  abbrev pub etags_of : List (Call web) → List Etag
  etags_of [] = []
  etags_of (parts_requested ns ∷ cs) = etags_of cs
  etags_of (part_uploaded url bytes (ok etag) ∷ cs) = etag ∷ etags_of cs
  etags_of (part_uploaded url bytes (err e) ∷ cs) = etags_of cs
  etags_of (completed etags ∷ cs) = etags_of cs

  -- The parts from a number on go to the URLs of their numbers, and URLs are asked for from the
  -- number of the next part on.
  abbrev pub IsInOrder : ℕ → List (Call web) → Type 0
  IsInOrder n [] = Unit {0}
  IsInOrder n (parts_requested ns ∷ cs) = (ns ≡ new_part_numbers n) × IsInOrder n cs
  IsInOrder n (part_uploaded url bytes answer ∷ cs) = (url ≡ url_for n) × IsInOrder (n + 1) cs
  IsInOrder n (completed etags ∷ cs) = IsInOrder n cs

  -- What the calls of a run amount to, of which `rest` was not sent.
  pub record Sends (size n : ℕ) (bytes rest : Bytes) (calls : List (Call web)) : Type 0 where
    pub bytes_eq : bytes ≡ flatten (pieces calls) ++ rest
    pub cut : IsCut size (pieces calls)
    pub in_order : IsInOrder n calls
