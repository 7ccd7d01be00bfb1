-- ===== src/NixStore/Collects.antt =====
-- The three loops of src/nix_store.rs that collect what the bindings call back with.
use cache_action.Base.{
  ℕ, ◌≡◌, refl, ap, ◌∙◌, List, [], ◌∷◌, ◌++◌, map, Result, ok, err, map_ok, ◌>>=◌, append-nil,
  append_assoc, Result-cases, inl, inr, sym,
}
use cache_action.Io.{Bytes}
use cache_action.NixStore.{
  Bindings, StorePath, basename, signature_from_bytes, add_path, push_paths, store_closure,
  until_break, references, signatures,
}

-- All results, or the first error.
abbrev pub traverse : {A B E : Type 0} → (A → Result B E) → List A → Result (List B) E
traverse f [] = ok []
traverse f (x ∷ xs) = f x >>= λ b. map_ok (λ bs. b ∷ bs) (traverse f xs)

map_ok-map_ok :
    {A B C E : Type 0} (f : A → B) (g : B → C) (r : Result A E)
    → map_ok g (map_ok f r) ≡ map_ok (λ a. g (f a)) r
map_ok-map_ok f g (ok a) = refl
map_ok-map_ok f g (err e) = refl

map_ok_eq :
    {A B E : Type 0} {f g : A → B}
    → ((a : A) → f a ≡ g a)
    → (r : Result A E) → map_ok f r ≡ map_ok g r
map_ok_eq h (ok a) = ap ok (h a)
map_ok_eq h (err e) = refl

map_ok_id : {A E : Type 0} (f : A → A) → ((a : A) → f a ≡ a) → (r : Result A E) → map_ok f r ≡ r
map_ok_id f h (ok a) = ap ok (h a)
map_ok_id f h (err e) = refl

module _ (nixb : Bindings) where
  open nixb use {
    Error, NixPath, PathInfo, StoreName, parse_path, get_fs_closure, with_references, with_sigs,
  }

  until_break-traverse :
      {A B : Type 0} (f : A → Result B Error) (done : List B) (xs : List A)
      → until_break nixb f done xs ≡ map_ok (λ bs. done ++ bs) (traverse f xs)
  unfolding until_break
  until_break-traverse f done [] = ap ok (sym (append-nil done))
  until_break-traverse f done (x ∷ xs) = elim (Result-cases (f x)) [
    | inr (e, failed) ↦ rw (failed, until_break) refl
    | inl (b, found) ↦
        rw (found, until_break)
          (until_break-traverse f (done ++ b ∷ []) xs
            ∙ map_ok_eq (λ bs. append_assoc done (b ∷ []) bs) (traverse f xs)
            ∙ sym (map_ok-map_ok (λ bs. b ∷ bs) (λ bs. done ++ bs) (traverse f xs)))
  ]

  -- The path of the base name in the directory.
  abbrev pub in_dir : Bytes → ℕ × StoreName → StorePath StoreName
  in_dir store_dir base = record { store_dir = store_dir; basename = base }

  push_paths_err :
      (store_dir : Bytes) (e : Error) (paths : List NixPath)
      → push_paths nixb store_dir (err e) paths ≡ err e
  unfolding push_paths
  push_paths_err store_dir e [] = refl
  push_paths_err store_dir e (p ∷ ps) = push_paths_err store_dir e ps

  add_path-traverse :
      (store_dir : Bytes) (done : List (StorePath StoreName)) (paths : List NixPath)
      → ((more : List (StorePath StoreName))
          → push_paths nixb store_dir (ok more) paths
            ≡ map_ok (λ bs. more ++ map (in_dir store_dir) bs) (traverse (basename nixb) paths))
      → (r : Result (ℕ × StoreName) Error)
      → push_paths nixb store_dir (add_path nixb store_dir done r) paths
        ≡ map_ok
            (λ bs. done ++ map (in_dir store_dir) bs)
            (r >>= λ b. map_ok (λ bs. b ∷ bs) (traverse (basename nixb) paths))
  add_path-traverse store_dir done paths ih (err e) = push_paths_err store_dir e paths
  add_path-traverse store_dir done paths ih (ok b) =
      ih (done ++ in_dir store_dir b ∷ [])
      ∙ map_ok_eq (λ bs. append_assoc done (in_dir store_dir b ∷ []) (map (in_dir store_dir) bs))
          (traverse (basename nixb) paths)
      ∙ sym (
          map_ok-map_ok (λ bs. b ∷ bs) (λ bs. done ++ map (in_dir store_dir) bs)
            (traverse (basename nixb) paths))

  push_paths-traverse :
      (store_dir : Bytes) (done : List (StorePath StoreName)) (paths : List NixPath)
      → push_paths nixb store_dir (ok done) paths
        ≡ map_ok (λ bs. done ++ map (in_dir store_dir) bs) (traverse (basename nixb) paths)
  unfolding push_paths
  push_paths-traverse store_dir done [] = ap ok (sym (append-nil done))
  push_paths-traverse store_dir done (p ∷ ps) =
      add_path-traverse store_dir done ps (λ more. push_paths-traverse store_dir more ps)
        (basename nixb p)

  -- The closure of a path, the references and the signatures are what the store called back with,
  -- each converted and in order, or else the first error: of the store itself, which comes before any
  -- of a conversion, or of the first conversion that fails. That `store_closure` goes on to the end
  -- after an error and the other two break off makes no difference.
  pub store_closure-traverse :
      ((store_dir store_path : Bytes)
        → store_closure nixb store_dir store_path ≡ (
            parse_path store_path >>= λ path. (get_fs_closure path).1 >>= λ all.
            map_ok (map (in_dir store_dir)) (traverse (basename nixb) (get_fs_closure path).0)))
      × ((info : PathInfo)
          → references nixb info ≡ (with_references info >>= traverse (basename nixb)))
      × ((info : PathInfo)
          → signatures nixb info ≡ (with_sigs info >>= traverse (signature_from_bytes nixb)))
  unfolding store_closure references signatures
  store_closure-traverse = (
    λ store_dir store_path. elim (Result-cases (parse_path store_path)) [
      | inr (e, failed) ↦ rw failed refl
      | inl (path, parsed) ↦ elim (Result-cases (get_fs_closure path).1) [
        | inr (e, failed) ↦ rw (parsed, failed) refl
        | inl (t, whole) ↦
            rw (parsed, whole) (push_paths-traverse store_dir [] (get_fs_closure path).0)
      ]
    ],
    λ info. elim (Result-cases (with_references info)) [
      | inr (e, failed) ↦ rw failed refl
      | inl (paths, found) ↦ rw found (
          until_break-traverse (basename nixb) [] paths
          ∙ map_ok_id (λ bs. [] ++ bs) (λ bs. refl) (traverse (basename nixb) paths))
    ],
    λ info. elim (Result-cases (with_sigs info)) [
      | inr (e, failed) ↦ rw failed refl
      | inl (sigs, found) ↦ rw found (
          until_break-traverse (signature_from_bytes nixb) [] sigs
          ∙ map_ok_id (λ bs. [] ++ bs) (λ bs. refl) (traverse (signature_from_bytes nixb) sigs))
    ],
  )
