-- ===== src/NixStore/Tests.antt =====
-- src/nix_store.rs at a concrete input.
use cache_action.Base.{arith, true, ℕ, ◌≡◌, refl, [], ◌∷◌, none, ok, err, length, map_ok, map}
use cache_action.Io.{Bytes, invalid_data}
use cache_action.Protocol.Utf8.{is_utf8}
use cache_action.NixStore.{
  Bindings, basename, signature_from_bytes, store_closure, references, signatures,
}
use cache_action.NixStore.WriteNar.{
  Node, directory, entry, no_more, file, symlink, special, write_nar, open_directory,
  close_directory, open_entry, write_symlink, write_file,
}
use cache_action.NixStore.WriteNar.Order.{listed, swap, write_nar-Same}
use cache_action.NixStore.Collects.{traverse, in_dir, store_closure-traverse}

-- Paths are numbers; each path's closure is itself and the path before it, and path 9 has no name.
abbrev nixb : Bindings
nixb = record {
  Error = ℕ;
  NixPath = ℕ;
  PathInfo = ℕ;
  StoreName = Bytes;
  Signature = Bytes;
  ContentAddress = Bytes;
  parse_path = λ text. ok (length text);
  query_path_info = λ path. ok path;
  get_fs_closure = λ path. (path ∷ 1 ∷ [], ok tt);
  path_hash = λ path. ok path;
  path_name = λ path. path ∷ [];
  parse_name = λ text. ok text;
  with_ca = λ info. ok none;
  parse_ca = λ text. ok text;
  get_deriver = λ info. ok none;
  with_references = λ info. ok (info ∷ []);
  with_sigs = λ info. ok ((97 ∷ []) ∷ (255 ∷ []) ∷ []);
  not_utf8 = λ bytes. 3;
  parse_signature = λ text. ok text;
}

closure_run :
    store_closure nixb (47 ∷ []) (47 ∷ 97 ∷ [])
    ≡ ok (
        record { store_dir = 47 ∷ []; basename = (2, 2 ∷ []) }
        ∷ record { store_dir = 47 ∷ []; basename = (1, 1 ∷ []) }
        ∷ [])
unfolding store_closure basename
closure_run = refl

signatures_run : signatures nixb 1 ≡ err 3
unfolding signatures is_utf8
signatures_run = refl

store_closure-traverse_example :
    ((store_dir store_path : Bytes)
      → store_closure nixb store_dir store_path
        ≡ map_ok
            (map (in_dir nixb store_dir))
            (traverse (basename nixb) (length store_path ∷ 1 ∷ [])))
    × ((info : ℕ) → references nixb info ≡ traverse (basename nixb) (info ∷ []))
    × ((info : ℕ)
        → signatures nixb info ≡ traverse (signature_from_bytes nixb) ((97 ∷ []) ∷ (255 ∷ []) ∷ []))
store_closure-traverse_example = store_closure-traverse nixb

-- A directory with a file and a link, listed in two orders.
abbrev tree : Node
tree =
    directory
      (entry (98 ∷ []) (file true (1 ∷ [])) (entry (97 ∷ 98 ∷ []) (symlink (47 ∷ [])) no_more))

abbrev tree_again : Node
tree_again =
    directory
      (entry (97 ∷ 98 ∷ []) (symlink (47 ∷ [])) (entry (98 ∷ []) (file true (1 ∷ [])) no_more))

nar_run : write_nar tree ≡ (
  ok tt,
  open_directory
      ∷ open_entry (97 ∷ 98 ∷ [])
      ∷ write_symlink (47 ∷ [])
      ∷ open_entry (98 ∷ [])
      ∷ write_file true (1 ∷ [])
      ∷ close_directory
      ∷ [],
)
unfolding write_nar
nar_run = refl

special_run :
    write_nar (directory (entry (97 ∷ []) special no_more))
    ≡ (err invalid_data, open_directory ∷ open_entry (97 ∷ []) ∷ [])
unfolding write_nar
special_run = refl

write_nar-Same_example : write_nar tree ≡ write_nar tree_again
write_nar-Same_example =
    write_nar-Same (listed (swap (98 ∷ []) (97 ∷ 98 ∷ []) _ _ _ (λ e. absurd (ground arith))))
