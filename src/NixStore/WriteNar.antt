-- ===== src/NixStore/WriteNar.antt =====
-- `write_nar` and `read_dir_entries` of src/nix_store.rs, over a tree of files. What is written is the
-- list of calls on nix_compat's NAR writer, which take what they are given.
pub mod Names
pub mod Order
use cache_action.Base.{
  ℕ, Bool, true, false, ◌&&◌, ◌||◌, List, [], ◌∷◌, ◌++◌, ltb, ◌==◌, if◌then◌else◌, Result, ok, err,
}
use cache_action.Io.{Bytes, IoError, invalid_data}

-- What stands at a path: `unknown` if its metadata cannot be read, or its target, or if it cannot be
-- opened; `unlisted` is a directory whose entries cannot be read.
mutual
  pub data Node : Type 0 where
    directory : Entries → Node
    unlisted : IoError → Node
    symlink : Bytes → Node
    file : Bool → Bytes → Node
    special : Node
    unknown : IoError → Node

  -- In the order in which the file system gives them.
  pub data Entries : Type 0 where
    no_more : Entries
    entry : Bytes → Node → Entries → Entries

pub data NarCall : Type 0 where
  open_directory close_directory : NarCall
  open_entry : Bytes → NarCall
  write_symlink : Bytes → NarCall
  write_file : Bool → Bytes → NarCall

-- The result, and the calls that were made.
abbrev pub Output : Type 0
Output = Result (Unit {0}) IoError × List NarCall

abbrev pub Named : Type 0
Named = Bytes × Output

-- The order of `OsString`s: byte by byte.
pub le_name : Bytes → Bytes → Bool
le_name [] t = true
le_name (b ∷ s) [] = false
le_name (b ∷ s) (c ∷ t) = ltb b c || (b == c && le_name s t)

-- `file_names.sort()`, with what is written for each name.
pub insert : Named → List Named → List Named
unfolding le_name
insert x [] = x ∷ []
insert x (y ∷ ys) = let rest = insert x ys in if le_name x.0 y.0 then x ∷ y ∷ ys else y ∷ rest

pub sort : List Named → List Named
unfolding insert
sort [] = []
sort (x ∷ xs) = insert x (sort xs)

-- The loop over the sorted names, up to the first child that fails.
abbrev pub write_children : List Named → Output
write_children [] = (ok tt, [])
write_children ((name, (err e, calls)) ∷ xs) = (err e, open_entry name ∷ calls)
write_children ((name, (ok t, calls)) ∷ xs) =
    ((write_children xs).0, open_entry name ∷ (calls ++ (write_children xs).1))

-- A directory is closed only after all of its children.
abbrev pub enclosed : Output → Output
enclosed (ok t, calls) = (ok tt, open_directory ∷ (calls ++ close_directory ∷ []))
enclosed (err e, calls) = (err e, open_directory ∷ calls)

unfoldable mutual
  unfolding sort

  pub write_nar : Node → Output
  write_nar (directory es) = enclosed (write_children (sort (outputs es)))
  write_nar (unlisted e) = (err e, open_directory ∷ [])
  write_nar (symlink target) = (ok tt, write_symlink target ∷ [])
  write_nar (file executable contents) = (ok tt, write_file executable contents ∷ [])
  write_nar special = (err invalid_data, [])
  write_nar (unknown e) = (err e, [])

  pub outputs : Entries → List Named
  outputs no_more = []
  outputs (entry name node es) = (name, write_nar node) ∷ outputs es
