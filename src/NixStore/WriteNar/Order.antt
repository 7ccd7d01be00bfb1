-- ===== src/NixStore/WriteNar/Order.antt =====
-- The NAR of src/nix_store.rs does not depend on the order in which directories are listed.
use cache_action.Base.{◌≡◌, ◌≢◌, refl, ap, ◌∙◌}
use cache_action.Io.{Bytes}
use cache_action.NixStore.WriteNar.{
  Node, directory, Entries, entry, sort, write_children, enclosed, write_nar, outputs,
}
use cache_action.NixStore.WriteNar.Names.{sort-swap}

-- The same files, with the entries of each directory listed in any order.
mutual
  pub data Same : Node → Node → Type 0 where
    unchanged : (n : Node) → Same n n
    listed : {es fs : Entries} → Reordered es fs → Same (directory es) (directory fs)

  pub data Reordered : Entries → Entries → Type 0 where
    kept : (es : Entries) → Reordered es es
    keep :
        {n m : Node} {es fs : Entries} (name : Bytes)
        → Same n m
        → Reordered es fs
        → Reordered (entry name n es) (entry name m fs)
    swap :
        (a b : Bytes) (n m : Node) (es : Entries)
        → a ≢ b
        → Reordered (entry a n (entry b m es)) (entry b m (entry a n es))
    then : {es fs gs : Entries} → Reordered es fs → Reordered fs gs → Reordered es gs

mutual
  unfolding write_nar sort

  same : {n m : Node} → Same n m → write_nar n ≡ write_nar m
  same (unchanged n) = refl
  same (listed r) = ap (λ xs. enclosed (write_children xs)) (reordered r)

  reordered : {es fs : Entries} → Reordered es fs → sort (outputs es) ≡ sort (outputs fs)
  reordered (kept es) = refl
  reordered (keep name s r) = rw (same s, reordered r) refl
  reordered (swap a b n m es h) = sort-swap (a, write_nar n) (b, write_nar m) (outputs es) h
  reordered (then r s) = reordered r ∙ reordered s

-- For one tree of files, whose names in a directory differ, the same NAR is written, and the same
-- error is met, in whatever order the file system lists the directories.
pub write_nar-Same : {n m : Node} → Same n m → write_nar n ≡ write_nar m
write_nar-Same s = same s
