-- ===== src/EventLoop/Handle/Guarantees.antt =====
-- What `handle_store_path` of src/event_loop.rs does to the cache, and what it returns.
use cache_action.Base.{
  ℕ, zero, suc, ◌%◌, ◌<◌, ◌≡◌, ◌∙◌, refl, sym, ap, [], ◌∷◌, ◌++◌, Option, some, Result, ok, err,
  ◌⊎◌, inl, inr, map_err, map_ok, arith, length, Result-cases,
}
use cache_action.Io.{Bytes}
use cache_action.EventLoop.{Context, u64_mod, HandlePathError, upload_nar_info, get_path_infos}
use cache_action.EventLoop.Handle.HashAndCount.{HashAndCountWriter, Records, new, write_each}
use cache_action.EventLoop.Handle.{
  Externals, Answers, NarInfo, Traced, narinfo_upload, ◌>>=◌, lift, non_zero, saturating_add,
  describe,
}

module _ (ctx : Context) (ext : Externals) where
  open ctx use {StorePath, hash, CacheError}
  open ext use {Url, NarUploadState, sha256}
  open sha256 use {empty, update, finalize}

  lift-bind {ℓ} :
      {A B E : Type 0} (P : Traced ctx ext B → Type ℓ) (f : E → HandlePathError ctx)
      (r : Result A E) (g : A → Traced ctx ext B)
      → ((e : E) → P (err (f e), []))
      → ((a : A) → r ≡ ok a → P (g a))
      → P (◌>>=◌ ctx ext (lift ctx ext f r) g)
  lift-bind P f (ok a) g bad good = good a refl
  lift-bind P f (err e) g bad good = bad e

  -- The pipe once the store has written all of the NAR.
  abbrev pub piped : Answers ctx ext → HashAndCountWriter sha256
  piped a = write_each sha256 (new sha256 a.pipe) a.buffers

  -- A NARInfo tells the hash and the length of the bytes that went into the pipe.
  pub record Describes (a : Answers ctx ext) (path : StorePath) (n : NarInfo ctx ext) : Type 0 where
    pub sent : Bytes
    pub piped_eq : (piped a).inner.output ≡ a.pipe.output ++ sent
    pub path_eq : n.store_path ≡ path
    pub nar_hash_eq : n.nar_hash ≡ finalize (update empty sent)
    pub nar_size_eq : n.nar_size ≡ length sent % u64_mod
    pub not_empty : 0 < n.nar_size
    pub file_hash_eq : n.file_hash ≡ n.nar_hash
    pub file_size_eq : n.file_size ≡ n.nar_size

  -- The result of the last call, and the sum of both sizes.
  abbrev pub last_result :
      Answers ctx ext
      → StorePath
      → NarInfo ctx ext
      → NarUploadState
      → Result (Option ℕ) (HandlePathError ctx)
  last_result a path n state = map_err upload_nar_info (
      map_ok (λ k. some (saturating_add ctx ext n.nar_size k))
        (a.upload_narinfo (hash path) n state))

  abbrev pub IsError : {A E : Type 0} → Result A E → Type 0
  IsError (ok a) = ⊥
  IsError (err e) = Unit {0}

  -- Either something fails before the NARInfo is uploaded, or that upload is the last call.
  abbrev pub Ends :
      Answers ctx ext → StorePath → NarUploadState → Traced ctx ext (Option ℕ) → Type 0
  Ends a path state t =
      ((t.1 ≡ []) × IsError t.0)
      ⊎ ((n : NarInfo ctx ext) × (t.1 ≡ narinfo_upload (hash path) n state ∷ [])
          × Describes a path n
          × (t.0 ≡ last_result a path n state))

  -- The last step.
  abbrev sized : NarInfo ctx ext → Result ℕ CacheError → Traced ctx ext (Option ℕ)
  sized n r =
      ◌>>=◌ ctx ext (lift ctx ext upload_nar_info r)
        (λ k. (ok (some (saturating_add ctx ext n.nar_size k)), []))

  upload-Ends :
      (a : Answers ctx ext) (path : StorePath) (n : NarInfo ctx ext) (state : NarUploadState)
      → Describes a path n
      → (r : Result ℕ CacheError) → a.upload_narinfo (hash path) n state ≡ r
      → Ends a path state ((sized n r).0, narinfo_upload (hash path) n state ∷ (sized n r).1)
  upload-Ends a path n state d (ok k) e = inr (n, refl, d, rw e)
  upload-Ends a path n state d (err f) e = inr (n, refl, d, rw e)

  non_zero_pos : (n k : ℕ) → non_zero ctx ext n ≡ ok k → (n ≡ k) × (0 < k)
  non_zero_pos zero k e = absurd cc
  non_zero_pos (suc n) k e = ground arith

  pub describe-Ends :
      (a : Answers ctx ext) (path : StorePath) (w : HashAndCountWriter sha256)
      (state : NarUploadState)
      → Records sha256 a.pipe.output w
      → w ≡ piped a
      → Ends a path state (describe ctx ext a path (w, state))
  unfolding describe
  describe-Ends a path w state r same = elim (Result-cases (non_zero ctx ext w.num_bytes_written)) [
    | inr (e, empty_nar) ↦ rw empty_nar (inl (refl, tt))
    | inl (nar_size, counted) ↦ rw counted (
        lift-bind (Ends a path state) get_path_infos a.path_infos _ (λ e. inl (refl, tt))
          λ infos _.
            lift-bind (Ends a path state) get_path_infos infos.references _ (λ e. inl (refl, tt))
              λ references _.
                lift-bind (Ends a path state) get_path_infos infos.deriver _ (λ e. inl (refl, tt))
                  λ deriver _.
                    lift-bind (Ends a path state) get_path_infos infos.signatures _
                      (λ e. inl (refl, tt))
                      λ signatures _.
                        lift-bind (Ends a path state) get_path_infos infos.content_address _
                          (λ e. inl (refl, tt))
                          λ content_address _.
                            upload-Ends a path _ state
                              (record {
                                sent = r.taken;
                                piped_eq = ap (λ v. v.inner.output) (sym same) ∙ r.output_eq;
                                path_eq = refl;
                                nar_hash_eq = ap finalize r.sha_eq;
                                nar_size_eq =
                                    sym (non_zero_pos w.num_bytes_written nar_size counted).0
                                    ∙ r.count_eq;
                                not_empty = (non_zero_pos w.num_bytes_written nar_size counted).1;
                                file_hash_eq = refl;
                                file_size_eq = refl;
                              })
                              _ refl)
  ]
