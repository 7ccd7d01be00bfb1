-- ===== src/EventLoop/Handle/HashAndCount.antt =====
-- `HashAndCountWriter` of src/event_loop.rs, over the writers of Io. SHA-256 is a parameter.
use cache_action.Base.{
  ℕ, ◌+◌, ◌%◌, ◌≡◌, refl, sym, ◌∙◌, List, [], ◌∷◌, ◌++◌, append-nil, append_assoc, length, take,
  length-append, length-take, Result, ok, err, arith,
}
use cache_action.Io.{Bytes, IoError, Poll, ready, pending, Writer, poll_write}
use cache_action.Io.Writes.{Wrote, write_on-Wrote}

abbrev u64_mod : ℕ
u64_mod = 18446744073709551616

-- The `sha2` crate's incremental hash: updates in sequence hash the bytes in sequence.
pub record Sha256 : Type 1 where
  pub Sha : Type 0
  pub Digest : Type 0
  pub empty : Sha
  pub update : Sha → Bytes → Sha
  pub finalize : Sha → Digest
  pub update-nil : (s : Sha) → update s [] ≡ s
  pub update-append : (s : Sha) (xs ys : Bytes) → update s (xs ++ ys) ≡ update (update s xs) ys

module _ (sha256 : Sha256) where
  open sha256 use {Sha, empty, update, update-nil, update-append}

  pub record HashAndCountWriter : Type 0 where
    pub inner : Writer
    pub sha : Sha
    pub num_bytes_written : ℕ

  -- `HashAndCountWriter::new`
  unfoldable pub new : Writer → HashAndCountWriter
  new w = record { inner = w; sha = empty; num_bytes_written = 0 }

  -- The match in `poll_write`.
  unfoldable pub on_write :
      HashAndCountWriter
      → Bytes
      → Poll (Result ℕ IoError) × Writer
      → Poll (Result ℕ IoError) × HashAndCountWriter
  on_write w buf (ready (ok n), inner) = (
    ready (ok n),
    record {
      inner = inner;
      sha = update w.sha (take n buf);
      num_bytes_written = (w.num_bytes_written + n) % u64_mod;
    },
  )
  on_write w buf (ready (err e), inner) = (ready (err e), record w { inner = inner })
  on_write w buf (pending, inner) = (pending, record w { inner = inner })

  unfoldable poll_write_hashed :
      HashAndCountWriter → Bytes → Poll (Result ℕ IoError) × HashAndCountWriter
  unfolding on_write
  poll_write_hashed w buf = on_write w buf (poll_write buf w.inner)

  -- The writer after one such poll.
  unfoldable pub write : HashAndCountWriter → Bytes → HashAndCountWriter
  unfolding poll_write_hashed
  write w buf = (poll_write_hashed w buf).1

  -- The writer after it was given these buffers.
  abbrev pub write_each : HashAndCountWriter → List Bytes → HashAndCountWriter
  write_each w [] = w
  write_each w (b ∷ bs) = write_each (write w b) bs

  -- The hash and the count are those of the bytes that the inner writer took since `start`.
  pub record Records (start : Bytes) (w : HashAndCountWriter) : Type 0 where
    pub taken : Bytes
    pub output_eq : w.inner.output ≡ start ++ taken
    pub sha_eq : w.sha ≡ update empty taken
    pub count_eq : w.num_bytes_written ≡ length taken % u64_mod

  on_write-Records :
      (start : Bytes) (w : HashAndCountWriter) (buf : Bytes) (r : Poll (Result ℕ IoError) × Writer)
      → Records start w
      → Wrote buf w.inner r
      → Records start (on_write w buf r).1
  unfolding on_write
  on_write-Records start w buf (ready (ok n), inner) h o = record {
    taken = h.taken ++ take n buf;
    output_eq = o.0 ∙ rw h.output_eq (append_assoc start h.taken (take n buf));
    sha_eq = rw h.sha_eq (sym (update-append empty h.taken (take n buf)));
    count_eq =
        omega (arith, h.count_eq, length-append h.taken (take n buf), length-take n buf, o.1);
  }
  on_write-Records start w buf (ready (err e), inner) h o = record {
    taken = h.taken;
    output_eq = o.0 ∙ h.output_eq;
    sha_eq = h.sha_eq;
    count_eq = h.count_eq;
  }
  on_write-Records start w buf (pending, inner) h o = record {
    taken = h.taken;
    output_eq = o.0 ∙ h.output_eq;
    sha_eq = h.sha_eq;
    count_eq = h.count_eq;
  }

  -- A poll keeps that so, whether it writes all of the buffer, a part of it or nothing.
  pub write-Records :
      (start : Bytes) (w : HashAndCountWriter) (buf : Bytes)
      → Records start w
      → Records start (write w buf)
  unfolding write
  write-Records start w buf h =
      on_write-Records start w buf _ h (write_on-Wrote w.inner.polls buf w.inner refl)

  pub new-Records : (w : Writer) → Records w.output (new w)
  unfolding new
  new-Records w = record {
    taken = [];
    output_eq = sym (append-nil w.output);
    sha_eq = sym (update-nil empty);
    count_eq = refl;
  }
