-- ===== src/Run/Ready/Tells.antt =====
-- What `run` of src/run.rs tells about its start, and whom.
use cache_action.Base.{
  ℕ, zero, suc, ◌≡◌, refl, sym, ap, ◌∙◌, ◌⊎◌, inl, inr, List, [], ◌∷◌, ◌++◌, Option, none, some,
  take, drop, Result, ok, err, append_assoc, append-nil, take-append-drop,
}
use cache_action.Io.{Bytes, IoError, WriteEvent, accepts, stalls, breaks_down, Writer, IsWilling}
use cache_action.StopProgress.Texts.{decimal}
use cache_action.Run.Texts.{fd_text}
use cache_action.Run.Ready.{
  write_all_on, write_all, and_then, Started, signal_failure, signal_readiness, parts_of, run,
}

-- What writing all bytes comes to.
abbrev Writes : Bytes → Writer → Result (Unit {0}) IoError × Writer → Type 0
Writes bytes w (ok u, v) = (v.output ≡ w.output ++ bytes) × (IsWilling w.polls → IsWilling v.polls)
Writes bytes w (err e, v) =
    (¬ IsWilling w.polls) × (rest : Bytes) × (v.output ++ rest ≡ w.output ++ bytes)

Writes-after :
    (part bytes : Bytes) (w v : Writer) (r : Result (Unit {0}) IoError × Writer)
    → v.output ++ part ≡ w.output ++ bytes
    → (IsWilling w.polls → IsWilling v.polls)
    → Writes part v r
    → Writes bytes w r
Writes-after part bytes w v (ok u, x) e k h = (h.0 ∙ e, λ y. h.1 (k y))
Writes-after part bytes w v (err f, x) e k h = ((λ y. h.0 (k y)), h.1, h.2 ∙ e)

write_all_on-Writes :
    (es : List WriteEvent) (bytes : Bytes) (w : Writer)
    → w.polls ≡ es
    → Writes bytes w (write_all_on es bytes w)
unfolding write_all_on
write_all_on-Writes es [] w e = (sym (append-nil w.output), λ h. h)
write_all_on-Writes [] (b ∷ bytes) w e = (refl, λ h. h)
write_all_on-Writes (accepts zero ∷ es) (b ∷ bytes) w e = ((λ h. rw e at h), b ∷ bytes, refl)
write_all_on-Writes (accepts (suc n) ∷ es) (b ∷ bytes) w e =
    let v : Writer = record w { polls = es; output = w.output ++ b ∷ take n bytes } in
    Writes-after (drop n bytes) (b ∷ bytes) w v (write_all_on es (drop n bytes) v)
      (append_assoc w.output (b ∷ take n bytes) (drop n bytes)
        ∙ ap (λ t. w.output ++ b ∷ t) (take-append-drop n bytes))
      (λ h. (rw e at h)) (write_all_on-Writes es (drop n bytes) v refl)
write_all_on-Writes (stalls ∷ es) (b ∷ bytes) w e =
    let v : Writer = record w { polls = es } in
    Writes-after (b ∷ bytes) (b ∷ bytes) w v (write_all_on es (b ∷ bytes) v) refl (λ h. (rw e at h))
      (write_all_on-Writes es (b ∷ bytes) v refl)
write_all_on-Writes (breaks_down x ∷ es) (b ∷ bytes) w e = ((λ h. rw e at h), b ∷ bytes, refl)

write_all-Writes : (bytes : Bytes) (w : Writer) → Writes bytes w (write_all bytes w)
write_all-Writes bytes w = write_all_on-Writes w.polls bytes w refl

and_then-Writes :
    (xs ys : Bytes) (w : Writer) (r : Result (Unit {0}) IoError × Writer)
    → Writes xs w r
    → Writes (xs ++ ys) w (and_then r (λ v. write_all ys v))
and_then-Writes xs ys w (ok u, v) h =
    Writes-after ys (xs ++ ys) w v (write_all ys v)
      (ap (λ o. o ++ ys) h.0 ∙ append_assoc w.output xs ys) h.1 (write_all-Writes ys v)
and_then-Writes xs ys w (err e, v) h = (
  h.0,
  h.1 ++ ys,
  sym (append_assoc v.output h.1 ys) ∙ ap (λ o. o ++ ys) h.2 ∙ append_assoc w.output xs ys,
)

module _ {Parts Error : Type 0} (display : Error → Bytes) (io_text : IoError → Bytes) where
  -- What the descriptor is to get: a zero, or a one and the text of the error.
  abbrev pub signal : Result Parts Error → Bytes
  signal (ok parts) = 0 ∷ []
  signal (err e) = 1 ∷ display e

  signal_readiness-Writes :
      (start_res : Result Parts Error) (file : Writer)
      → Writes (signal start_res) file (signal_readiness display io_text start_res file)
  unfolding signal_readiness
  signal_readiness-Writes (ok parts) file = write_all-Writes (0 ∷ []) file
  signal_readiness-Writes (err e) file =
      and_then-Writes (1 ∷ []) (display e) file (write_all (1 ∷ []) file)
        (write_all-Writes (1 ∷ []) file)

  -- Which parts the event loop is run with.
  abbrev pub Runs : Result Parts Error → Option Parts → Type 0
  Runs (ok parts) given = given ≡ some parts
  Runs (err e) given = given ≡ none

  -- What is told where no descriptor is given, and where one is.
  abbrev pub Told : Option (ℕ × Writer) → Result Parts Error → Started Parts → Type 0
  Told none (ok parts) s = s.stderr ≡ []
  Told none (err e) s = s.stderr ≡ display e ++ b'\n' ∷ []
  Told (some (ready_fd, file)) start_res s =
      (f : Writer) × (s.ready_file ≡ some f)
      × (((s.stderr ≡ []) × (f.output ≡ file.output ++ signal start_res))
          ⊎ ((e : IoError) × (rest : Bytes) × (¬ IsWilling file.polls)
              × (s.stderr ≡ fd_text ++ decimal ready_fd ++ b':' ∷ b' ' ∷ io_text e ++ b'\n' ∷ [])
              × (f.output ++ rest ≡ file.output ++ signal start_res)))

  signalled-Told :
      (start_res : Result Parts Error) (ready_fd : ℕ) (file : Writer)
      (r : Result (Unit {0}) IoError × Writer)
      → Writes (signal start_res) file r
      → Told (some (ready_fd, file)) start_res (record {
        parts = parts_of display io_text start_res;
        stderr = signal_failure io_text ready_fd r.0;
        ready_file = some r.1;
      })
  signalled-Told start_res ready_fd file (ok u, f) h = (f, refl, inl (refl, h.0))
  signalled-Told start_res ready_fd file (err e, f) h = (f, refl, inr (e, h.1, h.0, refl, h.2))

  parts_of-Runs :
      (start_res : Result Parts Error) → Runs start_res (parts_of display io_text start_res)
  parts_of-Runs (ok parts) = refl
  parts_of-Runs (err e) = refl

  -- The event loop is run with the parts that the start gave, and not run if it failed. The descriptor
  -- gets a zero, or a one and the text of the error, unless it fails, which is printed with the
  -- descriptor's number and the failure's text; without one an error of the start is printed.
  pub run-Told :
      (ready_fd : Option (ℕ × Writer)) (start_res : Result Parts Error)
      → Runs start_res (run display io_text ready_fd start_res).parts
        × Told ready_fd start_res (run display io_text ready_fd start_res)
  unfolding run
  run-Told none (ok parts) = (refl, refl)
  run-Told none (err e) = (refl, refl)
  run-Told (some (ready_fd, file)) start_res = (
    parts_of-Runs start_res,
    signalled-Told start_res ready_fd file (signal_readiness display io_text start_res file)
        (signal_readiness-Writes start_res file),
  )
