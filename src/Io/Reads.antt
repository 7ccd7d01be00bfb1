-- ===== src/Io/Reads.antt =====
-- What a poll of a reader with room for some bytes gives, whatever it finds.
use cache_action.Base.{
  ℕ, suc, ◌+◌, ◌≤◌, ◌<◌, ◌≡◌, refl, sym, ap, ◌∙◌, List, [], ◌∷◌, ◌++◌, none, some, length, take,
  drop, leb, Result, ok, err, arith, Bool-cases, inl, inr, append_assoc, length-take, length-drop,
  take-append-drop,
}
use cache_action.Io.{
  Bytes, IoError, Poll, ready, pending, ReadEvent, arrived, blocked, failed, poll_read, IsStream,
  contents, failure, weight,
}

pub IsStream-arrived :
    (c : Bytes) (es : List ReadEvent) → 0 < length c → IsStream es → IsStream (arrived c ∷ es)
IsStream-arrived [] es h s = absurd (omega arith)
IsStream-arrived (b ∷ c) es h s = s

-- The stream that is left after `taken` has been read.
pub record Leaves (taken : Bytes) (es rest : List ReadEvent) : Type 0 where
  pub contents_eq : contents es ≡ taken ++ contents rest
  pub failure_eq : failure es ≡ failure rest
  pub stream : IsStream rest

abbrev pub Reads : ℕ → List ReadEvent → Poll (Result Bytes IoError) × List ReadEvent → Type 0
Reads room es (pending, rest) = Leaves [] es rest × (weight rest < weight es)
Reads room es (ready (err e), rest) = (contents es ≡ []) × (failure es ≡ some e)
Reads room es (ready (ok []), rest) =
    Leaves [] es rest × (contents rest ≡ []) × (failure rest ≡ none) × (weight rest ≤ weight es)
Reads room es (ready (ok (b ∷ c)), rest) =
    Leaves (b ∷ c) es rest × (length (b ∷ c) ≤ room) × (length (b ∷ c) + weight rest ≤ weight es)

arrived-Reads :
    (k b : ℕ) (chunk : Bytes) (es : List ReadEvent)
    → IsStream es
    → Reads (suc k) (arrived (b ∷ chunk) ∷ es) (poll_read (suc k) (arrived (b ∷ chunk) ∷ es))
unfolding poll_read
arrived-Reads k b chunk es s = elim (Bool-cases (leb (suc (length chunk)) (suc k))) [
  | inl fits ↦
      rw fits
        (record { contents_eq = refl; failure_eq = refl; stream = s }, ground arith, omega arith)
  | inr cut ↦
      let longer : k < length chunk = ground arith in
      let left = length-drop k chunk in
      let fewer = length-take k chunk in
      rw cut (
        record {
          contents_eq = ap (◌∷◌ b) (
              sym (ap (λ c. c ++ contents es) (take-append-drop k chunk))
              ∙ append_assoc (take k chunk) (drop k chunk) (contents es));
          failure_eq = refl;
          stream = IsStream-arrived (drop k chunk) es (omega arith) s;
        },
        omega arith,
        omega arith,
      )
]

pub poll_read-Reads :
    (k : ℕ) (es : List ReadEvent) → IsStream es → Reads (suc k) es (poll_read (suc k) es)
unfolding poll_read
poll_read-Reads k [] s =
    (record { contents_eq = refl; failure_eq = refl; stream = tt }, refl, refl, omega arith)
poll_read-Reads k (blocked ∷ es) s =
    (record { contents_eq = refl; failure_eq = refl; stream = s }, omega arith)
poll_read-Reads k (failed e ∷ es) s = (refl, refl)
poll_read-Reads k (arrived [] ∷ es) s = absurd s
poll_read-Reads k (arrived (b ∷ c) ∷ es) s = arrived-Reads k b c es s
