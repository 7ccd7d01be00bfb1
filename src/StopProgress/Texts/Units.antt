-- ===== src/StopProgress/Texts/Units.antt =====
-- The unit that `HumanReadableByteSize` of src/real_stop_progress_reporter.rs picks.
use cache_action.Base.{
  ℕ, zero, suc, ◌+◌, ◌^◌, ◌≤◌, ◌<◌, ◌≡◌, refl, ◌⊎◌, inl, inr, leb, arith, Bool-cases,
}
use cache_action.StopProgress.Texts.{unit_from, unit_of}

last_unit :
    (left k value : ℕ)
    → (unit_from left (k + 1) value ≡ left + (k + 1))
      ⊎ (value < 1024 ^ (unit_from left (k + 1) value + 1))
    → (unit_from left (k + 1) value ≡ suc left + k)
      ⊎ (value < 1024 ^ (unit_from left (k + 1) value + 1))
last_unit left k value (inl e) = inl (omega (arith, e))
last_unit left k value (inr h) = inr h

-- Where the loop stops: at the last unit, or at the first one in which the value is less than 1024.
unit_from_lem :
    (left k value : ℕ)
    → (k ≡ 0) ⊎ (1024 ^ k ≤ value)
    → ((unit_from left k value ≡ 0) ⊎ (1024 ^ unit_from left k value ≤ value))
      × ((unit_from left k value ≡ left + k) ⊎ (value < 1024 ^ (unit_from left k value + 1)))
      × (unit_from left k value ≤ left + k)
unfolding unit_from
unit_from_lem zero k value h = (h, inl (omega arith), omega arith)
unit_from_lem (suc left) k value h = elim (Bool-cases (leb (1024 ^ (k + 1)) value)) [
  | inl big ↦
      let (least, most, bound) = unit_from_lem left (k + 1) value (inr (ground arith)) in
      rw big (least, last_unit left k value most, omega (arith, bound))
  | inr small ↦ rw small (h, inr (ground arith), omega arith)
]

-- The value is at least one in its unit, unless that is the byte, and less than 1024, unless that is
-- the PiB, which is the largest.
pub unit_of_lem :
    (value : ℕ)
    → ((unit_of value ≡ 0) ⊎ (1024 ^ unit_of value ≤ value))
      × ((unit_of value ≡ 5) ⊎ (value < 1024 ^ (unit_of value + 1)))
      × (unit_of value ≤ 5)
unfolding unit_of
unit_of_lem value = unit_from_lem 5 0 value (inl refl)
