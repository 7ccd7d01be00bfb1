-- ===== src/Protocol/Receiver/Refines.antt =====
-- `poll_next` of src/protocol.rs against the description of the wire format: the buffer, the way
-- the bytes arrive and the polls that find nothing make no difference.
use cache_action.Base.{
  ℕ, zero, suc, ◌+◌, ◌-◌, ◌≤◌, ◌<◌, ◌≡◌, refl, sym, ap, ◌∙◌, Bool, true, false, List, [], ◌∷◌, none,
  some, length, length-replicate, arith, inl, inr, ◌⊎◌, Bool-cases, subst, if◌then◌else◌,
}
use cache_action.Io.{ready, pending, ReadEvent, IsStream, contents, failure, weight}
use cache_action.Protocol.{Crates}
use cache_action.Protocol.Receiver.{
  Receiver, new, Flow, continues, breaks, returns, Item, ends, capacity, unhandled, iterate, Polled,
  after_iteration, loop, poll_next, collect, receive_all,
}
use cache_action.Protocol.Receiver.Buffer.{length-unhandled}
use cache_action.Protocol.Receiver.Decode.{
  decode, unless_ended, unless_ended_last, unless_ended_more,
}
use cache_action.Protocol.Receiver.Iteration.{measure, IsReady, Same, meaning, After, iterate-After}

IsReady-done : (s : Receiver) (b : Bool) → IsReady s → IsReady (record s { is_done = b })
IsReady-done s b h =
    let v = h.valid in
    record {
      valid = record { sized = v.sized; ordered = v.ordered; within = v.within };
      stream = h.stream;
    }

less_of : {P : Type 0} {a b c : ℕ} → P ⊎ (a < b) → b ≤ c → P ⊎ (a < c)
less_of (inl p) k = inl p
less_of (inr h) k = inr (omega arith)

not_left : {b : Bool} {a c : ℕ} → b ≡ false → (b ≡ true) ⊎ (a < c) → a < c
not_left e (inl h) = absurd cc
not_left e (inr h) = h

module _ (crates : Crates) where
  -- What a poll gives, and what is left for the polls after it.
  abbrev pub Delivers : Receiver → Polled crates → Type 0
  Delivers r (none, s) = ⊥
  Delivers r (some (ready (some item)), s) =
      IsReady s
      × (s.is_done ≡ ends crates item)
      × (meaning crates r ≡ unless_ended crates item (meaning crates s))
      × ((ends crates item ≡ true) ⊎ (measure s < measure r))
  Delivers r (some (ready none), s) = meaning crates r ≡ []
  Delivers r (some pending, s) =
      IsReady s
      × (s.is_done ≡ r.is_done)
      × (meaning crates s ≡ meaning crates r)
      × (measure s < measure r)

  Same-meaning : (r s : Receiver) → Same r s → meaning crates s ≡ meaning crates r
  Same-meaning r s h = rw (h.unread_eq, h.failure_eq)

  Delivers-Same :
      (r s : Receiver) (p : Polled crates)
      → Same r s
      → measure s ≤ measure r
      → Delivers s p
      → Delivers r p
  Delivers-Same r s (none, t) h k d = d
  Delivers-Same r s (some (ready (some item)), t) h k d =
      (d.0, d.1, sym (Same-meaning r s h) ∙ d.2, less_of d.3 k)
  Delivers-Same r s (some (ready none), t) h k d = sym (Same-meaning r s h) ∙ d
  Delivers-Same r s (some pending, t) h k d =
      (d.0, d.1 ∙ h.is_done_eq, d.2 ∙ Same-meaning r s h, omega arith)

  after_iteration-Delivers :
      (fuel : ℕ) (r : Receiver)
      → ((s : Receiver)
          → IsReady s
          → capacity - length (unhandled s) < fuel
          → Delivers s (loop crates fuel s))
      → IsReady r
      → capacity - length (unhandled r) < suc fuel
      → (f : Flow (Item crates) × Receiver) → After crates r f
      → Delivers r (after_iteration crates (loop crates fuel) f)
  unfolding after_iteration
  after_iteration-Delivers fuel r ih h k (continues, s) a =
      let bound = length-unhandled s a.0.is_ready.valid in
      Delivers-Same r s _ a.0 a.2
        (ih s a.0.is_ready (omega (arith, a.1, bound, a.0.is_ready.valid.within)))
  after_iteration-Delivers fuel r ih h k (breaks item, s) a =
      (IsReady-done s (ends crates item) a.0, refl, a.1, a.2)
  after_iteration-Delivers fuel r ih h k (returns pending, s) a =
      (a.0.is_ready, a.0.is_done_eq, Same-meaning r s a.0, a.1)
  after_iteration-Delivers fuel r ih h k (returns (ready none), s) a = a
  after_iteration-Delivers fuel r ih h k (returns (ready (some item)), s) a = absurd a

  loop-Delivers :
      (fuel : ℕ) (r : Receiver)
      → IsReady r
      → capacity - length (unhandled r) < fuel
      → Delivers r (loop crates fuel r)
  unfolding loop
  loop-Delivers zero r h k = absurd (omega arith)
  loop-Delivers (suc fuel) r h k =
      after_iteration-Delivers fuel r (loop-Delivers fuel) h k (iterate crates r)
        (iterate-After crates r h)

  -- The fuel of `poll_next` is enough.
  poll_next-Delivers :
      (r : Receiver) → IsReady r → r.is_done ≡ false → Delivers r (poll_next crates r)
  unfolding poll_next
  poll_next-Delivers r h e =
      subst (λ b. Delivers r (if b then (some (ready none), r) else loop crates (suc capacity) r))
        (sym e) (loop-Delivers (suc capacity) r h (omega arith))

  poll_next_done : (r : Receiver) → r.is_done ≡ true → poll_next crates r ≡ (some (ready none), r)
  unfolding poll_next
  poll_next_done r e =
      ap (λ b. if b then (some (ready none), r) else loop crates (suc capacity) r) e

  receive_all_done :
      (fuel : ℕ) (r : Receiver) → r.is_done ≡ true → receive_all crates (suc fuel) r ≡ some []
  unfolding receive_all
  receive_all_done fuel r e = rw (poll_next_done r e)

  collect_item :
      (fuel : ℕ) (item : Item crates) (s : Receiver) (items : List (Item crates))
      → receive_all crates fuel s ≡ some items
      → collect crates (receive_all crates fuel) (some (ready (some item)), s) ≡ some (item ∷ items)
  unfolding collect
  collect_item fuel item s items e = ground (arith, e)

  collect-Delivers :
      (fuel : ℕ) (r : Receiver)
      → ((s : Receiver)
          → IsReady s
          → s.is_done ≡ false
          → measure s + 1 < fuel
          → receive_all crates fuel s ≡ some (meaning crates s))
      → r.is_done ≡ false
      → measure r + 1 < suc fuel
      → (p : Polled crates) → Delivers r p
      → collect crates (receive_all crates fuel) p ≡ some (meaning crates r)
  unfolding collect
  collect-Delivers fuel r ih e k (none, s) d = absurd d
  collect-Delivers fuel r ih e k (some pending, s) d =
      ih s d.0 (d.1 ∙ e) (omega (arith, d.3)) ∙ ap some d.2
  collect-Delivers fuel r ih e k (some (ready none), s) d = rw d
  collect-Delivers zero r ih e k (some (ready (some item)), s) d = absurd (omega arith)
  collect-Delivers (suc fuel) r ih e k (some (ready (some item)), s) d =
      elim (Bool-cases (ends crates item)) [
        | inl last ↦
            let stopped = receive_all_done fuel s (d.1 ∙ last) in
            rw (d.2, unless_ended_last crates item _ last)
              (rw (collect_item (suc fuel) item s [] stopped))
        | inr more ↦
            let later = ih s d.0 (d.1 ∙ more) (omega (arith, not_left more d.3)) in
            rw (d.2, unless_ended_more crates item _ more)
              (collect_item (suc fuel) item s (meaning crates s) later)
      ]

  receive_all-meaning :
      (fuel : ℕ) (r : Receiver)
      → IsReady r
      → r.is_done ≡ false
      → measure r + 1 < fuel
      → receive_all crates fuel r ≡ some (meaning crates r)
  unfolding receive_all
  receive_all-meaning zero r h e k = absurd (omega arith)
  receive_all-meaning (suc fuel) r h e k =
      collect-Delivers fuel r (receive_all-meaning fuel) e k _ (poll_next-Delivers r h e)

  -- For every stream of bytes, however it is cut into reads, with polls that find nothing at any
  -- place and with or without a failure at its end: polling the receiver until the stream ends
  -- finishes, and gives the items that the wire format's description reads off the bytes.
  pub receive_all-decode :
      (events : List ReadEvent) (fuel : ℕ)
      → IsStream events
      → weight events + 1 < fuel
      → receive_all crates fuel (new events)
        ≡ some (decode crates [] (contents events) (failure events))
  unfolding new
  receive_all-decode events fuel h k =
      receive_all-meaning fuel (new events)
        (record {
          valid = record {
            sized = length-replicate {A = ℕ} capacity 0;
            ordered = omega arith;
            within = omega arith;
          };
          stream = h;
        })
        refl (omega arith)
