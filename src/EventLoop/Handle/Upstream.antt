-- ===== src/EventLoop/Handle/Upstream.antt =====
-- `upstream_caches_have_narinfo` of src/event_loop.rs. The requests are answered in any order.
use cache_action.Base.{
  ℕ, zero, suc, ◌≤◌, ◌≡◌, refl, ap, Bool, true, false, ◌||◌, List, [], ◌∷◌, length, map, length-map,
  if◌then◌else◌, ◌==◌, Result, ok, err, arith,
}
use cache_action.Io.{Bytes}

-- The request that is answered next: the one at a place, or the last one if there are not so many.
pub next {ℓ} : {A : Type ℓ} → ℕ → A → List A → A × List A
next zero x xs = (x, xs)
next (suc i) x [] = (x, [])
next (suc i) x (y ∷ ys) = let (z, zs) = next i y ys in (z, x ∷ zs)

-- `while let Some(has_narinfo) = requests.next().await`, with fuel for each request.
unfoldable any_ready : ℕ → (ℕ → ℕ) → List Bool → Bool
unfolding next
any_ready fuel order [] = false
any_ready zero order (x ∷ xs) = false
any_ready (suc fuel) order (x ∷ xs) =
    let (has_narinfo, rest) = next (order fuel) x xs in
    let later = any_ready fuel order rest in if has_narinfo then true else later

-- `matches!(.., Ok(StatusCode::OK))`
abbrev pub is_ok : {E : Type 0} → Result ℕ E → Bool
is_ok (ok status) = status == 200
is_ok (err e) = false

module _ {Url HttpError : Type 0} (push_segment : Url → Bytes → Url)
    (http_get : Url → Result ℕ HttpError) where
  unfoldable pub upstream_caches_have_narinfo : (ℕ → ℕ) → Bytes → List Url → Bool
  unfolding any_ready
  upstream_caches_have_narinfo order name upstream_caches =
      any_ready (length upstream_caches) order
        (map (λ url. is_ok (http_get (push_segment url name))) upstream_caches)

-- Whether one of the answers is yes.
abbrev pub any : List Bool → Bool
any [] = false
any (x ∷ xs) = x || any xs

any-next :
    (i : ℕ) (x : Bool) (xs : List Bool) → ((next i x xs).0 || any (next i x xs).1) ≡ any (x ∷ xs)
unfolding next
any-next zero x xs = refl
any-next (suc i) x [] = refl
any-next (suc i) x (y ∷ ys) = ground (arith, any-next i y ys)

length-next : (i : ℕ) (x : Bool) (xs : List Bool) → length (next i x xs).1 ≡ length xs
unfolding next
length-next zero x xs = refl
length-next (suc i) x [] = refl
length-next (suc i) x (y ∷ ys) = ap suc (length-next i y ys)

any_ready-any :
    (fuel : ℕ) (order : ℕ → ℕ) (xs : List Bool)
    → length xs ≤ fuel
    → any_ready fuel order xs ≡ any xs
unfolding any_ready
any_ready-any zero order [] h = refl
any_ready-any (suc fuel) order [] h = refl
any_ready-any zero order (x ∷ xs) h = absurd (omega arith)
any_ready-any (suc fuel) order (x ∷ xs) h =
    let first = next (order fuel) x xs in
    ground (
      arith,
      any-next (order fuel) x xs,
      any_ready-any fuel order first.1 (omega (arith, length-next (order fuel) x xs)),
    )

module _ {Url HttpError : Type 0} (push_segment : Url → Bytes → Url)
    (http_get : Url → Result ℕ HttpError) where
  -- In whatever order the requests are answered, the result is whether any of them is answered
  -- with the status 200; failed requests count as a no.
  pub upstream_caches_have_narinfo-any :
      (order : ℕ → ℕ) (name : Bytes) (urls : List Url)
      → upstream_caches_have_narinfo push_segment http_get order name urls
        ≡ any (map (λ url. is_ok (http_get (push_segment url name))) urls)
  unfolding upstream_caches_have_narinfo
  upstream_caches_have_narinfo-any order name urls =
      any_ready-any (length urls) order _
        (omega (arith, length-map urls (λ url. is_ok (http_get (push_segment url name)))))
