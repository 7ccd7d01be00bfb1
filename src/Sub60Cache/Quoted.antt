-- ===== src/Sub60Cache/Quoted.antt =====
-- `Quoted` of src/sub60_cache.rs, the form of an ETag header.
use cache_action.Base.{
  ℕ, ◌≡◌, refl, ap, ◌∙◌, [], ◌∷◌, ◌++◌, Option, none, some, ◌==◌, ==_iff, if◌then◌else◌, Result, ok,
  err, map_err, arith, Option-cases, inl, inr,
}
use cache_action.Io.{Bytes}
use cache_action.Sub60Cache.{QuotedError, missing_quotes, inner}

-- The byte `"`.
abbrev pub quote : ℕ
quote = 34

unfoldable strip_prefix : Bytes → Option Bytes
strip_prefix [] = none
strip_prefix (b ∷ s) = if b == quote then some s else none

unfoldable strip_suffix : Bytes → Option Bytes
strip_suffix [] = none
strip_suffix (b ∷ []) = if b == quote then some [] else none
strip_suffix (b ∷ c ∷ s) = elim (strip_suffix (c ∷ s)) [ none ↦ none | some t ↦ some (b ∷ t) ]

-- `strip_prefix('"').and_then(|s| s.strip_suffix('"'))`
unfoldable unquote : Bytes → Option Bytes
unfolding strip_prefix strip_suffix
unquote s = elim (strip_prefix s) [ none ↦ none | some t ↦ strip_suffix t ]

module _ {T E : Type 0} (parse : Bytes → Result T E) where
  unfoldable pub from_str : Bytes → Result T (QuotedError E)
  unfolding unquote
  from_str s = elim (unquote s) [ none ↦ err missing_quotes | some t ↦ map_err inner (parse t) ]

strip_suffix-append : (s : Bytes) → strip_suffix (s ++ quote ∷ []) ≡ some s
unfolding strip_suffix
strip_suffix-append [] = refl
strip_suffix-append (b ∷ []) = refl
strip_suffix-append (b ∷ c ∷ s) = rw (strip_suffix-append (c ∷ s))

strip_suffix-some : (s : Bytes) {t : Bytes} → strip_suffix s ≡ some t → s ≡ t ++ quote ∷ []
unfolding strip_suffix
strip_suffix-some [] e = absurd cc
strip_suffix-some (b ∷ []) e = ground (arith, ==_iff b 34)
strip_suffix-some (b ∷ c ∷ s) {t} e = elim (Option-cases (strip_suffix (c ∷ s))) [
  | inl bare ↦ absurd (ground arith)
  | inr (u, found) ↦ let tail = strip_suffix-some (c ∷ s) found in ground (arith, tail)
]

strip_prefix-some : (s : Bytes) {t : Bytes} → strip_prefix s ≡ some t → s ≡ quote ∷ t
unfolding strip_prefix
strip_prefix-some [] e = absurd cc
strip_prefix-some (b ∷ s) e = ground (arith, ==_iff b 34)

unquote-some : (s : Bytes) {t : Bytes} → unquote s ≡ some t → s ≡ quote ∷ (t ++ quote ∷ [])
unfolding unquote
unquote-some s e = elim (Option-cases (strip_prefix s)) [
  | inl bare ↦ absurd (ground arith)
  | inr (u, found) ↦ strip_prefix-some s found ∙ ap (◌∷◌ quote) (strip_suffix-some u (ground arith))
]

module _ {T E : Type 0} (parse : Bytes → Result T E) where
  -- A value between quotes is parsed, whatever stands between them; and what parses stood between
  -- quotes, so that a value without them, a lone quote too, is refused.
  pub from_str-quoted :
      ((s : Bytes) → from_str parse (quote ∷ (s ++ quote ∷ [])) ≡ map_err inner (parse s))
      × ((s : Bytes) (a : T)
          → from_str parse s ≡ ok a
          → (t : Bytes) × (s ≡ quote ∷ (t ++ quote ∷ [])) × (parse t ≡ ok a))
  unfolding from_str unquote strip_prefix
  from_str-quoted = (
    λ s. let stripped = strip_suffix-append s in ground arith,
    λ s a e. elim (Option-cases (unquote s)) [
      | inl bare ↦ absurd (ground arith)
      | inr (t, found) ↦ (t, unquote-some s found, ground arith)
    ],
  )
