-- ===== src/Run/Caches.antt =====
-- The list of upstream caches in src/run.rs, from the texts of the URLs in it.
use cache_action.Base.{
  ◌>>=◌, ◌≡◌, ◌≢◌, refl, ap, ◌∙◌, List, [], ◌∷◌, ◌++◌, none, ==_iff, Result, ok, err, map,
  Result-cases, inl, inr, sym, subst, arith,
}
use cache_action.Io.{Bytes}
use cache_action.Io.Position.{position}
use cache_action.Run.{comma, split, without_empty, collect, parse_upstream_caches}

-- The texts, with a comma behind each.
abbrev pub listed : List Bytes → Bytes
listed [] = []
listed (text ∷ texts) = text ++ comma ∷ listed texts

-- The text of a URL: not empty, and with no comma in it.
abbrev pub AllTexts : List Bytes → Type 0
AllTexts [] = Unit {0}
AllTexts (text ∷ texts) = ((text ≢ []) × (position comma text ≡ none)) × AllTexts texts

split-append :
    (text rest : Bytes)
    → position comma text ≡ none
    → split (text ++ comma ∷ rest) ≡ text ∷ split rest
unfolding split
split-append [] rest h = refl
split-append (b ∷ text) rest h = let tail = split-append text rest in ground (arith, ==_iff b 44)

split-last : (text : Bytes) → position comma text ≡ none → split text ≡ text ∷ []
unfolding split
split-last [] h = refl
split-last (b ∷ text) h = let tail = split-last text in ground (arith, ==_iff b 44)

without_empty-cons :
    (text : Bytes) (pieces : List Bytes)
    → text ≢ []
    → without_empty (text ∷ pieces) ≡ text ∷ without_empty pieces
without_empty-cons [] pieces h = absurd (h refl)
without_empty-cons (b ∷ text) pieces h = refl

without_empty-split :
    (texts : List Bytes) → AllTexts texts → without_empty (split (listed texts)) ≡ texts
unfolding split
without_empty-split [] h = refl
without_empty-split (text ∷ texts) ((filled, whole), h) =
    ap without_empty (split-append text (listed texts) whole)
    ∙ without_empty-cons text (split (listed texts)) filled
    ∙ ap (◌∷◌ text) (without_empty-split texts h)

-- The texts, with a comma between two of them.
abbrev pub joined : List Bytes → Bytes
joined [] = []
joined (text ∷ []) = text
joined (text ∷ other ∷ texts) = text ++ comma ∷ joined (other ∷ texts)

without_empty-joined :
    (texts : List Bytes) → AllTexts texts → without_empty (split (joined texts)) ≡ texts
unfolding split
without_empty-joined [] h = refl
without_empty-joined (text ∷ []) ((filled, whole), h) =
    ap without_empty (split-last text whole) ∙ without_empty-cons text [] filled
without_empty-joined (text ∷ other ∷ texts) ((filled, whole), h) =
    ap without_empty (split-append text (joined (other ∷ texts)) whole)
    ∙ without_empty-cons text (split (joined (other ∷ texts))) filled
    ∙ ap (◌∷◌ text) (without_empty-joined (other ∷ texts) h)

module _ {Url ParseError : Type 0} (parse : Bytes → Result Url ParseError) where
  -- Each text parses to the URL at its place; or the first that does not gives the error.
  abbrev pub Parses : List Bytes → Result (List Url) ParseError → Type 0
  Parses texts (ok urls) = map parse texts ≡ map ok urls
  Parses texts (err e) =
      (before : List Bytes) × (text : Bytes) × (after : List Bytes) × (urls : List Url) × (texts
        ≡ before ++ text ∷ after)
      × (map parse before ≡ map ok urls)
      × (parse text ≡ err e)

  Parses-cons :
      (text : Bytes) (texts : List Bytes) (url : Url) (r : Result (List Url) ParseError)
      → parse text ≡ ok url
      → Parses texts r
      → Parses (text ∷ texts) (r >>= λ urls. ok (url ∷ urls))
  Parses-cons text texts url (ok urls) h p = ap (λ x. x ∷ map parse texts) h ∙ ap (◌∷◌ (ok url)) p
  Parses-cons text texts url (err e) h (before, bad, after, urls, split_eq, fine, failed) = (
    text ∷ before,
    bad,
    after,
    url ∷ urls,
    ap (◌∷◌ text) split_eq,
    ap (λ x. x ∷ map parse before) h ∙ ap (◌∷◌ (ok url)) fine,
    failed,
  )

  collect-Parses : (texts : List Bytes) → Parses texts (collect parse texts)
  collect-Parses [] = refl
  collect-Parses (text ∷ texts) = elim (Result-cases (parse text)) [
    | inr (e, failed) ↦ rw failed ([], text, texts, [], refl, refl, failed)
    | inl (url, worked) ↦
        subst
          (λ r. Parses (text ∷ texts) (r >>= λ u. collect parse texts >>= λ urls. ok (u ∷ urls)))
          (sym worked)
          (Parses-cons text texts url (collect parse texts) worked (collect-Parses texts))
  ]

  -- Texts that are not empty and have no comma in them, joined by commas, give the URLs that they parse
  -- to, in order, or the error of the first that does not parse, whether a comma stands behind the last
  -- or not.
  pub parse_upstream_caches-listed :
      (texts : List Bytes)
      → AllTexts texts
      → Parses texts (parse_upstream_caches parse (joined texts))
        × Parses texts (parse_upstream_caches parse (listed texts))
  unfolding parse_upstream_caches
  parse_upstream_caches-listed texts h = (
    subst (λ pieces. Parses texts (collect parse pieces)) (sym (without_empty-joined texts h))
        (collect-Parses texts),
    subst (λ pieces. Parses texts (collect parse pieces)) (sym (without_empty-split texts h))
        (collect-Parses texts),
  )
