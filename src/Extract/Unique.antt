-- ===== src/Extract/Unique.antt =====
-- extract.go, `destinations`: which links a results page is reduced to.
use go_web_search.Prelude.{
  ◌≡◌, ◌≢◌, ◌⊎◌, refl, inl, inr, ap, ◌∙◌, sym, Bool, true, false, List, [], ◌∷◌, map, Option, none,
  some, In, All, Distinct, Bool-cases, if-holds, subst,
}
use go_web_search.Strings.{Text, text_eq, text_eq_iff}
use go_web_search.Sql.Rows.{All-weaken}
use go_web_search.Runs.Listing.{member}
use go_web_search.Extract.{Url, destination_of, unless_seen, destinations_from, destinations}

abbrev Pair : Type 0
Pair = Text × Text

abbrev pub keys : List Pair → List Text
keys = map (λ p. p.0)

clash : {b : Bool} → b ≡ false → b ≡ true → ⊥
clash p q = cc

not_taken :
    (x key : Text) (seen : List Text)
    → member text_eq x (key ∷ seen) ≡ false
    → (key ≢ x) × (member text_eq x seen ≡ false)
unfolding member
not_taken x key seen h = elim (Bool-cases (text_eq x key)) [
  | inl same ↦ absurd (true_false (rw same at h))
  | inr other ↦ (λ e. clash other ((text_eq_iff x key).1 (sym e)), rw other at h)
]
  where
    true_false : true ≡ false → ⊥
    true_false e = cc

taken-cases :
    (x key : Text) (seen : List Text)
    → member text_eq x (key ∷ seen) ≡ true
    → (key ≡ x) ⊎ (member text_eq x seen ≡ true)
unfolding member
taken-cases x key seen h = elim (Bool-cases (text_eq x key)) [
  | inl same ↦ inl (sym ((text_eq_iff x key).0 same))
  | inr other ↦ inr (rw other at h)
]

fresh_keys :
    (key : Text) (seen : List Text) (pairs : List Pair)
    → All (λ (p : Pair). member text_eq p.0 (key ∷ seen) ≡ false) pairs
    → ¬ In key (keys pairs)
fresh_keys key seen [] h i = i
fresh_keys key seen (p ∷ pairs) h (inl e) = (not_taken p.0 key seen h.0).0 (sym e)
fresh_keys key seen (p ∷ pairs) h (inr i) = fresh_keys key seen pairs h.1 i

same_key : (o : Option Pair) (p q : Pair) → o ≡ some p → o ≡ some q → p.0 ≡ q.0
same_key o p q e e' = ap (λ (r : Option Pair). elim r [ none ↦ p.0 | some x ↦ x.0 ]) (sym e ∙ e')

module _ (parse : Text → Option Url) (base64 : Text → Option Text) (labels hosts : List Text) where
  abbrev pub of_link : Text → Option Pair
  of_link href = destination_of parse base64 labels hosts href

  -- The destinations `us` are chosen from the links, where the keys `seen` are taken.
  record Chosen (seen raw us : List Text) : Type 0 where
    pairs : List Pair
    urls : us ≡ map (λ p. p.1) pairs
    distinct : Distinct (keys pairs)
    fresh : All (λ p. member text_eq p.0 seen ≡ false) pairs
    found : All (λ p. (href : Text) × In href raw × (of_link href ≡ some p)) pairs
    covered :
        (href : Text) (p : Pair)
        → In href raw
        → of_link href ≡ some p
        → (member text_eq p.0 seen ≡ true) ⊎ In p.0 (keys pairs)

  -- A link that adds nothing: it is skipped, or its key is taken.
  link_adds_nothing :
      (seen raw us : List Text) (href : Text)
      → ((p : Pair) → of_link href ≡ some p → member text_eq p.0 seen ≡ true)
      → Chosen seen raw us
      → Chosen seen (href ∷ raw) us
  link_adds_nothing seen raw us href taken h = record {
    pairs = h.pairs;
    urls = h.urls;
    distinct = h.distinct;
    fresh = h.fresh;
    found = All-weaken _ _ h.pairs (λ p k. (k.0, inr (k.1), k.2)) h.found;
    covered = λ x p i e. elim i [
      | inl same ↦ inl (taken p (ap of_link same ∙ e))
      | inr j ↦ h.covered x p j e
    ];
  }

  link_adds_pair :
      (seen raw us : List Text) (href key url : Text)
      → of_link href ≡ some (key, url)
      → member text_eq key seen ≡ false
      → Chosen (key ∷ seen) raw us
      → Chosen seen (href ∷ raw) (url ∷ us)
  unfolding member
  link_adds_pair seen raw us href key url e new h = record {
    pairs = (key, url) ∷ h.pairs;
    urls = ap (λ x. url ∷ x) h.urls;
    distinct = (fresh_keys key seen h.pairs h.fresh, h.distinct);
    fresh = (new, All-weaken _ _ h.pairs (λ p k. (not_taken p.0 key seen k).1) h.fresh);
    found = ((href, inl refl, e), All-weaken _ _ h.pairs (λ p k. (k.0, inr (k.1), k.2)) h.found);
    covered = λ x p i e'. elim i [
      | inl same ↦ inr (inl (same_key (of_link href) (key, url) p e (ap of_link same ∙ e')))
      | inr j ↦ elim (h.covered x p j e') [
        | inl old ↦ elim (taken-cases p.0 key seen old) [
          | inl same ↦ inr (inl same)
          | inr before ↦ inl before
        ]
        | inr later ↦ inr (inr later)
      ]
    ];
  }

  link_adds :
      (href : Text) (raw seen : List Text)
      → ((taken : List Text)
          → Chosen taken raw (destinations_from parse base64 labels hosts taken raw))
      → (o : Option Pair) → of_link href ≡ o
      → Chosen seen (href ∷ raw) (
          unless_seen parse base64 labels hosts seen o
            (λ taken. destinations_from parse base64 labels hosts taken raw))
  unfolding destinations_from unless_seen
  link_adds href raw seen rest none e =
      link_adds_nothing seen raw _ href (λ p e'. absurd (not_both p e e')) (rest seen)
    where
      not_both : (p : Pair) → of_link href ≡ none → of_link href ≡ some p → ⊥
      not_both p a b = cc
  link_adds href raw seen rest (some (key, url)) e =
      if-holds (Chosen seen (href ∷ raw)) (member text_eq key seen) _ _
        (λ old.
          link_adds_nothing seen raw _ href
            (λ p e'.
              subst (λ k. member text_eq k seen ≡ true) (same_key (of_link href) (key, url) p e e')
                old)
            (rest seen))
        (λ new. link_adds_pair seen raw _ href key url e new (rest (key ∷ seen)))

  destinations_from-Chosen :
      (raw seen : List Text)
      → Chosen seen raw (destinations_from parse base64 labels hosts seen raw)
  unfolding destinations_from
  destinations_from-Chosen [] seen = record {
    pairs = [];
    urls = refl;
    distinct = tt;
    fresh = tt;
    found = tt;
    covered = λ href p i e. absurd i;
  }
  destinations_from-Chosen (href ∷ raw) seen =
      link_adds href raw seen (λ taken. destinations_from-Chosen raw taken) (of_link href) refl

  -- The links of a results page are reduced to destinations of different keys, each that of one of the
  -- links, and none is lost but for a key that is there.
  pub destinations_lem :
      (raw : List Text)
      → (pairs : List (Text × Text)) × (destinations parse base64 labels hosts raw
          ≡ map (λ p. p.1) pairs)
        × Distinct (keys pairs)
        × All (λ p. (href : Text) × In href raw × (of_link href ≡ some p)) pairs
        × ((href : Text) (p : Text × Text)
            → In href raw
            → of_link href ≡ some p
            → In p.0 (keys pairs))
  unfolding destinations member
  destinations_lem raw =
      let h : Chosen [] raw (destinations_from parse base64 labels hosts [] raw) =
        destinations_from-Chosen raw [] in
      (
        h.pairs,
        h.urls,
        h.distinct,
        h.found,
        λ href p i e. elim (h.covered href p i e) [ inl old ↦ absurd (clash refl old) | inr j ↦ j ],
      )
