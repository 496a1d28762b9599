-- ===== src/Scraper/Times.antt =====
-- scraper.go, `groupByHost`: how often a URL occurs among the groups and the outcomes.
use go_web_search.Prelude.{
  ℕ, ◌+◌, ◌≡◌, refl, ap, ◌∙◌, Bool, true, false, List, [], ◌∷◌, ◌++◌, map, Option, none, some,
  if◌then◌else◌, Bool-cases, inl, inr, arith,
}
use go_web_search.Strings.{Text, text_eq}
use go_web_search.Sql.{select, count, order_by, insert_by}
use go_web_search.ScrapeCache.{ScrapeOutcome}
use go_web_search.Scraper.Groups.{
  Groups, add_to_group, add_if_host, host_of, group_urls, outcome_before,
}

-- How often a URL occurs.
unfoldable pub times : Text → List Text → ℕ
unfolding count
times x urls = count (λ u. text_eq u x) urls

abbrev pub urls_of : List ScrapeOutcome → List Text
urls_of = map (λ o. o.url)

abbrev pub has_host : (Text → Option Text) → Text → Bool
has_host hostname raw = elim (host_of hostname raw) [ none ↦ false | some h ↦ true ]

-- The URLs of all groups, group by group.
abbrev pub all_urls : Groups → List Text
all_urls [] = []
all_urls ((h, urls) ∷ gs) = urls ++ all_urls gs

pub times_nil : (x : Text) → times x [] ≡ 0
unfolding times
times_nil x = refl

pub times-append : (x : Text) (a b : List Text) → times x (a ++ b) ≡ times x a + times x b
unfolding times
times-append x [] b = omega arith
times-append x (u ∷ a) b = ground (arith, times-append x a b)

times-add_to_group :
    (x h raw : Text) (gs : Groups)
    → times x (all_urls (add_to_group h raw gs)) ≡ times x (all_urls gs) + times x (raw ∷ [])
unfolding add_to_group
times-add_to_group x h raw [] = omega (arith, times_nil x)
times-add_to_group x h raw ((k, urls) ∷ gs) = elim (Bool-cases (text_eq k h)) [
  | inl e ↦ rw e (
      omega (
        arith,
        times-append x (urls ++ raw ∷ []) (all_urls gs),
        times-append x urls (raw ∷ []),
        times-append x urls (all_urls gs),
      ))
  | inr e ↦ rw e (
      omega (
        arith,
        times-append x urls (all_urls (add_to_group h raw gs)),
        times-append x urls (all_urls gs),
        times-add_to_group x h raw gs,
      ))
]

module _ (hostname : Text → Option Text) where
  pub times-group_urls :
      (x : Text) (urls : List Text) (gs : Groups)
      → times x (all_urls (group_urls hostname urls gs))
        ≡ times x (all_urls gs) + times x (select (has_host hostname) urls)
  unfolding group_urls select
  times-group_urls x [] gs = omega (arith, times_nil x)
  times-group_urls x (raw ∷ urls) gs =
      times-group_urls x urls (add_if_host (host_of hostname raw) raw gs)
      ∙ one_more (select (has_host hostname) urls) (host_of hostname raw)
    where
      one_more :
          (rest : List Text) (o : Option Text)
          → times x (all_urls (add_if_host o raw gs)) + times x rest
            ≡ times x (all_urls gs)
              + times x (if elim o [ none ↦ false | some h ↦ true ] then raw ∷ rest else rest)
      one_more rest none = refl
      one_more rest (some h) =
          omega (arith, times-add_to_group x h raw gs, times-append x (raw ∷ []) rest)

times-insert_by :
    (x : Text) (o : ScrapeOutcome) (os : List ScrapeOutcome)
    → times x (urls_of (insert_by outcome_before o os)) ≡ times x (o.url ∷ urls_of os)
unfolding insert_by
times-insert_by x o [] = refl
times-insert_by x o (p ∷ os) = elim (Bool-cases (outcome_before p o)) [
  | inl e ↦ rw e (
      omega (
        arith,
        times-insert_by x o os,
        times-append x (p.url ∷ []) (urls_of (insert_by outcome_before o os)),
        times-append x (o.url ∷ []) (p.url ∷ urls_of os),
        times-append x (p.url ∷ []) (urls_of os),
        times-append x (o.url ∷ []) (urls_of os),
      ))
  | inr e ↦ rw e refl
]

pub times-order_by :
    (x : Text) (os : List ScrapeOutcome)
    → times x (urls_of (order_by outcome_before os)) ≡ times x (urls_of os)
unfolding order_by
times-order_by x [] = refl
times-order_by x (o ∷ os) =
    times-insert_by x o _
    ∙ omega (
      arith,
      times-order_by x os,
      times-append x (o.url ∷ []) (urls_of (order_by outcome_before os)),
      times-append x (o.url ∷ []) (urls_of os),
    )

pub urls_of-append : (a b : List ScrapeOutcome) → urls_of (a ++ b) ≡ urls_of a ++ urls_of b
urls_of-append [] b = refl
urls_of-append (o ∷ a) b = ap (λ us. o.url ∷ us) (urls_of-append a b)
