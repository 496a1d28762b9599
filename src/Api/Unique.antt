-- ===== src/Api/Unique.antt =====
-- server.go, `runSearch`: the URLs of the answer, and how often each is scraped.
use go_web_search.Prelude.{
  ℕ, zero, suc, ◌≤◌, ◌≡◌, refl, inl, inr, Bool, true, false, List, [], ◌∷◌, ◌++◌, map-snoc, String,
  str_eq, In, Distinct, Distinct-snoc, Bool-cases, if-holds, subst, sym, ◌∙◌, arith, ℤ, pos, negsuc,
  take,
}
use go_web_search.Clock.{Duration}
use go_web_search.Strings.{Text, runes, text_eq, text_eq_iff}
use go_web_search.Rows.{CachedUrl}
use go_web_search.Sql.{select}
use go_web_search.Store.{Error, ok, World, M}
use go_web_search.Store.Yields.{
  Yields, Yields-pure, Yields-fail, Yields-any, Yields-if, Yields-bind, ok-injective,
}
use go_web_search.Tier.{TierConfig}
use go_web_search.Llm.{LlmClient}
use go_web_search.Memory.{MemoryConfig}
use go_web_search.Runs.{start_run}
use go_web_search.Runs.Listing.{member}
use go_web_search.Runs.Member.{member_of_In}
use go_web_search.ScrapeCache.{ScrapeOutcome}
use go_web_search.Robots.{RobotsCache}
use go_web_search.Scraper.{ScrapeConfig, Net}
use go_web_search.Scraper.Groups.{scrape, cap_urls}
use go_web_search.Scraper.Outcomes.{scrape_lem}
use go_web_search.Scraper.Times.{times, urls_of, has_host}
use go_web_search.Harvest.{SearchConfig, Web, search_terms}
use go_web_search.Resolver.{
  ResolveOpts, SearchOutcome, from_memory, from_cache, live, resolver_search,
}
use go_web_search.Api.{
  SearchRequest, SearchResponse, Found, add_urls, add_outcome, url_texts, remember_scrapes,
}
use go_web_search.Api.Operations.{
  resolve_terms, response, scrape_found, scrape_if, in_run, is_empty, run_search,
}

add_urls-Distinct :
    (urls us : List CachedUrl) → Distinct (url_texts urls) → Distinct (url_texts (add_urls urls us))
unfolding add_urls
add_urls-Distinct urls [] d = d
add_urls-Distinct urls (u ∷ us) d =
    if-holds (λ (xs : List CachedUrl). Distinct (url_texts xs))
      (member text_eq u.url (url_texts urls)) _ _ (λ seen. add_urls-Distinct urls us d)
      (λ new. add_urls-Distinct (urls ++ u ∷ []) us (
        subst Distinct (sym (map-snoc (λ (x : CachedUrl). x.url) urls u)) (
          Distinct-snoc (url_texts urls) u.url d
            (λ i. clash new (member_of_In u.url (url_texts urls) i)))))
  where
    clash : {b : Bool} → b ≡ false → b ≡ true → ⊥
    clash p q = cc

abbrev IsUnique : Found → Type 0
IsUnique st = Distinct (url_texts st.urls)

add_outcome-IsUnique :
    (term : Text) (out : SearchOutcome) (st : Found)
    → IsUnique st
    → IsUnique (add_outcome term out st)
unfolding add_outcome
add_outcome-IsUnique term (from_memory answer facts) st d = d
add_outcome-IsUnique term (from_cache us) st d = add_urls-Distinct st.urls us d
add_outcome-IsUnique term (live id us) st d = add_urls-Distinct st.urls us d

-- A URL of a list without duplicates occurs once at most, and not more often in a part of the list.
times_absent : (x : Text) (urls : List Text) → ¬ In x urls → times x urls ≡ 0
unfolding times
times_absent x [] h = refl
times_absent x (u ∷ urls) h = elim (Bool-cases (text_eq u x)) [
  | inl e ↦ absurd (h (inl ((text_eq_iff u x).0 e)))
  | inr e ↦ rw e (times_absent x urls (λ i. h (inr i)))
]

times_distinct : (x : Text) (urls : List Text) → Distinct urls → times x urls ≤ 1
unfolding times
times_distinct x [] d = omega arith
times_distinct x (u ∷ urls) d = elim (Bool-cases (text_eq u x)) [
  | inl e ↦
      rw e
        (omega (arith, times_absent x urls (subst (λ y. ¬ In y urls) ((text_eq_iff u x).0 e) d.0)))
  | inr e ↦ rw e (times_distinct x urls d.1)
]

times-select :
    (x : Text) (p : Text → Bool) (urls : List Text) → times x (select p urls) ≤ times x urls
unfolding times select
times-select x p [] = omega arith
times-select x p (u ∷ urls) = ground (arith, times-select x p urls)

times-take : (x : Text) (n : ℕ) (urls : List Text) → times x (take n urls) ≤ times x urls
unfolding times
times-take x zero urls = omega arith
times-take x (suc n) [] = omega arith
times-take x (suc n) (u ∷ urls) = ground (arith, times-take x n urls)

times-cap_urls :
    (x : Text) (max : ℤ) (urls : List Text) → times x (cap_urls max urls) ≤ times x urls
times-cap_urls x (pos zero) urls = omega arith
times-cap_urls x (pos (suc n)) urls = times-take x (suc n) urls
times-cap_urls x (negsuc n) urls = omega arith

-- The URLs of an answer are distinct, and none is scraped twice.
abbrev pub IsOnce : SearchResponse × RobotsCache → Type 0
IsOnce x = Distinct (url_texts x.0.urls) × ((url : Text) → times url (urls_of x.0.scrapes) ≤ 1)

nothing_scraped : (url : Text) → times url [] ≤ 1
unfolding times
nothing_scraped url = omega arith

module _ (cfg : ScrapeConfig) (tier : TierConfig) (mem : MemoryConfig) (llm : LlmClient) (net : Net)
    (search_cfg : SearchConfig) (web : Web) where
  resolve_terms-IsUnique :
      (terms : List Text) (o : ResolveOpts) (st : Found)
      → IsUnique st
      → Yields IsUnique (resolve_terms cfg tier mem llm net search_cfg web terms o st)
  unfolding resolve_terms
  resolve_terms-IsUnique [] o st d = Yields-pure IsUnique st d
  resolve_terms-IsUnique (term ∷ terms) o st d =
      Yields-bind (λ (out : SearchOutcome). Unit {0}) IsUnique
        (resolver_search llm tier mem (search_terms search_cfg web) term o) _
        (Yields-any _ (resolver_search llm tier mem (search_terms search_cfg web) term o)
          (λ out. tt))
        λ out u.
          resolve_terms-IsUnique terms o (add_outcome term out st)
            (add_outcome-IsUnique term out st d)

  abbrev AreOnce : List ScrapeOutcome × RobotsCache → Type 0
  AreOnce x = (url : Text) → times url (urls_of x.0) ≤ 1

  scrape-AreOnce :
      (run_id : String) (use_cache : Bool) (max_age : Duration) (urls : List Text) (c : RobotsCache)
      → Distinct urls
      → Yields AreOnce (scrape cfg tier net run_id use_cache max_age urls c)
  scrape-AreOnce run_id use_cache max_age urls c d = record {
    at = λ w a e.
        let (x, done, most, all) = scrape_lem cfg tier net run_id use_cache max_age urls c w in
        subst AreOnce (ok-injective x a (sym done ∙ e)) (λ url. omega (
          arith,
          most url,
          times_distinct url urls d,
          times-select url (has_host net.hostname) (cap_urls cfg.max_urls urls),
          times-cap_urls url cfg.max_urls urls,
        ));
  }

  scrape_found-IsOnce :
      (req : SearchRequest) (st : Found) (c : RobotsCache) (run_id : String)
      → IsUnique st
      → Yields IsOnce (scrape_found cfg tier mem llm net search_cfg web req st c run_id)
  unfolding scrape_found
  scrape_found-IsOnce req st c run_id d =
      Yields-bind AreOnce IsOnce (scrape cfg tier net run_id _ _ (url_texts st.urls) c) _
        (scrape-AreOnce run_id _ _ (url_texts st.urls) c d)
        λ scraped once.
          Yields-bind (λ (u : Unit {0}). Unit {0}) IsOnce
            (remember_scrapes mem.remember_default req.remember [] [] scraped.0) _
            (Yields-any _ (remember_scrapes mem.remember_default req.remember [] [] scraped.0)
              (λ u. tt))
            λ u v. Yields-pure IsOnce _ (d, once)

  in_run-IsOnce :
      (run_id : String) (body : String → M (SearchResponse × RobotsCache))
      → ((id : String) → Yields IsOnce (body id))
      → Yields IsOnce (in_run cfg tier mem llm net search_cfg web run_id body)
  unfolding in_run
  in_run-IsOnce run_id body h =
      Yields-if IsOnce (str_eq run_id "") _ _
        (λ e.
          Yields-bind (λ (id : String). Unit {0}) IsOnce (start_run (runes "api-scrape") []) _
            (Yields-any _ (start_run (runes "api-scrape") []) (λ id. tt))
            λ id u. record { at = λ w a k. (h id).at w a k })
        (λ e. h run_id)

  scrape_if-IsOnce :
      (req : SearchRequest) (st : Found) (c : RobotsCache)
      → IsUnique st
      → Yields IsOnce (scrape_if cfg tier mem llm net search_cfg web req st c)
  unfolding scrape_if response
  scrape_if-IsOnce req st c d =
      Yields-if IsOnce _ _ _
        (λ e. in_run-IsOnce st.run_id _ (λ id. scrape_found-IsOnce req st c id d))
        (λ e.
          Yields-pure IsOnce (response cfg tier mem llm net search_cfg web req st [] [], c)
            (d, nothing_scraped))

  -- Whatever the memory, the caches, the engines, the driver and the network do: in the answer of
  -- runSearch, no URL is listed twice, and none is scraped twice.
  pub run_search-IsOnce :
      (req : SearchRequest) (c : RobotsCache) (w : World) (x : SearchResponse × RobotsCache)
      → (run_search cfg tier mem llm net search_cfg web req c w).0 ≡ ok x
      → IsOnce x
  unfolding run_search
  run_search-IsOnce req c w x e =
      (Yields-if IsOnce (is_empty cfg tier mem llm net search_cfg web req.terms) _ _
          (λ none. Yields-fail IsOnce Error.invalid)
          (λ some.
            Yields-bind IsUnique IsOnce
              (resolve_terms cfg tier mem llm net search_cfg web req.terms _ _) _
              (resolve_terms-IsUnique req.terms _ _ tt) (λ st d. scrape_if-IsOnce req st c d))).at
        w x e
