-- ===== src/Scraper/Outcomes.antt =====
-- scraper.go, `Scrape`: the outcomes of a call against its URLs.
use go_web_search.Prelude.{
  zero, suc, ◌+◌, ◌≤◌, ◌≡◌, refl, not, ◌&&◌, pos, negsuc, ◌≤ℤ◌, ap, ◌∙◌, Bool, true, false, List,
  [], ◌∷◌, ◌++◌, Option, none, some, String, if◌then◌else◌, arith,
}
use go_web_search.Clock.{Time, Duration}
use go_web_search.Strings.{Text}
use go_web_search.Sql.{select, order_by}
use go_web_search.Store.{ok, World, ◌>>=◌, pure, now}
use go_web_search.Store.Always.{Always, Always-pure, Always-bind, Always-now, Always-if}
use go_web_search.Tier.{TierConfig}
use go_web_search.ScrapeCache.{ScrapeOutcome}
use go_web_search.Robots.{RobotsCache}
use go_web_search.Scraper.{ScrapeConfig, Net}
use go_web_search.Scraper.One.{scrape_one}
use go_web_search.Scraper.Groups.{
  Groups, group_urls, cap_urls, outcome_before, ctx_done, alive, may_visit, with_timeout,
  scrape_list, scrape_groups, scrape,
}
use go_web_search.Scraper.Covers.{scrape_one-IsFor, OutcomeFor}
use go_web_search.Scraper.Times.{
  times, urls_of, has_host, all_urls, times_nil, times-append, times-group_urls, times-order_by,
  urls_of-append,
}

module _ (cfg : ScrapeConfig) (tier : TierConfig) (net : Net) (run_id : String) (use_cache : Bool)
    (max_age : Duration) where
  -- No instant finds the context done.
  abbrev NeverDone : Option Time → Type 0
  NeverDone deadline = (t : Time) → ctx_done net deadline t ≡ false

  -- The outcomes are for URLs of the list, and for all of them where the context is never done.
  abbrev For : Option Time → List Text → List ScrapeOutcome × RobotsCache → Type 0
  For deadline urls x =
      ((url : Text) → times url (urls_of x.0) ≤ times url urls)
      × (NeverDone deadline → urls_of x.0 ≡ urls)

  module _ (deadline : Option Time) where
    abbrev Permits : Bool → Type 0
    Permits b = NeverDone deadline → b ≡ true

    alive-Permits : Always (alive cfg tier net run_id use_cache max_age deadline) Permits
    unfolding alive
    alive-Permits =
        Always-bind (λ t. Unit {0}) Permits now _ Always-now
          λ t u. Always-pure Permits (not (ctx_done net deadline t)) (λ h. ap not (h t))

    may_visit-Permits :
        (first : Bool)
        → Always (may_visit cfg tier net run_id use_cache max_age deadline first) Permits
    unfolding may_visit
    may_visit-Permits first =
        Always-bind Permits Permits (alive cfg tier net run_id use_cache max_age deadline) _
          alive-Permits
          λ up h.
            Always-if Permits (up && not first)
              (alive cfg tier net run_id use_cache max_age deadline) (pure up) alive-Permits
              (Always-pure Permits up h)

    cons-For :
        (raw : Text) (urls : List Text) (o : ScrapeOutcome) (x : List ScrapeOutcome × RobotsCache)
        → o.url ≡ raw
        → For deadline urls x
        → For deadline (raw ∷ urls) (o ∷ x.0, x.1)
    cons-For raw urls o x e (le, all) = (
      λ url. omega (
        arith,
        le url,
        times-append url (o.url ∷ []) (urls_of x.0),
        times-append url (raw ∷ []) urls,
        ap (λ u. times url (u ∷ [])) e,
      ),
      λ h. ap (λ u. u ∷ urls_of x.0) e ∙ ap (λ us. raw ∷ us) (all h),
    )

    scrape_list-For :
        (first : Bool) (urls : List Text) (c : RobotsCache)
        → Always
            (scrape_list cfg tier net run_id use_cache max_age deadline first urls c)
            (For deadline urls)
    unfolding scrape_list
    scrape_list-For first [] c = Always-pure (For deadline []) _ (λ url. omega arith, λ h. refl)
    scrape_list-For first (raw ∷ urls) c =
        Always-bind Permits (For deadline (raw ∷ urls))
          (may_visit cfg tier net run_id use_cache max_age deadline first) _
          (may_visit-Permits first) (visit (λ c. scrape_list-For false urls c))
      where
        visit :
            ((c : RobotsCache)
              → Always
                  (scrape_list cfg tier net run_id use_cache max_age deadline false urls c)
                  (For deadline urls))
            → (b : Bool) → Permits b
            → Always
                (if b
                  then (scrape_one cfg tier net run_id raw use_cache max_age c >>= λ o.
                      scrape_list cfg tier net run_id use_cache max_age deadline false urls o.1
                      >>= λ more. pure (o.0 ∷ more.0, more.1))
                  else pure ([], c))
                (For deadline (raw ∷ urls))
        visit rest false h =
            Always-pure (For deadline (raw ∷ urls)) ([], c)
              (λ url. omega (arith, times_nil url), λ n. absurd (no (h n)))
          where
            no : false ≡ true → ⊥
            no e = cc
        visit rest true h =
            Always-bind (OutcomeFor cfg tier net raw) (For deadline (raw ∷ urls))
              (scrape_one cfg tier net run_id raw use_cache max_age c) _
              (scrape_one-IsFor cfg tier net raw run_id use_cache max_age c)
              λ o e.
                Always-bind (For deadline urls) (For deadline (raw ∷ urls))
                  (scrape_list cfg tier net run_id use_cache max_age deadline false urls o.1) _
                  (rest o.1)
                  λ more es.
                    Always-pure (For deadline (raw ∷ urls)) (o.0 ∷ more.0, more.1)
                      (cons-For raw urls o.0 more e es)

    append-For :
        (urls rest : List Text) (x y : List ScrapeOutcome × RobotsCache)
        → For deadline urls x
        → For deadline rest y
        → For deadline (urls ++ rest) (x.0 ++ y.0, y.1)
    append-For urls rest x y h k = (
      λ url. omega (
        arith,
        h.0 url,
        k.0 url,
        ap (times url) (urls_of-append x.0 y.0),
        times-append url (urls_of x.0) (urls_of y.0),
        times-append url urls rest,
      ),
      λ n.
          urls_of-append x.0 y.0
          ∙ ap (λ us. us ++ urls_of y.0) (h.1 n)
          ∙ ap (λ us. urls ++ us) (k.1 n),
    )

    scrape_groups-For :
        (gs : Groups) (c : RobotsCache)
        → Always
            (scrape_groups cfg tier net run_id use_cache max_age deadline gs c)
            (For deadline (all_urls gs))
    unfolding scrape_groups
    scrape_groups-For [] c = Always-pure (For deadline []) _ (λ url. omega arith, λ h. refl)
    scrape_groups-For ((h, urls) ∷ gs) c =
        Always-bind (For deadline urls) (For deadline (urls ++ all_urls gs))
          (scrape_list cfg tier net run_id use_cache max_age deadline true urls c) _
          (scrape_list-For true urls c)
          λ first e.
            Always-bind (For deadline (all_urls gs)) (For deadline (urls ++ all_urls gs))
              (scrape_groups cfg tier net run_id use_cache max_age deadline gs first.1) _
              (scrape_groups-For gs first.1)
              λ rest es.
                Always-pure (For deadline (urls ++ all_urls gs)) (first.0 ++ rest.0, rest.1)
                  (append-For urls (all_urls gs) first rest e es)

  -- The deadline is none where there is no positive timeout.
  abbrev Bounded : Option Time → Type 0
  Bounded deadline = cfg.total_timeout ≤ℤ pos 0 → deadline ≡ none

  with_timeout-Bounded :
      Always (with_timeout cfg tier net run_id use_cache max_age cfg.total_timeout) Bounded
  unfolding with_timeout
  with_timeout-Bounded = by_sign cfg.total_timeout
    where
      by_sign :
          (d : Duration)
          → Always
              (with_timeout cfg tier net run_id use_cache max_age d)
              (λ deadline. d ≤ℤ pos 0 → deadline ≡ none)
      by_sign (pos zero) = Always-pure _ none (λ h. refl)
      by_sign (pos (suc n)) =
          Always-bind (λ t. Unit {0}) _ now _ Always-now
            λ t u.
              Always-pure (λ deadline. pos (suc n) ≤ℤ pos 0 → deadline ≡ none) (some (t + suc n))
                (λ h. absurd (ground (arith, h)))
      by_sign (negsuc n) = Always-pure _ none (λ h. refl)

  -- The outcomes against the URLs of the call.
  abbrev Visited : List Text → List ScrapeOutcome × RobotsCache → Type 0
  Visited urls x =
      ((url : Text)
        → times url (urls_of x.0)
          ≤ times url (select (has_host net.hostname) (cap_urls cfg.max_urls urls)))
      × (cfg.total_timeout ≤ℤ pos 0
          → ((t : Time) → net.done t ≡ false)
          → (url : Text)
          → times url (urls_of x.0)
            ≡ times url (select (has_host net.hostname) (cap_urls cfg.max_urls urls)))

  visited :
      (urls : List Text) (deadline : Option Time)
      → Bounded deadline
      → (x : List ScrapeOutcome × RobotsCache)
      → For deadline (all_urls (group_urls net.hostname (cap_urls cfg.max_urls urls) [])) x
      → Visited urls (order_by outcome_before x.0, x.1)
  visited urls deadline b x (le, all) = (
    λ url. omega (
      arith,
      le url,
      times-order_by url x.0,
      times-group_urls net.hostname url (cap_urls cfg.max_urls urls) [],
      times_nil url,
    ),
    λ no_timeout idle url. omega (
      arith,
      ap (times url) (all (never (b no_timeout) idle)),
      times-order_by url x.0,
      times-group_urls net.hostname url (cap_urls cfg.max_urls urls) [],
      times_nil url,
    ),
  )
    where
      never : deadline ≡ none → ((t : Time) → net.done t ≡ false) → NeverDone deadline
      never e idle t = rw e (rw (idle t) refl)

  -- Whatever the driver, the network, the browser and the caller's context do: Scrape returns, and it
  -- has no more outcomes for a URL than the URL is given, up to the configured number of URLs, and none
  -- for a URL without a host; and where no total timeout is set and the caller's context is never done,
  -- one for each time that a URL with a host is given.
  pub scrape_lem :
      (urls : List Text) (c : RobotsCache) (w : World)
      → (x : List ScrapeOutcome × RobotsCache) × ((scrape cfg tier net run_id use_cache max_age urls
            c w).0
          ≡ ok x)
        × ((url : Text)
            → times url (urls_of x.0)
              ≤ times url (select (has_host net.hostname) (cap_urls cfg.max_urls urls)))
        × (cfg.total_timeout ≤ℤ pos 0
            → ((t : Time) → net.done t ≡ false)
            → (url : Text)
            → times url (urls_of x.0)
              ≡ times url (select (has_host net.hostname) (cap_urls cfg.max_urls urls)))
  unfolding scrape
  scrape_lem urls c w =
      let gs : Groups = group_urls net.hostname (cap_urls cfg.max_urls urls) [] in
      let (x, done, v) =
        (Always-bind Bounded (Visited urls)
            (with_timeout cfg tier net run_id use_cache max_age cfg.total_timeout) _
            with_timeout-Bounded
            λ deadline b.
              Always-bind (For deadline (all_urls gs)) (Visited urls)
                (scrape_groups cfg tier net run_id use_cache max_age deadline gs c) _
                (scrape_groups-For deadline gs c)
                λ results e.
                  Always-pure (Visited urls) (order_by outcome_before results.0, results.1)
                    (visited urls deadline b results e)).at
          w in
      (x, done, v.0, v.1)
