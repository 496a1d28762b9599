-- ===== src/Scraper/Groups.antt =====
-- scraper.go, `groupByHost` and `Scrape`. The hosts' goroutines run one after another here, in the
-- order in which the hosts first occur. A host whose goroutine gets no slot before the context is done
-- has no outcome, as one whose first page finds the context done.
use go_web_search.Prelude.{
  zero, suc, ◌+◌, leb, true, false, not, ◌&&◌, ◌||◌, Bool, List, [], ◌∷◌, ◌++◌, Option, none, some,
  String, if◌then◌else◌, ℤ, pos, negsuc, take,
}
use go_web_search.Clock.{Time, Duration, bytes_lt}
use go_web_search.Strings.{Text, text_eq, to_lower}
use go_web_search.Sql.{order_by}
use go_web_search.Store.{M, ◌>>=◌, pure, now}
use go_web_search.Tier.{TierConfig}
use go_web_search.ScrapeCache.{ScrapeOutcome}
use go_web_search.Robots.{RobotsCache}
use go_web_search.Scraper.{ScrapeConfig, Net}
use go_web_search.Scraper.One.{scrape_one}

abbrev pub Groups : Type 0
Groups = List (Text × List Text)

-- groups[host] = append(groups[host], raw)
unfoldable pub add_to_group : Text → Text → Groups → Groups
add_to_group host raw [] = (host, raw ∷ []) ∷ []
add_to_group host raw ((h, urls) ∷ gs) =
    if text_eq h host then (h, urls ++ raw ∷ []) ∷ gs else (h, urls) ∷ add_to_group host raw gs

-- The host that a URL is grouped under; a URL without one is left out.
abbrev pub host_or_none : Option Text → Option Text
unfolding to_lower
host_or_none none = none
host_or_none (some []) = none
host_or_none (some (c ∷ s)) = some (to_lower (c ∷ s))

abbrev pub add_if_host : Option Text → Text → Groups → Groups
unfolding add_to_group
add_if_host none raw gs = gs
add_if_host (some host) raw gs = add_to_group host raw gs

-- groupByHost; `hostname` is url.Parse with Hostname.
module _ (hostname : Text → Option Text) where
  abbrev pub host_of : Text → Option Text
  unfolding host_or_none
  host_of raw = host_or_none (hostname raw)

  unfoldable pub group_urls : List Text → Groups → Groups
  unfolding add_if_host host_of
  group_urls [] gs = gs
  group_urls (raw ∷ urls) gs = group_urls urls (add_if_host (host_of raw) raw gs)

-- `urls[:max]`, for a positive max that is exceeded.
abbrev pub cap_urls : ℤ → List Text → List Text
cap_urls (pos zero) urls = urls
cap_urls (pos (suc n)) urls = take (suc n) urls
cap_urls (negsuc n) urls = urls

abbrev pub outcome_before : ScrapeOutcome → ScrapeOutcome → Bool
outcome_before a b = bytes_lt a.url b.url

-- Whether the context is done: the caller's, or by its deadline.
abbrev pub is_past : Option Time → Time → Bool
is_past none t = false
is_past (some d) t = leb d t

abbrev pub ctx_done : Net → Option Time → Time → Bool
ctx_done net deadline t = net.done t || is_past deadline t

module _ (cfg : ScrapeConfig) (tier : TierConfig) (net : Net) (run_id : String) (use_cache : Bool)
    (max_age : Duration) where
  module _ (deadline : Option Time) where
    -- `ctx.Err() == nil`
    unfoldable pub alive : M Bool
    unfolding now
    alive = do t ← now; pure (not (ctx_done net deadline t))

    -- What precedes a page: the test of the context, and behind the first page the delay of sleepCtx,
    -- which is some time on the clock.
    unfoldable pub may_visit : Bool → M Bool
    unfolding alive
    may_visit first = do up ← alive; if up && not first then alive else pure up

    -- The pages of one host, one after another, up to one that finds the context done.
    unfoldable pub scrape_list :
        Bool → List Text → RobotsCache → M (List ScrapeOutcome × RobotsCache)
    unfolding may_visit
    scrape_list first [] c = pure ([], c)
    scrape_list first (raw ∷ urls) c =
        let rest = scrape_list false urls in
        (do
          go_on ← may_visit first
          if go_on
              then (do
                outcome ← scrape_one cfg tier net run_id raw use_cache max_age c
                more ← rest outcome.1
                pure (outcome.0 ∷ more.0, more.1))
              else pure ([], c))

    unfoldable pub scrape_groups : Groups → RobotsCache → M (List ScrapeOutcome × RobotsCache)
    unfolding scrape_list
    scrape_groups [] c = pure ([], c)
    scrape_groups ((host, urls) ∷ gs) c = do
      first ← scrape_list true urls c
      rest ← scrape_groups gs first.1
      pure (first.0 ++ rest.0, rest.1)

  -- context.WithTimeout, for a positive total_timeout.
  unfoldable pub with_timeout : Duration → M (Option Time)
  unfolding now
  with_timeout (pos zero) = pure none
  with_timeout (pos (suc n)) = do t ← now; pure (some (t + suc n))
  with_timeout (negsuc n) = pure none

  -- Scrape
  unfoldable pub scrape : List Text → RobotsCache → M (List ScrapeOutcome × RobotsCache)
  unfolding scrape_groups group_urls with_timeout
  scrape urls c = do
    deadline ← with_timeout cfg.total_timeout
    results ← scrape_groups deadline (group_urls net.hostname (cap_urls cfg.max_urls urls) []) c
    pure (order_by outcome_before results.0, results.1)
