-- ===== src/Stats/Tally.antt =====
-- stats.go, `cacheStats`: what a snapshot of a cache says of its rows.
use go_web_search.Prelude.{
  ℕ, ◌≤◌, ◌≡◌, refl, ap, ◌∙◌, subst, Bool, List, [], ◌∷◌, Option, length, arith,
}
use go_web_search.Clock.{Stamp, format}
use go_web_search.Rows.{Tier, Tables}
use go_web_search.Sql.{count}
use go_web_search.Store.{ok, World, now, now_rfc3339, query}
use go_web_search.Store.Laws.{query_calm, bind_ok, tick_from_same}
use go_web_search.Cleanup.{past}
use go_web_search.Tier.{tier_eq}
use go_web_search.Stats.{
  CacheStats, cache_stats, totals, sum_hits, has_hits, tiers_of, group_tiers, record_tiers,
  no_tiers,
}
use go_web_search.Stats.Grouped.{or_zero, record_tiers-count}

module _ {A : Type 0} (tier_of : A → Tier) (hits_of : A → ℕ) (expiry_of : A → Option Stamp) where
  -- The counts are of these rows, and fit together.
  pub record IsTally (rs : List A) (v : CacheStats) : Type 0 where
    pub all : v.rows ≡ length rs
    pub with_hits : v.rows_with_hits ≤ v.rows
    pub reused : v.rows_with_hits ≤ v.total_hits
    pub gone : v.expired ≤ v.rows
    pub by_tier : (t : Tier) → or_zero (v.tiers t) ≡ count (λ r. tier_eq t (tier_of r)) rs

  count_at_most : (p : A → Bool) (rs : List A) → count p rs ≤ length rs
  unfolding count
  count_at_most p [] = ground arith
  count_at_most p (r ∷ rs) = ground (arith, count_at_most p rs)

  hits_at_least :
      (rs : List A)
      → count (has_hits tier_of hits_of expiry_of) rs ≤ sum_hits tier_of hits_of expiry_of rs
  unfolding count sum_hits
  hits_at_least [] = ground arith
  hits_at_least (r ∷ rs) = ground (arith, hits_at_least rs)

  tiers-count :
      (t : Tier) (rs : List A)
      → count (tier_eq t) (tiers_of tier_of hits_of expiry_of rs)
        ≡ count (λ r. tier_eq t (tier_of r)) rs
  unfolding count tiers_of
  tiers-count t [] = refl
  tiers-count t (r ∷ rs) = ground (arith, tiers-count t rs)

  tally : Stamp → List A → CacheStats
  tally at rs = record (totals tier_of hits_of expiry_of at rs) {
    tiers = record_tiers no_tiers (group_tiers (tiers_of tier_of hits_of expiry_of rs));
  }

  tally-IsTally : (at : Stamp) (rs : List A) → IsTally rs (tally at rs)
  unfolding tally
  tally-IsTally at rs = record {
    all = refl;
    with_hits = count_at_most (has_hits tier_of hits_of expiry_of) rs;
    reused = hits_at_least rs;
    gone = count_at_most (λ r. past at (expiry_of r)) rs;
    by_tier = λ t. record_tiers-count (tiers_of tier_of hits_of expiry_of rs) t ∙ tiers-count t rs;
  }

  module _ (rows_of : Tables → List A) (w : World) (calm : w.faults ≡ []) where
    abbrev later : World
    later = (now_rfc3339 w).1

    clock_read : now_rfc3339 w ≡ (ok (format later.clock), later)
    unfolding now_rfc3339 now
    clock_read = refl

    later_same : (later.faults ≡ []) × (later.tables ≡ w.tables)
    unfolding now_rfc3339 now
    later_same = ground (arith, tick_from_same w.ticks w)

    shown :
        (cache_stats tier_of hits_of expiry_of rows_of w).0
        ≡ ok (tally (format later.clock) (rows_of later.tables))
    unfolding cache_stats tally
    shown =
        ap (λ o. o.0)
          (bind_ok now_rfc3339 _ w (format later.clock) later clock_read
            ∙ bind_ok
                (query (λ t. totals tier_of hits_of expiry_of (format later.clock) (rows_of t))) _
                later _ later (query_calm _ later later_same.0)
            ∙ bind_ok (query (λ t. group_tiers (tiers_of tier_of hits_of expiry_of (rows_of t)))) _
                later _ later (query_calm _ later later_same.0))

    -- Without a fault of the driver a cache's statistics are given: they count all its rows, no
    -- more rows with hits or past their expiry than rows, at least one hit for each row with hits,
    -- and for every tier the rows that carry it, none for a tier without an entry.
    pub cache_stats_lem :
        (v : CacheStats) × ((cache_stats tier_of hits_of expiry_of rows_of w).0 ≡ ok v)
        × IsTally (rows_of w.tables) v
    cache_stats_lem = (
      tally (format later.clock) (rows_of later.tables),
      shown,
      subst (λ t. IsTally (rows_of t) (tally (format later.clock) (rows_of later.tables)))
          later_same.1 (tally-IsTally (format later.clock) (rows_of later.tables)),
    )
