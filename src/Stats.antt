-- ===== src/Stats.antt =====
-- stats.go: the embedding state and the shape of a cache.
pub mod Grouped
pub mod Tally
pub mod Queue
use go_web_search.Prelude.{
  ℕ, zero, suc, ◌+◌, Bool, true, false, List, [], ◌∷◌, Option, none, some, if◌then◌else◌, ltb,
  length, ℤ,
}
use go_web_search.Clock.{Stamp}
use go_web_search.Strings.{Text}
use go_web_search.Rows.{
  Tier, short, long, permanent, embed_model, embed_dim, vector_migration, SearchCacheRow, ScrapeRow,
  Tables,
}
use go_web_search.Sql.{count}
use go_web_search.Store.{M, ◌>>=◌, pure, now_rfc3339, query}
use go_web_search.Clean.{atoi}
use go_web_search.Meta.{meta_get}
use go_web_search.Cleanup.{past}
use go_web_search.Tier.{tier_eq}

-- The fields of StatsView that embedMeta fills.
pub record EmbedState : Type 0 where
  pub model : Text
  pub dim : ℤ
  pub migrating : Bool

-- The value "" for an absent key.
abbrev pub meta_text : Option Text → Text
meta_text none = []
meta_text (some v) = v

abbrev pub is_set : Text → Bool
is_set [] = false
is_set (c ∷ s) = true

unfoldable pub embed_meta : M EmbedState
unfolding meta_get atoi
embed_meta = do
  model ← meta_get embed_model
  dim ← meta_get embed_dim
  migration ← meta_get vector_migration
  pure (record {
    model = meta_text model;
    dim = atoi (meta_text dim);
    migrating = is_set (meta_text migration);
  })

-- A map: none for a tier that is no key.
abbrev pub TierCounts : Type 0
TierCounts = Tier → Option ℕ

pub record CacheStats : Type 0 where
  pub rows : ℕ
  pub total_hits : ℕ
  pub rows_with_hits : ℕ
  pub expired : ℕ
  pub tiers : TierCounts

-- The three tiers start at zero.
abbrev pub no_tiers : TierCounts
no_tiers short = some 0
no_tiers long = some 0
no_tiers permanent = some 0
no_tiers _ = none

-- `tier, COUNT(*) ... GROUP BY tier`, in an order that SQL leaves open.
unfoldable pub count_tier : Tier → List (Tier × ℕ) → List (Tier × ℕ)
count_tier t [] = (t, 1) ∷ []
count_tier t ((u, n) ∷ gs) =
    let rest = count_tier t gs in if tier_eq t u then (u, suc n) ∷ gs else (u, n) ∷ rest

unfoldable pub group_tiers : List Tier → List (Tier × ℕ)
unfolding count_tier
group_tiers [] = []
group_tiers (t ∷ ts) = count_tier t (group_tiers ts)

unfoldable pub record_tiers : TierCounts → List (Tier × ℕ) → TierCounts
record_tiers m [] = m
record_tiers m ((u, n) ∷ gs) = record_tiers (λ t. if tier_eq t u then some n else m t) gs

-- The columns that both caches have.
module _ {A : Type 0} (tier_of : A → Tier) (hits_of : A → ℕ) (expiry_of : A → Option Stamp) where
  unfoldable pub tiers_of : List A → List Tier
  tiers_of [] = []
  tiers_of (r ∷ rs) = tier_of r ∷ tiers_of rs

  unfoldable pub sum_hits : List A → ℕ
  sum_hits [] = 0
  sum_hits (r ∷ rs) = hits_of r + sum_hits rs

  abbrev pub has_hits : A → Bool
  has_hits r = ltb 0 (hits_of r)

  abbrev pub totals : Stamp → List A → CacheStats
  totals at rs = record {
    rows = length rs;
    total_hits = sum_hits rs;
    rows_with_hits = count has_hits rs;
    expired = count (λ r. past at (expiry_of r)) rs;
    tiers = no_tiers;
  }

  unfoldable pub cache_stats : (Tables → List A) → M CacheStats
  unfolding sum_hits group_tiers record_tiers tiers_of
  cache_stats rows_of = do
    at ← now_rfc3339
    stats ← query (λ t. totals at (rows_of t))
    groups ← query (λ t. group_tiers (tiers_of (rows_of t)))
    pure (record stats { tiers = record_tiers stats.tiers groups })

unfoldable pub search_cache_stats : M CacheStats
unfolding cache_stats
search_cache_stats =
    cache_stats (λ (r : SearchCacheRow). r.tier) (λ r. r.hit_count) (λ r. r.expires_at)
      (λ t. t.search_cache)

unfoldable pub scrape_cache_stats : M CacheStats
unfolding cache_stats
scrape_cache_stats =
    cache_stats (λ (r : ScrapeRow). r.tier) (λ r. r.hit_count) (λ r. r.expires_at)
      (λ t. t.scrape_cache)
