-- ===== src/Tier/Expiry.antt =====
-- How a row's tier and expiry evolve under hits.
use go_web_search.Prelude.{ℕ, ◌≤◌, ◌≡◌, true, none, some, arith, pos, ◌≤ℤ◌, ◌≢◌}
use go_web_search.Rows.{Tier, short, long, permanent}
use go_web_search.Clock.{Time, add}
use go_web_search.Tier.{TierConfig, promote, next_expiry, normalize_tier, is_tier}

-- The rank of a tier by durability; an unknown tier counts as short.
abbrev pub rank : Tier → ℕ
rank permanent = 2
rank long = 1
rank _ = 0

-- A hit never lowers a row's durability, makes no row permanent that was not, and makes a short row
-- long exactly from the configured number of hits on.
promote_lem :
    (t : Tier) (hits : ℕ) (c : TierConfig)
    → (rank t ≤ rank (promote t hits c))
      × (promote t hits c ≡ permanent → t ≡ permanent)
      × (c.promote_after_hits ≤ℤ pos hits → promote short hits c ≡ long)
      × (promote short hits c ≡ long → c.promote_after_hits ≤ℤ pos hits)
unfolding promote
promote_lem short hits c = (ground arith, ground arith, ground arith, ground arith)
promote_lem t hits c = (ground arith, ground arith, ground arith, ground arith)

-- The row has no expiry exactly when its tier was permanent; otherwise the expiry is the clock
-- plus the lifetime of the tier that the row is promoted to.
pub next_expiry_window :
    (now : Time) (t : Tier) (hits : ℕ) (c : TierConfig)
    → ((next_expiry now t hits c).1 ≡ none → t ≡ permanent)
      × (t ≡ permanent → next_expiry now t hits c ≡ (permanent, none))
      × ((next_expiry now t hits c).0 ≡ long
          → (next_expiry now t hits c).1 ≡ some (add now c.long_ttl))
      × (rank (next_expiry now t hits c).0 ≡ 0
          → (next_expiry now t hits c).1 ≡ some (add now c.short_ttl))
unfolding next_expiry
next_expiry_window now short hits c = (ground arith, ground arith, ground arith, ground arith)
next_expiry_window now t hits c = (ground arith, ground arith, ground arith, ground arith)

-- Whatever the caller and the configuration say, the result is one of the three tiers, and a tier
-- that the caller names is kept, or else one that the configuration names.
normalize_tier_lem :
    (v default : Tier)
    → (is_tier (normalize_tier v default) ≡ true)
      × (is_tier v ≡ true → normalize_tier v default ≡ v)
      × (is_tier v ≢ true → is_tier default ≡ true → normalize_tier v default ≡ default)
unfolding normalize_tier
normalize_tier_lem v default = (ground arith, ground arith, ground arith)
