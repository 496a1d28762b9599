-- ===== src/Tier.antt =====
-- tier.go: the durability tiers of cache and memory rows, with their sliding expiry.
pub mod Expiry
use go_web_search.Prelude.{
  ℕ, Bool, true, false, Option, none, some, str_eq, if◌then◌else◌, ℤ, pos, leb_ℤ,
}
use go_web_search.Rows.{Tier, short, long, permanent, other}
use go_web_search.Clock.{Time, Duration, Stamp, add, format}

abbrev pub tier_eq : Tier → Tier → Bool
tier_eq short short = true
tier_eq long long = true
tier_eq permanent permanent = true
tier_eq (other a) (other b) = str_eq a b
tier_eq _ _ = false

-- The part of config.go's `TierConfig` that the stores read.
pub record TierConfig : Type 0 where
  pub short_ttl : Duration
  pub long_ttl : Duration
  pub promote_after_hits : ℤ

-- none: permanent.
unfoldable pub tier_ttl : Tier → TierConfig → Option Duration
tier_ttl permanent c = none
tier_ttl long c = some c.long_ttl
tier_ttl _ c = some c.short_ttl

unfoldable pub promote : Tier → ℕ → TierConfig → Tier
promote short hits c = if leb_ℤ c.promote_after_hits (pos hits) then long else short
promote tier hits c = tier

unfoldable pub expires_after : Time → Option Duration → Option Time
expires_after now none = none
expires_after now (some ttl) = some (add now ttl)

-- The new tier, and the expiry unless the row is permanent.
unfoldable pub next_expiry : Time → Tier → ℕ → TierConfig → Tier × Option Time
unfolding promote tier_ttl expires_after
next_expiry now tier hits c =
    let new_tier = promote tier hits c in (new_tier, expires_after now (tier_ttl new_tier c))

unfoldable pub is_tier : Tier → Bool
is_tier (other v) = false
is_tier _ = true

unfoldable pub normalize_tier : Tier → Tier → Tier
unfolding is_tier
normalize_tier v default = if is_tier v then v else if is_tier default then default else short

-- The `expArg` that the statements are given: NULL for a permanent row.
unfoldable pub exp_arg : Option Time → Option Stamp
exp_arg none = none
exp_arg (some t) = some (format t)
