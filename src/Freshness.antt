-- ===== src/Freshness.antt =====
-- searchcache.go, `freshEnough`, and gate.go, `volatilityMaxAge`: whether a row may still be served.
pub mod Window
use go_web_search.Prelude.{
  ℕ, suc, ◌+◌, ◌*◌, ◌<◌, ◌≤◌, ◌≡◌, ◌⊎◌, Bool, true, false, not, ◌&&◌, ◌||◌, if◌then◌else◌, ltb, ℤ,
  pos, negsuc, arith, Option, none, some,
}
use go_web_search.Clock.{Time, Duration, Stamp, second, TimeText, empty, stamp, malformed, parse}
use go_web_search.Strings.{Text, runes, text_eq, to_lower, trim_space}
use go_web_search.Store.{Result, ok, err, World, M, ◌>>=◌, pure, now}

-- now.After(exp), where the text parses.
unfoldable pub is_expired : Time → TimeText → Bool
is_expired t empty = false
is_expired t (stamp s) = ltb (parse s) t
is_expired t malformed = false

-- now.Sub(f) > maxAge, for a positive maxAge and a text that parses.
unfoldable pub is_too_old : Time → TimeText → Duration → Bool
is_too_old t fetched (negsuc n) = false
is_too_old t empty (pos n) = false
is_too_old t malformed (pos n) = false
is_too_old t (stamp s) (pos n) = ltb 0 n && ltb (parse s + n) t

unfoldable pub fresh_at : Time → TimeText → TimeText → Duration → Bool
unfolding is_expired is_too_old
fresh_at t expires fetched max_age =
    not (is_expired t expires) && not (is_too_old t fetched max_age)

unfoldable pub fresh_enough : TimeText → TimeText → Duration → M Bool
unfolding now fresh_at
fresh_enough expires fetched max_age = do t ← now; pure (fresh_at t expires fetched max_age)

abbrev pub day : ℕ
day = 24 * 60 * 60 * second

unfoldable pub volatility_max_age : Text → Duration
unfolding to_lower trim_space
volatility_max_age v =
    let label = to_lower (trim_space v) in
    if text_eq label (runes "time-sensitive")
      || text_eq label (runes "volatile")
      || text_eq label (runes "time_sensitive")
    then pos day
    else pos 0

-- A nullable timestamp column as `NullString.String`.
abbrev pub time_text : Option Stamp → TimeText
time_text none = empty
time_text (some s) = stamp s
