-- ===== src/Freshness/Window.antt =====
-- `freshEnough` on the timestamps that the store writes.
use go_web_search.Prelude.{ℕ, ◌+◌, ◌≤◌, ◌<◌, ◌≡◌, ◌↔◌, true, pos, negsuc, arith}
use go_web_search.Clock.{Time, stamp, format, empty, malformed}
use go_web_search.Clock.Order.{parse-format}
use go_web_search.Freshness.{fresh_at}

-- For written timestamps, a row is served exactly up to its expiry and, where a positive maximum age
-- is asked for, up to that age; a missing or malformed text sets no bound of its own, and a maximum
-- age that is zero or negative sets none either.
pub fresh_at_window :
    (t expires fetched : Time) (n : ℕ)
    → ((fresh_at t (stamp (format expires)) (stamp (format fetched)) (pos n) ≡ true)
        ↔ ((t ≤ expires) × (0 < n → t ≤ fetched + n)))
      × ((fresh_at t (stamp (format expires)) (stamp (format fetched)) (negsuc n) ≡ true)
          ↔ (t ≤ expires))
      × ((fresh_at t empty (stamp (format fetched)) (pos n) ≡ true) ↔ (0 < n → t ≤ fetched + n))
      × ((fresh_at t malformed (stamp (format fetched)) (pos n) ≡ true) ↔ (0 < n → t ≤ fetched + n))
      × ((fresh_at t (stamp (format expires)) empty (pos n) ≡ true) ↔ (t ≤ expires))
      × ((fresh_at t (stamp (format expires)) malformed (pos n) ≡ true) ↔ (t ≤ expires))
      × (fresh_at t empty empty (pos n) ≡ true)
      × (fresh_at t malformed malformed (pos n) ≡ true)
unfolding fresh_at
fresh_at_window t expires fetched n = (
  (
    λ h. ground (arith, parse-format expires, parse-format fetched),
    λ h. ground (arith, parse-format expires, parse-format fetched, h.0, h.1),
  ),
  (λ h. ground (arith, parse-format expires), λ h. ground (arith, parse-format expires)),
  (λ h. ground (arith, parse-format fetched), λ h. ground (arith, parse-format fetched, h)),
  (λ h. ground (arith, parse-format fetched), λ h. ground (arith, parse-format fetched, h)),
  (λ h. ground (arith, parse-format expires), λ h. ground (arith, parse-format expires)),
  (λ h. ground (arith, parse-format expires), λ h. ground (arith, parse-format expires)),
  ground arith,
  ground arith,
)
