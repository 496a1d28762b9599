-- ===== src/Clock/Order.antt =====
-- How the text order of formatted timestamps stands to the order of the instants.
use native.Mathlib.Nat.{div-add-mod, pow-suc}
use go_web_search.Prelude.{
  ℕ, zero, suc, ◌+◌, ◌*◌, ◌/◌, ◌%◌, ◌^◌, ◌≤◌, ◌<◌, ◌≡◌, true, List, [], ◌∷◌, ◌++◌, arith,
}
use go_web_search.Clock.{Time, second, format, text_lt, fraction, read_fraction, parse}

-- The text order is the order of the instants, up to less than a second, both ways.
pub text_lt_bounds :
    (a b : Time)
    → (a + second ≤ b → text_lt (format a) (format b) ≡ true)
      × (text_lt (format a) (format b) ≡ true → a < b + second)
unfolding text_lt format
text_lt_bounds a b = (λ h. ground arith, λ h. ground arith)

-- A later instant of one second may sort before the whole second.
pub whole_second_sorts_last :
    (s n : ℕ) → 0 < n → n < second → text_lt (format (s * second + n)) (format (s * second)) ≡ true
unfolding text_lt format
whole_second_sorts_last s n h k = ground arith

pow_pos : (k : ℕ) → 0 < 10 ^ k
pow_pos zero = omega arith
pow_pos (suc k) = omega (arith, pow-suc 10 k, pow_pos k)

digit_split : (p n : ℕ) → 0 < p → n < p * 10 → (n % p < p) × (n / p < 10) × (n / p * p + n % p ≡ n)
digit_split p n h k = (omega arith, grind (arith, div-add-mod n p), grind (arith, div-add-mod n p))

read_fraction-fraction :
    (k n : ℕ) (rest : List ℕ) → n < 10 ^ k → read_fraction k (fraction k n ++ b'Z' ∷ rest) ≡ n
unfolding read_fraction fraction
read_fraction-fraction zero n rest h = omega arith
read_fraction-fraction (suc k) n rest h =
    let facts = digit_split (10 ^ k) n (pow_pos k) (rw pow-suc at h) in
    ground (arith, facts, read_fraction-fraction k (n % 10 ^ k) rest facts.0)

-- Parsing a formatted instant gives it back.
pub parse-format : (t : Time) → parse (format t) ≡ t
unfolding parse format
parse-format t = ground (arith, read_fraction-fraction 9 (t % second) [])
