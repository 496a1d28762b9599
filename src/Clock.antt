-- ===== src/Clock.antt =====
-- Time as the store keeps it: `time.Now().UTC()`, `Format(time.RFC3339Nano)`, `time.Parse` and the
-- text comparison that SQLite makes on the formatted columns (store.go, jobstore.go, tier.go,
-- cleanup.go, searchcache.go).
--
-- An instant is a number of nanoseconds since the start of year 0, and a duration an integer of
-- nanoseconds. RFC3339Nano writes nineteen fixed-width characters for the second, then the
-- fraction with its trailing zeros removed (and no dot when nothing is left), then `Z`. In years
-- 0 to 9999 the fixed-width part is ordered as the number of seconds, so a stamp keeps that number
-- and the characters behind it.
pub mod Order
use go_web_search.Prelude.{
  ℕ, zero, suc, ◌+◌, ◌-◌, ◌*◌, ◌/◌, ◌%◌, ◌^◌, Bool, true, false, not, ◌&&◌, ◌||◌, List, [], ◌∷◌,
  ◌++◌, ltb, leb, ◌==◌, if◌then◌else◌, ℤ, pos, negsuc,
}

abbrev pub Time : Type 0
Time = ℕ

abbrev pub Duration : Type 0
Duration = ℤ

abbrev pub second : ℕ
second = 1000000000

-- t.Add(d), for instants that stay after the start of year 0.
abbrev pub add : Time → Duration → Time
add t (pos d) = t + d
add t (negsuc d) = t - suc d

-- t.Add(-d)
abbrev pub add_neg : Time → Duration → Time
add_neg t (pos d) = t - d
add_neg t (negsuc d) = t + suc d

-- A formatted timestamp: the second, and the text behind the fixed-width part.
pub record Stamp : Type 0 where
  pub secs : ℕ
  pub tail : List ℕ

-- The nine decimal digits of a fraction, most significant first, with trailing zeros removed:
-- `digits_left` counts the digits still to write.
pub fraction : ℕ → ℕ → List ℕ
fraction zero n = []
fraction (suc k) n =
    let rest = fraction k (n % 10 ^ k) in if n == 0 then [] else (b'0' + n / 10 ^ k) ∷ rest

-- Format(time.RFC3339Nano) of a UTC instant.
unfoldable pub format : Time → Stamp
unfolding fraction
format t =
    let n = t % second in
    record {
      secs = t / second;
      tail = if n == 0 then b'Z' ∷ [] else b'.' ∷ (fraction 9 n ++ b'Z' ∷ []);
    }

-- The number that at most `digits_left` leading digits of a text stand for, as a fraction.
pub read_fraction : ℕ → List ℕ → ℕ
read_fraction zero ds = 0
read_fraction (suc k) [] = 0
read_fraction (suc k) (d ∷ ds) =
    let rest = read_fraction k ds in
    if leb b'0' d && leb d b'9' then (d - b'0') * 10 ^ k + rest else 0

pub nanos : List ℕ → ℕ
unfolding read_fraction
nanos [] = 0
nanos (c ∷ ds) = if c == b'.' then read_fraction 9 ds else 0

-- time.Parse(time.RFC3339Nano, ...) of a formatted instant.
unfoldable pub parse : Stamp → Time
unfolding nanos
parse s = s.secs * second + nanos s.tail

-- A nullable or free text column that the code parses as a timestamp: `""` (from NULL), a
-- formatted instant, or a text on which time.Parse fails.
pub data TimeText : Type 0 where
  empty : TimeText
  stamp : Stamp → TimeText
  malformed : TimeText

-- The order of two texts, byte by byte.
unfoldable pub bytes_lt : List ℕ → List ℕ → Bool
bytes_lt xs [] = false
bytes_lt [] (y ∷ ys) = true
bytes_lt (x ∷ xs) (y ∷ ys) = ltb x y || (x == y && bytes_lt xs ys)

-- The order of two formatted timestamps as texts, which is how SQLite compares the columns.
unfoldable pub text_lt : Stamp → Stamp → Bool
unfolding bytes_lt
text_lt a b = ltb a.secs b.secs || (a.secs == b.secs && bytes_lt a.tail b.tail)

unfoldable pub text_le : Stamp → Stamp → Bool
unfolding text_lt
text_le a b = not (text_lt b a)
