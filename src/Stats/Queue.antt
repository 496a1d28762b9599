-- ===== src/Stats/Queue.antt =====
-- stats.go, `jobStats`: what the queue holds, and how long finished work took.
use go_web_search.Prelude.{
  ℕ, zero, suc, ◌+◌, ◌-◌, ◌/◌, ◌≤◌, List, [], ◌∷◌, Option, none, some, if◌then◌else◌, ltb, ℤ, pos,
  negsuc, take, length, arith,
}
use go_web_search.Clock.{Time, Stamp, parse, text_lt}
use go_web_search.Rows.{JobType, JobRow, pending, done}
use go_web_search.Sql.{count, select, order_by}
use go_web_search.Store.{M, ◌>>=◌, pure, query}
use go_web_search.Jobs.{Counts, status_eq, job_type_eq, job_status_counts}
use go_web_search.Api.{two_63, wrap_pos, neg}

-- `oldest_pending_at` is none where the code has "". The keys of `by_type` are distinct.
pub record JobStats : Type 0 where
  pub by_status : Counts
  pub by_type : List (JobType × ℕ)
  pub retried : ℕ
  pub max_attempts : ℕ
  pub oldest_pending_at : Option Stamp
  pub completed_sampled : ℕ
  pub avg_completion_ms : ℤ

-- `type, COUNT(*) ... GROUP BY type`, in an order that SQL leaves open.
unfoldable pub count_type : JobType → List (JobType × ℕ) → List (JobType × ℕ)
count_type j [] = (j, 1) ∷ []
count_type j ((k, n) ∷ gs) =
    let rest = count_type j gs in if job_type_eq j k then (k, suc n) ∷ gs else (k, n) ∷ rest

unfoldable pub group_types : List JobRow → List (JobType × ℕ)
unfolding count_type
group_types [] = []
group_types (r ∷ rs) = count_type r.job_type (group_types rs)

-- MAX(attempts), 0 for no rows.
unfoldable pub most_attempts : List JobRow → ℕ
most_attempts [] = 0
most_attempts (r ∷ rs) = let n = most_attempts rs in if ltb n r.attempts then r.attempts else n

abbrev pub tries : List JobRow → ℕ × ℕ
tries rs = (count (λ r. ltb 1 r.attempts) rs, most_attempts rs)

-- MIN(created_at), NULL for no rows.
abbrev pub earlier : Stamp → Option Stamp → Option Stamp
earlier at none = some at
earlier at (some b) = if text_lt b at then some b else some at

unfoldable pub first_created : List JobRow → Option Stamp
first_created [] = none
first_created (r ∷ rs) = earlier r.created_at (first_created rs)

-- end.Sub(start) for an end that is not before the start: it stops at the largest int64.
abbrev pub sub_time : Time → Time → ℕ
sub_time end start = let d = end - start in if ltb d two_63 then d else two_63 - 1

-- The finished jobs that count, and the sum of their times before it wraps around. A stored
-- timestamp parses.
unfoldable pub timings : List JobRow → ℕ × ℕ
timings [] = (0, 0)
timings (r ∷ rs) =
    let (n, total) = timings rs in
    let start = parse r.created_at in
    let end = parse r.updated_at in
    if ltb end start then (n, total) else (suc n, total + sub_time end start)

-- Go's division of an int64 by a positive number.
abbrev pub quotient : ℤ → ℕ → ℤ
quotient (pos n) d = pos (n / d)
quotient (negsuc n) d = neg (suc n / d)

-- total.Milliseconds() / int64(n)
unfoldable pub average_ms : ℕ × ℕ → ℤ
average_ms (zero, total) = pos 0
average_ms (suc n, total) = quotient (quotient (wrap_pos total) 1000000) (suc n)

unfoldable pub sample_rows : ℕ → List JobRow → List JobRow
sample_rows sample rs =
    take sample (
      order_by (λ a b. text_lt b.updated_at a.updated_at)
        (select (λ r. status_eq r.status done) rs))

-- No timings for a sample of zero or less.
unfoldable pub with_timings : ℤ → JobStats → M JobStats
unfolding sample_rows timings average_ms
with_timings (pos zero) stats = pure stats
with_timings (negsuc n) stats = pure stats
with_timings (pos (suc n)) stats = do
  sampled ← query (λ t. timings (sample_rows (suc n) t.jobs))
  pure (record stats { completed_sampled = sampled.0; avg_completion_ms = average_ms sampled })

unfoldable pub job_stats : ℤ → M JobStats
unfolding with_timings job_status_counts group_types most_attempts first_created
job_stats sample = do
  by_status ← job_status_counts
  by_type ← query (λ t. group_types t.jobs)
  again ← query (λ t. tries t.jobs)
  oldest ← query (λ t. first_created (select (λ r. status_eq r.status pending) t.jobs))
  with_timings sample (record {
    by_status = by_status;
    by_type = by_type;
    retried = again.0;
    max_attempts = again.1;
    oldest_pending_at = oldest;
    completed_sampled = 0;
    avg_completion_ms = pos 0;
  })

take_at_most : (n : ℕ) (rs : List JobRow) → length (take n rs) ≤ n
take_at_most zero [] = ground arith
take_at_most zero (r ∷ rs) = ground arith
take_at_most (suc n) [] = ground arith
take_at_most (suc n) (r ∷ rs) = ground (arith, take_at_most n rs)

timings_at_most : (rs : List JobRow) → (timings rs).0 ≤ length rs
unfolding timings
timings_at_most [] = ground arith
timings_at_most (r ∷ rs) = ground (arith, timings_at_most rs)

-- No more finished jobs are averaged than the sample asks for.
pub sample_bound : (n : ℕ) (rs : List JobRow) → (timings (sample_rows n rs)).0 ≤ n
unfolding sample_rows
sample_bound n rs =
    let finished =
      order_by (λ a b. text_lt b.updated_at a.updated_at)
        (select (λ r. status_eq r.status done) rs) in
    omega (arith, timings_at_most (take n finished), take_at_most n finished)
