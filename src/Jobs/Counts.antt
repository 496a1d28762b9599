-- ===== src/Jobs/Counts.antt =====
-- JobStatusCounts: the grouped counts.
use go_web_search.Prelude.{◌+◌, ◌≡◌, refl, List, [], ◌∷◌, length, arith}
use go_web_search.Rows.{Status, pending, running, done, failed, JobRow}
use go_web_search.Sql.{count}
use go_web_search.Store.{ok, World}
use go_web_search.Store.Laws.{query_calm}
use go_web_search.Jobs.{
  status_eq, Counts, group_counts, record_counts, job_statuses, job_status_counts,
}

abbrev counted : List JobRow → Counts
counted rows = record_counts (λ _. 0) (group_counts rows job_statuses)

counted_lem :
    (rows : List JobRow) (s : Status) → counted rows s ≡ count (λ r. status_eq r.status s) rows
unfolding group_counts record_counts
counted_lem rows pending = ground arith
counted_lem rows running = ground arith
counted_lem rows done = ground arith
counted_lem rows failed = ground arith

partition :
    (rows : List JobRow)
    → count (λ r. status_eq r.status pending) rows
        + count (λ r. status_eq r.status running) rows
        + count (λ r. status_eq r.status done) rows
        + count (λ r. status_eq r.status failed) rows
      ≡ length rows
unfolding count
partition [] = omega arith
partition (r ∷ rows) = ground (arith, partition rows)

-- Without a fault of the driver the counts are those of the rows in each status, zero for a status
-- that no row has, and they add up to the size of the queue.
pub job_status_counts_lem :
    (w : World)
    → w.faults ≡ []
    → (counts : Counts) × ((job_status_counts w).0 ≡ ok counts)
      × ((s : Status) → counts s ≡ count (λ r. status_eq r.status s) w.tables.jobs)
      × (counts pending + counts running + counts done + counts failed ≡ length w.tables.jobs)
unfolding job_status_counts
job_status_counts_lem w calm = (
  counted w.tables.jobs,
  rw (query_calm (λ t. counted t.jobs) w calm) refl,
  counted_lem w.tables.jobs,
  omega (
    arith,
    partition w.tables.jobs,
    counted_lem w.tables.jobs pending,
    counted_lem w.tables.jobs running,
    counted_lem w.tables.jobs done,
    counted_lem w.tables.jobs failed,
  ),
)
