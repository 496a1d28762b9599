-- ===== src/Jobs.antt =====
-- jobstore.go: the jobs table, as the queue that the worker pool claims from.
pub mod Claim
pub mod Held
pub mod Granted
pub mod Runner
pub mod Pool
pub mod Recover
pub mod Counts
pub mod Fate
pub mod Enqueue
use go_web_search.Prelude.{
  ℕ, zero, suc, ◌+◌, ◌≡◌, Bool, true, false, not, ◌&&◌, List, [], ◌∷◌, ◌++◌, map, Option, none,
  some, String, str_eq, if◌then◌else◌, ℤ, pos, negsuc, ◌==◌, take, drop,
}
use go_web_search.Clock.{Time, Duration, Stamp, add, add_neg, format, text_lt, text_le}
use go_web_search.Rows.{
  Status, pending, running, done, failed, JobType, embed_job, distill_job, reembed_job, cleanup_job,
  other_job, Payload, JobRow, Tables,
}
use go_web_search.Sql.{select, update, count, order_by}
use go_web_search.Store.{
  Result, ok, err, World, M, ◌>>=◌, ◌>>◌, pure, now, now_rfc3339, new_id, exec, query, clamp_page,
}

abbrev pub status_eq : Status → Status → Bool
status_eq pending pending = true
status_eq running running = true
status_eq done done = true
status_eq failed failed = true
status_eq _ _ = false

-- One unit of work as ClaimJobs scans it: `status` is the empty text until the claim.
pub record Job : Type 0 where
  pub id : String
  pub job_type : JobType
  pub payload : Payload
  pub status : Option Status
  pub attempts : ℕ

-- The statement on the jobs table alone.
abbrev pub on_jobs : (List JobRow → List JobRow) → Tables → Tables
on_jobs f t = record t { jobs = f t.jobs }

-- UPDATE jobs SET ... WHERE ..., with the number of rows that it affects.
unfoldable pub update_jobs : (JobRow → Bool) → (JobRow → JobRow) → M ℕ
update_jobs p f = exec (λ t. (on_jobs (update p f) t, count p t.jobs))

abbrev pub has_id : String → JobRow → Bool
has_id id r = str_eq r.id id

unfoldable pub fresh_job : String → JobType → Payload → Stamp → JobRow
fresh_job id job_type payload at = record {
  id = id;
  job_type = job_type;
  payload = payload;
  status = pending;
  attempts = 0;
  run_after = at;
  locked_at = none;
  created_at = at;
  updated_at = at;
}

unfoldable pub insert_job : JobRow → M ℕ
insert_job r = exec (λ t. (on_jobs (λ rows. rows ++ r ∷ []) t, 1))

unfoldable pub enqueue_job : JobType → Payload → M String
unfolding fresh_job
enqueue_job job_type payload = do
  id ← new_id
  at ← now_rfc3339
  insert_job (fresh_job id job_type payload at)
  pure id

-- The condition of the claim's SELECT.
unfoldable pub is_runnable : Stamp → JobRow → Bool
is_runnable at r = status_eq r.status pending && text_le r.run_after at

unfoldable pub scan_job : JobRow → Job
scan_job r = record {
  id = r.id;
  job_type = r.job_type;
  payload = r.payload;
  status = none;
  attempts = r.attempts;
}

-- The candidates: runnable rows in the order of `run_after`, at most `limit`.
unfoldable pub candidates : Stamp → ℕ → List JobRow → List Job
unfolding is_runnable scan_job
candidates at limit rows =
    map scan_job (
      take limit (order_by (λ a b. text_lt a.run_after b.run_after) (select (is_runnable at) rows)))

-- The guard of the claim's UPDATE.
abbrev pub is_claimable : String → JobRow → Bool
is_claimable id r = has_id id r && status_eq r.status pending

unfoldable pub lock : Stamp → JobRow → JobRow
lock at r = record r { status = running; locked_at = some at; updated_at = at }

-- The guarded UPDATE for one candidate: it won the row if exactly one was affected.
unfoldable pub claim_one : Stamp → String → M Bool
unfolding update_jobs lock
claim_one at id = do n ← update_jobs (is_claimable id) (lock at); pure (n == 1)

abbrev pub keep_won : Bool → Job → List Job → List Job
keep_won true j js = record j { status = some running } ∷ js
keep_won false j js = js

-- The loop over the candidates.
unfoldable pub claim_all : Stamp → List Job → M (List Job)
claim_all at [] = pure []
claim_all at (j ∷ js) = do
  won ← claim_one at j.id
  rest ← claim_all at js
  pure (keep_won won j rest)

abbrev pub claim_limit : ℤ → ℕ
claim_limit (pos zero) = 1
claim_limit (pos (suc n)) = suc n
claim_limit (negsuc n) = 1

unfoldable pub claim_jobs : ℤ → M (List Job)
unfolding now_rfc3339
claim_jobs limit = do
  at ← now_rfc3339
  jobs ← query (λ t. candidates at (claim_limit limit) t.jobs)
  claim_all at jobs

unfoldable pub complete : Stamp → JobRow → JobRow
complete at r = record r { status = done; locked_at = none; updated_at = at }

unfoldable pub complete_job : String → M ℕ
unfolding now_rfc3339 update_jobs complete
complete_job id = do at ← now_rfc3339; update_jobs (has_id id) (complete at)

unfoldable pub retry : Time → ℕ → Duration → JobRow → JobRow
retry t attempts backoff r = record r {
  status = pending;
  attempts = attempts;
  run_after = format (add t backoff);
  locked_at = none;
  updated_at = format t;
}

unfoldable pub retry_job : String → ℕ → Duration → M ℕ
unfolding now update_jobs retry
retry_job id attempts backoff = do t ← now; update_jobs (has_id id) (retry t attempts backoff)

unfoldable pub give_up : Stamp → JobRow → JobRow
give_up at r = record r { status = failed; locked_at = none; updated_at = at }

unfoldable pub fail_job : String → M ℕ
unfolding now_rfc3339 update_jobs give_up
fail_job id = do at ← now_rfc3339; update_jobs (has_id id) (give_up at)

-- `locked_at IS NOT NULL AND locked_at < ?`
abbrev pub before : Option Stamp → Stamp → Bool
before none cutoff = false
before (some at) cutoff = text_lt at cutoff

unfoldable pub is_stale : Stamp → JobRow → Bool
is_stale cutoff r = status_eq r.status running && before r.locked_at cutoff

unfoldable pub unlock : Stamp → JobRow → JobRow
unlock at r = record r { status = pending; locked_at = none; updated_at = at }

unfoldable pub reset_stale_jobs : Duration → M ℕ
unfolding now now_rfc3339 update_jobs is_stale unlock
reset_stale_jobs older_than = do
  t ← now
  at ← now_rfc3339
  update_jobs (is_stale (format (add_neg t older_than))) (unlock at)

-- The listing's filter on the status: none for the empty text, `some none` for a text that is no
-- status.
unfoldable pub status_matches : Option (Option Status) → JobRow → Bool
status_matches none r = true
status_matches (some none) r = false
status_matches (some (some s)) r = status_eq r.status s

abbrev pub job_type_eq : JobType → JobType → Bool
job_type_eq embed_job embed_job = true
job_type_eq distill_job distill_job = true
job_type_eq reembed_job reembed_job = true
job_type_eq cleanup_job cleanup_job = true
job_type_eq (other_job a) (other_job b) = str_eq a b
job_type_eq _ _ = false

unfoldable pub type_matches : Option JobType → JobRow → Bool
type_matches none r = true
type_matches (some t) r = job_type_eq r.job_type t

-- JobSummary has the row's columns.
unfoldable pub list_jobs :
    Option (Option Status) → Option JobType → ℤ → ℤ → World → Result (List JobRow) × World
unfolding clamp_page query status_matches type_matches
list_jobs status job_type limit offset =
    let (n, skip) = clamp_page limit offset in
    query λ t. take n (
      drop skip (
        order_by (λ a b. text_lt b.created_at a.created_at)
          (select (λ r. status_matches status r && type_matches job_type r) t.jobs)))

abbrev pub Counts : Type 0
Counts = Status → ℕ

-- One row of `SELECT status, COUNT(*) ... GROUP BY status`.
unfoldable pub group_counts : List JobRow → List Status → List (Status × ℕ)
group_counts rows [] = []
group_counts rows (s ∷ ss) =
    let n = count (λ r. status_eq r.status s) rows in
    let rest = group_counts rows ss in if n == 0 then rest else (s, n) ∷ rest

unfoldable pub record_counts : Counts → List (Status × ℕ) → Counts
record_counts counts [] = counts
record_counts counts ((s, n) ∷ rest) =
    record_counts (λ x. if status_eq x s then n else counts x) rest

abbrev pub job_statuses : List Status
job_statuses = pending ∷ running ∷ done ∷ failed ∷ []

unfoldable pub job_status_counts : World → Result Counts × World
unfolding query group_counts record_counts
job_status_counts = query (λ t. record_counts (λ _. 0) (group_counts t.jobs job_statuses))
