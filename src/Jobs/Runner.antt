-- ===== src/Jobs/Runner.antt =====
-- jobs.go: the worker pool's handling of a claimed job, the reaper, and the registration of handlers
-- and of recurring work. Log lines are not modelled; each goroutine's iteration is one function.
use go_web_search.Prelude.{
  ℕ, zero, suc, ◌*◌, List, [], ◌∷◌, ◌++◌, Option, none, some, leb, if◌then◌else◌, ℤ, pos, negsuc,
}
use go_web_search.Clock.{Duration, second}
use go_web_search.Rows.{JobType, Payload}
use go_web_search.Store.{Result, ok, err, World, M}
use go_web_search.Jobs.{
  Job, job_type_eq, claim_jobs, complete_job, retry_job, fail_job, reset_stale_jobs, enqueue_job,
}

abbrev pub Handler : Type 0
Handler = Payload → M (Unit {0})

pub record RecurringJob : Type 0 where
  pub job_type : JobType
  pub payload : Payload
  pub interval : Duration

pub record JobRunner : Type 0 where
  pub workers : ℤ
  pub poll : Duration
  pub max_attempts : ℕ
  pub stale_after : Duration
  pub handlers : List (JobType × Handler)
  pub recurring : List RecurringJob

-- `if d <= 0 { d = default }`
abbrev pub positive_or : ℕ → ℤ → ℤ
positive_or default (pos zero) = pos default
positive_or default (pos (suc n)) = pos (suc n)
positive_or default (negsuc n) = pos default

unfoldable pub new_job_runner : ℤ → Duration → Duration → JobRunner
new_job_runner workers poll stale_after = record {
  workers = positive_or 1 workers;
  poll = positive_or second poll;
  max_attempts = 5;
  stale_after = positive_or (30 * 60 * second) stale_after;
  handlers = [];
  recurring = [];
}

-- A map's assignment: the newest entry is found first.
unfoldable pub register : JobType → Handler → JobRunner → JobRunner
register t h r = record r { handlers = (t, h) ∷ r.handlers }

unfoldable pub register_recurring : JobType → Payload → Duration → JobRunner → JobRunner
register_recurring t p (pos zero) r = r
register_recurring t p (pos (suc n)) r = record r {
  recurring = r.recurring ++ record { job_type = t; payload = p; interval = pos (suc n) } ∷ [];
}
register_recurring t p (negsuc n) r = r

unfoldable pub find_handler : JobType → List (JobType × Handler) → Option Handler
find_handler t [] = none
find_handler t ((u, h) ∷ hs) = if job_type_eq u t then some h else find_handler t hs

-- What `run` does with the handler's result.
unfoldable pub settle : JobRunner → Job → Result (Unit {0}) × World → World
settle r j (ok _, w) = (complete_job j.id w).1
settle r j (err e, w) =
    let attempts = suc j.attempts in
    if leb r.max_attempts attempts
    then (fail_job j.id w).1
    else (retry_job j.id attempts (pos (attempts * attempts * second)) w).1

abbrev pub run_with : JobRunner → Job → Option Handler → World → World
run_with r j none w = (fail_job j.id w).1
run_with r j (some h) w = settle r j (h j.payload w)

unfoldable pub run : JobRunner → Job → World → World
unfolding find_handler settle
run r j = run_with r j (find_handler j.job_type r.handlers)

-- One tick of the poller: the jobs that it sends to the workers.
abbrev pub claimed_or_none : Result (List Job) × World → List Job × World
claimed_or_none (ok js, w) = (js, w)
claimed_or_none (err e, w) = ([], w)

unfoldable pub poll_tick : JobRunner → World → List Job × World
poll_tick r w = claimed_or_none (claim_jobs r.workers w)

-- One tick of the reaper, and the synchronous one of `Start`.
unfoldable pub reap_tick : JobRunner → World → World
reap_tick r w = (reset_stale_jobs r.stale_after w).1

-- One tick of a recurring schedule.
unfoldable pub recur_tick : RecurringJob → World → World
recur_tick rec w = (enqueue_job rec.job_type rec.payload w).1
