-- ===== src/Jobs/Pool.antt =====
-- jobs.go, `Start`: the goroutines of the runner as steps on the store and on the jobs that the
-- poller has claimed and the workers have not yet settled. Any goroutine may move next; the process
-- may die and start again at any point, which forgets the claimed jobs.
pub mod Bounded
use go_web_search.Prelude.{List, [], ◌∷◌, ◌++◌, In, ◌≡◌}
use go_web_search.Store.{World}
use go_web_search.Jobs.{Job}
use go_web_search.Jobs.Runner.{JobRunner, RecurringJob, poll_tick, reap_tick, recur_tick, run}

pub record Pool : Type 0 where
  pub world : World
  pub claimed : List Job

pub data Step (r : JobRunner) (s : Pool) : Pool → Type 0 where
  -- the poller's ticker fires
  poll :
      Step r s
        (record { world = (poll_tick r s.world).1; claimed = s.claimed ++ (poll_tick r s.world).0 })
  -- a worker receives a claimed job and runs it
  work :
      (front back : List Job) (j : Job)
      → s.claimed ≡ front ++ j ∷ back
      → Step r s (record { world = run r j s.world; claimed = front ++ back })
  -- the reaper's ticker fires
  reap : Step r s (record s { world = reap_tick r s.world })
  -- the ticker of a recurring schedule fires
  recur :
      (rec : RecurringJob)
      → In rec r.recurring
      → Step r s (record s { world = recur_tick rec s.world })
  -- the process dies; the next `Start` runs the reaper once before anything else
  restart : Step r s (record { world = reap_tick r s.world; claimed = [] })

pub data Reach (r : JobRunner) (s : Pool) : Pool → Type 0 where
  here : Reach r s s
  next : {t u : Pool} → Reach r s t → Step r t u → Reach r s u
